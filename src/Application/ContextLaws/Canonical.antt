-- ===== src/Application/ContextLaws/Canonical.antt =====
-- The canonical hash of what is sent to the provider.
use cycle.Base.{
  pos, ◌≡◌, false, Text, String, str_eq, eq_iff, Result, ok, >>=-eq-ok, same_value, fail_if, int_le,
  arith,
}
use cycle.Application.Errors.{AppError, ai_input_budget}
use cycle.Application.ContextSelector.{
  Service, Snapshot, provider_logical_input_json, ai_operation_settings, Entitlements,
  canonical_provider_input_hash, set_canonical_provider_input_hash,
  verify_canonical_provider_input_hash, select_ai_context, select_ai_context_for_user,
  output_tokens,
}

module _ (service : Service) (digests : (t : Text) → str_eq (service.digest t) "" ≡ false) where
  hash-not_empty :
      (s : Snapshot) (h : String)
      → canonical_provider_input_hash service s ≡ ok h
      → str_eq h "" ≡ false
  unfolding canonical_provider_input_hash
  hash-not_empty s h p =
      let (selected, a, p) = >>=-eq-ok (provider_logical_input_json service s) _ p in
      let (settings, b, p) = >>=-eq-ok (ai_operation_settings service s.operation) _ p in
      let (canonical, c, p) = >>=-eq-ok (service.marshal_canonical _) _ p in
      ground (arith, digests canonical)

  set-verify :
      (s : Snapshot) {r : Snapshot}
      → set_canonical_provider_input_hash service s ≡ ok r
      → verify_canonical_provider_input_hash service r ≡ ok tt
  unfolding set_canonical_provider_input_hash verify_canonical_provider_input_hash
      canonical_provider_input_hash
  set-verify s h =
      let (hash, p, h) = >>=-eq-ok (canonical_provider_input_hash service s) _ h in
      same_value (λ (x : Snapshot). verify_canonical_provider_input_hash service x ≡ ok tt) h
        (ground (arith, hash-not_empty s hash p, p, eq_iff hash hash))

  -- A context that was selected for a user passes the verification of its canonical hash, if no
  -- digest is the empty string.
  pub select_ai_context_for_user-verify :
      (limits : Result AppError Entitlements) (snapshot : Snapshot) {r : Snapshot}
      → select_ai_context_for_user service limits snapshot ≡ ok r
      → verify_canonical_provider_input_hash service r ≡ ok tt
  unfolding select_ai_context_for_user
  select_ai_context_for_user-verify limits snapshot h =
      let (l, a, h) = >>=-eq-ok limits _ h in
      let (tokens, b, h) = >>=-eq-ok (output_tokens service snapshot.operation l) _ h in
      let (u, c, h) = >>=-eq-ok (fail_if (int_le tokens (pos 0)) ai_input_budget) _ h in
      let (selected, d, h) =
        >>=-eq-ok
          (select_ai_context service (record snapshot { max_output_tokens = tokens })
            l.max_ai_input_tokens)
          _ h in
      set-verify selected h
