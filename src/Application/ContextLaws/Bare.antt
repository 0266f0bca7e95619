-- ===== src/Application/ContextLaws/Bare.antt =====
-- Cutting the current input leaves the goal and selects no past cycle.
use cycle.Base.{
  ℤ, pos, ℕ, zero, suc, ◌≡◌, inl, inr, refl, false, List, [], ◌∷◌, Text, ok, err, ◌>>=◌, >>=-eq-ok,
  choose, same_value, fail_if, int_lt, int_le, int_max, sub64, not, if◌then◌else◌, arith,
}
use cycle.Application.Errors.{ai_input_budget}
use cycle.Application.ContextSelector.{
  Service, TokenCounter, Snapshot, Allocation, Field, count_provider_input, truncate_current_input,
  attempt, select_base, apply, apply_fields, greatest, shrink, current_field_specs, clear_fields,
  allocate, used_by, hand_out, is_empty_specs, context_field, set_context_field, truncation_marker,
}

-- No past cycles, and the goal of `s`.
pub record IsBare (s t : Snapshot) : Type 0 where
  pub no_cycles : t.past_cycles ≡ []
  pub goal : t.goal_id ≡ s.goal_id

set_context_field-IsBare :
    (s t u : Snapshot) (name : Field) (value : Text)
    → IsBare s t
    → set_context_field t name value ≡ ok u
    → IsBare s u
unfolding set_context_field
set_context_field-IsBare s t u Field.goal value b h = record {
  no_cycles = ground (arith, b.no_cycles);
  goal = ground (arith, b.goal);
}
set_context_field-IsBare s t u Field.source value b h = record {
  no_cycles = ground (arith, b.no_cycles);
  goal = ground (arith, b.goal);
}
set_context_field-IsBare s t u Field.plan value b h = record {
  no_cycles = ground (arith, b.no_cycles);
  goal = ground (arith, b.goal);
}
set_context_field-IsBare s t u Field.do_ value b h = record {
  no_cycles = ground (arith, b.no_cycles);
  goal = ground (arith, b.goal);
}
set_context_field-IsBare s t u Field.check value b h = record {
  no_cycles = ground (arith, b.no_cycles);
  goal = ground (arith, b.goal);
}
set_context_field-IsBare s t u Field.action value b h = record {
  no_cycles = ground (arith, b.no_cycles);
  goal = ground (arith, b.goal);
}

module _ (service : Service) (counter : TokenCounter) (maximum : ℤ) where
  apply_fields-IsBare :
      (allocations : List Allocation) (s snapshot t : Snapshot) {u : Snapshot}
      → IsBare s t
      → apply_fields service counter allocations snapshot t ≡ ok u
      → IsBare s u
  unfolding apply_fields
  apply_fields-IsBare [] s snapshot t b h = same_value (IsBare s) h b
  apply_fields-IsBare (a ∷ rest) s snapshot t b h =
      let (original, p, h) = >>=-eq-ok (context_field snapshot a.name) _ h in
      let (value, q, h) =
        >>=-eq-ok (counter.truncate service.model original a.tokens truncation_marker) _ h in
      let (written, w, h) = >>=-eq-ok (set_context_field t a.name value) _ h in
      let c = set_context_field-IsBare s t written a.name value b w in
      apply_fields-IsBare rest s snapshot _ (record { no_cycles = c.no_cycles; goal = c.goal }) h

  attempt-IsBare :
      (left : ℕ) (allocations : List Allocation) (s snapshot t : Snapshot) {r : Snapshot}
      → IsBare s t
      → attempt service counter left maximum allocations snapshot t ≡ ok r
      → IsBare s r
  unfolding attempt apply
  attempt-IsBare zero allocations s snapshot t b h = cc
  attempt-IsBare (suc left) allocations s snapshot t b h =
      let (n, p, h) = >>=-eq-ok (count_provider_input service counter t) _ h in
      let largest = greatest allocations (pos 0) in
      let next = shrink allocations largest (int_max (pos 1) (sub64 n maximum)) in
      let cleared : Snapshot = record t { current_truncated = false } in
      let retried = apply_fields service counter next snapshot cleared >>= λ applied.
      attempt service counter left maximum next snapshot applied in
      elim (choose (not (int_lt maximum n)) (ok t)
        (if int_le largest (pos 0) then err ai_input_budget else retried) h) [
          | inl (q, h) ↦ same_value (IsBare s) h b
          | inr (q, h) ↦ elim (choose (int_le largest (pos 0)) (err ai_input_budget) retried h) [
            | inl (z, h) ↦ cc
            | inr (z, h) ↦
                let (applied, q, h) =
                  >>=-eq-ok (apply_fields service counter next snapshot cleared)
                    (λ applied. attempt service counter left maximum next snapshot applied) h in
                attempt-IsBare left next s snapshot applied
                  (apply_fields-IsBare next s snapshot cleared
                    (record { no_cycles = b.no_cycles; goal = b.goal }) q)
                  h
          ]
        ]

  truncate_current_input-IsBare :
      (snapshot : Snapshot) {r : Snapshot}
      → truncate_current_input service counter snapshot maximum ≡ ok r
      → IsBare snapshot r
  unfolding truncate_current_input apply
  truncate_current_input-IsBare snapshot h =
      let specs = current_field_specs snapshot.operation in
      let (u, a, h) = >>=-eq-ok (fail_if (is_empty_specs specs) ai_input_budget) _ h in
      let (empty, b, h) =
        >>=-eq-ok (clear_fields specs (record snapshot { past_cycles = [] })) _ h in
      let (fixed, c, h) = >>=-eq-ok (count_provider_input service counter empty) _ h in
      let available = sub64 maximum fixed in
      let (u', d, h) = >>=-eq-ok (fail_if (int_le available (pos 0)) ai_input_budget) _ h in
      let (allocations, e, h) = >>=-eq-ok (allocate service counter specs snapshot available) _ h in
      let shared = hand_out allocations (sub64 available (used_by allocations (pos 0))) in
      let start : Snapshot = record snapshot { past_cycles = []; current_truncated = false } in
      let (truncated, f, h) = >>=-eq-ok (apply_fields service counter shared snapshot start) _ h in
      attempt-IsBare 16 shared snapshot snapshot truncated
        (apply_fields-IsBare shared snapshot snapshot start
          (record { no_cycles = refl; goal = refl }) f)
        h

  pub select_base-IsBare :
      (snapshot : Snapshot) {r : Snapshot}
      → snapshot.past_cycles ≡ []
      → select_base service counter maximum snapshot ≡ ok r
      → IsBare snapshot r
  unfolding select_base
  select_base-IsBare snapshot k h =
      let (n, p, h) = >>=-eq-ok (count_provider_input service counter snapshot) _ h in
      elim (choose (int_lt maximum n) (truncate_current_input service counter snapshot maximum)
        (ok snapshot) h) [
          | inl (q, h) ↦ truncate_current_input-IsBare snapshot h
          | inr (q, h) ↦ same_value (IsBare snapshot) h (record { no_cycles = k; goal = refl })
        ]
