-- ===== src/Application/ContextLaws/Budget.antt =====
-- The selected context fits its token budget.
use cycle.Base.{
  ℤ, pos, ℕ, zero, suc, ◌≡◌, inl, inr, refl, false, Option, none, some, List, [], ◌∷◌, ◌++◌, take,
  ok, err, ◌>>=◌, >>=-eq-ok, choose, same_value, fail_if, int_lt, if◌then◌else◌, arith, not, int_le,
  int_max, sub64, str_eq, ◌||◌,
}
use cycle.Application.Errors.{ai_input_budget}
use cycle.Application.ContextSelector.{
  Service, TokenCounter, Snapshot, ContextCycle, Allocation, count_provider_input,
  truncate_current_input, attempt, apply, greatest, shrink, current_field_specs, clear_fields,
  allocate, used_by, hand_out, is_empty_specs, add_candidates, select_base, select_with, select_by,
  select_ai_context, maximum_of, hide_action, assert_same_goal_context,
}

-- The provider's input of a snapshot has at most `maximum` tokens.
pub Fits : Service → TokenCounter → ℤ → Snapshot → Type 0
Fits service counter maximum snapshot =
    (n : ℤ) × (count_provider_input service counter snapshot ≡ ok n) × (int_lt maximum n ≡ false)

module _ (service : Service) (counter : TokenCounter) (maximum : ℤ) where
  add_candidates-Fits :
      (candidates : List ContextCycle) (selected : Snapshot) {r : Snapshot}
      → Fits service counter maximum selected
      → add_candidates service counter maximum candidates selected ≡ ok r
      → Fits service counter maximum r
  unfolding add_candidates Fits
  add_candidates-Fits [] selected fits h = same_value (Fits service counter maximum) h fits
  add_candidates-Fits (candidate ∷ rest) selected fits h =
      let next = record selected { past_cycles = selected.past_cycles ++ (candidate ∷ []) } in
      let (n, p, h) = >>=-eq-ok (count_provider_input service counter next) _ h in
      elim (choose (int_lt maximum n) (ok selected)
        (add_candidates service counter maximum rest next) h) [
          | inl (q, h) ↦ same_value (Fits service counter maximum) h fits
          | inr (q, h) ↦ add_candidates-Fits rest next (n, p, q) h
        ]

  attempt-Fits :
      (left : ℕ) (allocations : List Allocation) (snapshot truncated : Snapshot) {r : Snapshot}
      → attempt service counter left maximum allocations snapshot truncated ≡ ok r
      → Fits service counter maximum r
  unfolding attempt Fits
  attempt-Fits zero allocations snapshot truncated h = cc
  attempt-Fits (suc left) allocations snapshot truncated h =
      let (n, p, h) = >>=-eq-ok (count_provider_input service counter truncated) _ h in
      let largest = greatest allocations (pos 0) in
      let next = shrink allocations largest (int_max (pos 1) (sub64 n maximum)) in
      let retried = apply service counter next snapshot truncated >>= λ applied.
      attempt service counter left maximum next snapshot applied in
      elim (choose (not (int_lt maximum n)) (ok truncated)
        (if int_le largest (pos 0) then err ai_input_budget else retried) h) [
          | inl (q, h) ↦ same_value (Fits service counter maximum) h (n, p, ground arith)
          | inr (q, h) ↦ elim (choose (int_le largest (pos 0)) (err ai_input_budget) retried h) [
            | inl (z, h) ↦ cc
            | inr (z, h) ↦
                let (applied, q, h) =
                  >>=-eq-ok (apply service counter next snapshot truncated)
                    (λ applied. attempt service counter left maximum next snapshot applied) h in
                attempt-Fits left next snapshot applied h
          ]
        ]

  truncate_current_input-Fits :
      (snapshot : Snapshot) {r : Snapshot}
      → truncate_current_input service counter snapshot maximum ≡ ok r
      → Fits service counter maximum r
  unfolding truncate_current_input
  truncate_current_input-Fits snapshot h =
      let specs = current_field_specs snapshot.operation in
      let (u, a, h) = >>=-eq-ok (fail_if (is_empty_specs specs) ai_input_budget) _ h in
      let (empty, b, h) =
        >>=-eq-ok (clear_fields specs (record snapshot { past_cycles = [] })) _ h in
      let (fixed, c, h) = >>=-eq-ok (count_provider_input service counter empty) _ h in
      let available = sub64 maximum fixed in
      let (u', d, h) = >>=-eq-ok (fail_if (int_le available (pos 0)) ai_input_budget) _ h in
      let (allocations, e, h) = >>=-eq-ok (allocate service counter specs snapshot available) _ h in
      let shared = hand_out allocations (sub64 available (used_by allocations (pos 0))) in
      let (truncated, f, h) =
        >>=-eq-ok (apply service counter shared snapshot (record snapshot { past_cycles = [] })) _
          h in
      attempt-Fits 16 shared snapshot truncated h

  select_base-Fits :
      (snapshot : Snapshot) {r : Snapshot}
      → select_base service counter maximum snapshot ≡ ok r
      → Fits service counter maximum r
  unfolding select_base Fits
  select_base-Fits snapshot h =
      let (n, p, h) = >>=-eq-ok (count_provider_input service counter snapshot) _ h in
      elim (choose (int_lt maximum n) (truncate_current_input service counter snapshot maximum)
        (ok snapshot) h) [
          | inl (q, h) ↦ truncate_current_input-Fits snapshot h
          | inr (q, h) ↦ same_value (Fits service counter maximum) h (n, p, q)
        ]

  select_with-Fits :
      (snapshot : Snapshot) {r : Snapshot}
      → select_with service counter snapshot maximum ≡ ok r
      → Fits service counter maximum r
  unfolding select_with
  select_with-Fits snapshot h =
      let (u, a, h) =
        >>=-eq-ok (fail_if (int_le maximum (pos 0) || str_eq service.model "") ai_input_budget) _
          h in
      let (u', b, h) = >>=-eq-ok (assert_same_goal_context snapshot) _ h in
      let base = record snapshot {
        past_cycles = [];
        current_cycle = hide_action snapshot.operation snapshot.current_cycle;
      } in
      let (selected, c, h) = >>=-eq-ok (select_base service counter maximum base) _ h in
      add_candidates-Fits (take (maximum_of service.max_context_cycles) snapshot.past_cycles)
        selected (select_base-Fits base c) h

selected_by :
    (service : Service) (o : Option TokenCounter) (snapshot : Snapshot) (maximum : ℤ) {r : Snapshot}
    → service.token_counter ≡ o
    → select_by service o snapshot maximum ≡ ok r
    → (counter : TokenCounter) × (service.token_counter ≡ some counter)
      × (select_with service counter snapshot maximum ≡ ok r)
unfolding select_by
selected_by service none snapshot maximum e h = cc
selected_by service (some counter) snapshot maximum e h = (counter, e, h)

-- A selection that succeeded ran with the service's counter.
pub run-select_ai_context :
    (service : Service) (snapshot : Snapshot) (maximum : ℤ) {r : Snapshot}
    → select_ai_context service snapshot maximum ≡ ok r
    → (counter : TokenCounter) × (service.token_counter ≡ some counter)
      × (select_with service counter snapshot maximum ≡ ok r)
unfolding select_ai_context
run-select_ai_context service snapshot maximum h =
    selected_by service service.token_counter snapshot maximum refl h

-- A context that was selected has at most the number of tokens allowed, counted by the service's own
-- counter.
pub select_ai_context-Fits :
    (service : Service) (snapshot : Snapshot) (maximum : ℤ) {r : Snapshot}
    → select_ai_context service snapshot maximum ≡ ok r
    → (counter : TokenCounter) × (service.token_counter ≡ some counter)
      × Fits service counter maximum r
select_ai_context-Fits service snapshot maximum h =
    let (counter, e, h) = run-select_ai_context service snapshot maximum h in
    (counter, e, select_with-Fits service counter maximum snapshot h)
