-- ===== src/Application/ContextLaws/Prefix.antt =====
-- The selected past cycles are the most recent ones, as many as fit, all of the goal.
use cycle.Base.{
  ℤ, pos, ℕ, zero, suc, ◌≡◌, ◌≢◌, All, eq_iff, inl, inr, refl, ap, sym, ◌∙◌, true, false, some,
  List, [], ◌∷◌, ◌++◌, take, String, Result, ok, >>=-eq-ok, choose, same_value, fail_if, int_lt,
  int_le, str_eq, ◌||◌, arith,
}
use cycle.Application.Errors.{AppError, ai_input_budget}
use cycle.Application.ContextSelector.{
  Service, TokenCounter, Snapshot, ContextCycle, count_provider_input, add_candidates, select_base,
  select_with, select_ai_context, maximum_of, hide_action, assert_same_goal_context, any_foreign,
}
use cycle.Application.ContextLaws.Bare.{select_base-IsBare}
use cycle.Application.ContextLaws.Budget.{run-select_ai_context}

append_nil : {A : Type 0} (xs : List A) → xs ++ [] ≡ xs
append_nil [] = refl
append_nil (x ∷ xs) = ap (λ (ys : List _). x ∷ ys) (append_nil xs)

append_snoc :
    {A : Type 0} (xs : List A) (y : A) (zs : List A) → (xs ++ (y ∷ [])) ++ zs ≡ xs ++ (y ∷ zs)
append_snoc [] y zs = refl
append_snoc (x ∷ xs) y zs = ap (λ (ys : List _). x ∷ ys) (append_snoc xs y zs)

-- The next candidate, if there is one, does not fit.
pub IsFull : Service → TokenCounter → ℤ → List ContextCycle → Snapshot → Type 0
IsFull service counter maximum [] r = Unit
IsFull service counter maximum (c ∷ rest) r =
    (n : ℤ) × (count_provider_input service counter
        (record r { past_cycles = r.past_cycles ++ (c ∷ []) })
      ≡ ok n)
    × (int_lt maximum n ≡ true)

abbrev with_cycles : Snapshot → List ContextCycle → Snapshot
with_cycles s cycles = record s { past_cycles = cycles }

none_taken :
    (s : Snapshot) {r : Snapshot}
    → ◌≡◌ {A = Result AppError Snapshot} (ok s) (ok r)
    → r ≡ with_cycles s (s.past_cycles ++ [])
none_taken s h =
    same_value (λ (x : Snapshot). x ≡ with_cycles s (s.past_cycles ++ [])) h
      (ap (λ (xs : List ContextCycle). with_cycles s xs) (sym (append_nil s.past_cycles)))

module _ (service : Service) (counter : TokenCounter) (maximum : ℤ) where
  run-add_candidates :
      (candidates : List ContextCycle) (s : Snapshot) {r : Snapshot}
      → add_candidates service counter maximum candidates s ≡ ok r
      → (taken : List ContextCycle) × (rest : List ContextCycle) × (candidates ≡ taken ++ rest)
        × (r ≡ with_cycles s (s.past_cycles ++ taken))
        × IsFull service counter maximum rest r
  unfolding add_candidates IsFull
  run-add_candidates [] s {r} h = ([], [], refl, none_taken s h, tt)
  run-add_candidates (c ∷ candidates) s {r} h =
      let next = with_cycles s (s.past_cycles ++ (c ∷ [])) in
      let (n, p, h) = >>=-eq-ok (count_provider_input service counter next) _ h in
      elim (choose (int_lt maximum n) (ok s)
        (add_candidates service counter maximum candidates next) h) [
          | inl (q, h) ↦ (
            [],
            c ∷ candidates,
            refl,
            none_taken s h,
            same_value (IsFull service counter maximum (c ∷ candidates)) h (n, p, q),
          )
          | inr (q, h) ↦
              let (taken, rest, e, f, full) = run-add_candidates candidates next h in
              (
                c ∷ taken,
                rest,
                ap (λ (xs : List ContextCycle). c ∷ xs) e,
                f
                    ∙ ap (λ (xs : List ContextCycle). with_cycles s xs)
                        (append_snoc s.past_cycles c taken),
                full,
              )
        ]

any_foreign-take :
    (goal : String) (n : ℕ) (items : List ContextCycle)
    → any_foreign goal items ≡ false
    → any_foreign goal (take n items) ≡ false
unfolding any_foreign
any_foreign-take goal zero items h = refl
any_foreign-take goal (suc n) [] h = refl
any_foreign-take goal (suc n) (item ∷ items) h = ground (arith, any_foreign-take goal n items)

-- The cycles that passed belong to the goal, which is named.
none_foreign-own :
    (goal : String) (items : List ContextCycle)
    → any_foreign goal items ≡ false
    → All (λ (item : ContextCycle). (item.goal_id ≡ goal) × (goal ≢ "")) items
unfolding any_foreign
none_foreign-own goal [] h = tt
none_foreign-own goal (item ∷ items) h =
    let (named, own, rest) : (str_eq goal "" ≡ false)
        × (str_eq item.goal_id goal ≡ true)
        × (any_foreign goal items ≡ false) =
      (ground (arith, h), ground (arith, h), ground (arith, h)) in
    (
      ((eq_iff item.goal_id goal).0 own, λ e. ground (arith, named, (eq_iff goal "").1 e)),
      none_foreign-own goal items rest,
    )

any_foreign-append :
    (goal : String) (xs ys : List ContextCycle)
    → any_foreign goal (xs ++ ys) ≡ false
    → any_foreign goal xs ≡ false
unfolding any_foreign
any_foreign-append goal [] ys h = refl
any_foreign-append goal (x ∷ xs) ys h = ground (arith, any_foreign-append goal xs ys)

-- The selection `r` of a snapshot: the first candidates, as many as fit, and all of the snapshot's
-- goal.
pub record SelectedPrefix (service : Service) (counter : TokenCounter) (maximum : ℤ)
    (snapshot r : Snapshot) : Type 0 where
  pub rest : List ContextCycle
  pub candidates :
      take (maximum_of service.max_context_cycles) snapshot.past_cycles ≡ r.past_cycles ++ rest
  pub full : IsFull service counter maximum rest r
  pub goal : r.goal_id ≡ snapshot.goal_id
  pub own :
      All
        (λ (item : ContextCycle). (item.goal_id ≡ snapshot.goal_id) × (snapshot.goal_id ≢ ""))
        r.past_cycles

select_with-SelectedPrefix :
    (service : Service) (counter : TokenCounter) (maximum : ℤ) (snapshot : Snapshot) {r : Snapshot}
    → select_with service counter snapshot maximum ≡ ok r
    → SelectedPrefix service counter maximum snapshot r
unfolding select_with assert_same_goal_context
select_with-SelectedPrefix service counter maximum snapshot {r} h =
    let limit = maximum_of service.max_context_cycles in
    let (u, a, h) =
      >>=-eq-ok (fail_if (int_le maximum (pos 0) || str_eq service.model "") ai_input_budget) _ h in
    let (u', same, h) = >>=-eq-ok (assert_same_goal_context snapshot) _ h in
    let base : Snapshot = record snapshot {
      past_cycles = [];
      current_cycle = hide_action snapshot.operation snapshot.current_cycle;
    } in
    let (selected, b, h) = >>=-eq-ok (select_base service counter maximum base) _ h in
    let bare = select_base-IsBare service counter maximum base refl b in
    let (taken, rest, e, f, full) =
      run-add_candidates service counter maximum (take limit snapshot.past_cycles) selected h in
    let past : r.past_cycles ≡ taken =
      ap (λ (x : Snapshot). x.past_cycles) f
      ∙ ap (λ (xs : List ContextCycle). xs ++ taken) bare.no_cycles in
    let foreign : any_foreign snapshot.goal_id snapshot.past_cycles ≡ false = ground arith in
    let candidates : take limit snapshot.past_cycles ≡ r.past_cycles ++ rest =
      e ∙ ap (λ (xs : List ContextCycle). xs ++ rest) (sym past) in
    record {
      rest = rest;
      candidates = candidates;
      full = full;
      goal = ap (λ (x : Snapshot). x.goal_id) f ∙ bare.goal;
      own = none_foreign-own snapshot.goal_id r.past_cycles (
          any_foreign-append snapshot.goal_id r.past_cycles rest (
            ap (any_foreign snapshot.goal_id) (sym candidates)
            ∙ any_foreign-take snapshot.goal_id limit snapshot.past_cycles foreign));
    }

-- The past cycles of a context that was selected are the first of the candidates, and all have the
-- goal identifier of the snapshot, which is not empty; the next candidate, if there is one, does not
-- fit the budget.
pub select_ai_context-SelectedPrefix :
    (service : Service) (snapshot : Snapshot) (maximum : ℤ) {r : Snapshot}
    → select_ai_context service snapshot maximum ≡ ok r
    → (counter : TokenCounter) × (service.token_counter ≡ some counter)
      × SelectedPrefix service counter maximum snapshot r
select_ai_context-SelectedPrefix service snapshot maximum h =
    let (counter, e, h) = run-select_ai_context service snapshot maximum h in
    (counter, e, select_with-SelectedPrefix service counter maximum snapshot h)
