-- ===== src/Application/GoalDeletionLaws/Usages.antt =====
-- The usages of a deleted goal: which are redacted, and which are deleted.
use cycle.Base.{
  ◌≡◌, ◌≢◌, refl, sym, subst, ◌⊎◌, inl, inr, ◌+◌, ◌<◌, ◌≤◌, Bool-cases, true, false, none, List, [],
  ◌∷◌, length, All, All-map, All-zip, String, ok, arith, eq_iff, Option-cases, Result, same_value,
}
use mathlib.Core.List.{Memᴰ}
use cycle.Domain.Cycle.{Time, is_set}
use cycle.Application.Errors.{AppError}
use cycle.Application.GoalTx.{GoalDeleteUsage}
use cycle.Application.ReviewChecks.{is_known}
use cycle.Application.GoalDeletion.{
  is_redacted, split_usages, require_distinct, partition_goal_delete_usages,
}

-- A usage of the list has this identifier, and its quota is retained or it is not final.
abbrev pub IsKept : Time → List GoalDeleteUsage → String → Type 0
IsKept now usages id =
    (u : GoalDeleteUsage) × Memᴰ u usages
    × (u.operation_id ≡ id)
    × ((now < u.quota_retain_until) ⊎ (u.provider_usage_finalized_at ≡ none))

-- A usage of the list has this identifier, its quota is not retained, and it is final.
abbrev pub IsDropped : Time → List GoalDeleteUsage → String → Type 0
IsDropped now usages id =
    (u : GoalDeleteUsage) × Memᴰ u usages
    × (u.operation_id ≡ id)
    × (u.quota_retain_until ≤ now)
    × (is_set u.provider_usage_finalized_at ≡ true)

-- Every usage of the list is in one of the two parts.
abbrev pub IsPlaced : List GoalDeleteUsage → List String × List String → Type 0
IsPlaced usages parts =
    All (λ (u : GoalDeleteUsage). Memᴰ u.operation_id parts.0 ⊎ Memᴰ u.operation_id parts.1) usages

pub record IsSplit (usages : List GoalDeleteUsage) (now : Time) (parts : List String × List String)
    : Type 0 where
  pub redacted : All (IsKept now usages) parts.0
  pub deleted : All (IsDropped now usages) parts.1
  pub each : IsPlaced usages parts
  pub whole : length parts.0 + length parts.1 ≡ length usages
  pub apart : All (λ (id : String). All (λ (id' : String). id ≢ id') parts.1) parts.0

kept-cases :
    (now : Time) (u : GoalDeleteUsage)
    → is_redacted now u ≡ true
    → (now < u.quota_retain_until) ⊎ (u.provider_usage_finalized_at ≡ none)
unfolding is_redacted
kept-cases now u h = elim (Option-cases u.provider_usage_finalized_at) [
  | inl e ↦ inr e
  | inr (t, e) ↦ inl (ground arith)
]

dropped-both :
    (now : Time) (u : GoalDeleteUsage)
    → is_redacted now u ≡ false
    → (u.quota_retain_until ≤ now) × (is_set u.provider_usage_finalized_at ≡ true)
unfolding is_redacted
dropped-both now u h = (ground arith, ground arith)

-- An identifier that is in one of two lists is there after one more in either.
placed_left :
    (a : String) {b : String} {xs ys : List String}
    → Memᴰ b xs ⊎ Memᴰ b ys
    → Memᴰ b (a ∷ xs) ⊎ Memᴰ b ys
placed_left a (inl m) = inl (Memᴰ.tail m)
placed_left a (inr m) = inr m

placed_right :
    (a : String) {b : String} {xs ys : List String}
    → Memᴰ b xs ⊎ Memᴰ b ys
    → Memᴰ b xs ⊎ Memᴰ b (a ∷ ys)
placed_right a (inl m) = inl m
placed_right a (inr m) = inr (Memᴰ.tail m)

module _ (now : Time) where
  split_usages-IsKept :
      (usages : List GoalDeleteUsage) → All (IsKept now usages) (split_usages now usages).0
  unfolding split_usages
  split_usages-IsKept [] = tt
  split_usages-IsKept (u ∷ us) =
      let later =
        All-map (split_usages now us).0
          (λ (id : String) (r : IsKept now us id). let (v, m, p, q) = r in (v, Memᴰ.tail m, p, q))
          (split_usages-IsKept us) in
      elim (Bool-cases (is_redacted now u)) [
        | inl e ↦ rw e ((u, Memᴰ.head refl, refl, kept-cases now u e), later)
        | inr e ↦ rw e later
      ]

  split_usages-IsDropped :
      (usages : List GoalDeleteUsage) → All (IsDropped now usages) (split_usages now usages).1
  unfolding split_usages
  split_usages-IsDropped [] = tt
  split_usages-IsDropped (u ∷ us) =
      let later =
        All-map (split_usages now us).1
          (λ (id : String) (r : IsDropped now us id).
            let (v, m, p, q, t) = r in (v, Memᴰ.tail m, p, q, t))
          (split_usages-IsDropped us) in
      elim (Bool-cases (is_redacted now u)) [
        | inl e ↦ rw e later
        | inr e ↦
            let (past, final) = dropped-both now u e in
            rw e ((u, Memᴰ.head refl, refl, past, final), later)
      ]

  split_usages-each : (usages : List GoalDeleteUsage) → IsPlaced usages (split_usages now usages)
  unfolding split_usages
  split_usages-each [] = tt
  split_usages-each (u ∷ us) =
      let later = split_usages-each us in
      let redo =
        λ (parts : List String × List String) (e : split_usages now (u ∷ us) ≡ parts)
            (p : IsPlaced (u ∷ us) parts).
          subst (IsPlaced (u ∷ us)) (sym e) p in
      elim (Bool-cases (is_redacted now u)) [
        | inl e ↦
            redo (u.operation_id ∷ (split_usages now us).0, (split_usages now us).1) (rw e refl)
              (inl (Memᴰ.head refl), All-map us (λ v m. placed_left u.operation_id m) later)
        | inr e ↦
            redo ((split_usages now us).0, u.operation_id ∷ (split_usages now us).1) (rw e refl)
              (inr (Memᴰ.head refl), All-map us (λ v m. placed_right u.operation_id m) later)
      ]

  split_usages-whole :
      (usages : List GoalDeleteUsage)
      → length (split_usages now usages).0 + length (split_usages now usages).1 ≡ length usages
  unfolding split_usages
  split_usages-whole [] = refl
  split_usages-whole (u ∷ us) = ground (arith, split_usages-whole us)

  -- What holds of every usage's identifier holds in both parts.
  split_usages-All {ℓ} :
      (P : String → Type ℓ) (usages : List GoalDeleteUsage)
      → All (λ (u : GoalDeleteUsage). P u.operation_id) usages
      → All P (split_usages now usages).0 × All P (split_usages now usages).1
  unfolding split_usages
  split_usages-All P [] h = (tt, tt)
  split_usages-All P (u ∷ us) (p, h) =
      let (a, b) = split_usages-All P us h in
      elim (Bool-cases (is_redacted now u)) [ inl e ↦ rw e ((p, a), b) | inr e ↦ rw e (a, (p, b)) ]

known_first : (a : String) (seen : List String) → is_known (a ∷ seen) a ≡ true
unfolding is_known
known_first a seen = ground (arith, (eq_iff a a).1 refl)

-- Usages that passed have none of the operations seen.
require_distinct-unknown :
    (seen : List String) (usages : List GoalDeleteUsage)
    → require_distinct seen usages ≡ ok tt
    → All (λ (u : GoalDeleteUsage). is_known seen u.operation_id ≡ false) usages
unfolding require_distinct is_known
require_distinct-unknown seen [] h = tt
require_distinct-unknown seen (u ∷ us) h =
    let first : is_known seen u.operation_id ≡ false = ground arith in
    let rest : require_distinct (u.operation_id ∷ seen) us ≡ ok tt = ground arith in
    (
      first,
      All-map us
          (λ (v : GoalDeleteUsage) (q : is_known (u.operation_id ∷ seen) v.operation_id ≡ false).
            ground (arith, q))
          (require_distinct-unknown (u.operation_id ∷ seen) us rest),
    )

unknown-≢ : (a b : String) (seen : List String) → is_known (a ∷ seen) b ≡ false → a ≢ b
unknown-≢ a b seen h e =
    let k : is_known (a ∷ seen) a ≡ false =
      subst (λ (x : String). is_known (a ∷ seen) x ≡ false) (sym e) h in
    ground (arith, k, known_first a seen)

-- No identifier is in both parts.
split_usages-apart :
    (now : Time) (seen : List String) (usages : List GoalDeleteUsage)
    → require_distinct seen usages ≡ ok tt
    → All
        (λ (id : String). All (λ (id' : String). id ≢ id') (split_usages now usages).1)
        (split_usages now usages).0
unfolding split_usages require_distinct
split_usages-apart now seen [] h = tt
split_usages-apart now seen (u ∷ us) h =
    let rest : require_distinct (u.operation_id ∷ seen) us ≡ ok tt = ground arith in
    let (a, b) =
      split_usages-All now (λ (id : String). u.operation_id ≢ id) us
        (All-map us
          (λ (v : GoalDeleteUsage) (q : is_known (u.operation_id ∷ seen) v.operation_id ≡ false).
            unknown-≢ u.operation_id v.operation_id seen q)
          (require_distinct-unknown (u.operation_id ∷ seen) us rest)) in
    let later = split_usages-apart now (u.operation_id ∷ seen) us rest in
    elim (Bool-cases (is_redacted now u)) [
      | inl e ↦ rw e (b, later)
      | inr e ↦ rw e (
          All-map (split_usages now us).0
            (λ (id : String)
                (q : (u.operation_id ≢ id)
                  × All (λ (id' : String). id ≢ id') (split_usages now us).1).
              ((λ e'. q.0 (sym e')), q.1))
            (All-zip (λ (id : String). u.operation_id ≢ id)
              (λ (id : String). All (λ (id' : String). id ≢ id') (split_usages now us).1)
              (split_usages now us).0 a later))
    ]

-- A partition that passed its checks splits the usages of the goal in two: what it redacts has a
-- quota that is retained or is not final, what it deletes has neither; each usage is in one part,
-- and no identifier is in both.
pub partition_goal_delete_usages-IsSplit :
    (usages : List GoalDeleteUsage) (now : Time) {parts : List String × List String}
    → partition_goal_delete_usages usages now ≡ ok parts
    → IsSplit usages now parts
unfolding partition_goal_delete_usages
partition_goal_delete_usages-IsSplit usages now h =
    let valid : require_distinct [] usages ≡ ok tt = ground arith in
    let same : ◌≡◌ {A = Result AppError (List String × List String)} (ok (split_usages now usages))
        (ok _) =
      ground arith in
    same_value (IsSplit usages now) same (record {
      redacted = split_usages-IsKept now usages;
      deleted = split_usages-IsDropped now usages;
      each = split_usages-each now usages;
      whole = split_usages-whole now usages;
      apart = split_usages-apart now [] usages valid;
    })
