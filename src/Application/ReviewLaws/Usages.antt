-- ===== src/Application/ReviewLaws/Usages.antt =====
-- The usages of a review draft that is discarded: which are retained, and which are deleted.
use cycle.Base.{
  ◌≡◌, ◌≢◌, refl, sym, ◌⊎◌, inl, inr, ◌+◌, ◌<◌, ◌≤◌, Bool-cases, true, false, none, List, [], ◌∷◌,
  length, All, All-map, All-zip, String, ok, arith, text_lt, text_lt_irrefl, text_lt_trans,
  Option-cases, subst, Result, same_value,
}
use mathlib.Core.List.{Memᴰ}
use cycle.GoStrings.{codes}
use cycle.Domain.Cycle.{Time, is_set}
use cycle.Application.Errors.{AppError}
use cycle.Application.ReviewTx.{DraftUsageState}
use cycle.Application.ReviewChecks.{
  partition_usages, partition_review_usages, validate_review_usages, validate_usages_after, is_live,
  is_known,
}

-- A usage of the list has this identifier, and its quota is retained or it is not final.
abbrev pub IsRetained : Time → List DraftUsageState → String → Type 0
IsRetained now usages id =
    (u : DraftUsageState) × Memᴰ u usages
    × (u.operation_id ≡ id)
    × ((now < u.quota_retain_until) ⊎ (u.provider_usage_finalized_at ≡ none))

-- A usage of the list has this identifier, its quota is not retained, and it is final.
abbrev pub IsExpired : Time → List DraftUsageState → String → Type 0
IsExpired now usages id =
    (u : DraftUsageState) × Memᴰ u usages
    × (u.operation_id ≡ id)
    × (u.quota_retain_until ≤ now)
    × (is_set u.provider_usage_finalized_at ≡ true)

-- Every usage of the list is in one of the two parts.
abbrev pub IsPlaced : List DraftUsageState → List String × List String → Type 0
IsPlaced usages parts =
    All (λ (u : DraftUsageState). Memᴰ u.operation_id parts.0 ⊎ Memᴰ u.operation_id parts.1) usages

pub record IsPartition (generation_ids : List String) (usages : List DraftUsageState) (now : Time)
    (parts : List String × List String) : Type 0 where
  pub retained : All (IsRetained now usages) parts.0
  pub expired : All (IsExpired now usages) parts.1
  pub each : IsPlaced usages parts
  pub whole : length parts.0 + length parts.1 ≡ length usages
  pub apart : All (λ (id : String). All (λ (id' : String). id ≢ id') parts.1) parts.0
  pub known_retained : All (λ (id : String). is_known generation_ids id ≡ true) parts.0
  pub known_expired : All (λ (id : String). is_known generation_ids id ≡ true) parts.1

live-cases :
    (now : Time) (u : DraftUsageState)
    → is_live now u ≡ true
    → (now < u.quota_retain_until) ⊎ (u.provider_usage_finalized_at ≡ none)
unfolding is_live
live-cases now u h = elim (Option-cases u.provider_usage_finalized_at) [
  | inl e ↦ inr e
  | inr (t, e) ↦ inl (ground arith)
]

dead-both :
    (now : Time) (u : DraftUsageState)
    → is_live now u ≡ false
    → (u.quota_retain_until ≤ now) × (is_set u.provider_usage_finalized_at ≡ true)
unfolding is_live
dead-both now u h = (ground arith, ground arith)

-- An identifier that is in one of two lists is there after one more in either.
placed_left :
    (a : String) {b : String} {xs ys : List String}
    → Memᴰ b xs ⊎ Memᴰ b ys
    → Memᴰ b (a ∷ xs) ⊎ Memᴰ b ys
placed_left a (inl m) = inl (Memᴰ.tail m)
placed_left a (inr m) = inr m

placed_right :
    (a : String) {b : String} {xs ys : List String}
    → Memᴰ b xs ⊎ Memᴰ b ys
    → Memᴰ b xs ⊎ Memᴰ b (a ∷ ys)
placed_right a (inl m) = inl m
placed_right a (inr m) = inr (Memᴰ.tail m)

module _ (now : Time) where
  partition_usages-IsRetained :
      (usages : List DraftUsageState) → All (IsRetained now usages) (partition_usages now usages).0
  unfolding partition_usages
  partition_usages-IsRetained [] = tt
  partition_usages-IsRetained (u ∷ us) =
      let later =
        All-map (partition_usages now us).0
          (λ (id : String) (r : IsRetained now us id).
            let (v, m, p, q) = r in (v, Memᴰ.tail m, p, q))
          (partition_usages-IsRetained us) in
      elim (Bool-cases (is_live now u)) [
        | inl e ↦ rw e ((u, Memᴰ.head refl, refl, live-cases now u e), later)
        | inr e ↦ rw e later
      ]

  partition_usages-IsExpired :
      (usages : List DraftUsageState) → All (IsExpired now usages) (partition_usages now usages).1
  unfolding partition_usages
  partition_usages-IsExpired [] = tt
  partition_usages-IsExpired (u ∷ us) =
      let later =
        All-map (partition_usages now us).1
          (λ (id : String) (r : IsExpired now us id).
            let (v, m, p, q, t) = r in (v, Memᴰ.tail m, p, q, t))
          (partition_usages-IsExpired us) in
      elim (Bool-cases (is_live now u)) [
        | inl e ↦ rw e later
        | inr e ↦
            let (past, final) = dead-both now u e in
            rw e ((u, Memᴰ.head refl, refl, past, final), later)
      ]

  partition_usages-each :
      (usages : List DraftUsageState) → IsPlaced usages (partition_usages now usages)
  unfolding partition_usages
  partition_usages-each [] = tt
  partition_usages-each (u ∷ us) =
      let later = partition_usages-each us in
      let redo =
        λ (parts : List String × List String) (e : partition_usages now (u ∷ us) ≡ parts)
            (p : IsPlaced (u ∷ us) parts).
          subst (IsPlaced (u ∷ us)) (sym e) p in
      elim (Bool-cases (is_live now u)) [
        | inl e ↦
            redo (u.operation_id ∷ (partition_usages now us).0, (partition_usages now us).1)
              (rw e refl)
              (inl (Memᴰ.head refl), All-map us (λ v m. placed_left u.operation_id m) later)
        | inr e ↦
            redo ((partition_usages now us).0, u.operation_id ∷ (partition_usages now us).1)
              (rw e refl)
              (inr (Memᴰ.head refl), All-map us (λ v m. placed_right u.operation_id m) later)
      ]

  partition_usages-whole :
      (usages : List DraftUsageState)
      → length (partition_usages now usages).0 + length (partition_usages now usages).1
        ≡ length usages
  unfolding partition_usages
  partition_usages-whole [] = refl
  partition_usages-whole (u ∷ us) = ground (arith, partition_usages-whole us)

  -- What holds of every usage's identifier holds in both parts.
  partition_usages-All {ℓ} :
      (P : String → Type ℓ) (usages : List DraftUsageState)
      → All (λ (u : DraftUsageState). P u.operation_id) usages
      → All P (partition_usages now usages).0 × All P (partition_usages now usages).1
  unfolding partition_usages
  partition_usages-All P [] h = (tt, tt)
  partition_usages-All P (u ∷ us) (p, h) =
      let (a, b) = partition_usages-All P us h in
      elim (Bool-cases (is_live now u)) [ inl e ↦ rw e ((p, a), b) | inr e ↦ rw e (a, (p, b)) ]

-- The identifiers come strictly after this one.
abbrev Above : String → List DraftUsageState → Type 0
Above previous usages =
    All (λ (u : DraftUsageState). text_lt (codes previous) (codes u.operation_id) ≡ true) usages

above-≢ : (a b : String) → text_lt (codes a) (codes b) ≡ true → a ≢ b
above-≢ a b h e =
    let k : text_lt (codes a) (codes a) ≡ true =
      subst (λ (x : String). text_lt (codes a) (codes x) ≡ true) (sym e) h in
    ground (arith, text_lt_irrefl (codes a))

-- Usages that passed come strictly after one another, and belong to the generations.
validate_usages_after-known :
    (generation_ids : List String) (previous : String) (usages : List DraftUsageState)
    → validate_usages_after generation_ids previous usages ≡ ok tt
    → All (λ (u : DraftUsageState). is_known generation_ids u.operation_id ≡ true) usages
unfolding validate_usages_after
validate_usages_after-known ids previous [] h = tt
validate_usages_after-known ids previous (u ∷ us) h =
    let (k, h) : (is_known ids u.operation_id ≡ true)
        × (validate_usages_after ids u.operation_id us ≡ ok tt) =
      (ground arith, ground arith) in
    (k, validate_usages_after-known ids u.operation_id us h)

validate_usages_after-Above :
    (generation_ids : List String) (previous : String) (usages : List DraftUsageState)
    → validate_usages_after generation_ids previous usages ≡ ok tt
    → Above previous usages
unfolding validate_usages_after
validate_usages_after-Above ids previous [] h = tt
validate_usages_after-Above ids previous (u ∷ us) h =
    let p : text_lt (codes previous) (codes u.operation_id) ≡ true = ground arith in
    let rest : validate_usages_after ids u.operation_id us ≡ ok tt = ground arith in
    (
      p,
      All-map us
          (λ (v : DraftUsageState)
              (q : text_lt (codes u.operation_id) (codes v.operation_id) ≡ true).
            text_lt_trans (codes previous) (codes u.operation_id) (codes v.operation_id) p q)
          (validate_usages_after-Above ids u.operation_id us rest),
    )

-- No identifier is in both parts.
partition_usages-apart :
    (now : Time) (generation_ids : List String) (previous : String) (usages : List DraftUsageState)
    → validate_usages_after generation_ids previous usages ≡ ok tt
    → All
        (λ (id : String). All (λ (id' : String). id ≢ id') (partition_usages now usages).1)
        (partition_usages now usages).0
unfolding partition_usages validate_usages_after
partition_usages-apart now ids previous [] h = tt
partition_usages-apart now ids previous (u ∷ us) h =
    let rest : validate_usages_after ids u.operation_id us ≡ ok tt = ground arith in
    let above = validate_usages_after-Above ids u.operation_id us rest in
    let (a, b) =
      partition_usages-All now (λ (id : String). text_lt (codes u.operation_id) (codes id) ≡ true)
        us above in
    let later = partition_usages-apart now ids u.operation_id us rest in
    elim (Bool-cases (is_live now u)) [
      | inl e ↦ rw e (
        All-map (partition_usages now us).1
            (λ (id : String) (q : text_lt (codes u.operation_id) (codes id) ≡ true).
              above-≢ u.operation_id id q)
            b,
        later,
      )
      | inr e ↦ rw e (
          All-map (partition_usages now us).0
            (λ (id : String)
                (q : (text_lt (codes u.operation_id) (codes id) ≡ true)
                  × All (λ (id' : String). id ≢ id') (partition_usages now us).1).
              ((λ e'. above-≢ u.operation_id id q.0 (sym e')), q.1))
            (All-zip (λ (id : String). text_lt (codes u.operation_id) (codes id) ≡ true)
              (λ (id : String). All (λ (id' : String). id ≢ id') (partition_usages now us).1)
              (partition_usages now us).0 a later))
    ]

-- A partition that passed its checks splits the usages in two: what it retains has a quota that is
-- retained or is not final, what it lets expire has neither; each usage is in one part, no
-- identifier is in both, and all belong to the locked generations.
pub partition_review_usages-IsPartition :
    (generation_ids : List String) (usages : List DraftUsageState) (now : Time)
    {parts : List String × List String}
    → partition_review_usages generation_ids usages now ≡ ok parts
    → IsPartition generation_ids usages now parts
unfolding partition_review_usages validate_review_usages
partition_review_usages-IsPartition ids usages now h =
    let valid : validate_usages_after ids "" usages ≡ ok tt = ground arith in
    let same : ◌≡◌ {A = Result AppError (List String × List String)}
        (ok (partition_usages now usages)) (ok _) =
      ground arith in
    let known =
      partition_usages-All now (λ (id : String). is_known ids id ≡ true) usages
        (validate_usages_after-known ids "" usages valid) in
    same_value (IsPartition ids usages now) same (record {
      retained = partition_usages-IsRetained now usages;
      expired = partition_usages-IsExpired now usages;
      each = partition_usages-each now usages;
      whole = partition_usages-whole now usages;
      apart = partition_usages-apart now ids "" usages valid;
      known_retained = known.0;
      known_expired = known.1;
    })
