-- ===== src/Application/CycleLaws/Listing.antt =====
-- The order of a list of cycles that passed its checks.
use cycle.Base.{
  ℤ, pos, negsuc, ◌≡◌, ◌⊎◌, inl, inr, subst, sym, ◌∙◌, text_lt, true, false, List, [], ◌∷◌, All, ok,
  arith, Option, none, some, int_lt, int_eq_iff, text_lt_trans,
}
use cycle.GoStrings.{codes}
use cycle.Identifier.{is_canonical_uuid_v7}
use cycle.Application.Views.{CycleSummary}
use cycle.Application.GoalChecks.{not_positive}
use cycle.Application.CycleSummaries.{
  validate_cycle_summaries, cycle_summary_follows, validate_summaries_after, out_of_order,
}

pub int_lt_trans : (a b c : ℤ) → int_lt a b ≡ true → int_lt b c ≡ true → int_lt a c ≡ true
int_lt_trans (pos a) (pos b) (pos c) h k = ground arith
int_lt_trans (pos a) (pos b) (negsuc c) h k = ground arith
int_lt_trans (pos a) (negsuc b) c h k = ground arith
int_lt_trans (negsuc a) (pos b) (pos c) h k = ground arith
int_lt_trans (negsuc a) (pos b) (negsuc c) h k = ground arith
int_lt_trans (negsuc a) (negsuc b) (pos c) h k = ground arith
int_lt_trans (negsuc a) (negsuc b) (negsuc c) h k = ground arith

-- A row comes strictly after another: its sequence number is smaller, or the same and its identifier
-- smaller, in the order of the code points.
unfoldable pub Follows : CycleSummary → CycleSummary → Type 0
Follows a b =
    (int_lt b.sequence_number a.sequence_number ≡ true)
    ⊎ ((b.sequence_number ≡ a.sequence_number) × (text_lt (codes b.id) (codes a.id) ≡ true))

cycle_summary_follows-Follows :
    (a b : CycleSummary) → cycle_summary_follows a b ≡ true → Follows a b
unfolding cycle_summary_follows Follows
cycle_summary_follows-Follows a b h = ground (arith, int_eq_iff b.sequence_number a.sequence_number)

Follows-trans : (a b c : CycleSummary) → Follows a b → Follows b c → Follows a c
unfolding Follows
Follows-trans a b c (inl h) (inl k) =
    inl (int_lt_trans c.sequence_number b.sequence_number a.sequence_number k h)
Follows-trans a b c (inl h) (inr (e, k)) =
    inl (subst (λ (n : ℤ). int_lt n a.sequence_number ≡ true) (sym e) h)
Follows-trans a b c (inr (e, h)) (inl k) =
    inl (subst (λ (n : ℤ). int_lt c.sequence_number n ≡ true) e k)
Follows-trans a b c (inr (e, h)) (inr (f, k)) =
    inr (f ∙ e, text_lt_trans (codes c.id) (codes b.id) (codes a.id) k h)

-- Every row comes after all the rows before it.
unfoldable pub IsDescending : List CycleSummary → Type 0
IsDescending [] = Unit
IsDescending (row ∷ rest) = All (Follows row) rest × IsDescending rest

-- A row that names its cycle and counts from 1.
unfoldable pub IsNamed : CycleSummary → Type 0
IsNamed row = (is_canonical_uuid_v7 row.id ≡ true) × (not_positive row.sequence_number ≡ false)

FollowsAll : Option CycleSummary → List CycleSummary → Type 0
FollowsAll none rows = Unit
FollowsAll (some a) rows = All (Follows a) rows

descend_past :
    (a b : CycleSummary) (rest : List CycleSummary)
    → Follows a b
    → All (Follows b) rest
    → All (Follows a) rest
descend_past a b [] h k = tt
descend_past a b (c ∷ rest) h (k, ks) = (Follows-trans a b c h k, descend_past a b rest h ks)

first_row :
    (previous : Option CycleSummary) (row : CycleSummary) (rest : List CycleSummary)
    → validate_summaries_after previous (row ∷ rest) ≡ ok tt
    → (out_of_order previous row ≡ false)
      × IsNamed row
      × (validate_summaries_after (some row) rest ≡ ok tt)
unfolding validate_summaries_after IsNamed
first_row previous row rest h = ground arith

in_order :
    (previous : Option CycleSummary) (row : CycleSummary) (rest : List CycleSummary)
    → out_of_order previous row ≡ false
    → All (Follows row) rest
    → FollowsAll previous (row ∷ rest)
unfolding out_of_order FollowsAll
in_order none row rest h k = tt
in_order (some a) row rest h k =
    let first : Follows a row = cycle_summary_follows-Follows a row (ground arith) in
    (first, descend_past a row rest first k)

rows-IsDescending :
    (previous : Option CycleSummary) (rows : List CycleSummary)
    → validate_summaries_after previous rows ≡ ok tt
    → IsDescending rows × All IsNamed rows × FollowsAll previous rows
unfolding IsDescending FollowsAll
rows-IsDescending none [] h = (tt, tt, tt)
rows-IsDescending (some a) [] h = (tt, tt, tt)
rows-IsDescending previous (row ∷ rest) h =
    let (order, named, later) = first_row previous row rest h in
    let (sorted, names, after) = rows-IsDescending (some row) rest later in
    ((after, sorted), (named, names), in_order previous row rest order after)

-- Rows that passed name their cycles, and each comes strictly after all the rows before it: a
-- smaller sequence number, or the same and a smaller identifier.
pub validate_cycle_summaries-IsDescending :
    (rows : List CycleSummary)
    → validate_cycle_summaries rows ≡ ok tt
    → IsDescending rows × All IsNamed rows
unfolding validate_cycle_summaries
validate_cycle_summaries-IsDescending rows h =
    let (sorted, names, after) = rows-IsDescending none rows h in (sorted, names)
