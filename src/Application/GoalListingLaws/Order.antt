-- ===== src/Application/GoalListingLaws/Order.antt =====
-- The order of a list of goals that passed its checks.
use cycle.Base.{
  ℤ, pos, ◌≡◌, ◌⊎◌, ◌<◌, inl, inr, subst, sym, ◌∙◌, true, false, Option, none, some, List, [], ◌∷◌,
  All, ok, arith, int_lt, int_eq_iff, text_lt, text_lt_trans,
}
use cycle.GoStrings.{codes}
use cycle.Domain.Goal
use cycle.Application.GoalChecks.{validate_goal_current_work}
use cycle.Application.CycleChecks.{is_zero_time}
use cycle.Application.GoalListing.{
  GoalListScope, GoalQueryRow, goal_category, category_differs, goal_cursor_category_matches_scope,
  goal_query_row_follows, row_out_of_order, validate_rows_after, validate_goal_query_rows,
}
use cycle.Application.CycleLaws.Listing.{int_lt_trans}

-- A row comes strictly after another: its category is greater, or the same and its time earlier, or
-- both the same and its identifier smaller, in the order of the code points.
unfoldable pub RowFollows : GoalQueryRow → GoalQueryRow → Type 0
RowFollows a b =
    (int_lt a.category b.category ≡ true)
    ⊎ ((a.category ≡ b.category)
        × ((b.sort_time < a.sort_time)
            ⊎ ((a.sort_time ≡ b.sort_time) × (text_lt (codes b.view.id) (codes a.view.id) ≡ true))))

goal_query_row_follows-RowFollows :
    (a b : GoalQueryRow) → goal_query_row_follows a b ≡ true → RowFollows a b
unfolding goal_query_row_follows RowFollows
goal_query_row_follows-RowFollows a b h = ground (arith, int_eq_iff b.category a.category)

RowFollows-trans : (a b c : GoalQueryRow) → RowFollows a b → RowFollows b c → RowFollows a c
unfolding RowFollows
RowFollows-trans a b c (inl h) (inl k) = inl (int_lt_trans a.category b.category c.category h k)
RowFollows-trans a b c (inl h) (inr (e, k)) =
    inl (subst (λ (n : ℤ). int_lt a.category n ≡ true) e h)
RowFollows-trans a b c (inr (e, h)) (inl k) =
    inl (subst (λ (n : ℤ). int_lt n c.category ≡ true) (sym e) k)
RowFollows-trans a b c (inr (e, inl h)) (inr (f, inl k)) = inr (e ∙ f, inl (omega (arith, h, k)))
RowFollows-trans a b c (inr (e, inl h)) (inr (f, inr (t, k))) =
    inr (e ∙ f, inl (omega (arith, h, t)))
RowFollows-trans a b c (inr (e, inr (t, h))) (inr (f, inl k)) =
    inr (e ∙ f, inl (omega (arith, k, t)))
RowFollows-trans a b c (inr (e, inr (t, h))) (inr (f, inr (u, k))) =
    inr
      (e ∙ f, inr (t ∙ u, text_lt_trans (codes c.view.id) (codes b.view.id) (codes a.view.id) k h))

-- Every row comes after all the rows before it.
unfoldable pub AreDescending : List GoalQueryRow → Type 0
AreDescending [] = Unit
AreDescending (row ∷ rest) = All (RowFollows row) rest × AreDescending rest

-- The categories of the goals in progress, 0, and of the terminated ones, 1.
abbrev pub HasCategory : Goal.Status → ℤ → Type 0
HasCategory Goal.Status.active_cycle category = category ≡ pos 0
HasCategory Goal.Status.goal_review category = category ≡ pos 0
HasCategory Goal.Status.achieved category = category ≡ pos 1
HasCategory Goal.Status.ended category = category ≡ pos 1
HasCategory Goal.Status.unknown category = ⊥

-- What a scope asks of the category of a row.
abbrev pub Covers : GoalListScope → ℤ → Type 0
Covers GoalListScope.all category = (category ≡ pos 0) ⊎ (category ≡ pos 1)
Covers GoalListScope.progressing category = category ≡ pos 0
Covers GoalListScope.history category = category ≡ pos 1

-- A row with a time, whose category is that of its goal's status and in the scope, and whose goal's
-- current work is valid.
unfoldable pub IsInScope : GoalListScope → GoalQueryRow → Type 0
IsInScope scope row =
    Covers scope row.category
    × HasCategory row.view.status row.category
    × (validate_goal_current_work row.view ≡ ok tt)
    × (is_zero_time row.sort_time ≡ false)

matches-Covers :
    (scope : GoalListScope) (category : ℤ)
    → goal_cursor_category_matches_scope category scope ≡ true
    → Covers scope category
unfolding goal_cursor_category_matches_scope
matches-Covers GoalListScope.all category h =
    ground (arith, h, int_eq_iff category (pos 0), int_eq_iff category (pos 1))
matches-Covers GoalListScope.progressing category h = (int_eq_iff category (pos 0)).0 h
matches-Covers GoalListScope.history category h = (int_eq_iff category (pos 1)).0 h

pub Covers-matches :
    (scope : GoalListScope) (category : ℤ)
    → Covers scope category
    → goal_cursor_category_matches_scope category scope ≡ true
unfolding goal_cursor_category_matches_scope
Covers-matches GoalListScope.all category h =
    ground (arith, h, int_eq_iff category (pos 0), int_eq_iff category (pos 1))
Covers-matches GoalListScope.progressing category h = (int_eq_iff category (pos 0)).1 h
Covers-matches GoalListScope.history category h = (int_eq_iff category (pos 1)).1 h

has_category :
    (status : Goal.Status) (category : ℤ)
    → category_differs (goal_category status) category ≡ false
    → HasCategory status category
unfolding category_differs goal_category
has_category Goal.Status.active_cycle category h = ground (arith, h, int_eq_iff (pos 0) category)
has_category Goal.Status.goal_review category h = ground (arith, h, int_eq_iff (pos 0) category)
has_category Goal.Status.achieved category h = ground (arith, h, int_eq_iff (pos 1) category)
has_category Goal.Status.ended category h = ground (arith, h, int_eq_iff (pos 1) category)
has_category Goal.Status.unknown category h = ground (arith, h)

RowFollowsAll : Option GoalQueryRow → List GoalQueryRow → Type 0
RowFollowsAll none rows = Unit
RowFollowsAll (some a) rows = All (RowFollows a) rows

follow_past :
    (a b : GoalQueryRow) (rest : List GoalQueryRow)
    → RowFollows a b
    → All (RowFollows b) rest
    → All (RowFollows a) rest
follow_past a b [] h k = tt
follow_past a b (c ∷ rest) h (k, ks) = (RowFollows-trans a b c h k, follow_past a b rest h ks)

head_row :
    (previous : Option GoalQueryRow) (row : GoalQueryRow) (rest : List GoalQueryRow)
    (scope : GoalListScope)
    → validate_rows_after previous (row ∷ rest) scope ≡ ok tt
    → (goal_cursor_category_matches_scope row.category scope ≡ true)
      × (category_differs (goal_category row.view.status) row.category ≡ false)
      × (validate_goal_current_work row.view ≡ ok tt)
      × (row_out_of_order previous row ≡ false)
      × (validate_rows_after (some row) rest scope ≡ ok tt)
      × (is_zero_time row.sort_time ≡ false)
unfolding validate_rows_after
head_row previous row rest scope h = ground arith

put_before :
    (previous : Option GoalQueryRow) (row : GoalQueryRow) (rest : List GoalQueryRow)
    → row_out_of_order previous row ≡ false
    → All (RowFollows row) rest
    → RowFollowsAll previous (row ∷ rest)
unfolding row_out_of_order RowFollowsAll
put_before none row rest h k = tt
put_before (some a) row rest h k =
    let first : RowFollows a row = goal_query_row_follows-RowFollows a row (ground arith) in
    (first, follow_past a row rest first k)

rows_after-AreDescending :
    (previous : Option GoalQueryRow) (rows : List GoalQueryRow) (scope : GoalListScope)
    → validate_rows_after previous rows scope ≡ ok tt
    → AreDescending rows × All (IsInScope scope) rows × RowFollowsAll previous rows
unfolding AreDescending RowFollowsAll IsInScope
rows_after-AreDescending none [] scope h = (tt, tt, tt)
rows_after-AreDescending (some a) [] scope h = (tt, tt, tt)
rows_after-AreDescending previous (row ∷ rest) scope h =
    let (within, same, work, order, later, timed) = head_row previous row rest scope h in
    let (sorted, scoped, after) = rows_after-AreDescending (some row) rest scope later in
    (
      (after, sorted),
      (
        (
          matches-Covers scope row.category within,
          has_category row.view.status row.category same,
          work,
          timed,
        ),
        scoped,
      ),
      put_before previous row rest order after,
    )

-- Rows that passed are in the scope, and each comes strictly after all the rows before it: a greater
-- category, or the same and an earlier time, or both the same and a smaller identifier.
pub validate_goal_query_rows-AreDescending :
    (rows : List GoalQueryRow) (scope : GoalListScope)
    → validate_goal_query_rows rows scope ≡ ok tt
    → AreDescending rows × All (IsInScope scope) rows
unfolding validate_goal_query_rows
validate_goal_query_rows-AreDescending rows scope h =
    let (sorted, scoped, after) = rows_after-AreDescending none rows scope h in (sorted, scoped)
