-- ===== src/Application/GoalDeletionLaws/Order.antt =====
-- The order of the rows that a deletion has locked.
use cycle.Base.{
  ℤ, ◌≡◌, sym, ◌<◌, true, false, Option, none, some, List, [], ◌∷◌, All, All-map, String, ok, arith,
  str_eq, eq_iff, text_lt, text_lt_trans,
}
use cycle.GoStrings.{codes}
use cycle.GoStrings.Order.{lt_of_not_gt}
use cycle.Domain.Cycle.{Time}
use cycle.Application.GoalTx.{GoalDeleteGeneration, MonthlyReservation}
use cycle.Application.ReviewChecks.{is_sorted}
use cycle.Application.GoalDeletion.{
  has_repeat, require_goal_id_order, require_goal_generation_order, generation_ids_of,
  require_goal_monthly_reservation_order, require_months_after, is_later,
}

-- Every identifier comes strictly after all those before it.
unfoldable pub IsAscending : List String → Type 0
IsAscending [] = Unit
IsAscending (a ∷ ids) =
    All (λ (b : String). text_lt (codes a) (codes b) ≡ true) ids × IsAscending ids

sorted-IsAscending :
    (ids : List String) → is_sorted ids ≡ true → has_repeat ids ≡ false → IsAscending ids
unfolding is_sorted has_repeat IsAscending
sorted-IsAscending [] h k = tt
sorted-IsAscending (a ∷ []) h k = (tt, tt)
sorted-IsAscending (a ∷ b ∷ ids) h k =
    let (le, h) : (text_lt (codes b) (codes a) ≡ false) × (is_sorted (b ∷ ids) ≡ true) =
      (ground arith, ground arith) in
    let (ne, k) : (str_eq b a ≡ false) × (has_repeat (b ∷ ids) ≡ false) =
      (ground arith, ground arith) in
    let lt = lt_of_not_gt a b le (λ e. ground (arith, ne, (eq_iff b a).1 (sym e))) in
    let (after, rest) = sorted-IsAscending (b ∷ ids) h k in
    (
      (
        lt,
        All-map ids
            (λ (c : String) (q : text_lt (codes b) (codes c) ≡ true).
              text_lt_trans (codes a) (codes b) (codes c) lt q)
            after,
      ),
      (after, rest),
    )

pub require_goal_id_order-IsAscending :
    (unordered duplicate : String) (ids : List String)
    → require_goal_id_order unordered duplicate ids ≡ ok tt
    → IsAscending ids
unfolding require_goal_id_order
require_goal_id_order-IsAscending unordered duplicate ids h =
    sorted-IsAscending ids (ground arith) (ground arith)

pub require_goal_generation_order-IsAscending :
    (items : List GoalDeleteGeneration)
    → require_goal_generation_order items ≡ ok tt
    → IsAscending (generation_ids_of items)
unfolding require_goal_generation_order
require_goal_generation_order-IsAscending items h =
    require_goal_id_order-IsAscending "AI Generation rows are not locked in UUID order"
      "AI Generation lock returned a duplicate row" (generation_ids_of items) (ground arith)

-- Every month is later than all those before it.
unfoldable pub MonthsAscend : List MonthlyReservation → Type 0
MonthsAscend [] = Unit
MonthsAscend (item ∷ items) =
    All (λ (later : MonthlyReservation). item.month_utc < later.month_utc) items
    × MonthsAscend items

AllLater : Option Time → List MonthlyReservation → Type 0
AllLater none items = Unit
AllLater (some month) items = All (λ (later : MonthlyReservation). month < later.month_utc) items

is_later-AllLater :
    (previous : Option Time) (item : MonthlyReservation) (items : List MonthlyReservation)
    → is_later previous item.month_utc ≡ true
    → All (λ (later : MonthlyReservation). item.month_utc < later.month_utc) items
    → AllLater previous (item ∷ items)
unfolding is_later AllLater
is_later-AllLater none item items h k = tt
is_later-AllLater (some month) item items h k =
    let first : month < item.month_utc = ground arith in
    (
      first,
      All-map items
          (λ (later : MonthlyReservation) (q : item.month_utc < later.month_utc).
            omega (arith, first, q))
          k,
    )

months_after-ascend :
    (sign_of : String → Option ℤ) (previous : Option Time) (items : List MonthlyReservation)
    → require_months_after sign_of previous items ≡ ok tt
    → MonthsAscend items × AllLater previous items
unfolding require_months_after MonthsAscend AllLater
months_after-ascend sign_of none [] h = (tt, tt)
months_after-ascend sign_of (some month) [] h = (tt, tt)
months_after-ascend sign_of previous (item ∷ items) h =
    let later : is_later previous item.month_utc ≡ true = ground arith in
    let rest : require_months_after sign_of (some item.month_utc) items ≡ ok tt = ground arith in
    let (sorted, after) = months_after-ascend sign_of (some item.month_utc) items rest in
    ((after, sorted), is_later-AllLater previous item items later after)

pub require_goal_monthly_reservation_order-MonthsAscend :
    (sign_of : String → Option ℤ) (items : List MonthlyReservation)
    → require_goal_monthly_reservation_order sign_of items ≡ ok tt
    → MonthsAscend items
unfolding require_goal_monthly_reservation_order
require_goal_monthly_reservation_order-MonthsAscend sign_of items h =
    (months_after-ascend sign_of none items h).0
