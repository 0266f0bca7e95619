-- ===== src/Tests/GoalPagingTests.antt =====
-- A page of one of two goals, with a codec that knows the cursors after one goal.
use cycle.Base.{
  ℤ, pos, negsuc, ℕ, zero, suc, ◌+◌, ◌≤◌, ◌<◌, ◌≡◌, refl, true, ◌&&◌, some, none, Option, Result,
  ok, err, List, [], ◌∷◌, All, Text, String, length, is_ok, arith, str_eq, eq_iff, text_eq,
  text_eq_iff, text_lt, if◌then◌else◌, same_value,
}
use cycle.GoStrings.{trim_space, trim_left, trim_right, is_space, codes}
use cycle.Identifier.{is_canonical_uuid_v7}
use cycle.Domain.Cycle.{Time}
use cycle.Domain.Goal
use cycle.Application.Errors.{AppError, external}
use cycle.Application.Views.{GoalView, GoalVersionView}
use cycle.Application.CycleListing.{CursorCodec, page_limit}
use cycle.Application.GoalChecks.{validate_goal_current_work}
use cycle.Application.GoalListing
use cycle.Application.GoalListing.{
  GoalListScope, GoalListKeyset, GoalListQuery, GoalQueryRow, GoalPage, GoalCursorPayload,
  scope_text, select_scope,
}
use cycle.Application.CycleLaws.Paging.{IsCodec}
use cycle.Application.GoalListingLaws.Paging.{IsCanonical, IsGoalPage, Names, list_goals-IsGoalPage}
use cycle.Tests.CommandTests.{goal_id, new_id, result_of}
use cycle.Tests.ContextTests.{value_eq}

abbrev marshal_fields : Text → Option ℤ → Option Time → Option ℤ → String → Result AppError Text
marshal_fields scope (some (pos (suc zero))) (some time) none id =
    if text_eq scope (scope_text GoalListScope.all) && str_eq id goal_id
    then ok (time ∷ [])
    else err (external "unknown payload")
marshal_fields scope category time sequence id = err (external "unknown payload")

abbrev unmarshal_time : Text → Option GoalCursorPayload
unmarshal_time (t ∷ []) = some (record {
  scope = scope_text GoalListScope.all;
  category = some (pos 1);
  time = some t;
  sequence = none;
  id = goal_id;
})
unmarshal_time _ = none

abbrev decode_marked : Text → Option Text
decode_marked [] = none
decode_marked (mark ∷ body) = some body

zeros : ℕ → Text
zeros zero = []
zeros (suc n) = 0 ∷ zeros n

abbrev codec : CursorCodec GoalCursorPayload
codec = record {
  marshal = λ p. marshal_fields p.scope p.category p.time p.sequence p.id;
  unmarshal = unmarshal_time;
  encode = λ body. 65 ∷ body;
  decode = decode_marked;
  hmac = λ body. zeros 32;
}

marshal_fields-known :
    (scope : Text) (category : Option ℤ) (time : Option Time) (sequence : Option ℤ) (id : String)
    (b : Text)
    → marshal_fields scope category time sequence id ≡ ok b
    → (unmarshal_time b
        ≡ some (record {
          scope = scope;
          category = category;
          time = time;
          sequence = sequence;
          id = id;
        }))
      × (0 < length b)
marshal_fields-known scope (some (pos (suc zero))) (some t) none id b h =
    ground (arith, text_eq_iff scope (scope_text GoalListScope.all), eq_iff id goal_id)
marshal_fields-known scope (some (pos (suc zero))) (some t) (some n) id b h = ground arith
marshal_fields-known scope (some (pos (suc zero))) none sequence id b h = ground arith
marshal_fields-known scope (some (pos zero)) time sequence id b h = ground arith
marshal_fields-known scope (some (pos (suc (suc c)))) time sequence id b h = ground arith
marshal_fields-known scope (some (negsuc c)) time sequence id b h = ground arith
marshal_fields-known scope none time sequence id b h = ground arith

codec-IsCodec : IsCodec codec
unfolding trim_space trim_left trim_right is_space zeros
codec-IsCodec = record {
  unmarshal = λ p b h. (marshal_fields-known p.scope p.category p.time p.sequence p.id b h).0;
  written = λ p b h. (marshal_fields-known p.scope p.category p.time p.sequence p.id b h).1;
  decode = λ b. refl;
  visible = λ b h. refl;
  size = λ b. refl;
}

abbrev version : GoalVersionView
version = record {
  id = new_id;
  version_number = pos 1;
  body = codes "walk";
  success_signal = none;
  created_at = 1000;
}

abbrev ended : String → GoalView
ended id = record {
  id = id;
  status = Goal.Status.ended;
  revision = pos 1;
  current_version = version;
  current_work = none;
  next_cycle_sequence_number = pos 2;
  cycle_count = pos 1;
  created_at = 1000;
  terminal_at = some 5000;
}

abbrev rows : List GoalQueryRow
rows =
    record { view = ended goal_id; category = pos 1; sort_time = 9000 }
    ∷ record { view = ended new_id; category = pos 1; sort_time = 8000 }
    ∷ []

abbrev query : GoalListQuery → Result AppError (List GoalQueryRow)
query q = ok rows

answered_ids :
    (q : GoalListQuery) (answer : List GoalQueryRow) → query q ≡ ok answer → All IsCanonical answer
unfolding IsCanonical is_canonical_uuid_v7
answered_ids q answer h = same_value (All IsCanonical) h (refl, (refl, tt))

abbrev page : Result AppError GoalPage
page = GoalListing.list_goals codec query "u" "" [] (pos 1)

page-is_ok : is_ok page ≡ true
unfolding GoalListing.list_goals GoalListing.decode_goal_cursor GoalListing.goal_page_of
    GoalListing.goal_cursor_after GoalListing.encode_goal_cursor GoalListing.goal_payload_of
    GoalListing.validate_goal_query_rows GoalListing.validate_rows_after GoalListing.goal_category
    GoalListing.category_differs GoalListing.goal_cursor_category_matches_scope
    GoalListing.row_out_of_order GoalListing.goal_query_row_follows select_scope page_limit
    validate_goal_current_work text_eq text_lt trim_space
page-is_ok = refl

list_goals-IsGoalPage_example :
    (selected : GoalListScope) × (after : Option GoalListKeyset) × (found : List GoalQueryRow)
    × Names "" selected
    × (query (record {
      user_id = "u";
      scope = selected;
      after = after;
      fetch_limit = page_limit (pos 1) + 1;
    })
        ≡ ok found)
    × (page_limit (pos 1) ≤ 50)
    × IsGoalPage codec codec-IsCodec (page_limit (pos 1)) selected found (result_of page page-is_ok)
list_goals-IsGoalPage_example =
    list_goals-IsGoalPage codec codec-IsCodec query "u" "" [] (pos 1) answered_ids
      (value_eq page page-is_ok)
