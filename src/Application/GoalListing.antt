-- ===== src/Application/GoalListing.antt =====
-- `ListGoals` and `GetGoal` of backend/internal/application/workspace/goal_use_cases.go, with the
-- cursor of a page.
use cycle.Base.{
  ℤ, pos, ℕ, ◌+◌, ◌-◌, Bool, true, false, not, ◌||◌, ◌==◌, Option, none, some, List, [], ◌∷◌, ◌++◌,
  map, Text, String, str_eq, text_eq, text_lt, int_eq, int_lt, length, take, drop, get_elem?, leb,
  ltb, if◌then◌else◌, Result, ok, err, ◌>>=◌, ◌>>◌, fail_if,
}
use cycle.GoStrings.{codes, trim_space, is_empty}
use cycle.Identifier.{is_canonical_uuid_v7}
use cycle.Domain.Cycle.{Time, is_set}
use cycle.Domain.Goal
use cycle.Application.Errors.{AppError, goal_invariant, invalid_cursor, external}
use cycle.Application.Views.{GoalView}
use cycle.Application.GoalChecks.{validate_goal_current_work}
use cycle.Application.CycleChecks.{is_zero_time}
use cycle.Application.CycleListing.{CursorCodec, signature_size, page_limit}

pub data GoalListScope : Type 0 where
  all progressing history : GoalListScope

pub record GoalListKeyset : Type 0 where
  pub category : ℤ
  pub sort_time : Time
  pub goal_id : String

pub record GoalListQuery : Type 0 where
  pub user_id : String
  pub scope : GoalListScope
  pub after : Option GoalListKeyset
  pub fetch_limit : ℕ

pub record GoalQueryRow : Type 0 where
  pub view : GoalView
  pub category : ℤ
  pub sort_time : Time

pub record GoalPage : Type 0 where
  pub items : List GoalView
  pub next_cursor : Option Text

pub record GoalCursorPayload : Type 0 where
  pub scope : Text
  pub category : Option ℤ
  pub time : Option Time
  pub sequence : Option ℤ
  pub id : String

abbrev pub scope_text : GoalListScope → Text
scope_text GoalListScope.all = codes "all"
scope_text GoalListScope.progressing = codes "progressing"
scope_text GoalListScope.history = codes "history"

-- No scope is the scope of all goals.
unfoldable pub select_scope : String → Result AppError GoalListScope
select_scope scope =
    if str_eq scope "" || str_eq scope "all"
    then ok GoalListScope.all
    else if str_eq scope "progressing"
    then ok GoalListScope.progressing
    else if str_eq scope "history"
    then ok GoalListScope.history
    else err invalid_cursor

unfoldable pub goal_cursor_category_matches_scope : ℤ → GoalListScope → Bool
goal_cursor_category_matches_scope category GoalListScope.all =
    int_eq category (pos 0) || int_eq category (pos 1)
goal_cursor_category_matches_scope category GoalListScope.progressing = int_eq category (pos 0)
goal_cursor_category_matches_scope category GoalListScope.history = int_eq category (pos 1)

unfoldable pub goal_payload_of : GoalListScope → GoalListKeyset → GoalCursorPayload
goal_payload_of scope keyset = record {
  scope = scope_text scope;
  category = some keyset.category;
  time = some keyset.sort_time;
  sequence = none;
  id = keyset.goal_id;
}

unfoldable pub goal_keyset_with :
    Option ℤ → Option Time → GoalCursorPayload → GoalListScope → Result AppError GoalListKeyset
unfolding goal_cursor_category_matches_scope
goal_keyset_with (some category) (some time) payload scope =
    if not (text_eq payload.scope (scope_text scope))
      || is_zero_time time
      || is_set payload.sequence
      || not (is_canonical_uuid_v7 payload.id)
      || not (goal_cursor_category_matches_scope category scope)
    then err invalid_cursor
    else ok (record { category = category; sort_time = time; goal_id = payload.id })
goal_keyset_with _ _ payload scope = err invalid_cursor

-- What the payload of a cursor must be.
unfoldable pub goal_keyset_of :
    Option GoalCursorPayload → GoalListScope → Result AppError GoalListKeyset
unfolding goal_keyset_with
goal_keyset_of none scope = err invalid_cursor
goal_keyset_of (some payload) scope = goal_keyset_with payload.category payload.time payload scope

unfoldable pub goal_category : Goal.Status → Result AppError ℤ
goal_category Goal.Status.active_cycle = ok (pos 0)
goal_category Goal.Status.goal_review = ok (pos 0)
goal_category Goal.Status.achieved = ok (pos 1)
goal_category Goal.Status.ended = ok (pos 1)
goal_category Goal.Status.unknown = err (goal_invariant "Goal status is invalid")

-- `err != nil || expectedCategory != row.Category`.
unfoldable pub category_differs : Result AppError ℤ → ℤ → Bool
category_differs (ok expected) category = not (int_eq expected category)
category_differs (err e) category = true

unfoldable pub goal_query_row_follows : GoalQueryRow → GoalQueryRow → Bool
goal_query_row_follows previous current =
    if not (int_eq current.category previous.category)
    then int_lt previous.category current.category
    else if not (current.sort_time == previous.sort_time)
    then ltb current.sort_time previous.sort_time
    else text_lt (codes current.view.id) (codes previous.view.id)

-- `index > 0 && !goalQueryRowFollows(…)`.
unfoldable pub row_out_of_order : Option GoalQueryRow → GoalQueryRow → Bool
unfolding goal_query_row_follows
row_out_of_order none row = false
row_out_of_order (some previous) row = not (goal_query_row_follows previous row)

-- The loop, from the row before.
unfoldable pub validate_rows_after :
    Option GoalQueryRow → List GoalQueryRow → GoalListScope → Result AppError (Unit {0})
unfolding goal_cursor_category_matches_scope goal_category category_differs row_out_of_order
    validate_goal_current_work
validate_rows_after previous [] scope = ok tt
validate_rows_after previous (row ∷ rows) scope = do
  fail_if
      (str_eq row.view.id ""
        || is_zero_time row.sort_time
        || not (goal_cursor_category_matches_scope row.category scope))
      (goal_invariant "Goal query row metadata is incomplete")
  fail_if (category_differs (goal_category row.view.status) row.category)
      (goal_invariant "Goal query row category does not match status")
  validate_goal_current_work row.view
  fail_if (row_out_of_order previous row) (goal_invariant "Goal query rows are not in stable order")
  validate_rows_after (some row) rows scope

unfoldable pub validate_goal_query_rows :
    List GoalQueryRow → GoalListScope → Result AppError (Unit {0})
unfolding validate_rows_after
validate_goal_query_rows rows scope = validate_rows_after none rows scope

abbrev pub views_of : List GoalQueryRow → List GoalView
views_of = map (λ (row : GoalQueryRow). row.view)

module _ (codec : CursorCodec GoalCursorPayload) where
  unfoldable pub encode_goal_cursor : GoalListScope → GoalListKeyset → Result AppError Text
  unfolding goal_payload_of
  encode_goal_cursor scope keyset = do
    body ← codec.marshal (goal_payload_of scope keyset)
    ok (codec.encode (body ++ codec.hmac body))

  unfoldable pub open_goal_cursor : Option Text → GoalListScope → Result AppError GoalListKeyset
  unfolding goal_keyset_of
  open_goal_cursor none scope = err invalid_cursor
  open_goal_cursor (some raw) scope =
      let size = length raw - signature_size in
      let body = take size raw in
      let opened = goal_keyset_of (codec.unmarshal body) scope in
      if leb (length raw) signature_size || not (text_eq (drop size raw) (codec.hmac body))
      then err invalid_cursor
      else opened

  unfoldable pub decode_goal_cursor : Text → GoalListScope → Result AppError (Option GoalListKeyset)
  unfolding open_goal_cursor
  decode_goal_cursor encoded scope =
      let opened = (do keyset ← open_goal_cursor (codec.decode encoded) scope; ok (some keyset)) in
      if is_empty (trim_space encoded) then ok none else opened

  -- The cursor after the row that ends the page, `rows[limit-1]`.
  unfoldable pub goal_cursor_after :
      Option GoalQueryRow → GoalListScope → Result AppError (Option Text)
  unfolding encode_goal_cursor
  goal_cursor_after none scope = err (external "index out of range")
  goal_cursor_after (some last) scope = do
    next ←
        encode_goal_cursor scope
          (record { category = last.category; sort_time = last.sort_time; goal_id = last.view.id })
    ok (some next)

  unfoldable pub goal_page_of : List GoalQueryRow → ℕ → GoalListScope → Result AppError GoalPage
  unfolding goal_cursor_after
  goal_page_of rows limit scope =
      let cut = (do
        next ← goal_cursor_after (get_elem? rows (limit - 1)) scope
        ok (record { items = views_of (take limit rows); next_cursor = next })) in
      if ltb limit (length rows)
      then cut
      else ok (record { items = views_of rows; next_cursor = none })

  -- `query` is `QueryGoalRows`.
  unfoldable pub list_goals :
      (GoalListQuery → Result AppError (List GoalQueryRow))
      → String
      → String
      → Text
      → ℤ
      → Result AppError GoalPage
  unfolding select_scope decode_goal_cursor page_limit validate_goal_query_rows goal_page_of
  list_goals query user_id scope cursor limit = do
    selected ← select_scope scope
    let limit = page_limit limit
    after ← decode_goal_cursor cursor selected
    rows ←
        query
          (record { user_id = user_id; scope = selected; after = after; fetch_limit = limit + 1 })
    fail_if (ltb (limit + 1) (length rows))
        (goal_invariant "Goal query returned more rows than requested")
    validate_goal_query_rows rows selected
    goal_page_of rows limit selected

-- `query` is `QueryGoal`.
unfoldable pub get_goal :
    (String → String → Result AppError GoalView) → String → String → Result AppError GoalView
unfolding validate_goal_current_work
get_goal query user_id goal_id = do
  view ← query user_id goal_id
  validate_goal_current_work view
  ok view
