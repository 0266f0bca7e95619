-- ===== src/Application/CycleListing.antt =====
-- `ListCycles` and `GetCycle` of backend/internal/application/workspace/cycle_use_cases.go, with the
-- cursor of a page. A byte string is a list of numbers. `json.Marshal` and `json.Unmarshal` of the
-- payload, the URL encoding of Base64 and the keyed HMAC are arguments.
use cycle.Base.{
  ℤ, pos, ℕ, zero, suc, ◌+◌, ◌-◌, not, ◌||◌, Option, none, some, List, ◌++◌, Text, String, text_eq,
  length, take, drop, get_elem?, leb, ltb, if◌then◌else◌, Result, ok, err, ◌>>=◌, ◌>>◌, fail_if,
}
use cycle.GoStrings.{codes, trim_space, is_empty}
use cycle.Identifier.{is_canonical_uuid_v7}
use cycle.Domain.Cycle.{Time, is_set}
use cycle.Application.Errors.{AppError, cycle_invariant, invalid_cursor, external}
use cycle.Application.Views.{CycleSummary, CyclePage, CycleView}
use cycle.Application.GoalChecks.{not_positive}
use cycle.Application.CycleChecks.{validate_cycle_view}
use cycle.Application.CycleSummaries.{validate_cycle_summaries}

pub record CycleListKeyset : Type 0 where
  pub sequence_number : ℤ
  pub cycle_id : String

pub record CycleListQuery : Type 0 where
  pub user_id : String
  pub goal_id : String
  pub after : Option CycleListKeyset
  pub fetch_limit : ℕ

-- The scope is `"cycles:" + goalID`: its two parts.
pub record CycleCursorPayload : Type 0 where
  pub scope : Text
  pub category : Option ℤ
  pub time : Option Time
  pub sequence : Option ℤ
  pub id : String

-- The codec of a payload `P`; `hmac` is with the signing key.
pub record CursorCodec (P : Type 0) : Type 0 where
  pub marshal : P → Result AppError Text
  pub unmarshal : Text → Option P
  pub encode : Text → Text
  pub decode : Text → Option Text
  pub hmac : Text → Text

abbrev pub signature_size : ℕ
signature_size = 32

abbrev pub scope_of : String → Text
scope_of goal_id = codes "cycles:" ++ codes goal_id

unfoldable pub payload_of : String → CycleListKeyset → CycleCursorPayload
payload_of goal_id keyset = record {
  scope = scope_of goal_id;
  category = none;
  time = none;
  sequence = some keyset.sequence_number;
  id = keyset.cycle_id;
}

unfoldable pub keyset_with :
    Option ℤ → CycleCursorPayload → String → Result AppError CycleListKeyset
keyset_with none payload goal_id = err invalid_cursor
keyset_with (some sequence) payload goal_id =
    if not (text_eq payload.scope (scope_of goal_id))
      || is_set payload.category
      || is_set payload.time
      || not_positive sequence
      || not (is_canonical_uuid_v7 payload.id)
    then err invalid_cursor
    else ok (record { sequence_number = sequence; cycle_id = payload.id })

-- What the payload of a cursor must be.
unfoldable pub keyset_of : Option CycleCursorPayload → String → Result AppError CycleListKeyset
unfolding keyset_with
keyset_of none goal_id = err invalid_cursor
keyset_of (some payload) goal_id = keyset_with payload.sequence payload goal_id

-- `limit` as it is used: 20 for none, 50 at most.
unfoldable pub page_limit : ℤ → ℕ
page_limit (pos zero) = 20
page_limit (pos (suc n)) = if ltb 50 (suc n) then 50 else suc n
page_limit _ = 20

module _ (codec : CursorCodec CycleCursorPayload) where
  unfoldable pub encode_cycle_cursor : String → CycleListKeyset → Result AppError Text
  unfolding payload_of
  encode_cycle_cursor goal_id keyset = do
    body ← codec.marshal (payload_of goal_id keyset)
    ok (codec.encode (body ++ codec.hmac body))

  unfoldable pub open_cursor : Option Text → String → Result AppError CycleListKeyset
  unfolding keyset_of
  open_cursor none goal_id = err invalid_cursor
  open_cursor (some raw) goal_id =
      let size = length raw - signature_size in
      let body = take size raw in
      let opened = keyset_of (codec.unmarshal body) goal_id in
      if leb (length raw) signature_size || not (text_eq (drop size raw) (codec.hmac body))
      then err invalid_cursor
      else opened

  unfoldable pub decode_cycle_cursor : Text → String → Result AppError (Option CycleListKeyset)
  unfolding open_cursor
  decode_cycle_cursor encoded goal_id =
      let opened = (do keyset ← open_cursor (codec.decode encoded) goal_id; ok (some keyset)) in
      if is_empty (trim_space encoded) then ok none else opened

  -- The cursor after the row that ends the page, `rows[limit-1]`.
  unfoldable pub cursor_after : Option CycleSummary → String → Result AppError (Option Text)
  unfolding encode_cycle_cursor
  cursor_after none goal_id = err (external "index out of range")
  cursor_after (some last) goal_id = do
    next ←
        encode_cycle_cursor goal_id
          (record { sequence_number = last.sequence_number; cycle_id = last.id })
    ok (some next)

  unfoldable pub page_of : List CycleSummary → ℕ → String → Result AppError CyclePage
  unfolding cursor_after
  page_of rows limit goal_id =
      let cut = (do
        next ← cursor_after (get_elem? rows (limit - 1)) goal_id
        ok (record { items = take limit rows; next_cursor = next })) in
      if ltb limit (length rows) then cut else ok (record { items = rows; next_cursor = none })

  -- `query` is `QueryCycleRows`.
  unfoldable pub list_cycles :
      (CycleListQuery → Result AppError (List CycleSummary))
      → String
      → String
      → Text
      → ℤ
      → Result AppError CyclePage
  unfolding decode_cycle_cursor page_limit validate_cycle_summaries page_of
  list_cycles query user_id goal_id cursor limit = do
    let limit = page_limit limit
    after ← decode_cycle_cursor cursor goal_id
    rows ←
        query
          (record { user_id = user_id; goal_id = goal_id; after = after; fetch_limit = limit + 1 })
    fail_if (ltb (limit + 1) (length rows))
        (cycle_invariant "Cycle query returned more rows than requested")
    validate_cycle_summaries rows
    page_of rows limit goal_id

-- `query` is `QueryCycle`.
unfoldable pub get_cycle :
    (String → String → String → Result AppError CycleView)
    → String
    → String
    → String
    → Result AppError CycleView
unfolding validate_cycle_view
get_cycle query user_id goal_id cycle_id = do
  view ← query user_id goal_id cycle_id
  validate_cycle_view view goal_id cycle_id
  ok view
