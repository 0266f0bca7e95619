-- ===== src/Tests/PagingTests.antt =====
-- A page of one of two cycles, with a codec that knows the cursors after one cycle.
use cycle.Base.{
  ℤ, pos, negsuc, ℕ, zero, suc, ◌+◌, ◌≤◌, ◌<◌, ◌≡◌, refl, true, ◌&&◌, some, none, Option, Result,
  ok, err, List, [], ◌∷◌, Text, String, length, is_ok, arith, str_eq, eq_iff, text_eq, text_eq_iff,
  if◌then◌else◌,
}
use cycle.GoStrings.{trim_space, trim_left, trim_right, is_space}
use cycle.Identifier.{is_canonical_uuid_v7}
use cycle.Domain.Cycle.{Time}
use cycle.Application.Errors.{AppError, external}
use cycle.Application.Views.{CycleSummary, CyclePage}
use cycle.Application.CycleChecks.{validate_cycle_summary_status_times, validate_cycle_goal_version}
use cycle.Application.CycleSummaries.{validate_cycle_summaries, validate_cycle_summary_previews}
use cycle.Application.CycleListing.{
  CycleListKeyset, CycleListQuery, CycleCursorPayload, CursorCodec, scope_of, payload_of,
  encode_cycle_cursor, decode_cycle_cursor, page_limit, list_cycles, page_of, cursor_after,
}
use cycle.Application.CycleLaws.Paging.{
  IsCodec, IsPage, decode-encode_cycle_cursor, list_cycles-IsPage,
}
use cycle.Tests.CommandTests.{goal_id, new_id, result_of}
use cycle.Tests.ContextTests.{value_eq}
use cycle.Tests.CommandLawTests.{rows}

abbrev marshal_fields : Text → Option ℤ → Option Time → Option ℤ → String → Result AppError Text
marshal_fields scope none none (some (pos n)) id =
    if text_eq scope (scope_of goal_id) && str_eq id new_id
    then ok (n ∷ [])
    else err (external "unknown payload")
marshal_fields scope category time sequence id = err (external "unknown payload")

abbrev unmarshal_number : Text → Option CycleCursorPayload
unmarshal_number (n ∷ []) = some (record {
  scope = scope_of goal_id;
  category = none;
  time = none;
  sequence = some (pos n);
  id = new_id;
})
unmarshal_number _ = none

abbrev decode_marked : Text → Option Text
decode_marked [] = none
decode_marked (mark ∷ body) = some body

zeros : ℕ → Text
zeros zero = []
zeros (suc n) = 0 ∷ zeros n

abbrev codec : CursorCodec CycleCursorPayload
codec = record {
  marshal = λ p. marshal_fields p.scope p.category p.time p.sequence p.id;
  unmarshal = unmarshal_number;
  encode = λ body. 65 ∷ body;
  decode = decode_marked;
  hmac = λ body. zeros 32;
}

marshal_fields-known :
    (scope : Text) (category : Option ℤ) (time : Option Time) (sequence : Option ℤ) (id : String)
    (b : Text)
    → marshal_fields scope category time sequence id ≡ ok b
    → (unmarshal_number b
        ≡ some (record {
          scope = scope;
          category = category;
          time = time;
          sequence = sequence;
          id = id;
        }))
      × (0 < length b)
marshal_fields-known scope none none (some (pos n)) id b h =
    ground (arith, text_eq_iff scope (scope_of goal_id), eq_iff id new_id)
marshal_fields-known scope none none (some (negsuc n)) id b h = ground arith
marshal_fields-known scope none none none id b h = ground arith
marshal_fields-known scope (some c) time sequence id b h = ground arith
marshal_fields-known scope none (some t) sequence id b h = ground arith

codec-IsCodec : IsCodec codec
unfolding trim_space trim_left trim_right is_space zeros
codec-IsCodec = record {
  unmarshal = λ p b h. (marshal_fields-known p.scope p.category p.time p.sequence p.id b h).0;
  written = λ p b h. (marshal_fields-known p.scope p.category p.time p.sequence p.id b h).1;
  decode = λ b. refl;
  visible = λ b h. refl;
  size = λ b. refl;
}

abbrev after_second : CycleListKeyset
after_second = record { sequence_number = pos 2; cycle_id = new_id }

encoded : encode_cycle_cursor codec goal_id after_second ≡ ok (65 ∷ 2 ∷ zeros 32)
unfolding encode_cycle_cursor payload_of text_eq
encoded = refl

canonical : is_canonical_uuid_v7 new_id ≡ true
unfolding is_canonical_uuid_v7
canonical = refl

decode-encode_cycle_cursor_example :
    decode_cycle_cursor codec (65 ∷ 2 ∷ zeros 32) goal_id ≡ ok (some after_second)
decode-encode_cycle_cursor_example =
    decode-encode_cycle_cursor codec codec-IsCodec goal_id after_second refl canonical encoded

abbrev query : CycleListQuery → Result AppError (List CycleSummary)
query q = ok rows

abbrev page : Result AppError CyclePage
page = list_cycles codec query "u" goal_id [] (pos 1)

page-is_ok : is_ok page ≡ true
unfolding list_cycles decode_cycle_cursor page_limit page_of cursor_after validate_cycle_summaries
    is_canonical_uuid_v7 validate_cycle_summary_status_times validate_cycle_summary_previews
    validate_cycle_goal_version encode_cycle_cursor payload_of text_eq trim_space
page-is_ok = refl

list_cycles-IsPage_example :
    (after : Option CycleListKeyset) × (found : List CycleSummary) × (query (record {
      user_id = "u";
      goal_id = goal_id;
      after = after;
      fetch_limit = page_limit (pos 1) + 1;
    })
      ≡ ok found)
    × (page_limit (pos 1) ≤ 50)
    × IsPage codec codec-IsCodec (page_limit (pos 1)) goal_id found (result_of page page-is_ok)
list_cycles-IsPage_example =
    list_cycles-IsPage codec codec-IsCodec query "u" goal_id [] (pos 1) (value_eq page page-is_ok)
