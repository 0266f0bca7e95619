-- ===== src/Application/ReviewCommands/Shared.antt =====
-- What `ContinueReview` and `Terminate` of
-- backend/internal/application/workspace/review_transition_use_cases.go share.
use cycle.Base.{Bool, true, false, not, ◌||◌, String, str_eq, if◌then◌else◌, Result, ok, err, ◌>>=◌}
use cycle.Identifier.{is_canonical_uuid_v7}
use cycle.Domain.Goal.{Goal}
use cycle.Application.Errors.{AppError, review_invariant, is_not_found}

-- The locked goal is not the one that the command names.
abbrev pub is_other_goal : Goal → String → String → Bool
is_other_goal locked_goal user_id goal_id =
    not (str_eq locked_goal.user_id user_id) || not (str_eq locked_goal.id goal_id)

-- The error that a missing review draft is reported by.
abbrev pub missing_draft_error : String → AppError → AppError
missing_draft_error detail e = if is_not_found e then review_invariant detail else e

-- What the generator of identifiers answers to its first and to its second call.
pub record Ids : Type 0 where
  pub first : Result AppError String
  pub second : Result AppError String

-- An identifier that the generator made must be canonical.
canonical_or : String → Result AppError String → Result AppError String
canonical_or message new_id = do
  id ← new_id
  if is_canonical_uuid_v7 id then ok id else err (review_invariant message)

-- The identifiers of the version and of the cycle: a version that is kept keeps its own.
unfoldable pub new_ids : Bool → String → Ids → Result AppError (String × String)
unfolding canonical_or
new_ids true current_id ids = do
  version_id ← canonical_or "ID generator returned a non-canonical Goal Version UUIDv7" ids.first
  cycle_id ← canonical_or "ID generator returned a non-canonical Cycle UUIDv7" ids.second
  ok (version_id, cycle_id)
new_ids false current_id ids = do
  cycle_id ← canonical_or "ID generator returned a non-canonical Cycle UUIDv7" ids.first
  ok (current_id, cycle_id)
