-- ===== src/Domain/Ai.antt =====
-- backend/internal/domain/ai: the AI operations and the rules for what a provider returns.
-- `errors.Join` is a constructor with the joined error; `Sprintf("%d. ", n)` is at n from 1 to 3.
pub mod Accepted
use cycle.Base.{
  ℕ, suc, ◌+◌, Bool, true, false, not, ◌&&◌, ◌||◌, Option, none, some, List, [], ◌∷◌, ◌++◌, Text,
  String, str_eq, length, ltb, ◌==◌, if◌then◌else◌, Result, ok, err, ◌>>=◌, ◌>>◌, fail_if,
}
use cycle.GoStrings.{lf, tab, normalize_line_endings, is_control, trim_space, is_empty}
use cycle.Domain.Cycle
use cycle.Domain.Cycle.{CycleError, max_frame_code_points}
use cycle.Domain.Goal
use cycle.Domain.Goal.{GoalError, max_goal_code_points}

-- `OperationType`; `unknown` is every other string.
pub data OperationType : Type 0 where
  goal_refine action_generate action_refine unknown : OperationType

unfoldable pub is_valid : OperationType → Bool
is_valid OperationType.unknown = false
is_valid _ = true

pub data AiError : Type 0 where
  invalid_goal_suggestion : GoalError → AiError
  invalid_action_count : AiError
  invalid_action_text : Option CycleError → AiError

-- A control character that is neither a line feed nor a tab.
has_control : Text → Bool
has_control [] = false
has_control (c ∷ s) = (is_control c && not (c == lf) && not (c == tab)) || has_control s

unfoldable pub normalize_ai_text : Text → Option Text
unfolding has_control
normalize_ai_text value =
    let value = normalize_line_endings value in if has_control value then none else some value

-- `if !valid { return "", err }`.
abbrev pub or_fail {ℓ} : {E : Type 0} {A : Type ℓ} → Option A → E → Result E A
or_fail none e = err e
or_fail (some a) e = ok a

unfoldable pub validate_goal_suggestion : Text → Result AiError Text
unfolding normalize_ai_text
validate_goal_suggestion suggestion = do
  normalized ←
      or_fail (normalize_ai_text suggestion) (invalid_goal_suggestion Goal.forbidden_character)
  fail_if (is_empty (trim_space normalized)) (invalid_goal_suggestion Goal.text_required)
  fail_if (ltb max_goal_code_points (length normalized))
      (invalid_goal_suggestion Goal.text_too_long)
  ok normalized

-- One action: normalised and trimmed.
render_action : Text → Result AiError Text
render_action action = do
  normalized ←
      or_fail (normalize_ai_text action) (invalid_action_text (some Cycle.forbidden_character))
  let normalized = trim_space normalized
  fail_if (is_empty normalized) (invalid_action_text none)
  ok normalized

-- The loop, from the number of the first action.
render_from : ℕ → List Text → Result AiError (List Text)
unfolding render_action
render_from number [] = ok []
render_from number (action ∷ rest) = do
  normalized ← render_action action
  later ← render_from (suc number) rest
  ok (((b'0' + number) ∷ b'.' ∷ b' ' ∷ normalized) ∷ later)

-- `strings.Join(rendered, "\n\n")`.
join : List Text → Text
join [] = []
join (s ∷ []) = s
join (s ∷ t ∷ rest) = s ++ (lf ∷ lf ∷ join (t ∷ rest))

unfoldable pub render_generated_actions : List Text → Result AiError Text
unfolding render_from join
render_generated_actions actions = do
  fail_if (ltb (length actions) 1 || ltb 3 (length actions)) invalid_action_count
  rendered ← render_from 1 actions
  let output = join rendered
  fail_if (ltb max_frame_code_points (length output))
      (invalid_action_text (some Cycle.frame_text_too_long))
  ok output

unfoldable pub validate_refined_action : Text → Result AiError Text
unfolding normalize_ai_text
validate_refined_action action = do
  normalized ←
      or_fail (normalize_ai_text action) (invalid_action_text (some Cycle.forbidden_character))
  fail_if (is_empty (trim_space normalized)) (invalid_action_text none)
  fail_if (ltb max_frame_code_points (length normalized))
      (invalid_action_text (some Cycle.frame_text_too_long))
  ok normalized
