-- ===== src/Tests/GoalTests.antt =====
-- The goal's transitions and the AI's texts at concrete inputs.
use cycle.Base.{
  inc64, pos, negsuc, ◌≡◌, ◌≤◌, refl, true, false, some, none, ok, err, [], ◌∷◌, ◌++◌, List, length,
  Text, arith, text_eq,
}
use cycle.GoStrings.{
  codes, lf, cr, has_forbidden, normalize_line_endings, trim_space, is_space, is_control,
}
use cycle.Domain.Cycle
use cycle.Domain.Goal
use cycle.Domain.Goal.{
  Draft, DraftType, Goal, Version, Status, InitialAggregate, ReplanResult, normalize_text,
  normalize_success_signal,
}
use cycle.Domain.GoalLaws.Drafts.{save_draft_lem, save_draft_again, save_draft_conflict}
use cycle.Domain.GoalLaws.Aggregate.{
  Aggregate, IsConsistent, here, then_step, stop_active, start-Reach-IsConsistent, replan_accepted,
}
use cycle.Domain.Ai.{
  validate_goal_suggestion, validate_refined_action, normalize_ai_text, render_generated_actions,
}
use cycle.Domain.Ai.Accepted.{
  Applies, validate_goal_suggestion-accepted, validate_refined_action-Applies,
  render_generated_actions-Applies,
}

abbrev body : Text
body = codes "run"

abbrev draft : Draft
draft = record {
  id = "d";
  user_id = "u";
  type = DraftType.creation;
  goal_id = none;
  base_goal_version_id = none;
  review_cycle_id = none;
  body = codes "walk";
  success_signal = none;
  revision = pos 0;
  created_at = 1;
  updated_at = 1;
}

abbrev saved_draft : Draft
saved_draft = record draft {
  body = body;
  success_signal = some body;
  revision = pos 1;
  updated_at = 2;
}

save_run : Goal.save_draft draft body (some body) (pos 0) 2 ≡ ok (saved_draft, false)
unfolding Goal.save_draft normalize_text normalize_success_signal normalize_line_endings
    has_forbidden text_eq trim_space is_space inc64
save_run = refl

save_draft_lem_example : pos 0 ≡ pos 0
save_draft_lem_example = (save_draft_lem draft body (some body) (pos 0) 2 save_run).2

save_draft_again_example :
    Goal.save_draft saved_draft body (some body) (negsuc 4) 9 ≡ ok (saved_draft, true)
save_draft_again_example = save_draft_again draft body (some body) (pos 0) 2 save_run (negsuc 4) 9

abbrev other : Text
other = codes "swim"

save_draft_conflict_example :
    Goal.save_draft saved_draft other none (pos 0) 9 ≡ err Goal.state_conflict
unfolding normalize_text normalize_success_signal normalize_line_endings has_forbidden
save_draft_conflict_example =
    save_draft_conflict draft body (some body) (pos 0) 2 save_run other other none none 9 refl refl
      (λ e. cc)

abbrev goal : Goal
goal = record {
  id = "g";
  user_id = "u";
  status = Status.active_cycle;
  current_version_number = pos 1;
  next_cycle_sequence_number = pos 2;
  revision = pos 0;
  terminal_at = none;
  terminal_operation_id = none;
  terminal_request_hash = none;
  created_at = 5;
  updated_at = 5;
}

abbrev started : InitialAggregate
started = record {
  goal = goal;
  version = record {
    id = "v";
    user_id = "u";
    goal_id = "g";
    version_number = pos 1;
    body = codes "walk";
    success_signal = none;
    created_by_operation_id = "op";
    created_at = 5;
  };
  first = Cycle.new "c" "u" "g" "v" (pos 1) "op" "hash" 5;
}

start_walk : Goal.start_initial draft "g" "v" "c" "op" "hash" 5 ≡ ok started
unfolding Goal.start_initial normalize_text normalize_success_signal normalize_line_endings
    has_forbidden trim_space is_space
start_walk = refl

abbrev first : Aggregate
first = record { goal = started.goal; version = started.version; latest = started.first }

abbrev achieved_goal : Goal
achieved_goal = record goal {
  status = Status.achieved;
  revision = pos 1;
  terminal_at = some 8;
  terminal_operation_id = some "end";
  terminal_request_hash = some "h";
  updated_at = 8;
}

achieve : Goal.terminate goal Status.achieved "end" "h" 8 ≡ ok achieved_goal
unfolding Goal.terminate inc64
achieve = refl

abbrev stopped : Cycle.PdcaCycle
stopped = record started.first {
  status = Cycle.Status.canceled;
  canceled_at = some 8;
  cancellation_reason = some Cycle.CancellationReason.goal_achieved;
  updated_at = 8;
}

stop_first : Cycle.cancel started.first Cycle.CancellationReason.goal_achieved 8 ≡ ok stopped
unfolding Cycle.cancel Cycle.is_valid_cancellation_reason Cycle.new
stop_first = refl

start-Reach-IsConsistent_example :
    IsConsistent (record first { goal = achieved_goal; latest = stopped })
start-Reach-IsConsistent_example =
    start-Reach-IsConsistent draft "g" "v" "c" "op" "hash" 5 start_walk (
      then_step here (
        stop_active Status.achieved Cycle.CancellationReason.goal_achieved "end" "h" 8 achieved_goal
          stopped stop_first achieve refl))

first-IsConsistent : IsConsistent first
first-IsConsistent = start-Reach-IsConsistent draft "g" "v" "c" "op" "hash" 5 start_walk here

first_sequence : first.latest.sequence_number ≡ pos 1
unfolding Cycle.new
first_sequence = refl

replan_accepted_example :
    (r : ReplanResult) × (Goal.replan goal started.version started.first "c2" "op2" "h" 9 ≡ ok r)
    × (r.canceled.status ≡ Cycle.Status.canceled)
    × (r.next.sequence_number ≡ pos 2)
replan_accepted_example =
    replan_accepted {a = first} 1 "c2" "op2" "h" 9 first-IsConsistent refl first_sequence
      (omega arith)

abbrev actions : List Text
actions = (codes " one" ++ cr ∷ []) ∷ codes "two" ∷ []

abbrev rendered : Text
rendered = codes "1. one" ++ (lf ∷ lf ∷ codes "2. two")

render_two : render_generated_actions actions ≡ ok rendered
unfolding render_generated_actions normalize_ai_text normalize_line_endings is_control trim_space
    is_space
render_two = refl

render_generated_actions-Applies_example :
    (1 ≤ length actions) × (length actions ≤ 3) × Applies rendered
render_generated_actions-Applies_example =
    render_generated_actions-Applies actions rendered render_two

validate_refined_action-Applies_example : Applies body
unfolding validate_refined_action normalize_line_endings is_control trim_space is_space
validate_refined_action-Applies_example = validate_refined_action-Applies body body refl

validate_goal_suggestion-accepted_example : normalize_text body false ≡ ok body
unfolding validate_goal_suggestion normalize_line_endings is_control trim_space is_space
validate_goal_suggestion-accepted_example = validate_goal_suggestion-accepted body body refl
