-- ===== src/Tests/CommandLawTests.antt =====
-- The laws of the commands at what is written on a small database.
use cycle.Base.{
  ℤ, pos, ◌≡◌, ◌↔◌, inl, err, refl, true, false, some, none, ok, [], ◌∷◌, String, is_ok, All, List,
}
use cycle.GoStrings.{codes, trim_space, trim_left, trim_right, is_space}
use cycle.Identifier.{is_canonical_uuid_v7}
use cycle.Domain.Cycle
use cycle.Domain.Cycle.{PdcaCycle, Frame, Status, CancellationReason}
use cycle.Domain.CycleLaws.Completion.{
  CanComplete, complete_iff, IsIncomplete, complete-cycle_incomplete_iff,
}
use cycle.Application.Views.{CycleSummary}
use cycle.Application.CycleSummaries.{validate_cycle_summaries, validate_cycle_summary_previews}
use cycle.Application.CycleChecks.{validate_cycle_summary_status_times, validate_cycle_goal_version}
use cycle.Application.CycleLaws.Listing.{
  IsDescending, IsNamed, validate_cycle_summaries-IsDescending,
}
use cycle.Tests.CommandTests.{filled, version_id, cycle_id, new_id}

complete_iff_example :
    (is_ok (Cycle.complete filled "op" "h" (pos 4) false 5000) ≡ true)
    ↔ CanComplete filled (pos 4) false
complete_iff_example = complete_iff filled "op" "h" (pos 4) false 5000

abbrev unplanned : PdcaCycle
unplanned = record filled { plan = codes "  " }

complete-cycle_incomplete_iff_example :
    (Cycle.complete unplanned "op" "h" (pos 4) false 5000 ≡ err Cycle.cycle_incomplete)
    ↔ IsIncomplete unplanned (pos 4) false
complete-cycle_incomplete_iff_example =
    complete-cycle_incomplete_iff unplanned "op" "h" (pos 4) false 5000

unplanned-IsIncomplete : IsIncomplete unplanned (pos 4) false
unfolding Cycle.is_blank Cycle.new trim_space trim_left trim_right is_space
unplanned-IsIncomplete = record { active = refl; current = refl; idle = refl; blank = inl refl }

abbrev summary : String → ℤ → Status → CycleSummary
summary id n status = record {
  id = id;
  sequence_number = n;
  status = status;
  started_at = 1000;
  completed_at = none;
  canceled_at = none;
  cancellation_reason = none;
  goal_version = record {
    id = version_id;
    version_number = pos 1;
    body = codes "run";
    success_signal = none;
    created_at = 1000;
  };
  plan_preview = codes "p";
  learning_preview = none;
}

abbrev finished : CycleSummary
finished = record (summary cycle_id (pos 1) Status.completed) {
  completed_at = some 3000;
  learning_preview = some (record {
    check = record { text = codes "c"; truncated = false };
    action = record { text = codes "a"; truncated = false };
  });
}

abbrev pub rows : List CycleSummary
rows = summary new_id (pos 2) Status.active ∷ finished ∷ []

pub rows_valid : validate_cycle_summaries rows ≡ ok tt
unfolding validate_cycle_summaries is_canonical_uuid_v7 validate_cycle_summary_status_times
    validate_cycle_summary_previews validate_cycle_goal_version
rows_valid = refl

validate_cycle_summaries-IsDescending_example : IsDescending rows × All IsNamed rows
validate_cycle_summaries-IsDescending_example =
    validate_cycle_summaries-IsDescending rows rows_valid
