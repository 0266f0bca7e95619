-- ===== src/Tests/ContextTests.antt =====
-- The selection of a context with a counter of code points: of two past cycles one fits.
use cycle.Base.{
  ℤ, pos, negsuc, ℕ, ◌*◌, ◌/◌, ◌≡◌, refl, true, false, some, none, Option, Result, ok, err, List,
  [], ◌∷◌, ◌++◌, Text, String, length, take, is_ok, add64, sub64, str_eq,
}
use cycle.GoStrings.{codes}
use cycle.Domain.Ai.{OperationType}
use cycle.Domain.Cycle
use cycle.Application.Errors.{AppError}
use cycle.Application.ContextSelector.{
  Service, TokenCounter, Snapshot, ContextCycle, InputCycle, ProviderInput, refine_goal,
  generate_action, refine_action, Entitlements, set_canonical_provider_input_hash,
  verify_canonical_provider_input_hash, select_ai_context, select_ai_context_for_user,
}
use cycle.Application.ContextLaws.Budget.{Fits, select_ai_context-Fits}
use cycle.Application.ContextLaws.Prefix.{SelectedPrefix, select_ai_context-SelectedPrefix}
use cycle.Application.ContextLaws.Canonical.{select_ai_context_for_user-verify}
use cycle.Tests.CommandTests.{result_of, absurd_of}

abbrev cut : ℤ → Text → Text
cut (pos n) text = take n text
cut (negsuc n) text = []

abbrev counter : TokenCounter
counter = record {
  count = λ model text. ok (pos (length text));
  truncate = λ model text n marker. ok (cut n text);
}

abbrev share_of : ℤ → ℕ → ℤ
share_of (pos n) minimum = pos (n * minimum / 1000)
share_of (negsuc n) minimum = pos 0

print_cycles : List InputCycle → Text
print_cycles [] = []
print_cycles (c ∷ cycles) = c.plan ++ c.do_ ++ c.check ++ c.action ++ print_cycles cycles

print_current : Option InputCycle → Text
print_current none = []
print_current (some c) = c.plan ++ c.do_ ++ c.check ++ c.action

print_input : ProviderInput → Text
unfolding print_cycles print_current
print_input (refine_goal instructions goal source past n) = goal ++ source ++ print_cycles past
print_input (generate_action instructions goal current past n) =
    goal ++ print_current current ++ print_cycles past
print_input (refine_action instructions goal current past n) =
    goal ++ print_current current ++ print_cycles past

abbrev service : Service
unfolding print_input
service = record {
  token_counter = some counter;
  model = "m";
  max_context_cycles = pos 5;
  max_provider_attempts = pos 1;
  goal_refine = record { instructions = []; prompt_version = "1" };
  action_generate = record { instructions = []; prompt_version = "1" };
  action_refine = record { instructions = []; prompt_version = "1" };
  marshal_input = λ input. ok (print_input input);
  marshal_canonical = λ input. ok input.selected_context;
  digest = λ text. "digest";
  share = share_of;
}

abbrev past : String → ℕ → ContextCycle
past id n = record {
  id = id;
  goal_id = "g";
  sequence_number = pos n;
  status = Cycle.Status.completed;
  goal_body = codes "run";
  plan = codes "plan";
  do_ = codes "do";
  check = codes "check";
  action = codes "action";
}

abbrev snapshot : Snapshot
snapshot = record {
  generation_id = "x";
  operation = OperationType.action_generate;
  target_revision = pos 1;
  source_goal_revision = pos 1;
  canonical_provider_input_hash = "";
  max_output_tokens = pos 100;
  goal_id = "g";
  goal_body = codes "run";
  source_text = [];
  current_cycle = some (past "c3" 3);
  past_cycles = past "c2" 2 ∷ past "c1" 1 ∷ [];
  current_truncated = false;
  replayed_output = none;
  replayed_context_changed = false;
  replayed_content_revision = pos 0;
  replayed_action_revision = pos 0;
}

abbrev selection : Result AppError Snapshot
selection = select_ai_context service snapshot (pos 70)

pub value_eq : {A : Type 0} (r : Result AppError A) (h : is_ok r ≡ true) → r ≡ ok (result_of r h)
value_eq (ok a) h = refl
value_eq (err e) h = absurd_of h

selection-is_ok : is_ok selection ≡ true
unfolding select_ai_context service add64
selection-is_ok = refl

abbrev selected : Snapshot
selected = result_of selection selection-is_ok

-- A budget below the current input: the input is cut.
abbrev tight : Result AppError Snapshot
tight = select_ai_context service snapshot (pos 40)

tight-is_ok : is_ok tight ≡ true
unfolding select_ai_context service add64 sub64
tight-is_ok = refl

select_ai_context-Fits_example :
    (c : TokenCounter) × (service.token_counter ≡ some c) × Fits service c (pos 70) selected
select_ai_context-Fits_example =
    select_ai_context-Fits service snapshot (pos 70) (value_eq selection selection-is_ok)

select_ai_context-SelectedPrefix_example :
    (c : TokenCounter) × (service.token_counter ≡ some c)
    × SelectedPrefix service c (pos 70) snapshot selected
select_ai_context-SelectedPrefix_example =
    select_ai_context-SelectedPrefix service snapshot (pos 70) (value_eq selection selection-is_ok)

abbrev limits : Entitlements
limits = record {
  max_progressing_goals = pos 3;
  max_ai_operations_per_24_hours = pos 20;
  max_ai_input_tokens = pos 70;
  goal_refine_output_tokens = pos 100;
  action_output_tokens = pos 100;
}

abbrev for_user : Result AppError Snapshot
for_user = select_ai_context_for_user service (ok limits) snapshot

for_user-is_ok : is_ok for_user ≡ true
unfolding select_ai_context_for_user select_ai_context service add64
    set_canonical_provider_input_hash
for_user-is_ok = refl

digests : (t : Text) → str_eq (service.digest t) "" ≡ false
unfolding service
digests t = refl

select_ai_context_for_user-verify_example :
    verify_canonical_provider_input_hash service (result_of for_user for_user-is_ok) ≡ ok tt
select_ai_context_for_user-verify_example =
    select_ai_context_for_user-verify service digests (ok limits) snapshot
      (value_eq for_user for_user-is_ok)
