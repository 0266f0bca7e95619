-- ===== src/Application/ContextSelector/Truncate.antt =====
-- `truncateCurrentInput` of backend/internal/application/workspace/context_selector.go.
-- A minimum is in thousandths. The parallel slices of the source are one list of allocations. A
-- field of a cycle that is nil is a panic there, and an error here.
use cycle.Base.{
  ℤ, pos, ℕ, zero, suc, Bool, true, false, not, ◌||◌, Option, none, some, List, [], ◌∷◌, Text,
  text_eq, int_lt, int_le, int_min, int_max, add64, sub64, if◌then◌else◌, Result, ok, err, ◌>>=◌,
  ◌>>◌, fail_if,
}
use cycle.GoStrings.{codes}
use cycle.Domain.Ai.{OperationType}
use cycle.Application.Errors.{AppError, ai_input_budget, external}
use cycle.Application.ContextSelector.Data.{Service, TokenCounter, Snapshot, ContextCycle}
use cycle.Application.ContextSelector.Input.{count_provider_input}

abbrev pub truncation_marker : Text
truncation_marker = codes "…（入力の一部を省略）"

-- `contextFieldSpec.name`.
pub data Field : Type 0 where
  goal source plan do_ check action : Field

pub record FieldSpec : Type 0 where
  pub name : Field
  pub minimum : ℕ

abbrev spec : Field → ℕ → FieldSpec
spec name minimum = record { name = name; minimum = minimum }

unfoldable pub current_field_specs : OperationType → List FieldSpec
current_field_specs OperationType.goal_refine = spec source 700 ∷ spec goal 300 ∷ []
current_field_specs OperationType.action_generate =
    spec goal 100 ∷ spec plan 100 ∷ spec do_ 100 ∷ spec check 100 ∷ []
current_field_specs OperationType.action_refine =
    spec action 400 ∷ spec goal 200 ∷ spec plan 133 ∷ spec do_ 133 ∷ spec check 133 ∷ []
current_field_specs OperationType.unknown = []

abbrev pub is_empty_specs : List FieldSpec → Bool
is_empty_specs [] = true
is_empty_specs (s ∷ specs) = false

-- The access to a nil `CurrentCycle`.
abbrev nil_current_cycle : AppError
nil_current_cycle = external "nil pointer dereference"

cycle_field : Field → ContextCycle → Text
cycle_field plan c = c.plan
cycle_field do_ c = c.do_
cycle_field check c = c.check
cycle_field action c = c.action
cycle_field goal c = []
cycle_field source c = []

of_current : Option ContextCycle → Field → Result AppError Text
unfolding cycle_field
of_current none name = err nil_current_cycle
of_current (some c) name = ok (cycle_field name c)

unfoldable pub context_field : Snapshot → Field → Result AppError Text
unfolding of_current
context_field snapshot goal = ok snapshot.goal_body
context_field snapshot source = ok snapshot.source_text
context_field snapshot name = of_current snapshot.current_cycle name

set_cycle_field : Field → Text → ContextCycle → ContextCycle
set_cycle_field plan value c = record c { plan = value }
set_cycle_field do_ value c = record c { do_ = value }
set_cycle_field check value c = record c { check = value }
set_cycle_field action value c = record c { action = value }
set_cycle_field goal value c = c
set_cycle_field source value c = c

set_current : Option ContextCycle → Field → Text → Result AppError (Option ContextCycle)
unfolding set_cycle_field
set_current none name value = err nil_current_cycle
set_current (some c) name value = ok (some (set_cycle_field name value c))

unfoldable pub set_context_field : Snapshot → Field → Text → Result AppError Snapshot
unfolding set_current
set_context_field snapshot goal value = ok (record snapshot { goal_body = value })
set_context_field snapshot source value = ok (record snapshot { source_text = value })
set_context_field snapshot name value = do
  current ← set_current snapshot.current_cycle name value
  ok (record snapshot { current_cycle = current })

unfoldable pub clear_fields : List FieldSpec → Snapshot → Result AppError Snapshot
unfolding set_context_field
clear_fields [] snapshot = ok snapshot
clear_fields (s ∷ specs) snapshot = do
  cleared ← set_context_field snapshot s.name []
  clear_fields specs cleared

-- One index of `specs`, `originalCounts` and `allocations`.
pub record Allocation : Type 0 where
  pub name : Field
  pub original : ℤ
  pub tokens : ℤ

unfoldable pub used_by : List Allocation → ℤ → ℤ
used_by [] used = used
used_by (a ∷ rest) used = used_by rest (add64 used (int_min a.original a.tokens))

-- What is left goes to the fields in their order.
unfoldable pub hand_out : List Allocation → ℤ → List Allocation
hand_out [] remaining = []
hand_out (a ∷ rest) remaining =
    let needed = sub64 a.original a.tokens in
    let extra = int_min needed remaining in
    let skipped = hand_out rest remaining in
    let taken = hand_out rest (sub64 remaining extra) in
    if int_le needed (pos 0) || int_le remaining (pos 0)
    then a ∷ skipped
    else record a { tokens = add64 a.tokens extra } ∷ taken

-- The greatest positive allocation.
unfoldable pub greatest : List Allocation → ℤ → ℤ
greatest [] best = best
greatest (a ∷ rest) best = greatest rest (int_max best a.tokens)

-- The first allocation of `size` tokens loses `loss`.
unfoldable pub shrink : List Allocation → ℤ → ℤ → List Allocation
shrink [] size loss = []
shrink (a ∷ rest) size loss =
    let later = shrink rest size loss in
    if not (int_lt a.tokens size)
    then record a { tokens = int_max (pos 0) (sub64 a.tokens loss) } ∷ rest
    else a ∷ later

module _ (service : Service) (counter : TokenCounter) where
  unfoldable pub allocate : List FieldSpec → Snapshot → ℤ → Result AppError (List Allocation)
  unfolding context_field
  allocate [] snapshot available = ok []
  allocate (s ∷ specs) snapshot available = do
    text ← context_field snapshot s.name
    original ← counter.count service.model text
    rest ← allocate specs snapshot available
    ok (
        record { name = s.name; original = original; tokens = service.share available s.minimum }
        ∷ rest)

  -- `apply` of `snapshot` to `truncated`, whose flag is reset.
  unfoldable pub apply_fields : List Allocation → Snapshot → Snapshot → Result AppError Snapshot
  unfolding context_field set_context_field
  apply_fields [] snapshot truncated = ok truncated
  apply_fields (a ∷ rest) snapshot truncated = do
    original ← context_field snapshot a.name
    value ← counter.truncate service.model original a.tokens truncation_marker
    written ← set_context_field truncated a.name value
    apply_fields rest snapshot (record written {
      current_truncated = truncated.current_truncated || not (text_eq value original);
    })

  unfoldable pub apply : List Allocation → Snapshot → Snapshot → Result AppError Snapshot
  unfolding apply_fields
  apply allocations snapshot truncated =
      apply_fields allocations snapshot (record truncated { current_truncated = false })

  -- The loop over the attempts left. An attempt that fits ends it, and so do allocations that are
  -- all spent.
  unfoldable pub attempt : ℕ → ℤ → List Allocation → Snapshot → Snapshot → Result AppError Snapshot
  unfolding count_provider_input greatest shrink apply
  attempt zero maximum allocations snapshot truncated = err ai_input_budget
  attempt (suc left) maximum allocations snapshot truncated = do
    count ← count_provider_input service counter truncated
    let largest = greatest allocations (pos 0)
    let loss = int_max (pos 1) (sub64 count maximum)
    let next = shrink allocations largest loss
    let retried = (do
      applied ← apply next snapshot truncated
      attempt left maximum next snapshot applied)
    if not (int_lt maximum count)
        then ok truncated
        else if int_le largest (pos 0)
        then err ai_input_budget
        else retried

  unfoldable pub truncate_current_input : Snapshot → ℤ → Result AppError Snapshot
  unfolding current_field_specs clear_fields count_provider_input allocate used_by hand_out apply
      attempt
  truncate_current_input snapshot maximum = do
    let specs = current_field_specs snapshot.operation
    fail_if (is_empty_specs specs) ai_input_budget
    empty ← clear_fields specs (record snapshot { past_cycles = [] })
    fixed_tokens ← count_provider_input service counter empty
    let available = sub64 maximum fixed_tokens
    fail_if (int_le available (pos 0)) ai_input_budget
    allocations ← allocate specs snapshot available
    let shared = hand_out allocations (sub64 available (used_by allocations (pos 0)))
    truncated ← apply shared snapshot (record snapshot { past_cycles = [] })
    attempt 16 maximum shared snapshot truncated
