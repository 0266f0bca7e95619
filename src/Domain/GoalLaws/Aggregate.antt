-- ===== src/Domain/GoalLaws/Aggregate.antt =====
-- A goal, its current version and its latest cycle fit together through the goal's whole life.
use cycle.Base.{
  ℤ, pos, ℕ, ◌<◌, ◌≡◌, refl, Bool, true, false, Option, none, some, Text, String, ok, arith,
  max_int32, inc32, dec32, dec32-inc32, inc64, eq_iff, int_eq_iff,
}
use cycle.Domain.Cycle
use mathlib.Core.Path.{subst, subst⁻¹}
use cycle.Domain.Cycle.{
  PdcaCycle, Frame, SaveFrameResult, ChangeReviewScheduleResult, Time, CancellationReason, is_set,
}
use cycle.Domain.Goal.{
  Goal, Version, Draft, Status, start_initial, enter_review, continue_review, replan, terminate,
  replan_refused, review_content_changed, validate_review_references, InitialAggregate,
  ContinueResult, ReplanResult,
}

-- What a goal's status says of its latest cycle: an active goal has an active cycle, a goal in review
-- a completed one, and a terminated goal one that is not active.
abbrev pub CycleAgrees : Status → Goal → PdcaCycle → Type 0
CycleAgrees Status.active_cycle g c = (c.status ≡ Cycle.Status.active) × (g.terminal_at ≡ none)
CycleAgrees Status.goal_review g c = (c.status ≡ Cycle.Status.completed) × (g.terminal_at ≡ none)
CycleAgrees Status.achieved g c = (Cycle.is_active c.status ≡ false) × (is_set g.terminal_at ≡ true)
CycleAgrees Status.ended g c = (Cycle.is_active c.status ≡ false) × (is_set g.terminal_at ≡ true)
CycleAgrees Status.unknown g c = ⊥

pub record Fits (g : Goal) (v : Version) (c : PdcaCycle) : Type 0 where
  pub version_user : v.user_id ≡ g.user_id
  pub version_goal : v.goal_id ≡ g.id
  pub version_number : v.version_number ≡ g.current_version_number
  pub cycle_user : c.user_id ≡ g.user_id
  pub cycle_goal : c.goal_id ≡ g.id
  pub cycle_version : c.goal_version_id ≡ v.id
  pub sequence : g.next_cycle_sequence_number ≡ inc32 c.sequence_number
  pub agrees : CycleAgrees g.status g c

pub start_initial-Fits :
    (d : Draft) (goal version first op hash : String) (t : Time) {a : InitialAggregate}
    → start_initial d goal version first op hash t ≡ ok a
    → Fits a.goal a.version a.first
unfolding start_initial Cycle.new inc32
start_initial-Fits d goal version first op hash t h = ground arith

module _ {g : Goal} {v : Version} {c : PdcaCycle} (fits : Fits g v c) where
  -- A completed cycle takes its goal into review.
  pub enter_review-Fits :
      (op hash : String) (e : ℤ) (running : Bool) (t : Time) {g' : Goal} {c' : PdcaCycle}
      → Cycle.complete c op hash e running t ≡ ok c'
      → enter_review g t ≡ ok g'
      → Fits g' v c'
  unfolding Cycle.complete enter_review
  enter_review-Fits op hash e running t h k = ground arith

  pub continue_review-Fits :
      (d : Draft) (version next op hash : String) (t : Time) {r : ContinueResult}
      → continue_review g v d version next op hash t ≡ ok r
      → Fits r.goal r.version r.next
  unfolding continue_review review_content_changed validate_review_references Cycle.new
  continue_review-Fits d version next op hash t h = ground arith

  pub replan-Fits :
      (next op hash : String) (t : Time) {r : ReplanResult}
      → replan g v c next op hash t ≡ ok r
      → Fits r.goal v r.next
  unfolding replan replan_refused Cycle.cancel Cycle.new
  replan-Fits next op hash t h = ground arith

  pub terminate-Fits :
      (outcome : Status) (op hash : String) (t : Time) {g' : Goal}
      → g.status ≡ Status.goal_review
      → terminate g outcome op hash t ≡ ok g'
      → Fits g' v c
  unfolding terminate
  terminate-Fits outcome op hash t s h =
      let (done, open_) : CycleAgrees Status.goal_review g c =
        subst (λ (x : Status). CycleAgrees x g c) s fits.agrees in
      ground (arith, done)

-- A goal with its current version and its latest cycle.
pub record Aggregate : Type 0 where
  pub goal : Goal
  pub version : Version
  pub latest : PdcaCycle

abbrev pub IsConsistent : Aggregate → Type 0
IsConsistent a = Fits a.goal a.version a.latest

-- What the use cases do to an aggregate, each at inputs that the code accepts. A goal in review is
-- terminated alone, an active goal together with its cycle.
pub data Step (a b : Aggregate) : Type 0 where
  save :
      (f : Frame) (s : Text) (e : ℤ) (running : Bool) (t : Time) (r : SaveFrameResult)
      → Cycle.save_frame a.latest f s e running t ≡ ok r
      → b ≡ record a { latest = r.saved }
      → Step a b
  reschedule :
      (d : Option Text) (e : ℤ) (r : ChangeReviewScheduleResult)
      → Cycle.change_review_schedule a.latest d e ≡ ok r
      → b ≡ record a { latest = r.changed }
      → Step a b
  apply_ai :
      (s : Text) (t : Time) (c : PdcaCycle)
      → Cycle.apply_ai_action a.latest s t ≡ ok c
      → b ≡ record a { latest = c }
      → Step a b
  complete :
      (op hash : String) (e : ℤ) (running : Bool) (t : Time) (c : PdcaCycle) (g : Goal)
      → Cycle.complete a.latest op hash e running t ≡ ok c
      → enter_review a.goal t ≡ ok g
      → b ≡ record a { goal = g; latest = c }
      → Step a b
  go_on :
      (d : Draft) (version next op hash : String) (t : Time) (r : ContinueResult)
      → continue_review a.goal a.version d version next op hash t ≡ ok r
      → b ≡ record { goal = r.goal; version = r.version; latest = r.next }
      → Step a b
  replan_active :
      (next op hash : String) (t : Time) (r : ReplanResult)
      → replan a.goal a.version a.latest next op hash t ≡ ok r
      → b ≡ record a { goal = r.goal; latest = r.next }
      → Step a b
  stop :
      (outcome : Status) (op hash : String) (t : Time) (g : Goal)
      → a.goal.status ≡ Status.goal_review
      → terminate a.goal outcome op hash t ≡ ok g
      → b ≡ record a { goal = g }
      → Step a b
  stop_active :
      (outcome : Status) (reason : CancellationReason) (op hash : String) (t : Time) (g : Goal)
      (c : PdcaCycle)
      → Cycle.cancel a.latest reason t ≡ ok c
      → terminate a.goal outcome op hash t ≡ ok g
      → b ≡ record a { goal = g; latest = c }
      → Step a b

pub data Reach (a : Aggregate) : Aggregate → Type 0 where
  here : Reach a a
  then_step : {b c : Aggregate} → Reach a b → Step b c → Reach a c

module _ {g : Goal} {v : Version} {c : PdcaCycle} (fits : Fits g v c) where
  save_frame-Fits :
      (f : Frame) (s : Text) (e : ℤ) (running : Bool) (t : Time) {r : SaveFrameResult}
      → Cycle.save_frame c f s e running t ≡ ok r
      → Fits g v r.saved
  unfolding Cycle.save_frame
  save_frame-Fits f s e running t h = ground arith

  reschedule-Fits :
      (d : Option Text) (e : ℤ) {r : ChangeReviewScheduleResult}
      → Cycle.change_review_schedule c d e ≡ ok r
      → Fits g v r.changed
  unfolding Cycle.change_review_schedule
  reschedule-Fits d e h = ground arith

  stop_active-Fits :
      (outcome : Status) (reason : CancellationReason) (op hash : String) (t : Time) {g' : Goal}
      {c' : PdcaCycle}
      → Cycle.cancel c reason t ≡ ok c'
      → terminate g outcome op hash t ≡ ok g'
      → Fits g' v c'
  unfolding Cycle.cancel terminate
  stop_active-Fits outcome reason op hash t h k = ground arith

  apply_ai_action-Fits :
      (s : Text) (t : Time) {c' : PdcaCycle} → Cycle.apply_ai_action c s t ≡ ok c' → Fits g v c'
  unfolding Cycle.apply_ai_action
  apply_ai_action-Fits s t h = ground arith

Step-IsConsistent : {a b : Aggregate} → Step a b → IsConsistent a → IsConsistent b
Step-IsConsistent (save f s e running t r h p) i =
    subst⁻¹ IsConsistent p (save_frame-Fits i f s e running t h)
Step-IsConsistent (reschedule d e r h p) i = subst⁻¹ IsConsistent p (reschedule-Fits i d e h)
Step-IsConsistent (stop_active outcome reason op hash t g c h k p) i =
    subst⁻¹ IsConsistent p (stop_active-Fits i outcome reason op hash t h k)
Step-IsConsistent (apply_ai s t c h p) i = subst⁻¹ IsConsistent p (apply_ai_action-Fits i s t h)
Step-IsConsistent (complete op hash e running t c g h k p) i =
    subst⁻¹ IsConsistent p (enter_review-Fits i op hash e running t h k)
Step-IsConsistent (go_on d version next op hash t r h p) i =
    subst⁻¹ IsConsistent p (continue_review-Fits i d version next op hash t h)
Step-IsConsistent (replan_active next op hash t r h p) i =
    subst⁻¹ IsConsistent p (replan-Fits i next op hash t h)
Step-IsConsistent (stop outcome op hash t g s h p) i =
    subst⁻¹ IsConsistent p (terminate-Fits i outcome op hash t s h)

pub Reach-IsConsistent : {a b : Aggregate} → Reach a b → IsConsistent a → IsConsistent b
Reach-IsConsistent here i = i
Reach-IsConsistent (then_step r st) i = Step-IsConsistent st (Reach-IsConsistent r i)

-- Whatever is done to a goal from its start, goal, version and latest cycle fit together: an active
-- goal has an active cycle, a goal in review a completed one, and a terminated goal, which has its
-- time of termination, one that is not active.
pub start-Reach-IsConsistent :
    (d : Draft) (goal version first op hash : String) (t : Time) {a : InitialAggregate}
    {b : Aggregate}
    → start_initial d goal version first op hash t ≡ ok a
    → Reach (record { goal = a.goal; version = a.version; latest = a.first }) b
    → IsConsistent b
start-Reach-IsConsistent d goal version first op hash t h r =
    Reach-IsConsistent r (start_initial-Fits d goal version first op hash t h)

replan-not_refused :
    {g : Goal} {v : Version} {c : PdcaCycle} (n : ℕ)
    → Fits g v c
    → g.status ≡ Status.active_cycle
    → c.sequence_number ≡ pos n
    → n < max_int32
    → replan_refused g v c ≡ false
unfolding replan_refused
replan-not_refused {g} {v} {c} n i s q h = ground (
  arith,
  eq_iff g.user_id v.user_id,
  eq_iff g.id v.goal_id,
  eq_iff c.user_id g.user_id,
  eq_iff c.goal_id g.id,
  eq_iff c.goal_version_id v.id,
  int_eq_iff g.current_version_number v.version_number,
  int_eq_iff c.sequence_number (dec32 g.next_cycle_sequence_number),
  dec32-inc32 n,
)

-- An aggregate that fits is never refused a replan while its goal is active, if the sequence number
-- of its cycle is not negative and below the greatest of its type.
pub replan_accepted :
    {a : Aggregate} (n : ℕ) (next op hash : String) (t : Time)
    → IsConsistent a
    → a.goal.status ≡ Status.active_cycle
    → a.latest.sequence_number ≡ pos n
    → n < max_int32
    → (r : ReplanResult) × (replan a.goal a.version a.latest next op hash t ≡ ok r)
      × (r.canceled.status ≡ Cycle.Status.canceled)
      × (r.next.sequence_number ≡ a.goal.next_cycle_sequence_number)
unfolding replan Cycle.cancel Cycle.new
replan_accepted {a} n next op hash t i s q h = (
  record {
    goal = record a.goal {
      next_cycle_sequence_number = inc32 a.goal.next_cycle_sequence_number;
      revision = inc64 a.goal.revision;
      updated_at = t;
    };
    canceled = record a.latest {
      status = Cycle.Status.canceled;
      canceled_at = some t;
      cancellation_reason = some CancellationReason.replanned;
      updated_at = t;
    };
    next =
        Cycle.new next a.goal.user_id a.goal.id a.version.id a.goal.next_cycle_sequence_number op
          hash t;
  },
  ground (arith, replan-not_refused n i s q h),
  refl,
  refl,
)
