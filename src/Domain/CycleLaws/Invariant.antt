-- ===== src/Domain/CycleLaws/Invariant.antt =====
-- What holds of a cycle through its life, whatever is done to it.
use cycle.Base.{
  ℤ, ◌≡◌, refl, ap, subst, ◌∙◌, Bool, true, false, [], Text, Option, Option-cases, ok, inl, inr,
  arith, some, none, String,
}
use cycle.Domain.Cycle.{
  PdcaCycle, Frame, Status, CancellationReason, Time, SaveFrameResult, ChangeReviewScheduleResult,
  is_set, is_active, new, save_frame, change_review_schedule, apply_ai_action, complete, cancel,
  is_valid_cancellation_reason, missing_required_frames, parse_review_date,
}
use cycle.Domain.ReviewDate
use cycle.Domain.ReviewDate.RoundTrip.{parse-eq-some}
use cycle.Domain.CycleLaws.Texts.{IsFrameText, normalize-IsFrameText}

-- The transitions that a cycle can take, each at inputs that the code accepts.
pub data Step : PdcaCycle → PdcaCycle → Type 0 where
  save :
      {c d : PdcaCycle} (f : Frame) (s : Text) (e : ℤ) (running : Bool) (t : Time)
      (r : SaveFrameResult)
      → save_frame c f s e running t ≡ ok r
      → r.saved ≡ d
      → Step c d
  schedule :
      {c d : PdcaCycle} (target : Option Text) (e : ℤ) (r : ChangeReviewScheduleResult)
      → change_review_schedule c target e ≡ ok r
      → r.changed ≡ d
      → Step c d
  apply_ai : {c d : PdcaCycle} (s : Text) (t : Time) → apply_ai_action c s t ≡ ok d → Step c d
  finish :
      {c d : PdcaCycle} (op hash : String) (e : ℤ) (running : Bool) (t : Time)
      → complete c op hash e running t ≡ ok d
      → Step c d
  abandon :
      {c d : PdcaCycle} (reason : CancellationReason) (t : Time)
      → cancel c reason t ≡ ok d
      → Step c d

pub data Reach (c : PdcaCycle) : PdcaCycle → Type 0 where
  here : Reach c c
  next : {d e : PdcaCycle} → Reach c d → Step d e → Reach c e

abbrev pub has_valid_reason : Option CancellationReason → Bool
has_valid_reason none = false
has_valid_reason (some reason) = is_valid_cancellation_reason reason

-- What a status says of the other fields.
abbrev pub StatusAgrees : Status → PdcaCycle → Type 0
StatusAgrees Status.active c =
    (c.completed_at ≡ none)
    × (c.canceled_at ≡ none)
    × (c.cancellation_reason ≡ none)
    × (c.completion_operation_id ≡ none)
    × (c.completion_request_hash ≡ none)
StatusAgrees Status.completed c =
    (is_set c.completed_at ≡ true)
    × (c.canceled_at ≡ none)
    × (c.cancellation_reason ≡ none)
    × (is_set c.completion_operation_id ≡ true)
    × (is_set c.completion_request_hash ≡ true)
    × (missing_required_frames c ≡ [])
StatusAgrees Status.canceled c =
    (c.completed_at ≡ none)
    × (is_set c.canceled_at ≡ true)
    × (has_valid_reason c.cancellation_reason ≡ true)
    × (c.completion_operation_id ≡ none)
    × (c.completion_request_hash ≡ none)
StatusAgrees Status.unknown c = ⊥

pub record IsWellFormed (c : PdcaCycle) : Type 0 where
  pub status : StatusAgrees c.status c
  pub plan : IsFrameText c.plan
  pub do_ : IsFrameText c.do_
  pub check : IsFrameText c.check
  pub action : IsFrameText c.action
  pub date : (d : Text) → c.review_date ≡ some d → parse_review_date d ≡ ok d
  pub ai : c.action_modified_after_ai ≡ true → is_set c.action_last_ai_revision ≡ true

empty-IsFrameText : IsFrameText []
empty-IsFrameText = record { allowed = tt; short = omega arith }

-- An accepted date parses to itself.
parse_review_date_idem : (s d : Text) → parse_review_date s ≡ ok d → parse_review_date d ≡ ok d
unfolding parse_review_date
parse_review_date_idem s d h = elim (Option-cases (ReviewDate.parse s)) [
  | inl e ↦ ground (arith, e)
  | inr (t, e) ↦ ground (arith, e, parse-eq-some s t)
]

pub new-IsWellFormed :
    (id user goal version : String) (n : ℤ) (op hash : String) (t : Time)
    → IsWellFormed (new id user goal version n op hash t)
unfolding new
new-IsWellFormed id user goal version n op hash t = record {
  status = (refl, refl, refl, refl, refl);
  plan = empty-IsFrameText;
  do_ = empty-IsFrameText;
  check = empty-IsFrameText;
  action = empty-IsFrameText;
  date = λ d h. cc;
  ai = λ h. cc;
}

module _ {c : PdcaCycle} (w : IsWellFormed c) where
  save-IsWellFormed :
      (f : Frame) (s : Text) (e : ℤ) (running : Bool) (t : Time) (r : SaveFrameResult)
      → save_frame c f s e running t ≡ ok r
      → IsWellFormed r.saved
  unfolding save_frame
  save-IsWellFormed f s e running t r h = record {
    status = ground arith;
    plan = ground (arith, normalize-IsFrameText s r.content);
    do_ = ground (arith, normalize-IsFrameText s r.content);
    check = ground (arith, normalize-IsFrameText s r.content);
    action = ground (arith, normalize-IsFrameText s r.content);
    date = λ d x. ground (arith, w.date d);
    ai = ground arith;
  }

  schedule-IsWellFormed :
      (target : Option Text) (e : ℤ) (r : ChangeReviewScheduleResult)
      → change_review_schedule c target e ≡ ok r
      → IsWellFormed r.changed
  unfolding change_review_schedule
  schedule-IsWellFormed none e r h = record {
    status = ground arith;
    plan = ground arith;
    do_ = ground arith;
    check = ground arith;
    action = ground arith;
    date = λ d x. ground (arith, w.date d);
    ai = ground arith;
  }
  schedule-IsWellFormed (some target) e r h = record {
    status = ground arith;
    plan = ground arith;
    do_ = ground arith;
    check = ground arith;
    action = ground arith;
    date = λ d x. ground (arith, w.date d, parse_review_date_idem target d);
    ai = ground arith;
  }

  apply_ai-IsWellFormed :
      (s : Text) (t : Time) (d : PdcaCycle) → apply_ai_action c s t ≡ ok d → IsWellFormed d
  unfolding apply_ai_action
  apply_ai-IsWellFormed s t d h = record {
    status = ground arith;
    plan = ground arith;
    do_ = ground arith;
    check = ground arith;
    action = ground (arith, normalize-IsFrameText s d.action);
    date = λ d x. ground (arith, w.date d);
    ai = ground arith;
  }

  complete-IsWellFormed :
      (op hash : String) (e : ℤ) (running : Bool) (t : Time) (d : PdcaCycle)
      → complete c op hash e running t ≡ ok d
      → IsWellFormed d
  unfolding complete missing_required_frames
  complete-IsWellFormed op hash e running t d h = record {
    status = ground arith;
    plan = ground arith;
    do_ = ground arith;
    check = ground arith;
    action = ground arith;
    date = λ d x. ground (arith, w.date d);
    ai = ground arith;
  }

  cancel-IsWellFormed :
      (reason : CancellationReason) (t : Time) (d : PdcaCycle)
      → cancel c reason t ≡ ok d
      → IsWellFormed d
  unfolding cancel
  cancel-IsWellFormed reason t d h = record {
    status = ground arith;
    plan = ground arith;
    do_ = ground arith;
    check = ground arith;
    action = ground arith;
    date = λ d x. ground (arith, w.date d);
    ai = ground arith;
  }

Step-IsWellFormed : {c d : PdcaCycle} → Step c d → IsWellFormed c → IsWellFormed d
Step-IsWellFormed (save f s e running t r h p) w =
    subst IsWellFormed p (save-IsWellFormed w f s e running t r h)
Step-IsWellFormed (schedule target e r h p) w =
    subst IsWellFormed p (schedule-IsWellFormed w target e r h)
Step-IsWellFormed {d = d} (apply_ai s t h) w = apply_ai-IsWellFormed w s t d h
Step-IsWellFormed {d = d} (finish op hash e running t h) w =
    complete-IsWellFormed w op hash e running t d h
Step-IsWellFormed {d = d} (abandon reason t h) w = cancel-IsWellFormed w reason t d h

-- From a well-formed cycle every history leads to a well-formed cycle: canonical texts, a review date
-- that parses, and a status that agrees with the other fields.
pub Reach-IsWellFormed : {c d : PdcaCycle} → Reach c d → IsWellFormed c → IsWellFormed d
Reach-IsWellFormed here w = w
Reach-IsWellFormed (next r st) w = Step-IsWellFormed st (Reach-IsWellFormed r w)

-- A cycle that is completed or canceled takes no further transition.
pub Step-was_active : {c d : PdcaCycle} → Step c d → is_active c.status ≡ true
unfolding save_frame change_review_schedule apply_ai_action complete cancel
Step-was_active (save f s e running t r h p) = ground arith
Step-was_active (schedule target e r h p) = ground arith
Step-was_active (apply_ai s t h) = ground arith
Step-was_active (finish op hash e running t h) = ground arith
Step-was_active (abandon reason t h) = ground arith

-- From a terminal cycle nothing else is reached.
pub Reach-terminal : {c d : PdcaCycle} → is_active c.status ≡ false → Reach c d → c ≡ d
Reach-terminal h here = refl
Reach-terminal {c} h (next {d = m} r st) =
    let e = Reach-terminal h r in
    let live = Step-was_active st in
    let live' : is_active c.status ≡ true = ap (λ (x : PdcaCycle). is_active x.status) e ∙ live in
    cc
