-- ===== src/Domain/CycleLaws/Completion.antt =====
-- When `Complete` of backend/internal/domain/cycle/cycle.go succeeds, and what it says is missing
-- when it does not.
use cycle.Base.{ℤ, ◌≡◌, ◌↔◌, ◌⊎◌, refl, Bool, true, false, err, arith, is_ok, String, int_eq_iff}
use cycle.Domain.Cycle.{
  PdcaCycle, Status, Time, complete, is_blank, is_active, missing_required_frames, cycle_incomplete,
}

-- All that completing a cycle asks for.
pub record CanComplete (c : PdcaCycle) (e : ℤ) (running : Bool) : Type 0 where
  pub active : c.status ≡ Status.active
  pub current : c.revisions.content ≡ e
  pub idle : running ≡ false
  pub planned : is_blank c.plan ≡ false
  pub done : is_blank c.do_ ≡ false
  pub checked : is_blank c.check ≡ false
  pub acted : is_blank c.action ≡ false

is_active-eq : (s : Status) → is_active s ≡ true → s ≡ Status.active
is_active-eq Status.active h = refl
is_active-eq Status.completed h = ground arith
is_active-eq Status.canceled h = ground arith
is_active-eq Status.unknown h = ground arith

-- A cycle is completed exactly when it is active, its content revision is the expected one, no AI
-- operation runs, and none of its four texts is blank.
pub complete_iff :
    (c : PdcaCycle) (op hash : String) (e : ℤ) (running : Bool) (t : Time)
    → (is_ok (complete c op hash e running t) ≡ true) ↔ CanComplete c e running
unfolding complete missing_required_frames
complete_iff c op hash e running t = (
  λ h. record {
    active = is_active-eq c.status (ground arith);
    current = ground (arith, int_eq_iff c.revisions.content e);
    idle = ground arith;
    planned = ground arith;
    done = ground arith;
    checked = ground arith;
    acted = ground arith;
  },
  λ h. ground (
    arith,
    int_eq_iff c.revisions.content e,
    h.active,
    h.current,
    h.idle,
    h.planned,
    h.done,
    h.checked,
    h.acted,
  ),
)

-- All that stands against completing a cycle is that a frame of it is blank.
pub record IsIncomplete (c : PdcaCycle) (e : ℤ) (running : Bool) : Type 0 where
  pub active : c.status ≡ Status.active
  pub current : c.revisions.content ≡ e
  pub idle : running ≡ false
  pub blank :
      (is_blank c.plan ≡ true)
      ⊎ ((is_blank c.do_ ≡ true) ⊎ ((is_blank c.check ≡ true) ⊎ (is_blank c.action ≡ true)))

-- A cycle is reported incomplete exactly when it is active, its content revision is the expected one,
-- no AI operation runs, and one of its four texts is blank.
pub complete-cycle_incomplete_iff :
    (c : PdcaCycle) (op hash : String) (e : ℤ) (running : Bool) (t : Time)
    → (complete c op hash e running t ≡ err cycle_incomplete) ↔ IsIncomplete c e running
unfolding complete missing_required_frames
complete-cycle_incomplete_iff c op hash e running t = (
  λ h. record {
    active = is_active-eq c.status (ground (arith, h));
    current = ground (arith, h, int_eq_iff c.revisions.content e);
    idle = ground (arith, h);
    blank = ground (arith, h);
  },
  λ h. ground (arith, int_eq_iff c.revisions.content e, h.active, h.current, h.idle, h.blank),
)
