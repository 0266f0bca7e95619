-- ===== src/Domain/GoalLaws/Drafts.antt =====
-- Goal texts and drafts are canonical, and saving a draft loses no update.
use cycle.Base.{
  ℕ, ℤ, ◌↔◌, ◌≤◌, ◌≡◌, ◌≢◌, refl, Bool, true, false, Option, none, some, Text, length, ok, err,
  arith, inc64, text_eq_iff, text_eq_refl, int_eq_iff, inc64-ne,
}
use cycle.GoStrings.{has_forbidden, all_space}
use cycle.GoStrings.Normalize.{lacks_cr, lacks_cr-normalize, normalize_id, is_empty-trim_space}
use cycle.Domain.Cycle.{Time, optional_text_eq}
use cycle.Domain.Goal.{
  Draft, normalize_text, normalize_success_signal, save_draft, state_conflict, max_goal_code_points,
  max_success_signal_code_points,
}

-- Line feeds only, no control character but the line feed and the tab, and `n` code points at most.
pub record IsText (n : ℕ) (s : Text) : Type 0 where
  pub lines : lacks_cr s ≡ true
  pub allowed : has_forbidden s ≡ false
  pub short : length s ≤ n

-- No signal, or a canonical text that is not blank.
abbrev pub IsSignal : Option Text → Type 0
IsSignal none = Unit
IsSignal (some s) = IsText max_success_signal_code_points s × (all_space s ≡ false)

pub normalize_text-IsText :
    (s t : Text) (b : Bool)
    → normalize_text s b ≡ ok t
    → IsText max_goal_code_points t × (b ≡ false → all_space t ≡ false)
unfolding normalize_text
normalize_text-IsText s t b h = (
  record {
    lines = ground (arith, lacks_cr-normalize s);
    allowed = ground arith;
    short = ground arith;
  },
  λ e. ground (arith, is_empty-trim_space t),
)

-- Normalising is stable: what it returned it returns again.
pub normalize_success_signal_idem :
    (s t : Option Text) → normalize_success_signal s ≡ ok t → normalize_success_signal t ≡ ok t
unfolding normalize_success_signal
normalize_success_signal_idem s none h = refl
normalize_success_signal_idem none (some t) h = cc
normalize_success_signal_idem (some s) (some t) h =
    ground (arith, normalize_id t, lacks_cr-normalize s)

pub optional_text_eq_iff : (s t : Option Text) → (optional_text_eq s t ≡ true) ↔ (s ≡ t)
optional_text_eq_iff none none = ground arith
optional_text_eq_iff none (some t) = ground arith
optional_text_eq_iff (some s) none = ground arith
optional_text_eq_iff (some s) (some t) = ground (arith, text_eq_iff s t)

module _ (d : Draft) (body : Text) (signal : Option Text) (e : ℤ) (t : Time) {d' : Draft}
    (saved : save_draft d body signal e t ≡ ok (d', false)) where
  -- A draft that was saved and changed was at the expected revision, is at the next one, keeps its
  -- identifier and type, and holds the normalised texts.
  pub save_draft_lem :
      (normalize_text body true ≡ ok d'.body)
      × (normalize_success_signal signal ≡ ok d'.success_signal)
      × (d.revision ≡ e)
      × (d'.revision ≡ inc64 d.revision)
      × (d'.id ≡ d.id)
      × (d'.type ≡ d.type)
  unfolding save_draft
  save_draft_lem = ground (arith, int_eq_iff d.revision e)

  -- A request that was saved and is sent again changes nothing, whatever revision it expects.
  pub save_draft_again : (e' : ℤ) (t' : Time) → save_draft d' body signal e' t' ≡ ok (d', true)
  unfolding save_draft
  save_draft_again e' t' =
      ground (arith, text_eq_refl d'.body, optional_text_eq_iff d'.success_signal d'.success_signal)

  -- Whoever read the draft before this change and sends another valid text is refused with a state
  -- conflict.
  pub save_draft_conflict :
      (body' u : Text) (signal' v : Option Text) (t' : Time)
      → normalize_text body' true ≡ ok u
      → normalize_success_signal signal' ≡ ok v
      → u ≢ d'.body
      → save_draft d' body' signal' e t' ≡ err state_conflict
  unfolding save_draft
  save_draft_conflict body' u signal' v t' p q n =
      ground (arith, int_eq_iff d.revision e, text_eq_iff d'.body u, inc64-ne d.revision)
