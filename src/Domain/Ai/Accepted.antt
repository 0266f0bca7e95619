-- ===== src/Domain/Ai/Accepted.antt =====
-- What a provider's text has to satisfy is what the domain accepts.
use cycle.Base.{
  ℕ, suc, ◌+◌, ◌≤◌, ◌≡◌, refl, Bool, true, false, not, ◌&&◌, ◌||◌, Option-cases, inl, inr, subst,
  Result-cases, >>=-eq-ok, All, ◌<◌, some, List, [], ◌∷◌, ◌++◌, Text, length, ok, arith, ◌==◌,
  is_ok,
}
use cycle.GoStrings.{
  lf, tab, is_control, is_space, has_forbidden, trim_space, trim_left, trim_right, all_space,
  is_empty,
}
use cycle.GoStrings.Normalize.{lacks_cr, normalize_id, is_empty-trim_space}
use cycle.Domain.Cycle
use cycle.Domain.Cycle.{
  PdcaCycle, Time, normalize_and_validate_text, apply_ai_action, max_frame_code_points,
}
use cycle.Domain.Goal.{normalize_text}
use cycle.Domain.Ai.{
  has_control, normalize_ai_text, validate_goal_suggestion, render_action, render_from, join,
  render_generated_actions, validate_refined_action,
}

-- No carriage return and no control character but the line feed and the tab.
is_clean : Text → Bool
is_clean [] = true
is_clean (c ∷ s) = (not (is_control c) || c == lf || c == tab) && is_clean s

clean-lacks_cr : (s : Text) → is_clean s ≡ true → lacks_cr s ≡ true
unfolding is_clean lacks_cr is_control
clean-lacks_cr [] h = refl
clean-lacks_cr (c ∷ s) h = ground (arith, clean-lacks_cr s)

clean-allowed : (s : Text) → is_clean s ≡ true → has_forbidden s ≡ false
unfolding is_clean has_forbidden is_control
clean-allowed [] h = refl
clean-allowed (c ∷ s) h = ground (arith, clean-allowed s)

clean_of : (s : Text) → has_control s ≡ false → is_clean s ≡ true
unfolding is_clean has_control
clean_of [] h = refl
clean_of (c ∷ s) h = ground (arith, clean_of s)

clean-append : (s t : Text) → is_clean s ≡ true → is_clean t ≡ true → is_clean (s ++ t) ≡ true
unfolding is_clean
clean-append [] t h k = k
clean-append (c ∷ s) t h k = ground (arith, clean-append s t)

clean-trim_left : (s : Text) → is_clean s ≡ true → is_clean (trim_left s) ≡ true
unfolding is_clean trim_left
clean-trim_left [] h = refl
clean-trim_left (c ∷ s) h = ground (arith, clean-trim_left s)

clean-trim_right : (s : Text) → is_clean s ≡ true → is_clean (trim_right s) ≡ true
unfolding is_clean trim_right
clean-trim_right [] h = refl
clean-trim_right (c ∷ s) h = ground (arith, clean-trim_right s)

clean-trim_space : (s : Text) → is_clean s ≡ true → is_clean (trim_space s) ≡ true
unfolding trim_space
clean-trim_space s h = clean-trim_right (trim_left s) (clean-trim_left s h)

clean-normalize_ai_text : (s t : Text) → normalize_ai_text s ≡ some t → is_clean t ≡ true
unfolding normalize_ai_text
clean-normalize_ai_text s t h = ground (arith, clean_of t)

-- A clean text of 200 code points at most is accepted by a frame as it is.
clean-accepted :
    (s : Text)
    → is_clean s ≡ true
    → length s ≤ max_frame_code_points
    → normalize_and_validate_text s ≡ ok s
unfolding normalize_and_validate_text
clean-accepted s h k = ground (arith, normalize_id s (clean-lacks_cr s h), clean-allowed s h)

-- Applying a text to an active cycle succeeds.
abbrev pub Applies : Text → Type 0
Applies s =
    (c : PdcaCycle) (t : Time)
    → c.status ≡ Cycle.Status.active
    → is_ok (apply_ai_action c s t) ≡ true

written_of : (s : Text) → normalize_and_validate_text s ≡ ok s → all_space s ≡ false → Applies s
unfolding apply_ai_action Cycle.is_blank
written_of s h k c t a = ground (arith, is_empty-trim_space s)

-- A refined action that passed can be written to every active cycle.
pub validate_refined_action-Applies : (s t : Text) → validate_refined_action s ≡ ok t → Applies t
unfolding validate_refined_action
validate_refined_action-Applies s t h =
    written_of t (ground (arith, clean-accepted t, clean-normalize_ai_text s t))
      (ground (arith, is_empty-trim_space t))

-- A goal suggestion that passed is a goal text that a start accepts as it is.
pub validate_goal_suggestion-accepted :
    (s t : Text) → validate_goal_suggestion s ≡ ok t → normalize_text t false ≡ ok t
unfolding validate_goal_suggestion normalize_text
validate_goal_suggestion-accepted s t h =
    ground (arith, clean-normalize_ai_text s t, clean-lacks_cr t, clean-allowed t, normalize_id t)

clean-render_action :
    (s t : Text) → render_action s ≡ ok t → (is_clean t ≡ true) × (is_empty t ≡ false)
unfolding render_action
clean-render_action s t h = elim (Option-cases (normalize_ai_text s)) [
  | inl e ↦ ground (arith, e)
  | inr (u, e) ↦ ground (arith, e, clean-trim_space u (clean-normalize_ai_text s u e))
]

-- A clean text that is not blank.
abbrev IsVisible : Text → Type 0
IsVisible t = (is_clean t ≡ true) × (all_space t ≡ false)

numbered-IsVisible :
    (n : ℕ) (u : Text)
    → 0 < n
    → n ≤ 9
    → is_clean u ≡ true
    → IsVisible ((b'0' + n) ∷ b'.' ∷ b' ' ∷ u)
unfolding is_clean all_space is_control is_space
numbered-IsVisible n u lo hi h = ground arith

render_from-IsVisible :
    (n : ℕ) (actions ts : List Text)
    → 0 < n
    → n + length actions ≤ 10
    → render_from n actions ≡ ok ts
    → All IsVisible ts × (length ts ≡ length actions)
unfolding render_from
render_from-IsVisible n [] [] lo hi h = (tt, refl)
render_from-IsVisible n [] (t ∷ ts) lo hi h = cc
render_from-IsVisible n (s ∷ rest) ts lo hi h =
    let (u, p, q) = >>=-eq-ok (render_action s) _ h in
    let (later, r, e) = >>=-eq-ok (render_from (suc n) rest) _ q in
    let (shown, same) = render_from-IsVisible (suc n) rest later (omega arith) (omega arith) r in
    let same_list : ((b'0' + n) ∷ b'.' ∷ b' ' ∷ u) ∷ later ≡ ts = cc in
    let visible = numbered-IsVisible n u lo (omega arith) (clean-render_action s u p).0 in
    subst (λ xs. All IsVisible xs × (length xs ≡ suc (length rest))) same_list
      ((visible, shown), omega arith)

clean-join : (ts : List Text) → All IsVisible ts → is_clean (join ts) ≡ true
unfolding join is_clean
clean-join [] h = refl
clean-join (s ∷ []) h = h.0.0
clean-join (s ∷ t ∷ rest) h =
    clean-append s (lf ∷ lf ∷ join (t ∷ rest)) h.0.0 (ground (arith, clean-join (t ∷ rest) h.1))

all_space-append : (s t : Text) → all_space (s ++ t) ≡ all_space s && all_space t
unfolding all_space
all_space-append [] t = refl
all_space-append (c ∷ s) t = ground (arith, all_space-append s t)

visible-join :
    (t : Text) (ts : List Text) → All IsVisible (t ∷ ts) → all_space (join (t ∷ ts)) ≡ false
unfolding join
visible-join t [] h = h.0.1
visible-join t (u ∷ rest) h =
    rw (all_space-append t (lf ∷ lf ∷ join (u ∷ rest))) (ground (arith, h.0.1))

join-Applies :
    (ts : List Text)
    → All IsVisible ts
    → 1 ≤ length ts
    → length (join ts) ≤ max_frame_code_points
    → Applies (join ts)
join-Applies [] h lo hi = absurd (omega arith)
join-Applies (t ∷ ts) h lo hi =
    let s = join (t ∷ ts) in
    written_of s (clean-accepted s (clean-join (t ∷ ts) h) hi) (visible-join t ts h)

render_generated_actions-ok :
    (actions ts : List Text) (t : Text)
    → render_from 1 actions ≡ ok ts
    → render_generated_actions actions ≡ ok t
    → (1 ≤ length actions)
      × (length actions ≤ 3)
      × (length (join ts) ≤ max_frame_code_points)
      × (join ts ≡ t)
unfolding render_generated_actions
render_generated_actions-ok actions ts t p h = ground arith

render_generated_actions-runs :
    (actions : List Text) (t : Text)
    → render_generated_actions actions ≡ ok t
    → (ts : List Text) × (render_from 1 actions ≡ ok ts)
unfolding render_generated_actions
render_generated_actions-runs actions t h = elim (Result-cases (render_from 1 actions)) [
  | inl found ↦ found
  | inr (e, p) ↦ absurd (ground (arith, p))
]

-- What is rendered from one to three generated actions can be written to every active cycle, and no
-- other number of actions is rendered.
pub render_generated_actions-Applies :
    (actions : List Text) (t : Text)
    → render_generated_actions actions ≡ ok t
    → (1 ≤ length actions) × (length actions ≤ 3) × Applies t
render_generated_actions-Applies actions t h =
    let (ts, p) = render_generated_actions-runs actions t h in
    let (lo, hi, short, e) = render_generated_actions-ok actions ts t p h in
    let (visible, same) = render_from-IsVisible 1 actions ts (omega arith) (omega arith) p in
    (lo, hi, subst Applies e (join-Applies ts visible (omega arith) short))
