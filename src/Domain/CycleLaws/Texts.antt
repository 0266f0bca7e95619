-- ===== src/Domain/CycleLaws/Texts.antt =====
-- The text that a frame holds is canonical.
use cycle.Base.{ℕ, ◌≤◌, ◌≡◌, ◌≢◌, ◌⊎◌, true, false, refl, Text, [], ◌∷◌, All, length, ok, arith}
use cycle.GoStrings.{has_forbidden}
use cycle.GoStrings.Normalize.{lacks_cr, normalize_id}
use cycle.Domain.Cycle.{normalize_and_validate_text}

-- The tab, the line feed, or a code point from the space on but DEL (0x7f). The controls from 0x80 to
-- 0x9f are such.
abbrev pub IsAllowed : ℕ → Type 0
IsAllowed c = (c ≡ 9) ⊎ ((c ≡ 10) ⊎ ((32 ≤ c) × (c ≢ 127)))

has_forbidden-IsAllowed :
    (c : ℕ) (s : Text) → has_forbidden (c ∷ s) ≡ false → IsAllowed c × (has_forbidden s ≡ false)
unfolding has_forbidden
has_forbidden-IsAllowed c s h = (ground (arith, h), ground (arith, h))

has_forbidden-All : (s : Text) → has_forbidden s ≡ false → All IsAllowed s
has_forbidden-All [] h = tt
has_forbidden-All (c ∷ s) h =
    let (a, rest) = has_forbidden-IsAllowed c s h in (a, has_forbidden-All s rest)

has_forbidden-eq_false : (s : Text) → All IsAllowed s → has_forbidden s ≡ false
unfolding has_forbidden
has_forbidden-eq_false [] h = refl
has_forbidden-eq_false (c ∷ s) (a, h) = ground (arith, a, has_forbidden-eq_false s h)

-- Only allowed code points, so no carriage return, and 200 of them at most.
pub record IsFrameText (s : Text) : Type 0 where
  pub allowed : All IsAllowed s
  pub short : length s ≤ 200

lacks_cr-allowed : (s : Text) → All IsAllowed s → lacks_cr s ≡ true
unfolding lacks_cr
lacks_cr-allowed [] h = refl
lacks_cr-allowed (c ∷ s) (a, h) = ground (arith, a, lacks_cr-allowed s h)

-- A frame text that is accepted has at most 200 code points, each a tab, a line feed, or one from the
-- space (0x20) on that is not DEL (0x7f).
pub normalize-IsFrameText : (s t : Text) → normalize_and_validate_text s ≡ ok t → IsFrameText t
unfolding normalize_and_validate_text
normalize-IsFrameText s t h = record {
  allowed = has_forbidden-All t (ground arith);
  short = ground arith;
}

-- Canonical texts pass unchanged.
pub normalize-ok_of_IsFrameText : (s : Text) → IsFrameText s → normalize_and_validate_text s ≡ ok s
unfolding normalize_and_validate_text
normalize-ok_of_IsFrameText s h = ground (
  arith,
  normalize_id s (lacks_cr-allowed s h.allowed),
  has_forbidden-eq_false s h.allowed,
  h.short,
)
