-- ===== src/GoStrings/Order.antt =====
-- Go's order on strings is total.
use cycle.Base.{
  ℕ, ◌≡◌, refl, sym, ◌≢◌, ◌⊎◌, inl, inr, true, false, Text, String, [], ◌∷◌, text_lt, arith,
}
use text.Mathlib.TextEquality.{Char-path}
use cycle.GoStrings.{codes}

no_codes : {A : Type 0} {c : ℕ} {s : Text} → ◌≡◌ {A = Text} [] (c ∷ s) → A
no_codes h = cc

same_codes : {c d : ℕ} {s t : Text} → ◌≡◌ {A = Text} (c ∷ s) (d ∷ t) → (c ≡ d) × (s ≡ t)
same_codes h = (cc, cc)

-- Strings with the same code points are equal.
pub codes_equal : (s t : String) → codes s ≡ codes t → s ≡ t
codes_equal String.[] String.[] h = refl
codes_equal String.[] (String.◌∷◌ d t) h = no_codes h
codes_equal (String.◌∷◌ c s) String.[] h = no_codes (sym h)
codes_equal (String.◌∷◌ c s) (String.◌∷◌ d t) h =
    let (p, q) = same_codes h in λ i. String.◌∷◌ (Char-path c d p i) (codes_equal s t q i)

text_lt_total : (s t : Text) → text_lt t s ≡ false → (text_lt s t ≡ true) ⊎ (s ≡ t)
unfolding text_lt
text_lt_total [] [] h = inr refl
text_lt_total [] (b ∷ t) h = inl refl
text_lt_total (a ∷ s) [] h = ground arith
text_lt_total (a ∷ s) (b ∷ t) h = ground (arith, text_lt_total s t)

pub lt_of_not_gt :
    (a b : String)
    → text_lt (codes b) (codes a) ≡ false
    → a ≢ b
    → text_lt (codes a) (codes b) ≡ true
lt_of_not_gt a b h n = elim (text_lt_total (codes a) (codes b) h) [
  | inl lt ↦ lt
  | inr e ↦ elim (n (codes_equal a b e)) [ ]
]
