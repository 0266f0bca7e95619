-- ===== src/Application/TxLaws.antt =====
-- What a run in a transaction says of its steps.
use cycle.Base.{
  ◌⊎◌, inl, inr, ◌≡◌, refl, ap, ℕ, Bool, true, false, none, some, Option, Option-cases, String,
  Result, ok, err, fail_if, map_err, arith, ==_iff, ◌∙◌, if◌then◌else◌,
}
use cycle.Application.Errors.{AppError}
use cycle.Application.Tx.{
  Tx, continue, ◌>>=◌, ◌>>◌, pure, fail_when, lift, within, begun, finish, committed, Pool,
  require_rows, or_error,
}

pub absurd_of {ℓ} : {A : Type ℓ} {B : Type 0} {e : AppError} {b : B} → err e ≡ ok b → A
absurd_of h = cc

module _ {S A B : Type 0} where
  continue-eq-ok :
      (r : Result AppError A) (f : A → Tx S B) (s : S) {b : B} {s' : S}
      → continue r f s ≡ (ok b, s')
      → (a : A) × (r ≡ ok a) × (f a s ≡ (ok b, s'))
  continue-eq-ok (ok a) f s h = (a, refl, h)
  continue-eq-ok (err e) f s h = absurd_of (ap (λ (x : Result AppError B × S). x.0) h)

  pub run-bind :
      (m : Tx S A) (f : A → Tx S B) (s : S) {b : B} {s' : S}
      → (m >>= f) s ≡ (ok b, s')
      → (a : A) × (t : S) × (m s ≡ (ok a, t)) × (f a t ≡ (ok b, s'))
  run-bind m f s h =
      let (a, p, q) = continue-eq-ok (m s).0 f (m s).1 h in
      (a, (m s).1, ap (λ (r : Result AppError A). (r, (m s).1)) p, q)

map_err-eq-ok :
    {A E F : Type 0} (f : E → F) (r : Result E A) {a : A} → map_err f r ≡ ok a → r ≡ ok a
map_err-eq-ok f (ok a) h = cc
map_err-eq-ok f (err e) h = cc

module _ {S A : Type 0} where
  pub run-lift :
      (r : Result AppError A) (s : S) {a : A} {s' : S}
      → lift r s ≡ (ok a, s')
      → (r ≡ ok a) × (s ≡ s')
  run-lift r s h =
      (ap (λ (x : Result AppError A × S). x.0) h, ap (λ (x : Result AppError A × S). x.1) h)

  pub run-pure : (a : A) (s : S) {b : A} {s' : S} → lift (ok a) s ≡ (ok b, s') → (a ≡ b) × (s ≡ s')
  run-pure a s h = let (p, q) = run-lift (ok a) s h in (cc, q)

  pub run-lift_map :
      {E : Type 0} (f : E → AppError) (r : Result E A) (s : S) {a : A} {s' : S}
      → lift (map_err f r) s ≡ (ok a, s')
      → (r ≡ ok a) × (s ≡ s')
  run-lift_map f r s h = let (p, q) = run-lift (map_err f r) s h in (map_err-eq-ok f r p, q)

  pub run-or_error :
      (m : Tx S A) (f : AppError → AppError) (s : S) {a : A} {s' : S}
      → or_error m f s ≡ (ok a, s')
      → m s ≡ (ok a, s')
  run-or_error m f s h =
      let p = map_err-eq-ok f (m s).0 (ap (λ (x : Result AppError A × S). x.0) h) in
      let q : (m s).1 ≡ _ = ap (λ (x : Result AppError A × S). x.1) h in cc

  run-finish :
      (pool : Pool S) (r : Result AppError A) (before after : S) {a : A} {s' : S}
      → finish pool r before after ≡ (ok a, s')
      → (r ≡ ok a) × (after ≡ s') × (pool.commit_error s' ≡ none)
  unfolding finish committed
  run-finish pool (ok a) before after h = ground (arith, Option-cases (pool.commit_error after))
  run-finish pool (err e) before after h = absurd_of (ap (λ (x : Result AppError A × S). x.0) h)

  run-begun :
      (pool : Pool S) (failed : Option AppError) (operation : Tx S A) (s : S) {a : A} {s' : S}
      → begun pool failed operation s ≡ (ok a, s')
      → finish pool (operation s).0 s (operation s).1 ≡ (ok a, s')
  unfolding begun
  run-begun pool none operation s h = h
  run-begun pool (some e) operation s h = absurd_of (ap (λ (x : Result AppError A × S). x.0) h)

  -- What committed ran without an error, and its commit did not fail.
  pub run-within :
      (pool : Pool S) (operation : Tx S A) (s : S) {a : A} {s' : S}
      → within pool operation s ≡ (ok a, s')
      → (operation s ≡ (ok a, s')) × (pool.commit_error s' ≡ none)
  unfolding within
  run-within pool operation s h =
      let (p, q, c) =
        run-finish pool (operation s).0 s (operation s).1
          (run-begun pool (pool.begin_error s) operation s h) in
      (cc, c)

pub run-fail_when :
    {S : Type 0} (b : Bool) (e : AppError) (s : S) {u : Unit {0}} {s' : S}
    → fail_when b e s ≡ (ok u, s')
    → (b ≡ false) × (s ≡ s')
run-fail_when {S} true e s h = absurd_of (ap (λ (x : Result AppError (Unit {0}) × S). x.0) h)
run-fail_when {S} false e s h = (refl, ap (λ (x : Result AppError (Unit {0}) × S). x.1) h)

pub run-require_rows :
    {S : Type 0} (fault : String → AppError) (operation : String) (actual expected : ℕ) (s : S)
    {u : Unit {0}} {s' : S}
    → require_rows fault operation actual expected s ≡ (ok u, s')
    → (actual ≡ expected) × (s ≡ s')
unfolding require_rows
run-require_rows fault operation actual expected s h = ground (arith, ==_iff actual expected)

module _ {S B : Type 0} where
  pub run-guard :
      (b : Bool) (e : AppError) (f : Unit {0} → Tx S B) (s : S) {a : B} {s' : S}
      → continue (fail_if b e) f s ≡ (ok a, s')
      → (b ≡ false) × (f tt s ≡ (ok a, s'))
  run-guard true e f s h = absurd_of (ap (λ (x : Result AppError B × S). x.0) h)
  run-guard false e f s h = (refl, h)

  pub run-result :
      {A : Type 0} (r : Result AppError A) (f : A → Tx S B) (s : S) {b : B} {s' : S}
      → continue r f s ≡ (ok b, s')
      → (a : A) × (r ≡ ok a) × (f a s ≡ (ok b, s'))
  run-result = continue-eq-ok

  pub run-rule :
      {A E : Type 0} (g : E → AppError) (r : Result E A) (f : A → Tx S B) (s : S) {b : B} {s' : S}
      → continue (map_err g r) f s ≡ (ok b, s')
      → (a : A) × (r ≡ ok a) × (f a s ≡ (ok b, s'))
  run-rule g (ok a) f s h = (a, refl, h)
  run-rule g (err e) f s h = absurd_of (ap (λ (x : Result AppError B × S). x.0) h)

  pub run-rows :
      (fault : String → AppError) (operation : String) (actual expected : ℕ) (n : Tx S B) (s : S)
      {a : B} {s' : S}
      → (require_rows fault operation actual expected >> n) s ≡ (ok a, s')
      → (actual ≡ expected) × (n s ≡ (ok a, s'))
  run-rows fault operation actual expected n s h =
      let (u, t, p, q) = run-bind (require_rows fault operation actual expected) (λ _. n) s h in
      let (e, same) = run-require_rows fault operation actual expected s p in
      (e, ap (λ (x : S). n x) same ∙ q)

  pub run-then :
      {A : Type 0} (m : Tx S A) (n : Tx S B) (s : S) {a : B} {s' : S}
      → (m >> n) s ≡ (ok a, s')
      → (u : A) × (t : S) × (m s ≡ (ok u, t)) × (n t ≡ (ok a, s'))
  run-then m n s h = run-bind m (λ _. n) s h

-- A write of one row, unless nothing changed.
pub run-write_unless :
    {S : Type 0} (fault : String → AppError) (no_op : Bool) (m : Tx S ℕ) (operation : String)
    (s : S) {u : Unit {0}} {s' : S}
    → (if no_op then pure tt else m >>= λ rows. require_rows fault operation rows 1) s ≡ (ok u, s')
    → ((no_op ≡ true) × (s ≡ s')) ⊎ ((no_op ≡ false) × (m s ≡ (ok 1, s')))
run-write_unless {S} fault true m operation s h =
    inl (refl, ap (λ (x : Result AppError (Unit {0}) × S). x.1) h)
run-write_unless fault false m operation s h =
    let (rows, t, p, h) = run-bind m _ s h in
    let (one, same) = run-require_rows fault operation rows 1 t h in inr (refl, cc)

module _ {S B : Type 0} where
  pub run-if :
      (b : Bool) (m n : Tx S B) (s : S) {x : Result AppError B × S}
      → (if b then m else n) s ≡ x
      → ((b ≡ true) × (m s ≡ x)) ⊎ ((b ≡ false) × (n s ≡ x))
  run-if true m n s h = inl (refl, h)
  run-if false m n s h = inr (refl, h)

  -- A write that must affect `expected` rows, and what follows it.
  pub run-write :
      (fault : String → AppError) (operation : String) (m : Tx S ℕ) (expected : ℕ) (n : Tx S B)
      (s : S) {a : B} {s' : S}
      → (m >>= λ rows. require_rows fault operation rows expected >> n) s ≡ (ok a, s')
      → (t : S) × (m s ≡ (ok expected, t)) × (n t ≡ (ok a, s'))
  run-write fault operation m expected n s h =
      let (rows, t, p, h) =
        run-bind m (λ rows. require_rows fault operation rows expected >> n) s h in
      let (e, h) = run-rows fault operation rows expected n t h in
      (t, p ∙ ap (λ (k : ℕ). (ok k, t)) e, h)
