-- ===== src/Application/Tx.antt =====
-- Actions in a database transaction: a function of the state `S` of the database as the transaction
-- sees it. The units of work of backend/internal/application/workspace run one operation each:
-- `WithinCycleTransaction`, and its like for goals and reviews, of
-- backend/internal/infrastructure/postgres. The connection pool is an argument.
use cycle.Base.{
  ℕ, Bool, Option, none, some, String, ◌==◌, if◌then◌else◌, Result, ok, err, fail_if, map_err, ◌*◌,
  ◌/◌,
}
use cycle.Domain.Cycle.{Time}
use cycle.Application.Errors.{AppError}

-- An action that may write and may fail. What it wrote before an error is in the state.
abbrev pub Tx : Type 0 → Type 0 → Type 0
Tx S A = S → Result AppError A × S

module _ {S A : Type 0} where
  abbrev pub pure : A → Tx S A
  pure a s = (ok a, s)

  abbrev pub raise : AppError → Tx S A
  raise e s = (err e, s)

  abbrev pub lift : Result AppError A → Tx S A
  lift r s = (r, s)

module _ {S A B : Type 0} where
  abbrev pub continue : Result AppError A → (A → Tx S B) → Tx S B
  continue (ok a) f s = f a s
  continue (err e) f s = (err e, s)

  infixl 5 ◌>>=◌ ◌>>◌
  abbrev pub ◌>>=◌ : Tx S A → (A → Tx S B) → Tx S B
  ◌>>=◌ m f s = let (r, s') = m s in continue r f s'

  abbrev pub ◌>>◌ : Tx S A → Tx S B → Tx S B
  m >> n = m >>= λ _. n

-- `if test { return err }`.
abbrev pub fail_when : {S : Type 0} → Bool → AppError → Tx S (Unit {0})
fail_when test e = lift (fail_if test e)

-- An action whose error another replaces.
abbrev pub or_error : {S A : Type 0} → Tx S A → (AppError → AppError) → Tx S A
or_error m f s = let (r, s') = m s in (map_err f r, s')

-- `Truncate(time.Microsecond)`.
abbrev pub truncate_microsecond : Time → Time
truncate_microsecond now = now / 1000 * 1000

-- What the store's connection pool answers. `begin_error` is the error of `BeginTx` or of what is
-- prepared before the operation, `commit_error` the error of `tx.Commit`, each if there is one;
-- `rollback` is the state that `tx.Rollback` leaves, from the states before and after.
pub record Pool (S : Type 0) : Type 0 where
  pub begin_error : S → Option AppError
  pub commit_error : S → Option AppError
  pub rollback : S → S → S

module _ {S A : Type 0} (pool : Pool S) where
  -- `return tx.Commit(ctx)`. After a commit the deferred rollback does nothing.
  unfoldable pub committed : A → S → S → Option AppError → Result AppError A × S
  committed a before after none = (ok a, after)
  committed a before after (some e) = (err e, pool.rollback before after)

  unfoldable pub finish : Result AppError A → S → S → Result AppError A × S
  unfolding committed
  finish (ok a) before after = committed a before after (pool.commit_error after)
  finish (err e) before after = (err e, pool.rollback before after)

  -- The transaction began, unless there was an error.
  unfoldable pub begun : Option AppError → Tx S A → Tx S A
  unfolding finish
  begun none operation before = let (r, after) = operation before in finish r before after
  begun (some e) operation before = (err e, before)

  -- `Within…Transaction`.
  unfoldable pub within : Tx S A → Tx S A
  unfolding begun
  within operation before = begun (pool.begin_error before) operation before

-- `require…Rows`, with the invariant error of its use cases.
unfoldable pub require_rows : {S : Type 0} → (String → AppError) → String → ℕ → ℕ → Tx S (Unit {0})
require_rows fault operation actual expected =
    if actual == expected then pure tt else raise (fault operation)
