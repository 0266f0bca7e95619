-- ===== src/Application/GoalDeletionLaws/Written.antt =====
-- The writes of a deletion: one row each, in their order.
use cycle.Base.{◌≡◌, ◌+◌, ◌*◌, ap, ◌∙◌, String, List, [], ◌∷◌, length, ok}
use cycle.Domain.Cycle.{Time}
use cycle.Application.Errors.{goal_invariant}
use cycle.Application.GoalTx.{
  GoalTx, GoalDeleteGeneration, GoalDeleteReceiptRecord, MonthlyReservation, GoalDeleteResult,
}
use cycle.Application.GoalDeletion.{
  DeleteGoalInput, receipt_of, release_months, terminalize_generations, redact_usages,
  delete_usages, delete_row,
}
use cycle.Application.TxLaws.{run-write, run-pure, run-bind, run-require_rows}

-- The receipt of a deletion, which expires after 24 hours.
abbrev pub receipt_row : DeleteGoalInput → String → Time → GoalDeleteReceiptRecord
receipt_row input hash now = record {
  user_id = input.user_id;
  idempotency_key = input.idempotency_key;
  goal_id = input.goal_id;
  request_hash = hash;
  deleted_at = now;
  expires_at = now + 24 * 60 * 60 * 1000000000;
}

module _ {S : Type 0} (tx : GoalTx S) where
  -- The reservation of every month is released once, in the order of the months.
  unfoldable pub Released : Time → List MonthlyReservation → S → S → Type 0
  Released now [] s s' = s ≡ s'
  Released now (item ∷ items) s s' =
      (t : S) × (tx.release_goal_budget_reservation_cas item.month_utc item.amount_usd now s
        ≡ (ok 1, t))
      × Released now items t s'

  -- Every generation ends, and its usage fails.
  unfoldable pub Terminalized : DeleteGoalInput → Time → List GoalDeleteGeneration → S → S → Type 0
  Terminalized input now [] s s' = s ≡ s'
  Terminalized input now (g ∷ gs) s s' =
      (t : S) × (u : S) × (tx.terminalize_goal_generation_cas input.user_id input.goal_id g now s
        ≡ (ok 1, t))
      × (tx.fail_running_goal_usage_cas input.user_id input.goal_id g.id t ≡ (ok 1, u))
      × Terminalized input now gs u s'

  -- The usages are redacted in one write of as many rows, if there are any.
  unfoldable pub Redacted : DeleteGoalInput → List String → S → S → Type 0
  Redacted input [] s s' = s ≡ s'
  Redacted input (id ∷ ids) s s' =
      tx.redact_goal_usages_cas input.user_id input.goal_id (id ∷ ids) s
      ≡ (ok (length (id ∷ ids)), s')

  unfoldable pub Dropped : DeleteGoalInput → Time → List String → S → S → Type 0
  Dropped input now [] s s' = s ≡ s'
  Dropped input now (id ∷ ids) s s' =
      tx.delete_expired_finalized_goal_usages_cas input.user_id input.goal_id (id ∷ ids) now s
      ≡ (ok (length (id ∷ ids)), s')

  -- The goal is deleted at the expected revision, and the receipt is kept.
  unfoldable pub RowDeleted : DeleteGoalInput → String → Time → S → S → Type 0
  RowDeleted input hash now s s' =
      (t : S) × (tx.delete_goal_cas input.user_id input.goal_id input.expected_revision s
        ≡ (ok 1, t))
      × (tx.insert_goal_delete_receipt (receipt_row input hash now) t ≡ (ok 1, s'))

  pub run-release_months :
      (now : Time) (items : List MonthlyReservation) (s : S) {s' : S}
      → release_months tx now items s ≡ (ok tt, s')
      → Released now items s s'
  unfolding release_months Released
  run-release_months now [] s h = (run-pure tt s h).1
  run-release_months now (item ∷ items) s h =
      let (t, p, h) =
        run-write goal_invariant "release Goal Delete budget reservation"
          (tx.release_goal_budget_reservation_cas item.month_utc item.amount_usd now) 1
          (release_months tx now items) s h in
      (t, p, run-release_months now items t h)

  pub run-terminalize_generations :
      (input : DeleteGoalInput) (now : Time) (items : List GoalDeleteGeneration) (s : S) {s' : S}
      → terminalize_generations tx input now items s ≡ (ok tt, s')
      → Terminalized input now items s s'
  unfolding terminalize_generations Terminalized
  run-terminalize_generations input now [] s h = (run-pure tt s h).1
  run-terminalize_generations input now (g ∷ gs) s h =
      let (t, p, h) =
        run-write goal_invariant "terminalize Goal Delete generation"
          (tx.terminalize_goal_generation_cas input.user_id input.goal_id g now) 1 _ s h in
      let (u, q, h) =
        run-write goal_invariant "terminalize Goal Delete usage"
          (tx.fail_running_goal_usage_cas input.user_id input.goal_id g.id) 1
          (terminalize_generations tx input now gs) t h in
      (t, u, p, q, run-terminalize_generations input now gs u h)

  pub run-redact_usages :
      (input : DeleteGoalInput) (ids : List String) (s : S) {s' : S}
      → redact_usages tx input ids s ≡ (ok tt, s')
      → Redacted input ids s s'
  unfolding redact_usages Redacted
  run-redact_usages input [] s h = (run-pure tt s h).1
  run-redact_usages input (id ∷ ids) s h =
      let (rows, t, p, h) =
        run-bind (tx.redact_goal_usages_cas input.user_id input.goal_id (id ∷ ids)) _ s h in
      let (e, same) =
        run-require_rows goal_invariant "redact Goal Delete usage" rows (length (id ∷ ids)) t h in
      cc

  pub run-delete_usages :
      (input : DeleteGoalInput) (now : Time) (ids : List String) (s : S) {s' : S}
      → delete_usages tx input now ids s ≡ (ok tt, s')
      → Dropped input now ids s s'
  unfolding delete_usages Dropped
  run-delete_usages input now [] s h = (run-pure tt s h).1
  run-delete_usages input now (id ∷ ids) s h =
      let (rows, t, p, h) =
        run-bind
          (tx.delete_expired_finalized_goal_usages_cas input.user_id input.goal_id (id ∷ ids) now) _
          s h in
      let (e, same) =
        run-require_rows goal_invariant "delete expired Goal usage" rows (length (id ∷ ids)) t h in
      cc

  pub run-delete_row :
      (input : DeleteGoalInput) (hash : String) (now : Time) (result : GoalDeleteResult) (s : S)
      {r : GoalDeleteResult} {s' : S}
      → delete_row tx input hash now result s ≡ (ok r, s')
      → RowDeleted input hash now s s' × (result ≡ r)
  unfolding delete_row RowDeleted
  run-delete_row input hash now result s h =
      let (t, p, h) =
        run-write goal_invariant "delete Goal"
          (tx.delete_goal_cas input.user_id input.goal_id input.expected_revision) 1 _ s h in
      let (u, q, h) =
        run-write goal_invariant "insert Goal Delete receipt"
          (tx.insert_goal_delete_receipt (receipt_of input hash now)) 1 _ t h in
      let (e, same) = run-pure result u h in ((t, p, q ∙ ap (λ (x : S). (ok 1, x)) same), e)
