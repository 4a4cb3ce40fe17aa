-- ===== src/Tests/Machine.antt =====
-- The schedule and the machine at concrete inputs.
use near_instant.Common.{
  ℕ, ◌≤◌, ◌<◌, ◌+◌, ◌*◌, ◌≡◌, refl, true, List, [], ◌∷◌, none, some, ok, arith, sum, All,
}
use near_instant.Schedule.{build_schedule, schedule_total, max_at_risk}
use near_instant.Schedule.Bounds.{IsBounded, build_schedule_lem}
use near_instant.Machine.{
  xno_seller, xmr_seller, Stage, Event, Action, Machine, handle, new, run, worst_case_loss,
}
use near_instant.Machine.Sound.{IsSound, Keeps, run-new-IsSound, handle-Keeps, new-IsSound}
use near_instant.Machine.Loss.{Recovers, run-loss-le, handle-abort}
use near_instant.Machine.Order.{observed, locked, presigned, guarded, run-claim}
use near_instant.Machine.Progress.{honest_chunks, run-honest}

-- 23 in chunks of at most 10: the tail of 13 is split in two balanced chunks.
build_23 : build_schedule 23 6 10 5 ≡ some (ok (10 ∷ 6 ∷ 7 ∷ []))
unfolding build_schedule
build_23 = refl

build_schedule_lem_example :
    (sum (10 ∷ 6 ∷ 7 ∷ []) ≡ 23)
    × All (IsBounded 10) (10 ∷ 6 ∷ 7 ∷ [])
    × (3 ≤ 5)
    × (3 * 10 < 23 + 10)
build_schedule_lem_example = build_schedule_lem 23 6 10 5 build_23

abbrev two_chunks : List ℕ
two_chunks = 10 ∷ 7 ∷ []

-- The first chunk is swapped, then the second chunk's lock is seen and reorganised away.
abbrev reorged : List Event
reorged =
    Event.both_bonds_confirmed
    ∷ Event.xmr_lock_observed 0 3
    ∷ Event.xmr_lock_observed 0 10
    ∷ Event.presign_delivered 0
    ∷ Event.xno_claim_settled 0
    ∷ Event.guard_confirmed 0
    ∷ Event.xno_claim_settled 0
    ∷ Event.xmr_sweep_confirmed 0
    ∷ Event.xmr_lock_observed 1 12
    ∷ Event.lock_reorged 1
    ∷ []

run-reorged :
    let (m, actions) = run (new xmr_seller two_chunks none) reorged in
    (m.stage ≡ Stage.aborted)
    × (worst_case_loss m ≡ 7)
    × (actions
        ≡ Action.lock_xmr_chunk 0 (some 10)
          ∷ Action.broadcast_guard 0
          ∷ Action.complete_and_broadcast_claim 0
          ∷ Action.lock_xmr_chunk 1 (some 7)
          ∷ Action.trigger_refund_backstop 1
          ∷ [])
unfolding run handle new worst_case_loss max_at_risk
run-reorged = (refl, refl, refl)

run-new-IsSound_example : IsSound (run (new xmr_seller two_chunks none) reorged).0
run-new-IsSound_example = run-new-IsSound xmr_seller two_chunks none reorged (omega arith)

abbrev fresh : Machine
fresh = record {
  role = xmr_seller;
  chunks = two_chunks;
  stage = Stage.await_bonds;
  chunk = 0;
  maturity = 10;
  xno_settled = 0;
  xmr_settled = 0;
  xmr_in_flight = 0;
}

fresh-IsSound : IsSound fresh
unfolding new
fresh-IsSound = new-IsSound xmr_seller two_chunks (some 10) (omega arith)

handle-Keeps_example : Keeps fresh (handle fresh Event.abort)
handle-Keeps_example = handle-Keeps fresh Event.abort fresh-IsSound

run-loss-le_example : worst_case_loss (run (new xmr_seller (10 ∷ 6 ∷ 7 ∷ []) none) reorged).0 ≤ 10
run-loss-le_example = run-loss-le xmr_seller 23 6 10 5 none reorged build_23 (omega arith)

run-honest_example :
    let m =
      (run
        (new xno_seller two_chunks (some 10))
        (Event.both_bonds_confirmed ∷ honest_chunks 11 0 2)).0 in
    (m.stage ≡ Stage.completed)
    × (m.xno_settled ≡ schedule_total two_chunks)
    × (m.xmr_settled ≡ schedule_total two_chunks)
run-honest_example = run-honest xno_seller two_chunks 10 11 (omega arith) (omega arith)

handle-abort_example :
    (actions : List Action) × (handle fresh Event.abort
      ≡ (record fresh { stage = Stage.aborted }, ok actions))
    × Recovers fresh actions
handle-abort_example = handle-abort fresh fresh-IsSound refl

run-claim_example : observed (locked 10 0 ∷ presigned 0 ∷ guarded 0 ∷ []) reorged ≡ true
unfolding run handle new max_at_risk
run-claim_example = run-claim xmr_seller two_chunks 10 0 reorged refl
