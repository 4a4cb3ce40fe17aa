-- ===== src/Machine/Progress.antt =====
-- The swap goes through: the events of an honest run, chunk by chunk, complete the machine.
use near_instant.Common.{
  ℕ, zero, suc, ◌+◌, ◌≤◌, ◌<◌, ◌≡◌, ◌≢◌, refl, List, [], ◌∷◌, ◌++◌, some, arith, length,
}
use near_instant.Machine.Types.{
  Role, Stage, await_bonds, await_xmr_lock, await_presign, await_guard_confirm, await_xno_claim,
  await_xmr_sweep, completed, Event, Machine,
}
use near_instant.Machine.{advance, settle, dispatch, handle, new, run}
use near_instant.Schedule.{schedule_total}
use near_instant.Machine.Loss.{run-completed}
use near_instant.Machine.Sound.{IsSound, nonempty, new-IsSound, handle-Keeps, amount-eq-current}

-- What is observed while chunk `c` is swapped, the lock being `k` deep.
abbrev pub honest_chunk : ℕ → ℕ → List Event
honest_chunk k c =
    Event.xmr_lock_observed c k
    ∷ Event.presign_delivered c
    ∷ Event.guard_confirmed c
    ∷ Event.xno_claim_settled c
    ∷ Event.xmr_sweep_confirmed c
    ∷ []

-- The chunks from `c` on, `n` of them.
abbrev pub honest_chunks : ℕ → ℕ → ℕ → List Event
honest_chunks k c zero = []
honest_chunks k c (suc n) = honest_chunk k c ++ honest_chunks k (c + 1) n

-- A machine at a stage of a chunk, with its schedule and depth.
record At (stage : Stage) (chunk : ℕ) (chunks : List ℕ) (maturity : ℕ) (m : Machine) : Type 0 where
  sound : IsSound m
  stage_is : m.stage ≡ stage
  chunk_is : m.chunk ≡ chunk
  chunks_are : m.chunks ≡ chunks
  depth : m.maturity ≡ maturity

module _ (c k maturity : ℕ) (chunks : List ℕ) (m : Machine) where
  bonds-At :
      At await_bonds c chunks maturity m
      → At await_xmr_lock c chunks maturity (handle m Event.both_bonds_confirmed).0
  unfolding handle dispatch settle advance
  bonds-At a = ground (
    arith,
    handle-Keeps m Event.both_bonds_confirmed a.sound,
    amount-eq-current m a.sound,
    nonempty m a.sound,
  )

  lock-At :
      maturity ≤ k
      → At await_xmr_lock c chunks maturity m
      → At await_presign c chunks maturity (handle m (Event.xmr_lock_observed c k)).0
  unfolding handle dispatch settle advance
  lock-At deep a = ground (
    arith,
    handle-Keeps m (Event.xmr_lock_observed c k) a.sound,
    amount-eq-current m a.sound,
    nonempty m a.sound,
  )

  presign-At :
      At await_presign c chunks maturity m
      → At await_guard_confirm c chunks maturity (handle m (Event.presign_delivered c)).0
  unfolding handle dispatch settle advance
  presign-At a = ground (
    arith,
    handle-Keeps m (Event.presign_delivered c) a.sound,
    amount-eq-current m a.sound,
    nonempty m a.sound,
  )

  guard-At :
      At await_guard_confirm c chunks maturity m
      → At await_xno_claim c chunks maturity (handle m (Event.guard_confirmed c)).0
  unfolding handle dispatch settle advance
  guard-At a = ground (
    arith,
    handle-Keeps m (Event.guard_confirmed c) a.sound,
    amount-eq-current m a.sound,
    nonempty m a.sound,
  )

  claim-At :
      At await_xno_claim c chunks maturity m
      → At await_xmr_sweep c chunks maturity (handle m (Event.xno_claim_settled c)).0
  unfolding handle dispatch settle advance
  claim-At a = ground (
    arith,
    handle-Keeps m (Event.xno_claim_settled c) a.sound,
    amount-eq-current m a.sound,
    nonempty m a.sound,
  )

  sweep_more-At :
      c + 1 ≢ length chunks
      → At await_xmr_sweep c chunks maturity m
      → At await_xmr_lock (c + 1) chunks maturity (handle m (Event.xmr_sweep_confirmed c)).0
  unfolding handle dispatch settle advance
  sweep_more-At more a = ground (
    arith,
    handle-Keeps m (Event.xmr_sweep_confirmed c) a.sound,
    amount-eq-current m a.sound,
    nonempty m a.sound,
  )

  sweep_last-At :
      c + 1 ≡ length chunks
      → At await_xmr_sweep c chunks maturity m
      → At completed (c + 1) chunks maturity (handle m (Event.xmr_sweep_confirmed c)).0
  unfolding handle dispatch settle advance
  sweep_last-At more a = ground (
    arith,
    handle-Keeps m (Event.xmr_sweep_confirmed c) a.sound,
    amount-eq-current m a.sound,
    nonempty m a.sound,
  )

module _ (k maturity : ℕ) (chunks : List ℕ) (deep : maturity ≤ k) where
  run_chunks :
      (n c : ℕ) (m : Machine)
      → c + suc n ≡ length chunks
      → At await_xmr_lock c chunks maturity m
      → At completed (length chunks) chunks maturity (run m (honest_chunks k c (suc n))).0
  unfolding run
  run_chunks zero c m e a =
      let a1 = lock-At c k maturity chunks m deep a in
      let a2 = presign-At c k maturity chunks _ a1 in
      let a3 = guard-At c k maturity chunks _ a2 in
      let a4 = claim-At c k maturity chunks _ a3 in
      let last : c + 1 ≡ length chunks = omega arith in
      let a5 = sweep_last-At c k maturity chunks _ last a4 in rw last at a5
  run_chunks (suc n) c m e a =
      let a1 = lock-At c k maturity chunks m deep a in
      let a2 = presign-At c k maturity chunks _ a1 in
      let a3 = guard-At c k maturity chunks _ a2 in
      let a4 = claim-At c k maturity chunks _ a3 in
      let more : c + 1 ≢ length chunks = omega arith in
      let a5 = sweep_more-At c k maturity chunks _ more a4 in
      run_chunks n (c + 1) _ (omega arith) a5

honest-completed :
    (role : Role) (x : ℕ) (xs : List ℕ) (maturity k : ℕ)
    → maturity ≤ k
    → (run
        (new role (x ∷ xs) (some maturity))
        (Event.both_bonds_confirmed ∷ honest_chunks k 0 (suc (length xs)))).0.stage
      ≡ completed
unfolding run new
honest-completed role x xs maturity k deep =
    let chunks : List ℕ = x ∷ xs in
    let start : Machine = new role chunks (some maturity) in
    let begun : At await_bonds 0 chunks maturity start = record {
      sound = new-IsSound role chunks (some maturity) (omega arith);
      stage_is = refl;
      chunk_is = refl;
      chunks_are = refl;
      depth = refl;
    } in
    let a = bonds-At 0 k maturity chunks start begun in
    (run_chunks k maturity chunks deep (length xs) 0 _ (omega arith) a).stage_is

-- The swap goes through: once the bonds are confirmed and, for each chunk in turn, a lock at least
-- `maturity` deep, the pre-signature, the guard, the claim and the sweep are observed, a machine of
-- either role over a nonempty schedule is completed, with the whole schedule settled on both legs.
pub run-honest :
    (role : Role) (chunks : List ℕ) (maturity k : ℕ)
    → 0 < length chunks
    → maturity ≤ k
    → let es = Event.both_bonds_confirmed ∷ honest_chunks k 0 (length chunks) in
      let m = (run (new role chunks (some maturity)) es).0 in
      (m.stage ≡ completed)
      × (m.xno_settled ≡ schedule_total chunks)
      × (m.xmr_settled ≡ schedule_total chunks)
run-honest role [] maturity k h deep = absurd (omega arith)
run-honest role (x ∷ xs) maturity k h deep =
    let es = Event.both_bonds_confirmed ∷ honest_chunks k 0 (suc (length xs)) in
    let done = honest-completed role x xs maturity k deep in
    let (xno, xmr, _) = run-completed role (x ∷ xs) (some maturity) es (omega arith) done in
    (done, xno, xmr)
