-- ===== src/Machine/Sound.antt =====
-- The accounting invariant of the machine, kept by every event.
use near_instant.Common.{
  ℕ, ◌+◌, ◌-◌, ◌≤◌, ◌<◌, min, max, ◌≡◌, ◌≢◌, refl, ◌⊎◌, ◌∙◌, false, ◌==◌, inl, inr, true, List, [],
  ◌∷◌, some, Option, Option-cases, Bool-cases, Result, err, arith, length, get_or, take, sum,
  maximum, get_or-le-maximum, sum-take_add_one, ltb, if◌then◌else◌,
}
use mathlib.Core.List.{foldl}
use near_instant.Schedule.{max_at_risk}
use near_instant.Machine.Types.{
  Role, Stage, await_bonds, await_xmr_lock, await_presign, await_guard_confirm, await_xno_claim,
  await_xmr_sweep, completed, aborted, is_terminal, is_locked, Event, Action, MachineError,
  invariant_violated, Machine,
}
use near_instant.Machine.{check_invariant, leave, advance, settle, dispatch, handle, new, run}

foldl-max :
    (xs : List ℕ) (a : ℕ) → foldl (λ m c. if ltb m c then c else m) a xs ≡ max a (maximum xs)
foldl-max [] a = omega arith
foldl-max (x ∷ xs) a = ground (arith, foldl-max xs (if ltb a x then x else a))

pub max_at_risk-eq-maximum : (xs : List ℕ) → max_at_risk xs ≡ maximum xs
unfolding max_at_risk
max_at_risk-eq-maximum xs = omega (arith, foldl-max xs 0)

-- The chunk in progress.
abbrev pub current : Machine → ℕ
current m = get_or m.chunks m.chunk 0

pub current-le-max_at_risk : (m : Machine) → current m ≤ max_at_risk m.chunks
current-le-max_at_risk m =
    omega (arith, max_at_risk-eq-maximum m.chunks, get_or-le-maximum m.chunks m.chunk)

-- What holds of a machine between two events: the finished chunks are settled on both sides, and of
-- the chunk in progress the Monero may be in flight and the Nano may have been paid.
pub record IsSound (m : Machine) : Type 0 where
  pub some_chunk : 0 < length m.chunks
  pub in_range : m.stage ≢ completed → m.chunk < length m.chunks
  pub finished : m.stage ≡ completed → m.chunk ≡ length m.chunks
  pub swept : m.xmr_settled ≡ sum (take m.chunk m.chunks)
  pub flight : (m.xmr_in_flight ≡ 0) ⊎ (m.xmr_in_flight ≡ current m)
  pub idle : (m.stage ≡ completed) ⊎ (m.stage ≡ await_bonds) → m.xmr_in_flight ≡ 0
  pub locked : is_locked m.stage ≡ true → m.xmr_in_flight ≡ current m
  pub claimed :
      m.stage ≡ await_xmr_sweep
      → (m.xno_settled ≡ m.xmr_settled + current m) × (m.xmr_in_flight ≡ current m)
  pub paid :
      (m.xno_settled ≡ m.xmr_settled)
      ⊎ ((m.xno_settled ≡ m.xmr_settled + m.xmr_in_flight)
          × ((m.stage ≡ await_xmr_sweep) ⊎ (m.stage ≡ aborted)))

pub IsSound-check : (m : Machine) → IsSound m → check_invariant m ≡ true
unfolding check_invariant
IsSound-check m s = ground (arith, current-le-max_at_risk m)

-- A new machine over a nonempty schedule.
pub new-IsSound :
    (role : Role) (chunks : List ℕ) (maturity : Option ℕ)
    → 0 < length chunks
    → IsSound (new role chunks maturity)
unfolding new
new-IsSound role chunks maturity h = ground arith

pub aborted-IsSound :
    (m : Machine) → m.stage ≢ completed → IsSound m → IsSound (record m { stage = aborted })
aborted-IsSound m ne s = ground arith

-- The amount that `handle` reads is the current chunk.
pub amount-eq-current :
    (m : Machine)
    → IsSound m
    → m.stage ≢ completed
    → get_or m.chunks (min m.chunk (length m.chunks - 1)) 0 ≡ current m
amount-eq-current m s ne =
    let below : m.chunk < length m.chunks = s.in_range ne in
    let e : min m.chunk (length m.chunks - 1) ≡ m.chunk = omega arith in rw e

pub advance-IsSound :
    (stage : Stage) (e : Event) (m : Machine) {m' : Machine} {out : List (Option Role × Action)}
    → m.stage ≡ stage
    → advance stage e (current m) m ≡ some (m', out)
    → IsSound m
    → IsSound m' × (m'.chunks ≡ m.chunks)
unfolding advance
advance-IsSound await_bonds e m st h s = ground arith
advance-IsSound await_xmr_lock e m st h s = ground arith
advance-IsSound await_presign e m st h s = ground arith
advance-IsSound await_guard_confirm e m st h s = ground arith
advance-IsSound await_xno_claim e m st h s = ground arith
advance-IsSound await_xmr_sweep e m st h s = ground (arith, sum-take_add_one m.chunk m.chunks)
advance-IsSound completed e m st h s = ground arith
advance-IsSound aborted e m st h s = ground arith

-- A step keeps the schedule and the role, and an abort or a check never throws.
abbrev pub Keeps : Machine → Machine × Result MachineError (List Action) → Type 0
Keeps m (m', r) =
    IsSound m' × (m'.chunks ≡ m.chunks) × (m'.role ≡ m.role) × (r ≢ err invariant_violated)

leave-Keeps : (m : Machine) → m.stage ≢ completed → IsSound m → Keeps m (leave m)
unfolding leave
leave-Keeps m ne s =
    let gone = aborted-IsSound m ne s in
    (gone, refl, refl, ground (arith, IsSound-check (record m { stage = aborted }) gone))

advance-role :
    (stage : Stage) (e : Event) (amount : ℕ) (m : Machine) {m' : Machine}
    {out : List (Option Role × Action)}
    → advance stage e amount m ≡ some (m', out)
    → m'.role ≡ m.role
unfolding advance
advance-role stage e amount m h = ground arith

settle-Keeps :
    (m : Machine) (e : Event)
    → m.stage ≢ completed
    → IsSound m
    → Keeps m (settle m (advance m.stage e (current m) m))
unfolding settle
settle-Keeps m e ne s = elim (Option-cases (advance m.stage e (current m) m)) [
  | inl stuck ↦ rw stuck (s, refl, refl, λ c. ground arith)
  | inr ((m', out), moved) ↦
      let (sound, same) = advance-IsSound m.stage e m refl moved s in
      rw (moved, IsSound-check m' sound)
        (sound, same, advance-role m.stage e (current m) m moved, λ c. ground arith)
]

dispatch-Keeps :
    (m : Machine) (e : Event) → m.stage ≢ completed → IsSound m → Keeps m (dispatch m e)
unfolding dispatch
dispatch-Keeps m Event.abort ne s = leave-Keeps m ne s
dispatch-Keeps m (Event.lock_reorged c) ne s = ground (arith, leave-Keeps m ne s)
dispatch-Keeps m e ne s = rw (amount-eq-current m s ne) (settle-Keeps m e ne s)

pub nonempty : (m : Machine) → IsSound m → (length m.chunks == 0) ≡ false
nonempty m s = ground arith

-- Every event, in every state, keeps the accounting invariant, the schedule and the role, and the
-- invariant check of the code never fails.
pub handle-Keeps : (m : Machine) (e : Event) → IsSound m → Keeps m (handle m e)
unfolding handle
handle-Keeps m e s = elim (Bool-cases (is_terminal m.stage)) [
  | inl over ↦ rw (nonempty m s, over) (s, refl, refl, λ c. ground arith)
  | inr live ↦ rw (nonempty m s, live) (dispatch-Keeps m e (λ c. ground arith) s)
]

run-IsSound : (es : List Event) (m : Machine) → IsSound m → IsSound (run m es).0
unfolding run
run-IsSound [] m s = s
run-IsSound (e ∷ es) m s = run-IsSound es (handle m e).0 (handle-Keeps m e s).0

pub run-chunks :
    (es : List Event) (m : Machine)
    → IsSound m
    → ((run m es).0.chunks ≡ m.chunks) × ((run m es).0.role ≡ m.role)
unfolding run
run-chunks [] m s = (refl, refl)
run-chunks (e ∷ es) m s =
    let (sound, chunks, role, _) = handle-Keeps m e s in
    let (chunks', role') = run-chunks es (handle m e).0 sound in (chunks' ∙ chunks, role' ∙ role)

-- Whatever events arrive, in whatever order, a machine made over a nonempty schedule satisfies the
-- accounting invariant after them.
pub run-new-IsSound :
    (role : Role) (chunks : List ℕ) (maturity : Option ℕ) (es : List Event)
    → 0 < length chunks
    → IsSound (run (new role chunks maturity) es).0
run-new-IsSound role chunks maturity es h =
    run-IsSound es (new role chunks maturity) (new-IsSound role chunks maturity h)
