-- ===== src/Machine/Loss.antt =====
-- How much a party can lose: never more than one chunk, and an abort with value at risk always comes
-- with the action that recovers it.
use near_instant.Common.{
  ℕ, ◌+◌, ◌≤◌, ◌<◌, ◌≡◌, ap, sym, ◌∙◌, false, List, [], ◌∷◌, Option, some, ok, arith, length, take,
  sum, maximum, All, sum-take_all,
}
use mathlib.Core.List.{foldl}
use near_instant.Schedule.{build_schedule, max_at_risk, schedule_total}
use near_instant.Schedule.Bounds.{IsBounded, build_schedule_lem}
use near_instant.Machine.Types.{
  Role, xno_seller, xmr_seller, completed, aborted, is_terminal, Event, Action, sweep_xmr,
  trigger_refund_backstop, Machine,
}
use near_instant.Machine.{worst_case_loss, abort_actions, leave, dispatch, handle, new, run}
use near_instant.Machine.Sound.{
  IsSound, IsSound-check, nonempty, aborted-IsSound, current-le-max_at_risk, run-new-IsSound,
  run-chunks, new-IsSound, max_at_risk-eq-maximum,
}

IsSound-loss : (m : Machine) → IsSound m → worst_case_loss m ≤ max_at_risk m.chunks
unfolding worst_case_loss
IsSound-loss m s = ground (arith, current-le-max_at_risk m)

run_chunks :
    (role : Role) (chunks : List ℕ) (maturity : Option ℕ) (es : List Event)
    → 0 < length chunks
    → (run (new role chunks maturity) es).0.chunks ≡ chunks
unfolding new
run_chunks role chunks maturity es h =
    (run-chunks es (new role chunks maturity) (new-IsSound role chunks maturity h)).0

maximum-le : (hi : ℕ) (xs : List ℕ) → All (IsBounded hi) xs → maximum xs ≤ hi
maximum-le hi [] h = omega arith
maximum-le hi (x ∷ xs) h = omega (arith, maximum-le hi xs h.1)

-- A machine over a schedule that was built with chunks of at most `hi` never has more than `hi` at
-- risk, for either role, whatever events arrive in whatever order.
pub run-loss-le :
    (role : Role) (total lo hi n : ℕ) (maturity : Option ℕ) (es : List Event) {chunks : List ℕ}
    → build_schedule total lo hi n ≡ some (ok chunks)
    → 0 < total
    → worst_case_loss (run (new role chunks maturity) es).0 ≤ hi
run-loss-le role total lo hi n maturity es {chunks} built p =
    let (adds, bounded, _, _) = build_schedule_lem total lo hi n built in
    let some_chunk : 0 < length chunks = sum_pos chunks (omega arith) in
    let m = (run (new role chunks maturity) es).0 in
    let bound = IsSound-loss m (run-new-IsSound role chunks maturity es some_chunk) in
    let bound' = rw (run_chunks role chunks maturity es some_chunk) at bound in
    omega (arith, bound', max_at_risk-eq-maximum chunks, maximum-le hi chunks bounded)
  where
    sum_pos : (xs : List ℕ) → 0 < sum xs → 0 < length xs
    sum_pos [] h = absurd (omega arith)
    sum_pos (x ∷ xs) h = omega arith

foldl-add : (xs : List ℕ) (a : ℕ) → foldl (λ s c. s + c) a xs ≡ a + sum xs
foldl-add [] a = omega arith
foldl-add (x ∷ xs) a = omega (arith, foldl-add xs (a + x))

schedule_total-eq-sum : (xs : List ℕ) → schedule_total xs ≡ sum xs
unfolding schedule_total
schedule_total-eq-sum xs = omega (arith, foldl-add xs 0)

IsSound-completed :
    (m : Machine)
    → IsSound m
    → m.stage ≡ completed
    → (m.xno_settled ≡ sum m.chunks) × (m.xmr_settled ≡ sum m.chunks) × (m.xmr_in_flight ≡ 0)
IsSound-completed m s e =
    ground (arith, sum-take_all m.chunks, ap (λ k. sum (take k m.chunks)) (s.finished e))

-- A machine that completes, after whatever events, has settled the whole schedule on both legs and
-- has nothing in flight.
pub run-completed :
    (role : Role) (chunks : List ℕ) (maturity : Option ℕ) (es : List Event)
    → 0 < length chunks
    → let m = (run (new role chunks maturity) es).0 in
      m.stage ≡ completed
      → (m.xno_settled ≡ schedule_total chunks)
        × (m.xmr_settled ≡ schedule_total chunks)
        × (m.xmr_in_flight ≡ 0)
run-completed role chunks maturity es h e =
    let m = (run (new role chunks maturity) es).0 in
    let (xno, xmr, flight) = IsSound-completed m (run-new-IsSound role chunks maturity es h) e in
    let same = ap sum (run_chunks role chunks maturity es h) ∙ sym (schedule_total-eq-sum chunks) in
    (xno ∙ same, xmr ∙ same, flight)

-- The actions of an abort, against what each role has at risk.
abbrev pub Recovers : Machine → List Action → Type 0
Recovers m actions =
    (m.role ≡ xmr_seller
      → (0 < worst_case_loss m → actions ≡ trigger_refund_backstop m.chunk ∷ [])
        × (worst_case_loss m ≡ 0 → actions ≡ []))
    × (m.role ≡ xno_seller → 0 < worst_case_loss m → actions ≡ sweep_xmr m.chunk ∷ [])

abort_actions-Recovers :
    (m : Machine) → IsSound m → is_terminal m.stage ≡ false → Recovers m (abort_actions m)
unfolding abort_actions worst_case_loss
abort_actions-Recovers m s live = ground arith

-- An abort of a sound machine that is not yet terminal never throws: it moves to `aborted`, changes
-- no other field, and returns the actions that recover what is at risk. For the XMR seller that is
-- the refund backstop for the current chunk if its worst-case loss is positive and nothing if it is
-- zero; for the XNO seller it is the sweep of the current chunk if its worst-case loss is positive.
pub handle-abort :
    (m : Machine)
    → IsSound m
    → is_terminal m.stage ≡ false
    → (actions : List Action) × (handle m Event.abort ≡ (record m { stage = aborted }, ok actions))
      × Recovers m actions
unfolding handle dispatch leave
handle-abort m s live =
    let gone = aborted-IsSound m (λ c. ground arith) s in
    (
      abort_actions m,
      rw (nonempty m s, live, IsSound-check (record m { stage = aborted }) gone),
      abort_actions-Recovers m s live,
    )
