-- ===== src/Machine/Errors.antt =====
-- What a throwing call of `handle` leaves behind, and the terminal stages.
use near_instant.Common.{
  ◌≡◌, ◌≢◌, refl, inl, inr, Bool-cases, Option-cases, true, false, List, [], ◌∷◌, err, arith,
}
use near_instant.Machine.Types.{
  completed, aborted, is_terminal, Event, MachineError, terminal, unexpected_event, Machine,
}
use near_instant.Machine.{leave, advance, settle, dispatch, handle, run}
use near_instant.Machine.Sound.{
  IsSound, IsSound-check, nonempty, amount-eq-current, advance-IsSound, aborted-IsSound, current,
}

settle-err :
    (m : Machine) (e : Event) {x : MachineError}
    → IsSound m
    → (settle m (advance m.stage e (current m) m)).1 ≡ err x
    → ((settle m (advance m.stage e (current m) m)).0 ≡ m) × (x ≡ unexpected_event)
unfolding settle
settle-err m e s h = elim (Option-cases (advance m.stage e (current m) m)) [
  | inl stuck ↦ ground arith
  | inr ((m', out), moved) ↦
      ground (arith, IsSound-check m' (advance-IsSound m.stage e m refl moved s).0)
]

dispatch-err :
    (m : Machine) (e : Event) {x : MachineError}
    → m.stage ≢ completed
    → IsSound m
    → (dispatch m e).1 ≡ err x
    → ((dispatch m e).0 ≡ m) × (x ≡ unexpected_event)
unfolding dispatch leave
dispatch-err m Event.abort ne s h =
    ground (arith, IsSound-check (record m { stage = aborted }) (aborted-IsSound m ne s))
dispatch-err m (Event.lock_reorged c) ne s h =
    ground (arith, IsSound-check (record m { stage = aborted }) (aborted-IsSound m ne s))
dispatch-err m e ne s h =
    rw (amount-eq-current m s ne) (settle-err m e s (rw (amount-eq-current m s ne) at h))

-- A throw changes nothing: on a sound machine a call that throws leaves every field as it was. It
-- throws `terminal` if the machine is in a terminal stage, and `unexpected_event` otherwise.
pub handle-err :
    (m : Machine) (e : Event) {x : MachineError}
    → IsSound m
    → (handle m e).1 ≡ err x
    → ((handle m e).0 ≡ m)
      × ((is_terminal m.stage ≡ true → x ≡ terminal)
          × (is_terminal m.stage ≡ false → x ≡ unexpected_event))
unfolding handle
handle-err m e {x} s h = elim (Bool-cases (is_terminal m.stage)) [
  | inl over ↦ ground (arith, nonempty m s)
  | inr live ↦ ground (arith, nonempty m s, dispatch-err m e {x = x})
]

-- Once a machine is completed or aborted, no sequence of events changes it or makes it act.
pub run_terminal :
    (es : List Event) (m : Machine) → IsSound m → is_terminal m.stage ≡ true → run m es ≡ (m, [])
unfolding run handle
run_terminal [] m s h = refl
run_terminal (e ∷ es) m s h = rw (nonempty m s, h) (rw (run_terminal es m s h))
