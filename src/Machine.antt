-- ===== src/Machine.antt =====
-- class SwapMachine of web/swap_machine.js: the events in, the actions out. A method that mutates
-- the object returns the new record, also where it throws, since what was written stays written.
mod Types
pub mod Sound
pub mod Errors
pub mod Loss
pub mod Order
pub mod Progress
pub use Types.*
use near_instant.Common.{
  ℕ, zero, suc, ◌+◌, ◌-◌, min, Bool, true, false, ◌&&◌, List, [], ◌∷◌, ◌++◌, Option, none, some,
  Result, ok, err, length, get_elem?, get_or, ltb, leb, ◌==◌, if◌then◌else◌,
}
use near_instant.Schedule.{max_at_risk}

abbrev pub abs_diff : ℕ → ℕ → ℕ
abs_diff a b = if ltb b a then a - b else b - a

abbrev pub sat_sub : ℕ → ℕ → ℕ
sat_sub a b = if ltb b a then a - b else 0

-- The constructor of the class; `none` is an absent `maturityConfirmations`.
unfoldable pub new : Role → List ℕ → Option ℕ → Machine
new role chunks maturity = record {
  role = role;
  chunks = chunks;
  stage = await_bonds;
  chunk = 0;
  maturity = elim maturity [ none ↦ monero_maturity_confirmations | some n ↦ n ];
  xno_settled = 0;
  xmr_settled = 0;
  xmr_in_flight = 0;
}

-- `false` is where the source throws InvariantViolated.
unfoldable pub check_invariant : Machine → Bool
check_invariant m =
    let bound = max_at_risk m.chunks in
    leb (abs_diff m.xno_settled (m.xmr_settled + m.xmr_in_flight)) bound
    && leb m.xmr_in_flight bound

unfoldable pub worst_case_loss : Machine → ℕ
worst_case_loss m =
    if is_xno_seller m.role
    then sat_sub m.xno_settled m.xmr_settled
    else sat_sub (m.xmr_settled + m.xmr_in_flight) m.xno_settled

-- `who` is `none` for an action of both parties.
abbrev pub is_for : Role → Option Role → Bool
is_for role none = true
is_for role (some who) = same_role who role

unfoldable pub actions_for : Role → List (Option Role × Action) → List Action
actions_for role [] = []
actions_for role ((who, a) ∷ all) =
    if is_for role who then a ∷ actions_for role all else actions_for role all

unfoldable pub abort_actions : Machine → List Action
abort_actions m =
    if not_xno_seller m.role && can_strand m.stage && ltb 0 m.xmr_in_flight
    then trigger_refund_backstop m.chunk ∷ []
    else if is_xno_seller m.role && can_sweep m.stage
    then sweep_xmr m.chunk ∷ []
    else []

-- The common end of both ways to abort: the stage is set before the invariant is checked.
unfoldable pub leave : Machine → Machine × Result MachineError (List Action)
unfolding abort_actions check_invariant
leave m =
    let gone = record m { stage = aborted } in
    (gone, if check_invariant gone then ok (abort_actions m) else err invariant_violated)

-- The `if` chain over stage and event; `none` is its last `else`.
unfoldable pub advance :
    Stage → Event → ℕ → Machine → Option (Machine × List (Option Role × Action))
advance await_bonds both_bonds_confirmed amount m = some (
  record m { stage = await_xmr_lock },
  (some xmr_seller, lock_xmr_chunk m.chunk (some amount)) ∷ [],
)
advance await_xmr_lock (xmr_lock_observed c confirmations) amount m =
    if c == m.chunk
    then if leb m.maturity confirmations
      then some (
        record m { xmr_in_flight = amount; stage = await_presign },
        (some xno_seller, deliver_presign m.chunk amount) ∷ [],
      )
      else some (record m { xmr_in_flight = amount }, [])
    else none
advance await_presign (presign_delivered c) amount m =
    if c == m.chunk
    then some
        (record m { stage = await_guard_confirm }, (some xmr_seller, broadcast_guard m.chunk) ∷ [])
    else none
advance await_guard_confirm (guard_confirmed c) amount m =
    if c == m.chunk
    then some (
      record m { stage = await_xno_claim },
      (some xmr_seller, complete_and_broadcast_claim m.chunk) ∷ [],
    )
    else none
advance await_xno_claim (xno_claim_settled c) amount m =
    if c == m.chunk
    then some (
      record m { xno_settled = m.xno_settled + amount; stage = await_xmr_sweep },
      (some xno_seller, sweep_xmr m.chunk) ∷ [],
    )
    else none
advance await_xmr_sweep (xmr_sweep_confirmed c) amount m =
    let swept = record m {
      xmr_settled = m.xmr_settled + m.xmr_in_flight;
      xmr_in_flight = 0;
      chunk = m.chunk + 1;
    } in
    if c == m.chunk
    then if m.chunk + 1 == length m.chunks
      then some (record swept { stage = completed }, (none, return_bonds) ∷ [])
      else some (
        record swept { stage = await_xmr_lock },
        (some xmr_seller, lock_xmr_chunk (m.chunk + 1) (get_elem? m.chunks (m.chunk + 1))) ∷ [],
      )
    else none
advance _ _ amount m = none

-- What follows the chain: the check, which aborts where it throws, and the filter by role.
unfoldable pub settle :
    Machine
    → Option (Machine × List (Option Role × Action))
    → Machine × Result MachineError (List Action)
unfolding check_invariant actions_for
settle m none = (m, err unexpected_event)
settle m (some (m', out)) =
    if check_invariant m'
    then (m', ok (actions_for m.role out))
    else (record m' { stage = aborted }, err invariant_violated)

-- The three kinds of event that `handle` tells apart, after its two guards.
unfoldable pub dispatch : Machine → Event → Machine × Result MachineError (List Action)
unfolding leave advance settle
dispatch m abort = leave m
dispatch m (lock_reorged c) =
    if c == m.chunk && is_locked m.stage then leave m else (m, err unexpected_event)
dispatch m e =
    let amount = get_or m.chunks (min m.chunk (length m.chunks - 1)) 0 in
    settle m (advance m.stage e amount m)

unfoldable pub handle : Machine → Event → Machine × Result MachineError (List Action)
unfolding dispatch
handle m e =
    if length m.chunks == 0
    then (m, err invariant_violated)
    else if is_terminal m.stage
    then (m, err terminal)
    else dispatch m e

-- What a call of `handle` returned; nothing where it threw.
abbrev pub returned : Result MachineError (List Action) → List Action
returned (ok actions) = actions
returned (err e) = []

-- An event source that feeds one event after another and goes on after an error.
unfoldable pub run : Machine → List Event → Machine × List Action
run m [] = (m, [])
run m (e ∷ es) =
    let (m', r) = handle m e in let (m'', later) = run m' es in (m'', returned r ++ later)
