-- ===== src/Machine/Order.antt =====
-- Confirm before reveal: the claim, which reveals the secret, is only returned after a deep lock, the
-- delivered pre-signature and the confirmed guard of the same chunk, in this order.
use near_instant.Common.{
  ℕ, ◌≡◌, ◌≢◌, ◌⊎◌, refl, Bool, true, false, ◌||◌, ◌&&◌, Option-cases, inl, inr, List, [], ◌∷◌,
  ◌++◌, Option, some, arith, min, ◌-◌, get_or, length, Result, ltb, leb, ◌==◌, if◌then◌else◌,
}
use near_instant.Machine.Types.{
  Role, Stage, await_bonds, await_xmr_lock, await_presign, await_guard_confirm, await_xno_claim,
  await_xmr_sweep, completed, aborted, Event, Action, Machine, MachineError,
}
use near_instant.Machine.{
  advance, actions_for, leave, abort_actions, settle, dispatch, handle, returned, new, run,
}

-- What has to be observed; `impossible` is met by no event.
pub data Need : Type 0 where
  locked : ℕ → ℕ → Need
  presigned guarded : ℕ → Need
  impossible : Need

abbrev pub meets : Need → Event → Bool
meets (locked maturity c) (Event.xmr_lock_observed d k) = c == d && leb maturity k
meets (presigned c) (Event.presign_delivered d) = c == d
meets (guarded c) (Event.guard_confirmed d) = c == d
meets _ _ = false

-- The needs are met by events of the list in the order given, one after another.
pub observed : List Need → List Event → Bool
observed [] es = true
observed (n ∷ ns) [] = false
observed (n ∷ ns) (e ∷ es) = observed (if meets n e then ns else n ∷ ns) es

abbrev pub has_claim : ℕ → List Action → Bool
has_claim c [] = false
has_claim c (Action.complete_and_broadcast_claim d ∷ as') = c == d || has_claim c as'
has_claim c (_ ∷ as') = has_claim c as'

has_claim-append :
    (c : ℕ) (xs ys : List Action) → has_claim c (xs ++ ys) ≡ (has_claim c xs || has_claim c ys)
has_claim-append c [] ys = refl
has_claim-append c (x ∷ xs) ys = ground (arith, has_claim-append c xs ys)

observed-tail :
    (es : List Event) (n : Need) (ns : List Need)
    → observed (n ∷ ns) es ≡ true
    → observed ns es ≡ true
unfolding observed
observed-tail [] n ns h = cc
observed-tail (e ∷ es) n [] h = refl
observed-tail (e ∷ es) n (k ∷ ns) h =
    ground (arith, observed-tail es n (k ∷ ns), observed-tail es k ns)

-- One more event at the front does no harm.
observed-cons :
    (e : Event) (es : List Event) (ns : List Need)
    → observed ns es ≡ true
    → observed ns (e ∷ es) ≡ true
unfolding observed
observed-cons e es [] h = refl
observed-cons e es (n ∷ ns) h = ground (arith, observed-tail es n ns)

observed-impossible : (es : List Event) (ns : List Need) → observed (impossible ∷ ns) es ≢ true
unfolding observed
observed-impossible [] ns h = cc
observed-impossible (e ∷ es) ns h = observed-impossible es ns h

-- What a machine has still to observe before it returns the claim of chunk `c`.
abbrev remaining : Stage → ℕ → ℕ → ℕ → List Need
remaining await_bonds maturity c d =
    if ltb c d then impossible ∷ [] else locked maturity c ∷ presigned c ∷ guarded c ∷ []
remaining await_xmr_lock maturity c d =
    if ltb c d then impossible ∷ [] else locked maturity c ∷ presigned c ∷ guarded c ∷ []
remaining await_presign maturity c d =
    if c == d
    then presigned c ∷ guarded c ∷ []
    else if ltb c d
    then impossible ∷ []
    else locked maturity c ∷ presigned c ∷ guarded c ∷ []
remaining await_guard_confirm maturity c d =
    if c == d
    then guarded c ∷ []
    else if ltb c d
    then impossible ∷ []
    else locked maturity c ∷ presigned c ∷ guarded c ∷ []
remaining await_xno_claim maturity c d =
    if leb c d then impossible ∷ [] else locked maturity c ∷ presigned c ∷ guarded c ∷ []
remaining await_xmr_sweep maturity c d =
    if leb c d then impossible ∷ [] else locked maturity c ∷ presigned c ∷ guarded c ∷ []
remaining completed maturity c d = impossible ∷ []
remaining aborted maturity c d = impossible ∷ []

abbrev needs : Machine → ℕ → List Need
needs m c = remaining m.stage m.maturity c m.chunk

-- The event that is waited for strikes the first need off.
observed-met :
    (n : Need) (e : Event) (ns : List Need) (es : List Event)
    → meets n e ≡ true
    → observed ns es ≡ true
    → observed (n ∷ ns) (e ∷ es) ≡ true
unfolding observed
observed-met n e ns es h o = rw (h, observed) o

advance-needs :
    (stage : Stage) (e : Event) (amount c : ℕ) (es : List Event) (m : Machine) {m' : Machine}
    {out : List (Option Role × Action)}
    → m.stage ≡ stage
    → advance stage e amount m ≡ some (m', out)
    → observed (needs m' c) es ≡ true
    → observed (needs m c) (e ∷ es) ≡ true
unfolding advance
advance-needs await_bonds e amount c es m st h o = ground (arith, observed-cons e es (needs m c))
advance-needs await_xmr_lock (Event.xmr_lock_observed d k) amount c es m st h o = ground (
  arith,
  observed-cons (Event.xmr_lock_observed d k) es (needs m c),
  observed-met (locked m.maturity c) (Event.xmr_lock_observed d k) (presigned c ∷ guarded c ∷ [])
      es,
  observed-impossible es [],
)
advance-needs await_xmr_lock e amount c es m st h o = ground arith
advance-needs await_presign (Event.presign_delivered d) amount c es m st h o = ground (
  arith,
  observed-cons (Event.presign_delivered d) es (needs m c),
  observed-met (presigned c) (Event.presign_delivered d) (guarded c ∷ []) es,
  observed-impossible es [],
)
advance-needs await_presign e amount c es m st h o = ground arith
advance-needs await_guard_confirm (Event.guard_confirmed d) amount c es m st h o = ground (
  arith,
  observed-cons (Event.guard_confirmed d) es (needs m c),
  observed-met (guarded c) (Event.guard_confirmed d) [] es,
  observed-impossible es [],
)
advance-needs await_guard_confirm e amount c es m st h o = ground arith
advance-needs await_xno_claim e amount c es m st h o =
    ground (arith, observed-cons e es (needs m c))
advance-needs await_xmr_sweep (Event.xmr_sweep_confirmed d) amount c es m st h o =
    ground
      (arith, observed-cons (Event.xmr_sweep_confirmed d) es (needs m c), observed-impossible es [])
advance-needs await_xmr_sweep e amount c es m st h o = ground arith
advance-needs completed e amount c es m st h o = ground arith
advance-needs aborted e amount c es m st h o = ground arith

-- The claim of chunk `c` is returned only at the guard's confirmation, the last need.
advance-claim :
    (stage : Stage) (e : Event) (amount c : ℕ) (es : List Event) (m : Machine) {m' : Machine}
    {out : List (Option Role × Action)}
    → m.stage ≡ stage
    → advance stage e amount m ≡ some (m', out)
    → has_claim c (actions_for m.role out) ≡ true
    → observed (needs m c) (e ∷ es) ≡ true
unfolding advance actions_for observed
advance-claim await_guard_confirm (Event.guard_confirmed d) amount c es m st h o = ground arith
advance-claim await_guard_confirm e amount c es m st h o = ground arith
advance-claim stage e amount c es m st h o = ground arith

-- After a call that began at `m`: a claim that it returned, or one that is still returned later,
-- needs what `m` had still to observe.
abbrev Waits :
    ℕ → List Event → Event → Machine → Machine × Result MachineError (List Action) → Type 0
Waits c es e m (m', r) =
    (has_claim c (returned r) ≡ true) ⊎ (observed (needs m' c) es ≡ true)
    → observed (needs m c) (e ∷ es) ≡ true

leave-Waits : (m : Machine) (e : Event) (c : ℕ) (es : List Event) → Waits c es e m (leave m)
unfolding leave abort_actions
leave-Waits m e c es h = ground (arith, observed-impossible es [])

settle-Waits :
    (m : Machine) (e : Event) (amount c : ℕ) (es : List Event)
    → Waits c es e m (settle m (advance m.stage e amount m))
unfolding settle
settle-Waits m e amount c es h = elim (Option-cases (advance m.stage e amount m)) [
  | inl stuck ↦ ground (arith, observed-cons e es (needs m c))
  | inr ((m', out), moved) ↦ ground (
    arith,
    advance-claim m.stage e amount c es m refl moved,
    advance-needs m.stage e amount c es m refl moved,
    observed-impossible es [],
  )
]

dispatch-Waits : (m : Machine) (e : Event) (c : ℕ) (es : List Event) → Waits c es e m (dispatch m e)
unfolding dispatch
dispatch-Waits m Event.abort c es h = leave-Waits m Event.abort c es h
dispatch-Waits m (Event.lock_reorged d) c es h = ground (
  arith,
  leave-Waits m (Event.lock_reorged d) c es,
  observed-cons (Event.lock_reorged d) es (needs m c),
)
dispatch-Waits m e c es h =
    settle-Waits m e (get_or m.chunks (min m.chunk (length m.chunks - 1)) 0) c es h

handle-Waits : (m : Machine) (e : Event) (c : ℕ) (es : List Event) → Waits c es e m (handle m e)
unfolding handle
handle-Waits m e c es h = ground (arith, dispatch-Waits m e c es, observed-cons e es (needs m c))

run-needs :
    (es : List Event) (m : Machine) (c : ℕ)
    → has_claim c (run m es).1 ≡ true
    → observed (needs m c) es ≡ true
unfolding run
run-needs [] m c h = cc
run-needs (e ∷ es) m c h = ground (
  arith,
  has_claim-append c (returned (handle m e).1) (run (handle m e).0 es).1,
  run-needs es (handle m e).0 c,
  handle-Waits m e c es,
)

-- Confirm before reveal. If a new machine returns the claim of chunk `c` while it is fed a list of
-- events, that list contains, in this order, an observation of the lock of chunk `c` with at least
-- `maturity` confirmations, the delivery of the pre-signature of chunk `c`, and the confirmation of
-- the guard of chunk `c`.
pub run-claim :
    (role : Role) (chunks : List ℕ) (maturity c : ℕ) (es : List Event)
    → has_claim c (run (new role chunks (some maturity)) es).1 ≡ true
    → observed (locked maturity c ∷ presigned c ∷ guarded c ∷ []) es ≡ true
unfolding new
run-claim role chunks maturity c es h =
    ground (arith, run-needs es (new role chunks (some maturity)) c)
