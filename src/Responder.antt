-- ===== src/Responder.antt =====
-- web/swap_responder.js: the responder that feeds a SwapMachine and hands its actions to an executor.
pub mod Executed
pub mod Dispatch
pub mod Refines
pub mod Wired
use near_instant.Common.{
  length, ℕ, ◌+◌, Bool, true, false, not, List, [], ◌∷◌, ◌++◌, Option, none, some, Result, ok, err,
  if◌then◌else◌,
}
use near_instant.Machine.{
  Machine, Role, Stage, aborted, Event, Action, lock_xmr_chunk, deliver_presign, broadcast_guard,
  complete_and_broadcast_claim, sweep_xmr, trigger_refund_backstop, return_bonds, MachineError, new,
  handle,
}

pub data ActionType : Type 0 where
  lock_bond_type lock_xmr_chunk_type deliver_presign_type broadcast_guard_type : ActionType
  complete_and_broadcast_claim_type sweep_xmr_type return_bonds_type trigger_refund_backstop_type :
      ActionType

abbrev pub action_types : List ActionType
action_types =
    lock_bond_type ∷ lock_xmr_chunk_type ∷ deliver_presign_type ∷ broadcast_guard_type
    ∷ complete_and_broadcast_claim_type ∷ sweep_xmr_type ∷ return_bonds_type
    ∷ trigger_refund_backstop_type ∷ []

-- `a.type`
abbrev pub type_of : Action → ActionType
type_of (lock_xmr_chunk c amount) = lock_xmr_chunk_type
type_of (deliver_presign c amount) = deliver_presign_type
type_of (broadcast_guard c) = broadcast_guard_type
type_of (complete_and_broadcast_claim c) = complete_and_broadcast_claim_type
type_of (sweep_xmr c) = sweep_xmr_type
type_of (trigger_refund_backstop c) = trigger_refund_backstop_type
type_of return_bonds = return_bonds_type

-- The caller's executor: which types it has a function for, and whether the function returns for an
-- action at a state of the machine, after so many actions.
pub record Executor : Type 0 where
  pub has : ActionType → Bool
  pub works : ℕ → Action → Machine → Bool

-- An entry of the log.
pub data Entry : Type 0 where
  acted : Action → Entry
  refused : Event → MachineError → Entry

-- A call of the executor, with the machine that it is given.
abbrev pub Call : Type 0
Call = Action × Machine

-- `calls` are the calls of the executor that were made: they are no field of the source's, whose log is
-- written before a call.
pub record Responder : Type 0 where
  pub machine : Machine
  pub log : List Entry
  pub calls : List Call
  pub aborted : Bool

-- What a feed throws: the machine's error, a missing function, or what the function throws.
pub data FeedError : Type 0 where
  machine_error : MachineError → FeedError
  missing failed : Action → FeedError

-- The first type that has no function.
unfoldable pub first_missing : (ActionType → Bool) → List ActionType → Option ActionType
first_missing has [] = none
first_missing has (t ∷ ts) =
    let later = first_missing has ts in if not (has t) then some t else later

abbrev pub unless_missing : Option ActionType → Responder → Result ActionType Responder
unless_missing none r = ok r
unless_missing (some t) r = err t

unfoldable pub make_responder : Role → List ℕ → Executor → Option ℕ → Result ActionType Responder
make_responder role schedule executor maturity =
    unless_missing (first_missing executor.has action_types)
      (record { machine = new role schedule maturity; log = []; calls = []; aborted = false })

abbrev pub is_aborted : Stage → Bool
is_aborted aborted = true
is_aborted _ = false

-- Each action is logged and then executed; what throws ends the loop.
unfoldable pub dispatch_all :
    Executor → List Action → Responder → Responder × Result FeedError (Unit {0})
dispatch_all x [] r = (r, ok tt)
dispatch_all x (a ∷ others) r =
    let logged : Responder = record r { log = r.log ++ acted a ∷ [] } in
    let called : Responder = record logged { calls = r.calls ++ (a, r.machine) ∷ [] } in
    let later = dispatch_all x others called in
    if not (x.has (type_of a))
    then (logged, err (missing a))
    else if x.works (length r.log) a r.machine
    then later
    else (called, err (failed a))

-- What follows a call of `handle`.
unfoldable pub respond :
    Executor
    → Event
    → Responder
    → Machine × Result MachineError (List Action)
    → Responder × Result FeedError (Unit {0})
respond x e r (m, err why) =
    (record r { machine = m; log = r.log ++ refused e why ∷ [] }, err (machine_error why))
respond x e r (m, ok actions) =
    dispatch_all x actions
      (record r { machine = m; aborted = if is_aborted m.stage then true else r.aborted })

unfoldable pub feed : Executor → Responder → Event → Responder × Result FeedError (Unit {0})
feed x r e = respond x e r (handle r.machine e)

-- What a feed threw, or what comes after it.
abbrev pub after_feed :
    Responder × Result FeedError (Unit {0})
    → Responder × Result FeedError (Unit {0})
    → Responder × Result FeedError (Unit {0})
after_feed (r, ok u) later = later
after_feed (r, err why) later = (r, err why)

-- The events in order, up to the first that throws.
unfoldable pub drive : Executor → Responder → List Event → Responder × Result FeedError (Unit {0})
drive x r [] = (r, ok tt)
drive x r (e ∷ es) = let fed = feed x r e in after_feed fed (drive x fed.0 es)
