-- ===== src/Machine/Types.antt =====
-- The data of web/swap_machine.js: roles, stages, events, actions, errors and the machine's fields.
use near_instant.Common.{ℕ, Bool, true, false, List, Option}

pub data Role : Type 0 where
  xno_seller xmr_seller : Role

pub data Stage : Type 0 where
  await_bonds await_xmr_lock await_presign await_guard_confirm await_xno_claim : Stage
  await_xmr_sweep completed aborted : Stage

abbrev pub monero_maturity_confirmations : ℕ
monero_maturity_confirmations = 10

-- `unknown` is an event of any other type.
pub data Event : Type 0 where
  both_bonds_confirmed abort unknown : Event
  xmr_lock_observed : ℕ → ℕ → Event
  presign_delivered guard_confirmed xno_claim_settled : ℕ → Event
  xmr_sweep_confirmed lock_reorged : ℕ → Event

-- The amount of a lock is `none` where the source reads a chunk past the end of the schedule.
pub data Action : Type 0 where
  lock_xmr_chunk : ℕ → Option ℕ → Action
  deliver_presign : ℕ → ℕ → Action
  broadcast_guard complete_and_broadcast_claim sweep_xmr trigger_refund_backstop : ℕ → Action
  return_bonds : Action

pub data MachineError : Type 0 where
  invariant_violated terminal unexpected_event : MachineError

pub record Machine : Type 0 where
  pub role : Role
  pub chunks : List ℕ
  pub stage : Stage
  pub chunk : ℕ
  pub maturity : ℕ
  pub xno_settled : ℕ
  pub xmr_settled : ℕ
  pub xmr_in_flight : ℕ

abbrev pub is_xno_seller : Role → Bool
is_xno_seller xno_seller = true
is_xno_seller xmr_seller = false

abbrev pub not_xno_seller : Role → Bool
not_xno_seller xno_seller = false
not_xno_seller xmr_seller = true

abbrev pub same_role : Role → Role → Bool
same_role xno_seller xno_seller = true
same_role xmr_seller xmr_seller = true
same_role _ _ = false

abbrev pub is_terminal : Stage → Bool
is_terminal completed = true
is_terminal aborted = true
is_terminal _ = false

-- The stages in which an abort strands the XMR seller's chunk.
abbrev pub can_strand : Stage → Bool
can_strand await_xmr_lock = true
can_strand await_presign = true
can_strand await_guard_confirm = true
can_strand await_xno_claim = true
can_strand _ = false

-- The stages in which the XNO seller keeps the sweep on an abort.
abbrev pub can_sweep : Stage → Bool
can_sweep await_xno_claim = true
can_sweep await_xmr_sweep = true
can_sweep _ = false

-- The stages in which a reorganisation of the lock is acted on.
abbrev pub is_locked : Stage → Bool
is_locked await_presign = true
is_locked await_guard_confirm = true
is_locked await_xno_claim = true
is_locked _ = false
