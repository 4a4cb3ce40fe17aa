-- ===== src/Settlement/Calls.antt =====
-- The gate and the calls of nodes that several steps share.
use near_instant.Common.{
  ℕ, zero, suc, ◌+◌, Bool, false, Option, none, some, min, ltb, leb, ◌==◌, with_default,
  if◌then◌else◌,
}
use near_instant.Certify.{Certificate, Price, gate}
use near_instant.Certify
use near_instant.Settlement.Types.{World, Party, Spent, Effect, checked}
use near_instant.Settlement.Exec.{
  on_option, Exec, returns, pure, asks, reads, call, attempt, tell, ◌>>=◌, ◌>>◌,
}

abbrev pub now : Exec ℕ
now = reads (λ w t. w.clock t)

-- The options of the gate, with the oracle's answer: none where there is no oracle.
abbrev pub gate_deps : World → Option (Option Price) → Certify.Deps
gate_deps w answer = record {
  oracle = answer;
  fee_atomic = w.config.fee_atomic;
  max_unrealized_loss_bps = w.config.max_unrealized_loss_bps;
  max_stress = w.config.max_stress;
}

-- `gate` of Certify over the session's store.
unfoldable pub gate_on : Party → Option (Option Price) → Exec Certificate
gate_on p answer w s =
    let verdict =
      gate (gate_deps w answer) p.deal p.role_is_a none (w.clock s.tick) (some s.gates) in
    (returns verdict.0, record s { gates = with_default verdict.1 s.gates })

-- `gate(deps, party, label)`.
unfoldable pub gate_here : Party → Exec Certificate
gate_here p = do
  priced ← asks (λ w. w.config.priced)
  answer ←
      (if priced then (do price ← attempt (call (λ w. w.price)); pure (some price)) else pure none)
  cert ← gate_on p answer
  tell (checked cert.is_ok)
  pure cert

-- `confirmedQuorum`: two of the first three endpoints confirm, or one of one.
unfoldable pub confirmations : ℕ → Exec ℕ
confirmations zero = pure 0
confirmations (suc left) = do
  yes_here ← attempt (call (λ w. w.block_confirmed))
  more ← confirmations left
  pure (if with_default yes_here false then more + 1 else more)

unfoldable pub confirmed_quorum : Exec Bool
confirmed_quorum = do
  endpoints ← asks (λ w. min w.config.endpoints 3)
  confirming ← confirmations endpoints
  pure (if leb 2 endpoints then leb 2 confirming else leb 1 confirming)

-- The contents of the block that the joint account moved on to, if it moved from this one.
abbrev pub moved_from : ℕ → Option ℕ → Option ℕ
moved_from opened none = none
moved_from opened (some frontier) = if frontier == opened then none else some frontier

abbrev pub signature_in : Option Spent → Option ℕ
signature_in none = none
signature_in (some spent) = spent.signature

-- `frontierSigIfMoved`
unfoldable pub frontier_sig : ℕ → Exec (Option ℕ)
frontier_sig opened = do
  info ← call (λ w. w.account_info)
  on_option (moved_from opened info) (pure none)
      (λ frontier. do spent ← call (λ w. w.blocks_info); pure (signature_in spent))

unfoldable pub frontier_sig_if_moved : ℕ → Exec (Option ℕ)
frontier_sig_if_moved opened = do
  read ← attempt (frontier_sig opened)
  pure (with_default read none)

-- `pocketIncoming`: up to ten receives, until one pockets something.
unfoldable pub pocket_incoming : ℕ → Exec (Unit {0})
pocket_incoming zero = pure tt
pocket_incoming (suc left) = do
  pocketed ← attempt (call (λ w. w.wallet_receive))
  if ltb 0 (with_default pocketed 0)
      then pure tt
      else (do call (λ w. w.pause); pocket_incoming left)

-- `generateWork` and `processBlock`: broadcasting a block, with the effect that it is.
unfoldable pub broadcast : Effect → Exec ℕ
broadcast e = do call (λ w. w.generate_work); tell e; call (λ w. w.process_block)
