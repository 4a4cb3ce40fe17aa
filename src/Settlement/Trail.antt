-- ===== src/Settlement/Trail.antt =====
-- What a side's trace shows: every effect under the condition that its side puts on it.
use near_instant.Common.{◌≡◌, Bool, true, Option, none, some, [], ◌∷◌}
use near_instant.Settlement.Types.{
  World, Party, Core, Open, Refund, Effect, checked, funds, funded, locks, locked, shares, opens,
  claims, refunds, sweeps,
}
use near_instant.Settlement.Exec.Rules.{Trace}
use near_instant.Settlement.Signing.{refund_dest, send_kind}

-- The last verdict of the gate.
unfoldable pub last_verdict : Trace → Option Bool
last_verdict [] = none
last_verdict ((checked ok, c) ∷ t) = some ok
last_verdict ((funds, c) ∷ t) = last_verdict t
last_verdict ((funded, c) ∷ t) = last_verdict t
last_verdict ((locks, c) ∷ t) = last_verdict t
last_verdict ((locked, c) ∷ t) = last_verdict t
last_verdict ((shares r n, c) ∷ t) = last_verdict t
last_verdict ((opens n, c) ∷ t) = last_verdict t
last_verdict ((claims n, c) ∷ t) = last_verdict t
last_verdict ((refunds n, c) ∷ t) = last_verdict t
last_verdict ((sweeps n, c) ∷ t) = last_verdict t

-- A condition on each effect, the store at its time and the trace before it.
abbrev pub Condition : Type 1
Condition = Effect → Core → Trace → Type 0

pub data AllMeet (G : Condition) : Trace → Type 0 where
  none_yet : AllMeet G []
  and_then : {e : Effect} {c : Core} {t : Trace} → G e c t → AllMeet G t → AllMeet G ((e, c) ∷ t)

-- The pre-signed refund gives the open block's balance back to the funder, and its check passed.
pub record RefundFor (w : World) (p : Party) (o : Open) (r : Refund) : Type 0 where
  pub follows : r.prev ≡ o.hash
  pub pays_back : r.dest ≡ refund_dest p
  pub block : r.hash ≡ w.state_block_hash p.account o.hash 0 (refund_dest p) send_kind
  pub checks : w.presig_verify r.presig p.account r.hash ≡ true

-- The store has this block as opened and a refund for it.
pub record IsSecured (w : World) (p : Party) (o : Open) (c : Core) : Type 0 where
  pub refund : Refund
  pub at_open : c.open_block ≡ some o
  pub at_refund : c.refund ≡ some refund
  pub good : RefundFor w p o refund

-- A refund in the store is one for the block that is open.
pub record RefundOk (w : World) (p : Party) (c : Core) : Type 0 where
  pub at :
      (r : Refund) → c.refund ≡ some r → (o : Open) × ((c.open_block ≡ some o) × RefundFor w p o r)
