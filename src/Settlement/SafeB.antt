-- ===== src/Settlement/SafeB.antt =====
-- The effects that side B of web/two_party.js may have, and its invariant.
mod Keeping
mod Locking
mod Recovering
mod Claiming
pub mod Whole
use near_instant.Common.{ℕ, ◌≡◌, Bool, true, false, Option, none, some}
use near_instant.Settlement.Types.{
  World, Party, Core, Open, Refund, open_round, refund_round, claim_round, Effect, checked, locks,
  locked, shares, claims, sweeps,
}
use near_instant.Settlement.Exec.Rules.{Trace, Assert}
use near_instant.Settlement.Signing.{send_kind}
use near_instant.Settlement.Refunds.{is_some}
use near_instant.Settlement.Trail.{RefundOk, RefundFor, IsSecured, AllMeet, last_verdict}

-- The effects of B. The lock waits for the opened XNO, the checked refund and a gate that passed; the
-- share of the claim and the claim wait for a `lock` entry, which the source also writes, as
-- `skipped`, when nothing was locked. B never funds, opens or refunds.
pub data MayB (w : World) (p : Party) : Effect → Core → Trace → Type 0 where
  checks_any : (b : Bool) (c : Core) (t : Trace) → MayB w p (checked b) c t
  shares_open : (n : ℕ) (c : Core) (t : Trace) → MayB w p (shares open_round n) c t
  shares_refund :
      (n : ℕ) (c : Core) (t : Trace)
      → is_some c.open_block ≡ true
      → MayB w p (shares refund_round n) c t
  locks_secured :
      (o : Open) (c : Core) (t : Trace)
      → IsSecured w p o c
      → c.lock ≡ none
      → last_verdict t ≡ some true
      → MayB w p locks c t
  locked_any : (c : Core) (t : Trace) → MayB w p locked c t
  shares_claim :
      (n : ℕ) (o : Open) (c : Core) (t : Trace)
      → IsSecured w p o c
      → is_some c.lock ≡ true
      → MayB w p (shares claim_round n) c t
  claims_checked :
      (sig : ℕ) (o : Open) (c : Core) (t : Trace)
      → IsSecured w p o c
      → is_some c.lock ≡ true
      → w.nano_check p.account
          (w.state_block_hash p.account o.hash 0 p.my_wallet_acct send_kind)
          sig
        ≡ true
      → MayB w p (claims sig) c t
  sweeps_refund :
      (secret sig : ℕ) (r : Refund) (c : Core) (t : Trace)
      → c.refund ≡ some r
      → secret ≡ w.xmr_joint_secret p.my_xmr_share (w.presig_extract r.presig sig)
      → MayB w p (sweeps secret) c t

-- What holds of B's store and trace at every moment.
abbrev pub KeepsB : World → Party → Assert
KeepsB w p c t = RefundOk w p c × AllMeet (MayB w p) t
