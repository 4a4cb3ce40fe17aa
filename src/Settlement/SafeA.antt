-- ===== src/Settlement/SafeA.antt =====
-- The effects that side A of web/two_party.js may have, and its invariant.
mod Keeping
mod Refunding
mod Seeing
mod Sweeping
pub mod Whole
use near_instant.Common.{ℕ, ◌≡◌, Bool, true, false, Option, none, some}
use near_instant.Settlement.Types.{
  World, Party, Core, Open, Refund, Hit, open_round, refund_round, claim_round, Effect, checked,
  funds, funded, shares, opens, refunds, sweeps,
}
use near_instant.Settlement.Exec.Rules.{Trace, Assert}
use near_instant.Settlement.Signing.{send_kind}
use near_instant.Settlement.Refunds.{is_some}
use near_instant.Settlement.Trail.{RefundOk, IsSecured, AllMeet}

-- The effects of A. It funds once, and gives its share of the claim, and only of the peer's claim, with
-- the checked refund and the lock seen; it refunds only while it does not know the peer's secret share,
-- and sweeps only with it. A never locks or claims.
pub data MayA (w : World) (p : Party) : Effect → Core → Trace → Type 0 where
  checks_any : (b : Bool) (c : Core) (t : Trace) → MayA w p (checked b) c t
  funds_first : (c : Core) (t : Trace) → c.fund ≡ none → MayA w p funds c t
  funded_any : (c : Core) (t : Trace) → MayA w p funded c t
  opens_any : (n : ℕ) (c : Core) (t : Trace) → MayA w p (opens n) c t
  shares_open : (n : ℕ) (c : Core) (t : Trace) → MayA w p (shares open_round n) c t
  shares_refund :
      (n : ℕ) (c : Core) (t : Trace)
      → is_some c.open_block ≡ true
      → MayA w p (shares refund_round n) c t
  shares_claim :
      (n : ℕ) (o : Open) (c : Core) (t : Trace)
      → n ≡ w.state_block_hash p.account o.hash 0 p.peer_wallet_acct send_kind
      → IsSecured w p o c
      → is_some c.lock_seen ≡ true
      → MayA w p (shares claim_round n) c t
  refunds_own :
      (sig : ℕ) (r : Refund) (c : Core) (t : Trace)
      → c.refund ≡ some r
      → sig ≡ w.presig_complete r.presig p.my_xmr_share
      → c.x ≡ none
      → MayA w p (refunds sig) c t
  sweeps_known :
      (secret x : ℕ) (c : Core) (t : Trace)
      → c.x ≡ some x
      → secret ≡ w.xmr_joint_secret p.my_xmr_share x
      → MayA w p (sweeps secret) c t

-- The steps on record stand in the order in which A takes them.
pub record InOrder (w : World) (p : Party) (c : Core) : Type 0 where
  pub refund_ok : RefundOk w p c
  pub seen_after : is_some c.lock_seen ≡ true → is_some c.refund ≡ true
  pub presigned_after : is_some c.presigned ≡ true → is_some c.lock_seen ≡ true
  pub x_after : is_some c.x ≡ true → is_some c.presigned ≡ true

-- What holds of A's store and trace at every moment.
abbrev pub KeepsA : World → Party → Assert
KeepsA w p c t = InOrder w p c × AllMeet (MayA w p) t
