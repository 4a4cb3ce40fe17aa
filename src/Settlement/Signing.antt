-- ===== src/Settlement/Signing.antt =====
-- The rounds in which the two sides sign over their wire, and the pre-signed refund.
use near_instant.Common.{ℕ, ◌+◌, Bool, true, false, Option, some, with_default, ◌==◌, if◌then◌else◌}
use near_instant.Settlement.Types.{
  Party, Round, open_round, refund_round, claim_round, shares, bad_signature, no_wire, no_adaptor,
  Refund,
}
use near_instant.Settlement.Exec.{
  on_option, Exec, returns, pure, raise, asks, call, tell, ◌>>=◌, ◌>>◌,
}

abbrev pub is_round : Round → Round → Bool
is_round open_round open_round = true
is_round open_round other = false
is_round refund_round refund_round = true
is_round refund_round other = false
is_round claim_round claim_round = true
is_round claim_round other = false

-- `S.set("rsAtt:" + step, my)`: each attempt at a step has a channel of its own.
unfoldable pub next_attempt : Round → Exec (Unit {0})
next_attempt step w s = (
  returns tt,
  record s { attempts = λ r. if is_round step r then s.attempts r + 1 else s.attempts r },
)

-- The live wire, or a fresh channel for the step after a restart (`stepWire`).
unfoldable pub pick_wire : Party → Round → Exec (Unit {0})
pick_wire p step =
    if p.has_wire then pure tt else if p.has_resume then next_attempt step else raise no_wire

-- The commitments, and then the shares, go both ways; the share is what binds this side.
unfoldable pub exchange : Round → ℕ → Exec ℕ
exchange step msg = do
  call (λ w. w.wire_send)
  call (λ w. w.wire_recv)
  tell (shares step msg)
  call (λ w. w.wire_send)
  call (λ w. w.wire_recv)
  call (λ w. w.aggregate)

unfoldable pub joint_sign_role : Party → ℕ → Round → Exec ℕ
joint_sign_role p msg step = do pick_wire p step; exchange step msg

-- `point` is none for T, the other side's share of the claim.
unfoldable pub adaptor_presign_role : Party → ℕ → Option ℕ → Round → Exec ℕ
adaptor_presign_role p msg point step = do
  pick_wire p step
  if with_default point p.t == 0 then raise no_adaptor else exchange step msg

-- The kinds of a state block.
abbrev pub open_kind : ℕ
open_kind = 0

abbrev pub send_kind : ℕ
send_kind = 1

-- The refund's destination is the wallet of A, who funds.
abbrev pub refund_dest : Party → ℕ
refund_dest p = if p.role_is_a then p.my_wallet_acct else p.peer_wallet_acct

-- `coSignRefundRole`: a refund that only A can complete, checked by this side.
unfoldable pub co_sign_refund_role : Party → ℕ → Exec Refund
co_sign_refund_role p opened = do
  hash ← asks (λ w. w.state_block_hash p.account opened 0 (refund_dest p) send_kind)
  on_option p.ta (raise no_adaptor) (λ ta. do
    pre ← adaptor_presign_role p hash (some ta) refund_round
    good ← asks (λ w. w.presig_verify pre p.account hash)
    if good
        then pure (record { prev = opened; dest = refund_dest p; hash = hash; presig = pre })
        else raise bad_signature)
