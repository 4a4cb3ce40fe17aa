-- ===== src/Settlement/Refunds.antt =====
-- Taking the refund, and recovering the Monero that a refund gives back.
use near_instant.Common.{
  ℕ, ◌+◌, ◌*◌, Bool, true, false, not, ◌||◌, Option, none, some, with_default, ◌==◌, if◌then◌else◌,
}
use near_instant.Settlement.Types.{
  Party, Refund, Lock, sent, skipped, Recovery, nothing, swept, refunds, sweeps, Ending,
  refunded_xno, already_refunded, not_funder, secured, nothing_to_refund, bad_signature, Hit,
}
use near_instant.Settlement.Exec.{
  on_option, Exec, pure, raise, asks, gets, call, attempt, puts, tell, ◌>>=◌, ◌>>◌,
}
use near_instant.Settlement.Calls.{now, pocket_incoming, broadcast}
use near_instant.Settlement.Lock.{wait_joint_xmr_lock, conf_of}
use near_instant.Settlement.Signing.{send_kind}

-- `broadcastRefund`: A completes the refund with its Monero share, which the block then publishes.
unfoldable pub broadcast_refund : Party → ℕ → Refund → Exec ℕ
broadcast_refund p opened r = if not p.role_is_a then raise not_funder else (do
  sig ← asks (λ w. w.presig_complete r.presig p.my_xmr_share)
  hash ← asks (λ w. w.state_block_hash p.account opened 0 r.dest send_kind)
  good ← asks (λ w. w.nano_check p.account hash sig)
  if good
      then (do processed ← broadcast (refunds sig); pocket_incoming 10; pure processed)
      else raise bad_signature)

abbrev pub is_some : {A : Type 0} → Option A → Bool
is_some none = false
is_some (some a) = true

-- A `refund` that the store lacks makes the code throw where it reads a field of it.
unfoldable pub stored_refund : Exec Refund
stored_refund = do
  refund ← gets (λ c. c.refund)
  on_option refund (raise nothing_to_refund) (λ r. pure r)

-- Broadcasting the refund of the store, and the entry for it.
unfoldable pub take_refund : Party → ℕ → Exec Ending
take_refund p opened = do
  refund ← stored_refund
  hash ← broadcast_refund p opened refund
  puts (λ c. record c { refunded = some hash })
  pure refunded_xno

-- `refundNow`
unfoldable pub refund_now : Party → Exec Ending
refund_now p = if not p.role_is_a then raise not_funder else (do
  refunded ← gets (λ c. c.refunded)
  has_xmr ← gets (λ c. is_some c.x || is_some c.sweep)
  opened ← gets (λ c. c.open_block)
  if is_some refunded
      then pure already_refunded
      else if has_xmr
      then raise secured
      else on_option opened (raise nothing_to_refund) (λ o. take_refund p o.hash))

-- `xmrTxHeight`: the height of a transaction's block, if the node tells one above 0.
unfoldable pub xmr_tx_height : Exec (Option ℕ)
xmr_tx_height = do
  read ← attempt (call (λ w. w.tx_height))
  pure (elim (with_default read none) [ none ↦ none | some h ↦ if h == 0 then none else some h ])

-- The height of the lock on record, by the transaction where a node knows it.
unfoldable pub lock_height : Option Lock → Exec ℕ
lock_height none = pure 0
lock_height (some skipped) = pure 0
lock_height (some (sent tx h)) = do
  located ← (if tx == 0 then pure none else xmr_tx_height)
  pure (with_default located h)

-- Signing and publishing a sweep of the joint output.
unfoldable pub sweep_output : ℕ → Hit → ℕ → Exec ℕ
sweep_output secret hit dest = do
  call (λ w t. w.sweep_sign t hit.output secret dest)
  tell (sweeps secret)
  call (λ w. w.publish)

-- The lock was skipped: there is nothing to recover.
abbrev pub is_skipped : Option Lock → Bool
is_skipped none = false
is_skipped (some skipped) = true
is_skipped (some (sent tx h)) = false

-- The sweep of the lock with the joint secret, if the scan finds it.
unfoldable pub recover_lock : Party → ℕ → Option Lock → Exec Recovery
recover_lock p secret lock = do
  height ← lock_height lock
  start ← now
  found ← wait_joint_xmr_lock p (record {
    least = p.xmr_atomic;
    since = some height;
    deadline = some (start + 10 * 60 * 1000);
    lookback = 5000;
    conf = conf_of none;
    gated = false;
  })
  on_option found (pure nothing) (λ hit_tip. do
    call (λ w. w.connect)
    dest ← call (λ w. w.xmr_address)
    tx ← sweep_output secret hit_tip.0 dest
    pure (swept tx))

-- `recoverXmrFromRefund`
unfoldable pub recover_xmr_from_refund : Party → Refund → ℕ → Exec Recovery
recover_xmr_from_refund p refund refund_sig = do
  lock ← gets (λ c. c.lock)
  if is_skipped lock then pure nothing else (do
    secret ←
        asks (λ w. w.xmr_joint_secret p.my_xmr_share (w.presig_extract refund.presig refund_sig))
    recover_lock p secret lock)
