-- ===== src/Settlement/SideB.antt =====
-- runB of web/two_party.js: the side that sells Monero. It locks last and claims the XNO.
use near_instant.Common.{
  ℕ, zero, suc, ◌+◌, ◌-◌, ◌*◌, Bool, false, Option, none, some, max, with_default, ltb, ◌==◌,
  if◌then◌else◌,
}
use near_instant.Certify.{Certificate}
use near_instant.Settlement.Types.{
  Party, Open, Spent, sent, skipped, locks, locked, claims, Reason, gone, bad_signature, no_wallet,
  not_refunded_yet, peer_offline, claim_round, Ending, complete, declined_for, recovered_xmr,
  Realized,
}
use near_instant.Settlement.Exec.{
  on_option, Exec, pure, raise, die, asks, gets, call, attempt, catch, puts, tell, ◌>>=◌, ◌>>◌,
}
use near_instant.Settlement.Calls.{
  now, gate_here, confirmed_quorum, moved_from, pocket_incoming, broadcast,
}
use near_instant.Settlement.Lock.{or_default, conf_of, wait_joint_xmr_lock}
use near_instant.Settlement.Signing.{adaptor_presign_role, co_sign_refund_role, send_kind}
use near_instant.Settlement.Opening.{co_open}
use near_instant.Settlement.Refunds.{is_some, stored_refund, lock_height, recover_xmr_from_refund}

-- `if (!S.get("refund")) S.set("refund", …)`
unfoldable pub ensure_refund : Party → ℕ → Exec (Unit {0})
ensure_refund p opened = do
  held ← gets (λ c. is_some c.refund)
  if held
      then pure tt
      else (do refund ← co_sign_refund_role p opened; puts (λ c. record c { refund = some refund }))

-- The joint account has moved on from the open block.
unfoldable pub account_moved : ℕ → Exec Bool
account_moved opened = do info ← call (λ w. w.account_info); pure (is_some (moved_from opened info))

-- The resume guard: no lock when the account moved while this side was away.
unfoldable pub resume_guard : ℕ → Exec (Unit {0})
resume_guard opened = do
  has_lock ← gets (λ c. is_some c.lock)
  if has_lock then pure tt else (do
    moved ← attempt (account_moved opened)
    if with_default moved false then puts (λ c. record c { lock = some skipped }) else pure tt)

unfoldable pub read_height : Exec ℕ
read_height = do call (λ w. w.connect); call (λ w. w.height)

-- The lock itself, and the entry for it.
unfoldable pub send_lock : Exec (Unit {0})
send_lock = do
  tell locks
  tx ← call (λ w. w.xmr_send)
  tell locked
  height ← attempt read_height
  puts (λ c. record c { lock = some (sent tx (with_default height 0)) })

-- The last gate and the lock; the certificate is the reason to decline.
unfoldable pub lock_xmr : Party → Exec (Option Certificate)
lock_xmr p = do
  done ← gets (λ c. is_some c.lock)
  if done then pure none else (do
    cert ← gate_here p
    if cert.is_ok
        then (do send_lock; pure none)
        else (do puts (λ c. record c { declined = some cert }); pure (some cert)))

-- The block that the joint account moved on to.
pub record Moved : Type 0 where
  pub sig : ℕ
  pub link : ℕ
  pub hash : ℕ

abbrev pub moved_by : ℕ → Option Spent → Option Moved
moved_by frontier none = none
moved_by frontier (some spent) =
    some (record { sig = with_default spent.signature 0; link = spent.link; hash = frontier })

unfoldable pub read_moved : ℕ → Exec (Option Moved)
read_moved opened = do
  info ← call (λ w. w.account_info)
  on_option (moved_from opened info) (pure none)
      (λ frontier. do spent ← call (λ w. w.blocks_info); pure (moved_by frontier spent))

unfoldable pub check_moved : ℕ → Exec (Option Moved)
check_moved opened = do read ← attempt (read_moved opened); pure (with_default read none)

-- Which of the two blocks landed: this side's claim, or the other's refund.
pub data Landed : Type 0 where
  claim_landed refund_landed : Landed

unfoldable pub on_moved : Party → Moved → Exec Landed
on_moved p mv =
    if mv.link == p.my_wallet_acct
    then (do
      puts (λ c. record c { claim = some mv.hash })
      attempt (pocket_incoming 10)
      pure claim_landed)
    else (do
      refund ← stored_refund
      recovery ← recover_xmr_from_refund p refund mv.sig
      puts (λ c. record c { recovered = some recovery })
      pure refund_landed)

-- The wait for the other side's refund, up to a deadline.
unfoldable pub watch_refund : ℕ → Party → ℕ → ℕ → Exec (Option Landed)
watch_refund zero p opened deadline = die
watch_refund (suc left) p opened deadline = do
  t ← now
  if ltb t deadline
      then (do
        call (λ w. w.pause)
        moved ← check_moved opened
        on_option moved (watch_refund left p opened deadline)
            (λ mv. do landed ← on_moved p mv; pure (some landed)))
      else pure none

unfoldable pub watch_from_now : Party → ℕ → Exec (Option Landed)
watch_from_now p opened = do
  start ← now
  wait_ms ← asks (λ w. or_default w.config.recover_wait_ms (15 * 60 * 1000))
  rounds ← asks (λ w. w.rounds)
  watch_refund rounds p opened (start + wait_ms)

-- What a resumed side does before its claim: none is going on to the claim.
unfoldable pub before_claim : Party → ℕ → Exec (Option Landed)
before_claim p opened = do
  moved ← check_moved opened
  on_option moved
      (if p.has_wire then pure none else if p.has_resume then pure none else (do
        landed ← watch_from_now p opened
        on_option landed (raise not_refunded_yet) (λ l. pure (some l))))
      (λ mv. do landed ← on_moved p mv; pure (some landed))

-- Up to 120 reads of the quorum, five seconds apart.
unfoldable pub await_quorum : ℕ → Exec (Unit {0})
await_quorum zero = pure tt
await_quorum (suc left) = do
  confirmed ← confirmed_quorum
  if confirmed then pure tt else (do call (λ w. w.pause); await_quorum left)

-- The wait for this side's own lock to be as deep as the other side wants it; ungated.
unfoldable pub await_own_lock : Party → Exec (Unit {0})
await_own_lock p = do
  lock ← gets (λ c. c.lock)
  height ← lock_height lock
  conf ← asks (λ w. conf_of w.config.conf_target)
  attempt (
      wait_joint_xmr_lock p (record {
        least = p.xmr_atomic;
        since = some (if height == 0 then 0 else max 1 (height - 60));
        deadline = none;
        lookback = 5000;
        conf = conf;
        gated = false;
      }))
  pure tt

-- The claim's signature: the pre-signature of both, completed with this side's share.
unfoldable pub claim_signature : Party → ℕ → Exec ℕ
claim_signature p hash = do
  pre ← adaptor_presign_role p hash none claim_round
  sig ← asks (λ w. w.presig_complete pre p.my_xmr_share)
  good ← asks (λ w. w.nano_check p.account hash sig)
  if good then pure sig else raise bad_signature

unfoldable pub broadcast_claim : ℕ → Exec (Option Landed)
broadcast_claim sig = do
  hash ← broadcast (claims sig)
  puts (λ c. record c { claim = some hash })
  attempt (pocket_incoming 10)
  pure (some claim_landed)

-- Without the other side: a resumed run watches for its refund.
unfoldable pub claim_fallback : Party → ℕ → Reason → Exec (Option Landed)
claim_fallback p opened why = if p.has_wire then raise why else (do
  landed ← watch_from_now p opened
  on_option landed (raise peer_offline) (λ l. pure (some l)))

unfoldable pub make_claim : Party → ℕ → Exec (Option Landed)
make_claim p opened = do
  await_own_lock p
  await_quorum 120
  if p.my_wallet_acct == 0 then raise no_wallet else (do
    hash ← asks (λ w. w.state_block_hash p.account opened 0 p.my_wallet_acct send_kind)
    catch (claim_signature p hash) broadcast_claim (claim_fallback p opened))

-- The claim, unless the store has one or the account has moved.
unfoldable pub claim_step : Party → ℕ → Exec (Option Landed)
claim_step p opened = do
  claimed ← gets (λ c. is_some c.claim)
  if claimed then pure none else (do
    early ← before_claim p opened
    on_option early (make_claim p opened) (λ landed. pure (some landed)))

unfoldable pub finish_b : Party → Open → Option Landed → Exec Ending
finish_b p opened (some refund_landed) = pure recovered_xmr
finish_b p opened other = do
  let realized : Realized = record { received = opened.balance; paid = p.deal.xmr_atomic }
  puts (λ c. record c { realized = some realized })
  pure (complete realized)

-- The run from the open block on.
unfoldable pub run_b_opened : Party → Open → Exec Ending
run_b_opened p opened = do
  ensure_refund p opened.hash
  resume_guard opened.hash
  refusal ← lock_xmr p
  on_option refusal (do landed ← claim_step p opened.hash; finish_b p opened landed)
      (λ cert. pure (declined_for cert))

-- Before the funding, a deal that is gone is declined; any other failure is passed on.
unfoldable pub decline_b : Reason → Exec Ending
decline_b (gone cert) = do puts (λ c. record c { declined = some cert }); pure (declined_for cert)
decline_b other = raise other

unfoldable pub run_b : Party → Exec Ending
run_b p = catch (co_open p false) (run_b_opened p) decline_b
