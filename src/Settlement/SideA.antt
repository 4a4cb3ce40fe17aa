-- ===== src/Settlement/SideA.antt =====
-- runA of web/two_party.js: the side that sells XNO. It funds first and sweeps the Monero.
use near_instant.Common.{
  ℕ, zero, suc, ◌+◌, ◌-◌, ◌*◌, true, not, ◌&&◌, Option, none, some, max, with_default, ltb, ◌==◌,
  if◌then◌else◌,
}
use near_instant.Settlement.Types.{
  Party, Refund, Spent, Hit, Sweep, funds, funded, claim_round, call_failed, no_wire, Ending,
  complete, refunded_xno, Realized,
}
use near_instant.Settlement.Exec.{
  on_option, Exec, pure, raise, die, asks, gets, call, attempt, catch, puts, tell, ◌>>=◌, ◌>>◌,
}
use near_instant.Settlement.Calls.{now, gate_here, moved_from, pocket_incoming}
use near_instant.Settlement.Lock.{or_default, conf_of, wait_joint_xmr_lock}
use near_instant.Settlement.Signing.{adaptor_presign_role, send_kind}
use near_instant.Settlement.Opening.{co_open}
use near_instant.Settlement.Refunds.{is_some, take_refund, sweep_output}
use near_instant.Settlement.SideB.{ensure_refund, read_height}

unfoldable pub fund_step : Exec (Unit {0})
fund_step = do
  done ← gets (λ c. is_some c.fund)
  if done then pure tt else (do
    tell funds
    hash ← call (λ w. w.wallet_send)
    tell funded
    puts (λ c. record c { fund = some hash }))

-- A recent height is recorded once, for the scan to start near the tip.
unfoldable pub record_scan_from : Exec (Unit {0})
record_scan_from = do
  known ← gets (λ c. is_some c.lock_scan_from)
  if known then pure tt else (do
    height ← attempt read_height
    on_option height (pure tt)
        (λ h. puts (λ c. record c { lock_scan_from = some (max 1 (h - 60)) })))

-- The wait for the other side's lock; an ending if the refund was taken instead.
unfoldable pub await_lock : Party → ℕ → Exec (Option Ending)
await_lock p opened = do
  start ← now
  wait_ms ← asks (λ w. or_default w.config.lock_wait_ms (90 * 60 * 1000))
  record_scan_from
  since ← gets (λ c. c.lock_scan_from)
  conf ← asks (λ w. conf_of w.config.conf_target)
  priced ← asks (λ w. w.config.priced)
  found ← wait_joint_xmr_lock p (record {
    least = p.xmr_atomic;
    since = since;
    deadline = some (start + wait_ms);
    lookback = 120;
    conf = conf;
    gated = priced;
  })
  on_option found (do ending ← take_refund p opened; pure (some ending))
      (λ hit_tip. do puts (λ c. record c { lock_seen = some hit_tip.0 }); pure none)

unfoldable pub see_lock : Party → ℕ → Exec (Option Ending)
see_lock p opened = do
  seen ← gets (λ c. is_some c.lock_seen)
  if seen then pure none else await_lock p opened

-- The claim's pre-signature, or the refund where the deal is gone or the other side is not there.
unfoldable pub commit_claim : Party → ℕ → ℕ → Exec (Option Ending)
commit_claim p opened hash = do
  cert ← gate_here p
  if cert.is_ok
      then catch (adaptor_presign_role p hash none claim_round)
          (λ pre. do puts (λ c. record c { presigned = some (some pre) }); pure none)
          (λ e. do ending ← take_refund p opened; pure (some ending))
      else (do ending ← take_refund p opened; pure (some ending))

unfoldable pub presign_step : Party → ℕ → ℕ → Exec (Option Ending)
presign_step p opened hash = do
  presigned ← gets (λ c. is_some c.presigned)
  if presigned then pure none else commit_claim p opened hash

-- The pre-signature on record; a session saved without it signs once more, on a live wire.
unfoldable pub stored_presig : Party → ℕ → Exec ℕ
stored_presig p hash = do
  presigned ← gets (λ c. with_default c.presigned none)
  on_option presigned
      (if p.has_wire
        then (do
          pre ← adaptor_presign_role p hash none claim_round
          puts (λ c. record c { presigned = some (some pre) })
          pure pre)
        else raise no_wire)
      (λ pre. pure pre)

-- What a look at the joint account shows: nothing yet, this side's refund, or the claim's signature.
pub data Sighting : Type 0 where
  unmoved own_refund : Sighting
  claim_seen : ℕ → Sighting

abbrev pub sighting : ℕ → Option Spent → Sighting
sighting dest none = unmoved
sighting dest (some spent) =
    if not (spent.link == 0) && spent.link == dest
    then own_refund
    else elim spent.signature [ none ↦ unmoved | some sig ↦ claim_seen sig ]

unfoldable pub look_at_account : ℕ → ℕ → Exec (Sighting × ℕ)
look_at_account opened dest = do
  info ← call (λ w. w.account_info)
  on_option (moved_from opened info) (pure (unmoved, 0))
      (λ frontier. do spent ← call (λ w. w.blocks_info); pure (sighting dest spent, frontier))

abbrev pub dest_of : Option Refund → ℕ
dest_of none = 0
dest_of (some r) = r.dest

-- After the deadline the refund is tried; a refusal leaves the race to the chain.
unfoldable pub late_refund : Party → ℕ → ℕ → Exec (Option Ending)
late_refund p opened deadline = do
  t ← now
  if ltb deadline t then attempt (take_refund p opened) else pure none

-- How the wait for the claim ends.
pub data Waited : Type 0 where
  claimed_with : ℕ → Waited
  ended : Ending → Waited

-- What a sighting leads to; a refund that landed is on record then.
unfoldable pub on_sighting : Sighting → ℕ → Exec Waited → Exec Waited
on_sighting unmoved frontier rest = rest
on_sighting own_refund frontier rest = do
  puts (λ c. record c { refunded = some frontier })
  attempt (pocket_incoming 10)
  pure (ended refunded_xno)
on_sighting (claim_seen sig) frontier rest = pure (claimed_with sig)

unfoldable pub wait_claim : ℕ → Party → ℕ → ℕ → Exec Waited
wait_claim zero p opened deadline = die
wait_claim (suc left) p opened deadline = do
  refund ← gets (λ c. c.refund)
  look ← look_at_account opened (dest_of refund)
  on_sighting look.0 look.1 (do
    late ← late_refund p opened deadline
    on_option late (do call (λ w. w.pause); wait_claim left p opened deadline)
        (λ ending. pure (ended ending)))

-- The other side's share, out of its claim.
unfoldable pub keep_x : ℕ → Waited → Exec (Option Ending)
keep_x pre (ended ending) = pure (some ending)
keep_x pre (claimed_with sig) = do
  x ← asks (λ w. w.presig_extract pre sig)
  puts (λ c. record c { x = some x })
  pure none

unfoldable pub learn_x : Party → ℕ → ℕ → Exec (Option Ending)
learn_x p opened pre = do
  known ← gets (λ c. is_some c.x)
  if known then pure none else (do
    start ← now
    wait_ms ← asks (λ w. or_default w.config.claim_wait_ms (60 * 60 * 1000))
    rounds ← asks (λ w. w.rounds)
    waited ← wait_claim rounds p opened (start + wait_ms)
    keep_x pre waited)

-- The destination of the sweep.
unfoldable pub sweep_dest : Party → Exec ℕ
sweep_dest p = on_option p.xmr_dest (call (λ w. w.xmr_address)) (λ dest. pure dest)

abbrev pub block_of : Option Hit → ℕ
block_of none = 0
block_of (some hit) = hit.block

-- A wait that gives up makes the code throw, where it takes the output apart.
unfoldable pub sweep_step : Party → Exec (Unit {0})
sweep_step p = do
  done ← gets (λ c. is_some c.sweep)
  if done then pure tt else (do
    seen ← gets (λ c. block_of c.lock_seen)
    priced ← asks (λ w. w.config.priced)
    found ← wait_joint_xmr_lock p (record {
      least = p.xmr_atomic;
      since = some seen;
      deadline = none;
      lookback = 120;
      conf = conf_of none;
      gated = priced;
    })
    on_option found (raise call_failed) (λ hit_tip. do
      x ← gets (λ c. with_default c.x 0)
      secret ← asks (λ w. w.xmr_joint_secret p.my_xmr_share x)
      call (λ w. w.connect)
      dest ← sweep_dest p
      tx ← sweep_output secret hit_tip.0 dest
      puts (λ c. record c { sweep = some (record { tx = tx; locked_atomic = hit_tip.0.amount }) })))

abbrev pub received_of : ℕ → Option Sweep → ℕ
received_of deal_amount none = deal_amount
received_of deal_amount (some s) = s.locked_atomic

unfoldable pub finish_a : Party → Exec Ending
finish_a p = do
  received ← gets (λ c. received_of p.xmr_atomic c.sweep)
  let realized : Realized = record { received = received; paid = p.deal.xno_raw }
  puts (λ c. record c { realized = some realized })
  pure (complete realized)

unfoldable pub run_a_presigned : Party → ℕ → ℕ → Exec Ending
run_a_presigned p opened hash = do
  pre ← stored_presig p hash
  early ← learn_x p opened pre
  on_option early (do sweep_step p; finish_a p) (λ ending. pure ending)

unfoldable pub run_a_opened : Party → ℕ → Exec Ending
run_a_opened p opened = do
  ensure_refund p opened
  early ← see_lock p opened
  hash ← asks (λ w. w.state_block_hash p.account opened 0 p.peer_wallet_acct send_kind)
  on_option early
      (do
        refunded ← presign_step p opened hash
        on_option refunded (run_a_presigned p opened hash) (λ ending. pure ending))
      (λ ending. pure ending)

unfoldable pub run_a : Party → Exec Ending
run_a p = do fund_step; opened ← co_open p true; run_a_opened p opened.hash
