-- ===== src/Settlement/Lock.antt =====
-- waitJointXmrLock of web/two_party.js: the wait for the Monero lock on the joint address.
use near_instant.Common.{
  ℕ, zero, suc, ◌+◌, ◌-◌, Bool, true, false, List, [], ◌∷◌, Option, none, some, min, max, ltb, leb,
  ◌==◌, if◌then◌else◌,
}
use near_instant.Settlement.Types.{Party, Hit}
use near_instant.Settlement.Exec.{on_option, Exec, pure, die, asks, call, attempt, ◌>>=◌, ◌>>◌}
use near_instant.Settlement.Calls.{now, gate_here}

abbrev pub xmr_conf : ℕ
xmr_conf = 10

-- `x || d` on a number that may be left out.
abbrev pub or_default : Option ℕ → ℕ → ℕ
or_default none d = d
or_default (some n) d = if n == 0 then d else n

-- `Math.min(XMR_CONF, Math.max(1, confTarget || XMR_CONF))`
abbrev pub conf_of : Option ℕ → ℕ
conf_of target = min xmr_conf (max 1 (or_default target xmr_conf))

-- The first output that is large enough.
unfoldable pub first_hit : ℕ → List Hit → Option Hit
first_hit least [] = none
first_hit least (o ∷ os) =
    let later = first_hit least os in if leb least o.amount then some o else later

-- Up to three scans of a chunk of blocks; a chunk whose scans fail is skipped.
unfoldable pub scan_chunk : ℕ → ℕ → ℕ → Exec (List Hit)
scan_chunk zero from to = pure []
scan_chunk (suc left) from to = do
  outs ← attempt (call (λ w t. w.scan_all t from to))
  on_option outs (do call (λ w. w.pause); scan_chunk left from to) (λ found. pure found)

-- The scan up to the tip, ten blocks to a chunk. The fuel is the number of blocks.
unfoldable pub scan_window : ℕ → ℕ → ℕ → ℕ → Exec (Option Hit)
scan_window zero least from tip = pure none
scan_window (suc fuel) least from tip =
    let more : Exec (Option Hit) = do
      outs ← scan_chunk 3 from (min (from + 9) (tip - 1))
      on_option (first_hit least outs) (scan_window fuel least (from + 10) tip)
          (λ hit. pure (some hit))
    in if ltb from tip then more else pure none

-- The first block of the scan.
abbrev pub scan_from : Option ℕ → ℕ → ℕ → ℕ
scan_from since lookback tip =
    let known = or_default since 0 in if known == 0 then tip - lookback else known - 5

-- What the wait is for and how long: the least amount, the first block, the deadline, the look-back,
-- the depth, and whether the deal is gated meanwhile.
pub record Wait : Type 0 where
  pub least : ℕ
  pub since : Option ℕ
  pub deadline : Option ℕ
  pub lookback : ℕ
  pub conf : ℕ
  pub gated : Bool

abbrev pub past : Option ℕ → ℕ → Bool
past none t = false
past (some deadline) t = ltb deadline t

-- The output, once it is known; else a scan for it.
unfoldable pub look_for : Wait → Option Hit → ℕ → Exec (Option Hit)
look_for q (some hit) tip = pure (some hit)
look_for q none tip = scan_window (suc tip) q.least (scan_from q.since q.lookback tip) tip

-- Whether to go on waiting without the lock: the deadline, then the gate.
unfoldable pub still_waits : Party → Wait → Option Hit → Exec Bool
still_waits p q hit = do
  t ← now
  if past q.deadline t
      then pure false
      else (on_option hit (if q.gated then (do cert ← gate_here p; pure cert.is_ok) else pure true)
          (λ found. pure true))

-- The loop, with the output that was found and the highest tip so far; out of rounds, the process
-- ends.
unfoldable pub wait_loop : ℕ → Party → Wait → Option Hit → ℕ → Exec (Option (Hit × ℕ))
wait_loop zero p q known tip_max = die
wait_loop (suc left) p q known tip_max = do
  read ← call (λ w. w.height)
  let tip = max read tip_max
  hit ← look_for q known tip
  on_option hit
      (do
        going ← still_waits p q none
        if going then (do call (λ w. w.pause); wait_loop left p q none tip) else pure none)
      (λ found. if leb (found.block + q.conf) tip then pure (some (found, tip)) else (do
        going ← still_waits p q (some found)
        if going then (do call (λ w. w.pause); wait_loop left p q (some found) tip) else pure none))

unfoldable pub wait_joint_xmr_lock : Party → Wait → Exec (Option (Hit × ℕ))
wait_joint_xmr_lock p q = do
  call (λ w. w.connect)
  rounds ← asks (λ w. w.rounds)
  wait_loop rounds p q none 0
