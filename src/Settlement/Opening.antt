-- ===== src/Settlement/Opening.antt =====
-- coOpen of web/two_party.js: the wait for the funding, and the block that opens the joint account.
use near_instant.Common.{
  ℕ, zero, suc, ◌+◌, ◌*◌, ◌%◌, Bool, ◌&&◌, not, List, [], ◌∷◌, Option, none, some, ltb, ◌==◌,
  if◌then◌else◌,
}
use near_instant.Settlement.Types.{
  Party, Open, open_round, opens, gone, fund_timeout, bad_signature,
}
use near_instant.Settlement.Exec.{
  on_option, Exec, pure, raise, die, asks, gets, call, puts, ◌>>=◌, ◌>>◌,
}
use near_instant.Settlement.Calls.{now, gate_here, broadcast}
use near_instant.Settlement.Lock.{or_default}
use near_instant.Settlement.Signing.{joint_sign_role, open_kind}

-- B, who has committed nothing yet, gates the deal in every fourth round.
unfoldable pub gate_funding : Party → Bool → ℕ → Exec (Unit {0})
gate_funding p broadcasts round = do
  priced ← asks (λ w. w.config.priced)
  if not broadcasts && (priced && round % 4 == 3)
      then (do cert ← gate_here p; if cert.is_ok then pure tt else raise (gone cert))
      else pure tt

abbrev first_of : List (ℕ × ℕ) → Option (ℕ × ℕ)
first_of [] = none
first_of (block ∷ others) = some block

-- The hash and the amount of the first send to the joint account.
unfoldable pub wait_funding : ℕ → Party → Bool → ℕ → ℕ → Exec (ℕ × ℕ)
wait_funding zero p broadcasts deadline round = die
wait_funding (suc left) p broadcasts deadline round = do
  blocks ← call (λ w. w.receivable)
  on_option (first_of blocks)
      (do
        gate_funding p broadcasts round
        t ← now
        if ltb deadline t
            then raise fund_timeout
            else (do call (λ w. w.pause); wait_funding left p broadcasts deadline (round + 1)))
      (λ funding. pure funding)

-- The open block of a funding; the side that broadcasts takes the node's hash.
unfoldable pub sign_open : Party → Bool → ℕ × ℕ → Exec Open
sign_open p broadcasts (send_hash, amount) = do
  hash ← asks (λ w. w.state_block_hash p.account 0 amount send_hash open_kind)
  sig ← joint_sign_role p hash open_round
  good ← asks (λ w. w.nano_check p.account hash sig)
  if good
      then (if broadcasts
          then (do
            processed ← broadcast (opens hash)
            pure (record { hash = processed; balance = amount }))
          else pure (record { hash = hash; balance = amount }))
      else raise bad_signature

unfoldable pub fund_and_open : Party → Bool → Exec Open
fund_and_open p broadcasts = do
  start ← now
  wait_ms ← asks (λ w. or_default w.config.fund_wait_ms (5 * 60 * 1000))
  rounds ← asks (λ w. w.rounds)
  funding ← wait_funding rounds p broadcasts (start + wait_ms) 0
  sign_open p broadcasts funding

-- `coOpen`
unfoldable pub co_open : Party → Bool → Exec Open
co_open p broadcasts = do
  cached ← gets (λ c. c.open_block)
  on_option cached
      (do
        opened ← fund_and_open p broadcasts
        puts (λ c. record c { open_block = some opened })
        pure opened)
      (λ opened. pure opened)
