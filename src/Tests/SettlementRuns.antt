-- ===== src/Tests/SettlementRuns.antt =====
-- Both drivers run to their ends in toy worlds.
use near_instant.Common.{
  ◌≤◌, ◌-◌, ◌==◌, if◌then◌else◌, arith, ℕ, zero, suc, ◌+◌, ◌≡◌, refl, Bool, true, false, List, [],
  ◌∷◌, Option, none, some, ◌⊎◌, inl, inr,
}
use near_instant.Common.Int.{ℤ, pos, negsuc}
use near_instant.Certify.{Terms, Certificate, Price}
use near_instant.Certify
use near_instant.Tests.Deals.{terms, accept}
use near_instant.Settlement.Types.{complete, skipped}
use near_instant.Settlement.Locks.{transfers}
use near_instant.Settlement.Exec.{Outcome, returns, raises, dies}
use near_instant.Settlement.Lock.{Wait, wait_joint_xmr_lock, scan_window, first_hit}
use near_instant.Settlement.Refunds.{is_some, refund_now}
use near_instant.Settlement.SideB.{run_b, send_lock}
use near_instant.Settlement.SideA.{run_a}
use near_instant.Settlement.Scanning.{span}
use near_instant.Tests.Settlements.{world, party, start, accept_b, empty, claimed}

-- The runs go all the way.
run_b-completes :
    (run_b (party false) (world none none) (start accept_b empty)).0
    ≡ returns (complete (record { received = 100; paid = pos 1_520_000_000_000 }))
unfolding run_b near_instant.Settlement.Exec.catch near_instant.Settlement.Opening.co_open
    near_instant.Settlement.Exec.◌>>=◌ near_instant.Settlement.Exec.gets
    near_instant.Settlement.Exec.on_option near_instant.Settlement.Opening.fund_and_open
    near_instant.Settlement.Exec.reads near_instant.Settlement.Exec.asks
    near_instant.Settlement.Opening.wait_funding near_instant.Settlement.Exec.call
    near_instant.Settlement.Exec.pure near_instant.Settlement.Opening.sign_open
    near_instant.Settlement.Signing.joint_sign_role near_instant.Settlement.Signing.pick_wire
    near_instant.Settlement.Signing.exchange near_instant.Settlement.Exec.tell Certify.certify
    Certify.certify_baseline Certify.certify_market Certify.certify_threshold Certify.gate
    near_instant.Common.Int.quot near_instant.Common.Int.scale near_instant.Common.Int.◌-ℤ◌
    near_instant.Profit.bps_of near_instant.Profit.party_profit near_instant.Profit.xno_value
    near_instant.Settlement.Calls.broadcast near_instant.Settlement.Calls.confirmations
    near_instant.Settlement.Calls.confirmed_quorum near_instant.Settlement.Calls.gate_here
    near_instant.Settlement.Calls.gate_on near_instant.Settlement.Calls.pocket_incoming
    near_instant.Settlement.Exec.attempt near_instant.Settlement.Exec.caught
    near_instant.Settlement.Exec.continue near_instant.Settlement.Exec.die
    near_instant.Settlement.Exec.handle near_instant.Settlement.Exec.outcome
    near_instant.Settlement.Exec.puts near_instant.Settlement.Exec.raise first_hit
    near_instant.Settlement.Lock.look_for near_instant.Settlement.Lock.scan_chunk scan_window
    near_instant.Settlement.Lock.still_waits wait_joint_xmr_lock
    near_instant.Settlement.Lock.wait_loop near_instant.Settlement.Opening.gate_funding
    near_instant.Settlement.Refunds.lock_height near_instant.Settlement.Refunds.recover_lock
    near_instant.Settlement.Refunds.recover_xmr_from_refund
    near_instant.Settlement.Refunds.stored_refund near_instant.Settlement.Refunds.sweep_output
    near_instant.Settlement.Refunds.xmr_tx_height near_instant.Settlement.SideB.account_moved
    near_instant.Settlement.SideB.await_own_lock near_instant.Settlement.SideB.await_quorum
    near_instant.Settlement.SideB.before_claim near_instant.Settlement.SideB.broadcast_claim
    near_instant.Settlement.SideB.check_moved near_instant.Settlement.SideB.claim_fallback
    near_instant.Settlement.SideB.claim_signature near_instant.Settlement.SideB.claim_step
    near_instant.Settlement.SideB.decline_b near_instant.Settlement.SideB.ensure_refund
    near_instant.Settlement.SideB.finish_b near_instant.Settlement.SideB.lock_xmr
    near_instant.Settlement.SideB.make_claim near_instant.Settlement.SideB.on_moved
    near_instant.Settlement.SideB.read_height near_instant.Settlement.SideB.read_moved
    near_instant.Settlement.SideB.resume_guard near_instant.Settlement.SideB.run_b_opened send_lock
    near_instant.Settlement.SideB.watch_from_now near_instant.Settlement.SideB.watch_refund
    near_instant.Settlement.Signing.adaptor_presign_role
    near_instant.Settlement.Signing.co_sign_refund_role near_instant.Settlement.Signing.next_attempt
    span
run_b-completes = refl

-- The joint account moved and its new block cannot be read: B skips the lock, and claims all the same.
run_b-skipped :
    let end = run_b (party false) (world (some 88) none) (start accept_b empty) in
    (end.0 ≡ returns (complete (record { received = 100; paid = pos 1_520_000_000_000 })))
    × (end.1.core.lock ≡ some skipped)
    × (transfers end.1.trace ≡ 0)
unfolding transfers run_b near_instant.Settlement.Exec.catch near_instant.Settlement.Opening.co_open
    near_instant.Settlement.Exec.◌>>=◌ near_instant.Settlement.Exec.gets
    near_instant.Settlement.Exec.on_option near_instant.Settlement.Opening.fund_and_open
    near_instant.Settlement.Exec.reads near_instant.Settlement.Exec.asks
    near_instant.Settlement.Opening.wait_funding near_instant.Settlement.Exec.call
    near_instant.Settlement.Exec.pure near_instant.Settlement.Opening.sign_open
    near_instant.Settlement.Signing.joint_sign_role near_instant.Settlement.Signing.pick_wire
    near_instant.Settlement.Signing.exchange near_instant.Settlement.Exec.tell Certify.certify
    Certify.certify_baseline Certify.certify_market Certify.certify_threshold Certify.gate
    near_instant.Common.Int.quot near_instant.Common.Int.scale near_instant.Common.Int.◌-ℤ◌
    near_instant.Profit.bps_of near_instant.Profit.party_profit near_instant.Profit.xno_value
    near_instant.Settlement.Calls.broadcast near_instant.Settlement.Calls.confirmations
    near_instant.Settlement.Calls.confirmed_quorum near_instant.Settlement.Calls.gate_here
    near_instant.Settlement.Calls.gate_on near_instant.Settlement.Calls.pocket_incoming
    near_instant.Settlement.Exec.attempt near_instant.Settlement.Exec.caught
    near_instant.Settlement.Exec.continue near_instant.Settlement.Exec.die
    near_instant.Settlement.Exec.handle near_instant.Settlement.Exec.outcome
    near_instant.Settlement.Exec.puts near_instant.Settlement.Exec.raise first_hit
    near_instant.Settlement.Lock.look_for near_instant.Settlement.Lock.scan_chunk scan_window
    near_instant.Settlement.Lock.still_waits wait_joint_xmr_lock
    near_instant.Settlement.Lock.wait_loop near_instant.Settlement.Opening.gate_funding
    near_instant.Settlement.Refunds.lock_height near_instant.Settlement.Refunds.recover_lock
    near_instant.Settlement.Refunds.recover_xmr_from_refund
    near_instant.Settlement.Refunds.stored_refund near_instant.Settlement.Refunds.sweep_output
    near_instant.Settlement.Refunds.xmr_tx_height near_instant.Settlement.SideB.account_moved
    near_instant.Settlement.SideB.await_own_lock near_instant.Settlement.SideB.await_quorum
    near_instant.Settlement.SideB.before_claim near_instant.Settlement.SideB.broadcast_claim
    near_instant.Settlement.SideB.check_moved near_instant.Settlement.SideB.claim_fallback
    near_instant.Settlement.SideB.claim_signature near_instant.Settlement.SideB.claim_step
    near_instant.Settlement.SideB.decline_b near_instant.Settlement.SideB.ensure_refund
    near_instant.Settlement.SideB.finish_b near_instant.Settlement.SideB.lock_xmr
    near_instant.Settlement.SideB.make_claim near_instant.Settlement.SideB.on_moved
    near_instant.Settlement.SideB.read_height near_instant.Settlement.SideB.read_moved
    near_instant.Settlement.SideB.resume_guard near_instant.Settlement.SideB.run_b_opened send_lock
    near_instant.Settlement.SideB.watch_from_now near_instant.Settlement.SideB.watch_refund
    near_instant.Settlement.Signing.adaptor_presign_role
    near_instant.Settlement.Signing.co_sign_refund_role near_instant.Settlement.Signing.next_attempt
    span
run_b-skipped = (refl, refl, refl)

run_a-completes :
    (run_a (party true) claimed (start accept empty)).0
    ≡ returns (complete (record { received = 1_520_000_000_000; paid = terms.xno_raw }))
unfolding run_a near_instant.Settlement.Exec.◌>>=◌ near_instant.Settlement.SideA.fund_step
    near_instant.Settlement.Exec.gets near_instant.Settlement.Exec.tell
    near_instant.Settlement.Exec.call near_instant.Settlement.Exec.puts
    near_instant.Settlement.Opening.co_open near_instant.Settlement.Exec.on_option
    near_instant.Settlement.Opening.fund_and_open near_instant.Settlement.Exec.reads
    near_instant.Settlement.Exec.asks near_instant.Settlement.Opening.wait_funding
    near_instant.Settlement.Exec.pure near_instant.Settlement.Opening.sign_open
    near_instant.Settlement.Signing.joint_sign_role near_instant.Settlement.Signing.pick_wire
    Certify.certify Certify.certify_baseline Certify.certify_market Certify.certify_threshold
    Certify.gate near_instant.Common.Int.quot near_instant.Common.Int.scale
    near_instant.Common.Int.◌-ℤ◌ near_instant.Profit.bps_of near_instant.Profit.party_profit
    near_instant.Profit.xno_value near_instant.Settlement.Calls.broadcast
    near_instant.Settlement.Calls.gate_here near_instant.Settlement.Calls.gate_on
    near_instant.Settlement.Calls.pocket_incoming near_instant.Settlement.Exec.attempt
    near_instant.Settlement.Exec.catch near_instant.Settlement.Exec.caught
    near_instant.Settlement.Exec.continue near_instant.Settlement.Exec.die
    near_instant.Settlement.Exec.handle near_instant.Settlement.Exec.outcome
    near_instant.Settlement.Exec.raise first_hit near_instant.Settlement.Lock.look_for
    near_instant.Settlement.Lock.scan_chunk scan_window near_instant.Settlement.Lock.still_waits
    wait_joint_xmr_lock near_instant.Settlement.Lock.wait_loop
    near_instant.Settlement.Opening.gate_funding near_instant.Settlement.Refunds.broadcast_refund
    near_instant.Settlement.Refunds.stored_refund near_instant.Settlement.Refunds.sweep_output
    near_instant.Settlement.Refunds.take_refund near_instant.Settlement.SideA.await_lock
    near_instant.Settlement.SideA.commit_claim near_instant.Settlement.SideA.finish_a
    near_instant.Settlement.SideA.keep_x near_instant.Settlement.SideA.late_refund
    near_instant.Settlement.SideA.learn_x near_instant.Settlement.SideA.look_at_account
    near_instant.Settlement.SideA.on_sighting near_instant.Settlement.SideA.presign_step
    near_instant.Settlement.SideA.record_scan_from near_instant.Settlement.SideA.run_a_opened
    near_instant.Settlement.SideA.run_a_presigned near_instant.Settlement.SideA.see_lock
    near_instant.Settlement.SideA.stored_presig near_instant.Settlement.SideA.sweep_dest
    near_instant.Settlement.SideA.sweep_step near_instant.Settlement.SideA.wait_claim
    near_instant.Settlement.SideB.ensure_refund near_instant.Settlement.SideB.read_height
    near_instant.Settlement.Signing.adaptor_presign_role
    near_instant.Settlement.Signing.co_sign_refund_role near_instant.Settlement.Signing.exchange
    near_instant.Settlement.Signing.next_attempt span
run_a-completes = refl
