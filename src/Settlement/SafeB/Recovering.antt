-- ===== src/Settlement/SafeB/Recovering.antt =====
-- B's invariant through its watch for a refund and the recovery after one.
use near_instant.Common.{ltb, ◌==◌, ℕ, zero, suc, ◌+◌, ◌≡◌, refl, Option, none, some}
use near_instant.Settlement.Types.{World, Party, Core, Refund, sweeps, Lock, sent, skipped}
use near_instant.Settlement.Exec.{pure, ◌>>=◌}
use near_instant.Settlement.Exec.Steadiness.{Steady-if, Steady-bind, Allows, Steady, steady_rules}
use near_instant.Settlement.Exec.Specs.{
  Spec-bind, Spec-if, Spec-pure, Spec-puts, Spec-on_option, Spec-weaken, Spec-asking,
}
use near_instant.Settlement.Steady.{
  sweep_output-Steady, stored_refund-Spec, wait_joint_xmr_lock-Steady, pocket_incoming-Steady,
  confirmed_quorum-Steady,
}
use near_instant.Settlement.Refunds.{
  xmr_tx_height, lock_height, is_skipped, recover_lock, recover_xmr_from_refund,
}
use near_instant.Settlement.SideB.{
  Moved, read_moved, check_moved, on_moved, watch_refund, watch_from_now, await_quorum,
  await_own_lock,
}
use near_instant.Settlement.Trail.{and_then}
use near_instant.Settlement.SafeB.{sweeps_refund, KeepsB}
use near_instant.Settlement.Exec.Does.{Any, Does, steadily, and_then_does, weaker}
use near_instant.Settlement.SafeB.Keeping.{Guard-b}

module _ (w : World) (p : Party) where
  module _ {P : Core → Type 0} where
    xmr_tx_height-Steady : Steady w (KeepsB w p) (KeepsB w p) P xmr_tx_height
    unfolding xmr_tx_height
    xmr_tx_height-Steady = search steady_rules

    lock_height-Steady : (l : Option Lock) → Steady w (KeepsB w p) (KeepsB w p) P (lock_height l)
    unfolding lock_height
    lock_height-Steady none = search steady_rules
    lock_height-Steady (some skipped) = search steady_rules
    lock_height-Steady (some (sent tx h)) = search (steady_rules, xmr_tx_height-Steady) depth 20

    recover_lock-Steady :
        (secret : ℕ) (l : Option Lock)
        → Allows (KeepsB w p) P (sweeps secret)
        → Steady w (KeepsB w p) (KeepsB w p) P (recover_lock p secret l)
    unfolding recover_lock
    recover_lock-Steady secret l allowed =
        search
          (
            steady_rules,
            weaker (KeepsB w p),
            (Guard-b w p).checks,
            lock_height-Steady,
            wait_joint_xmr_lock-Steady,
            sweep_output-Steady,
          )
          depth 30

    pub check_moved-Steady : (n : ℕ) → Steady w (KeepsB w p) (KeepsB w p) P (check_moved n)
    unfolding check_moved read_moved
    check_moved-Steady n = search steady_rules depth 20

    pub await_quorum-Steady : (n : ℕ) → Steady w (KeepsB w p) (KeepsB w p) P (await_quorum n)
    unfolding await_quorum
    await_quorum-Steady zero = search steady_rules
    await_quorum-Steady (suc n) =
        Steady-bind w (KeepsB w p) (KeepsB w p) _ _ (search (confirmed_quorum-Steady)) λ confirmed.
          Steady-if w (KeepsB w p) (KeepsB w p) confirmed _ _ (λ _. search steady_rules)
            (λ _.
              Steady-bind w (KeepsB w p) (KeepsB w p) _ _ (search steady_rules)
                λ _. await_quorum-Steady n)

    pub await_own_lock-Steady : Steady w (KeepsB w p) (KeepsB w p) P (await_own_lock p)
    unfolding await_own_lock
    await_own_lock-Steady =
        search
          (
            steady_rules,
            lock_height-Steady,
            weaker (KeepsB w p),
            (Guard-b w p).checks,
            wait_joint_xmr_lock-Steady,
          )
          depth 20

  -- The sweep that a refund allows.
  sweeps_now :
      (r : Refund) (sig : ℕ)
      → Allows
          (KeepsB w p)
          (λ c. c.refund ≡ some r)
          (sweeps (w.xmr_joint_secret p.my_xmr_share (w.presig_extract r.presig sig)))
  sweeps_now r sig = record {
    at = λ c t j q. (j.0, and_then (sweeps_refund _ sig r c t q refl) j.1);
  }

  recover-Does :
      (r : Refund) (sig : ℕ)
      → Does w (KeepsB w p) (λ c. c.refund ≡ some r) (recover_xmr_from_refund p r sig) (λ _. Any)
  unfolding recover_xmr_from_refund
  recover-Does r sig = and_then_does w (KeepsB w p) (search steady_rules) λ lock.
      Spec-if w (KeepsB w p) (KeepsB w p) (is_skipped lock) _ _
        (λ _. Spec-pure w (KeepsB w p) (KeepsB w p) _ λ c q. tt)
        λ _. Spec-asking w (KeepsB w p) (KeepsB w p) _ _ (
          Spec-weaken w (KeepsB w p) (KeepsB w p) _
            (steadily w (KeepsB w p) (recover_lock-Steady _ lock (sweeps_now r sig))) (λ c q. q)
            (λ a c q. tt) (λ c q. q))

  pub on_moved-Does : (mv : Moved) → Does w (KeepsB w p) Any (on_moved p mv) (λ _. Any)
  unfolding on_moved
  on_moved-Does mv =
      Spec-if w (KeepsB w p) (KeepsB w p) (mv.link == p.my_wallet_acct) _ _
        (λ _.
          Spec-bind w (KeepsB w p) (KeepsB w p) _ _ {Q = λ _. Any}
            (Spec-puts w (KeepsB w p) (KeepsB w p) (weaker (KeepsB w p)) _
              λ c t j q. ((record { at = j.0.at }, j.1), tt))
            λ _. steadily w (KeepsB w p) (search (steady_rules, pocket_incoming-Steady) depth 20))
        λ _.
          Spec-bind w (KeepsB w p) (KeepsB w p) _ _
            (Spec-weaken w (KeepsB w p) (KeepsB w p) _
              (stored_refund-Spec w (KeepsB w p) (KeepsB w p) {P = Any}) (λ c q. q) (λ a c q. q.1)
              (λ c q. q))
            λ r. Spec-bind w (KeepsB w p) (KeepsB w p) _ _ (recover-Does r mv.sig) λ recovery.
              Spec-bind w (KeepsB w p) (KeepsB w p) _ _ {Q = λ _. Any}
                (Spec-puts w (KeepsB w p) (KeepsB w p) (weaker (KeepsB w p)) _
                  λ c t j q. ((record { at = j.0.at }, j.1), tt))
                λ _. Spec-pure w (KeepsB w p) (KeepsB w p) _ λ c q. q

  landing :
      (mv : Moved)
      → Does w (KeepsB w p) Any (on_moved p mv >>= λ landed. pure (some landed)) (λ _. Any)
  landing mv =
      Spec-bind w (KeepsB w p) (KeepsB w p) _ _ (on_moved-Does mv)
        λ l. Spec-pure w (KeepsB w p) (KeepsB w p) _ λ c q. q

  watch_refund-Does :
      (n opened deadline : ℕ)
      → Does w (KeepsB w p) Any (watch_refund n p opened deadline) (λ _. Any)
  unfolding watch_refund
  watch_refund-Does zero opened deadline = steadily w (KeepsB w p) (search steady_rules)
  watch_refund-Does (suc n) opened deadline =
      and_then_does w (KeepsB w p) (search steady_rules) λ t.
        Spec-if w (KeepsB w p) (KeepsB w p) (ltb t deadline) _ _
          (λ _. and_then_does w (KeepsB w p) (search steady_rules) λ _.
            and_then_does w (KeepsB w p) (search (check_moved-Steady)) λ moved.
              Spec-on_option w (KeepsB w p) (KeepsB w p) moved _ _
                (λ _. watch_refund-Does n opened deadline) λ mv _. landing mv)
          λ _. Spec-pure w (KeepsB w p) (KeepsB w p) _ λ c q. q

  pub watch_from_now-Does :
      (opened : ℕ) → Does w (KeepsB w p) Any (watch_from_now p opened) (λ _. Any)
  unfolding watch_from_now
  watch_from_now-Does opened = and_then_does w (KeepsB w p) (search steady_rules) λ start.
      and_then_does w (KeepsB w p) (search steady_rules) λ wait_ms.
        and_then_does w (KeepsB w p) (search steady_rules)
          λ rounds. watch_refund-Does rounds opened (start + wait_ms)
