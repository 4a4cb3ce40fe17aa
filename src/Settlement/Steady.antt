-- ===== src/Settlement/Steady.antt =====
-- The shared steps that leave the store alone.
use near_instant.Common.{◌∙◌, ltb, with_default, ℕ, zero, suc, ◌≡◌, Bool, Option, none, some}
use near_instant.Certify.{Price}
use near_instant.Settlement.Types.{sweeps, World, Party, Core, Effect, checked, shares, Round, Hit}
use near_instant.Settlement.Exec.Rules.{Assert, Trace}
use near_instant.Settlement.Exec.Steadiness.{
  Spec, Allows, Steady, Steady-if, Steady-bind, steady_rules,
}
use near_instant.Settlement.Exec.Specs.{Spec-getting, Spec-on_option, Spec-raise, Spec-pure}
use near_instant.Settlement.Calls.{
  gate_on, gate_here, confirmations, confirmed_quorum, frontier_sig, pocket_incoming, broadcast,
}
use near_instant.Settlement.Lock.{
  Wait, scan_chunk, scan_window, look_for, still_waits, wait_loop, wait_joint_xmr_lock,
}
use near_instant.Settlement.Refunds.{sweep_output, stored_refund}
use near_instant.Settlement.SideB.{read_height}
use near_instant.Settlement.Signing.{
  next_attempt, pick_wire, exchange, joint_sign_role, adaptor_presign_role,
}

module _ (w : World) (I J : Assert) {P : Core → Type 0} where
  pub gate_on-Steady : (p : Party) (o : Option (Option Price)) → Steady w I J P (gate_on p o)
  unfolding gate_on
  gate_on-Steady p o = record { at = record { at = λ s i h. (i, h) } }

  next_attempt-Steady : (r : Round) → Steady w I J P (next_attempt r)
  unfolding next_attempt
  next_attempt-Steady r = record { at = record { at = λ s i h. (i, h) } }

  confirmations-Steady : (n : ℕ) → Steady w I J P (confirmations n)
  unfolding confirmations
  confirmations-Steady zero = search steady_rules
  confirmations-Steady (suc n) =
      Steady-bind w I J _ _ (search steady_rules) λ a. search (steady_rules, confirmations-Steady n)

  frontier_sig-Steady : (n : ℕ) → Steady w I J P (frontier_sig n)
  unfolding frontier_sig
  frontier_sig-Steady n = search steady_rules depth 20

  pub pocket_incoming-Steady : (n : ℕ) → Steady w I J P (pocket_incoming n)
  unfolding pocket_incoming
  pocket_incoming-Steady zero = search steady_rules
  pocket_incoming-Steady (suc n) = Steady-bind w I J _ _ (search steady_rules) λ a.
      Steady-if w I J (ltb 0 (with_default a 0)) _ _ (λ _. search steady_rules)
        (λ _. Steady-bind w I J _ _ (search steady_rules) λ b. pocket_incoming-Steady n)

  pub confirmed_quorum-Steady : Steady w I J P confirmed_quorum
  unfolding confirmed_quorum
  confirmed_quorum-Steady = search (steady_rules, confirmations-Steady) depth 20

  pub scan_chunk-Steady : (n from to : ℕ) → Steady w I J P (scan_chunk n from to)
  unfolding scan_chunk
  scan_chunk-Steady zero from to = search steady_rules
  scan_chunk-Steady (suc n) from to = search (steady_rules, scan_chunk-Steady n) depth 20

  scan_window-Steady : (n least from tip : ℕ) → Steady w I J P (scan_window n least from tip)
  unfolding scan_window
  scan_window-Steady zero least from tip = search steady_rules
  scan_window-Steady (suc n) least from tip =
      search (steady_rules, scan_chunk-Steady, scan_window-Steady n) depth 20

  look_for-Steady : (q : Wait) (o : Option Hit) (tip : ℕ) → Steady w I J P (look_for q o tip)
  unfolding look_for
  look_for-Steady q none tip = search (scan_window-Steady)
  look_for-Steady q (some hit) tip = search steady_rules

  module _ (p : Party) (weaker : (c : Core) (t : Trace) → J c t → I c t)
      (checks : (b : Bool) → Allows J P (checked b)) where
    pub gate_here-Steady : Steady w I J P (gate_here p)
    unfolding gate_here
    gate_here-Steady = search (steady_rules, gate_on-Steady) depth 20

    pub still_waits-Steady : (q : Wait) (o : Option Hit) → Steady w I J P (still_waits p q o)
    unfolding still_waits
    still_waits-Steady q o = search (steady_rules, gate_here-Steady) depth 20

    wait_loop-Steady :
        (n : ℕ) (q : Wait) (o : Option Hit) (tip : ℕ) → Steady w I J P (wait_loop n p q o tip)
    unfolding wait_loop
    wait_loop-Steady zero q o tip = search steady_rules
    wait_loop-Steady (suc n) q o tip =
        search (steady_rules, look_for-Steady, still_waits-Steady, wait_loop-Steady n) depth 30

    pub wait_joint_xmr_lock-Steady : (q : Wait) → Steady w I J P (wait_joint_xmr_lock p q)
    unfolding wait_joint_xmr_lock
    wait_joint_xmr_lock-Steady q = search (steady_rules, wait_loop-Steady) depth 20

  pick_wire-Steady : (p : Party) (r : Round) → Steady w I J P (pick_wire p r)
  unfolding pick_wire
  pick_wire-Steady p r = search (steady_rules, next_attempt-Steady)

  module _ (weaker : (c : Core) (t : Trace) → J c t → I c t) where
    pub broadcast-Steady : (e : Effect) → Allows J P e → Steady w I J P (broadcast e)
    unfolding broadcast
    broadcast-Steady e keep = search steady_rules depth 20

    module _ (step : Round) (msg : ℕ) (keep : Allows J P (shares step msg)) where
      exchange-Steady : Steady w I J P (exchange step msg)
      unfolding exchange
      exchange-Steady = search steady_rules depth 20

      pub joint_sign_role-Steady : (p : Party) → Steady w I J P (joint_sign_role p msg step)
      unfolding joint_sign_role
      joint_sign_role-Steady p = search (steady_rules, pick_wire-Steady, exchange-Steady)

      pub adaptor_presign_role-Steady :
          (p : Party) (point : Option ℕ) → Steady w I J P (adaptor_presign_role p msg point step)
      unfolding adaptor_presign_role
      adaptor_presign_role-Steady p point = search (steady_rules, pick_wire-Steady, exchange-Steady)

  pub stored_refund-Spec : Spec w I J P stored_refund (λ r c. P c × (c.refund ≡ some r)) P
  unfolding stored_refund
  stored_refund-Spec = Spec-getting w I J _ _ λ m.
      Spec-on_option w I J m _ _ (λ _. Spec-raise w I J _ λ c q. q.0)
        λ r e. Spec-pure w I J r λ c q. (q.0, q.1 ∙ e)

  pub read_height-Steady : Steady w I J P read_height
  unfolding read_height
  read_height-Steady = search steady_rules

  pub sweep_output-Steady :
      (secret : ℕ) (h : Hit) (dest : ℕ)
      → ((c : Core) (t : Trace) → J c t → I c t)
      → Allows J P (sweeps secret)
      → Steady w I J P (sweep_output secret h dest)
  unfolding sweep_output
  sweep_output-Steady secret h dest weaker allowed = search steady_rules depth 20
