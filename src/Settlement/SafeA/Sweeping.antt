-- ===== src/Settlement/SafeA/Sweeping.antt =====
-- A's invariant through its wait for the claim and its sweep.
use near_instant.Common.{
  arith, ℕ, zero, suc, ◌+◌, ◌≡◌, refl, ◌∙◌, ap, true, false, ltb, with_default, Option, none, some,
}
use near_instant.Settlement.Types.{World, Party, Core, Open, sweeps}
use near_instant.Settlement.Exec.{Exec}
use near_instant.Settlement.Exec.Rules.{Triple-die, Trace, Assert}
use near_instant.Settlement.Exec.Does.{Any, Does, and_then_does, weaker}
use near_instant.Settlement.Exec.Steadiness.{Allows, Steady, steady_rules}
use near_instant.Settlement.Exec.Specs.{
  Spec-bind, Spec-attempt, Spec-if, Spec-pure, Spec-raise, Spec-puts, Spec-on_option, Spec-weaken,
  Spec-getting, Spec-asking,
}
use near_instant.Settlement.Steady.{
  pocket_incoming-Steady, wait_joint_xmr_lock-Steady, sweep_output-Steady,
}
use near_instant.Settlement.Refunds.{is_some}
use near_instant.Settlement.SideA.{
  keep_x, look_at_account, late_refund, Sighting, unmoved, own_refund, claim_seen, Waited,
  claimed_with, ended, on_sighting, wait_claim, learn_x, sweep_dest, sweep_step, finish_a,
}
use near_instant.Settlement.Trail.{and_then}
use near_instant.Settlement.Guard.{none_of}
use near_instant.Settlement.SafeA.{sweeps_known, KeepsA}
use near_instant.Settlement.SafeA.Keeping.{Guard-a, other_entry}
use near_instant.Settlement.SafeA.Refunding.{take_refund-Spec}
use near_instant.Settlement.SafeA.Seeing.{Presigned}

module _ (w : World) (p : Party) where
  abbrev J : Assert
  J = KeepsA w p

  abbrev pub KnowsX : Core → Type 0
  KnowsX c = is_some c.x ≡ true

  look_at_account-Steady :
      {P : Core → Type 0} (opened dest : ℕ) → Steady w J J P (look_at_account opened dest)
  unfolding look_at_account
  look_at_account-Steady opened dest = search steady_rules depth 20

  sweep_dest-Steady : {P : Core → Type 0} → Steady w J J P (sweep_dest p)
  unfolding sweep_dest
  sweep_dest-Steady = search steady_rules

  module _ (o : Open) where
    -- The share of the claim is given, and the peer's share is not known yet.
    abbrev Waits : Core → Type 0
    Waits c = Presigned w p o c × (is_some c.x ≡ false)

    -- With the claim's signature, A still stands where it stood.
    abbrev After : Waited → Core → Type 0
    After (claimed_with sig) = Waits
    After (ended ending) = Any

    late_refund-Does :
        (deadline : ℕ)
        → Does w J Waits (late_refund p o.hash deadline) (λ late c. is_some late ≡ false → Waits c)
    unfolding late_refund
    late_refund-Does deadline = and_then_does w J (search steady_rules) λ t.
        Spec-if w J J (ltb deadline t) _ _
          (λ _.
            Spec-attempt w J J _ (take_refund-Spec w p Waits (λ c h q. none_of c.x q.1) o.hash)
              (λ a c q e. absurd (ground arith)) (λ c q e. q))
          λ _. Spec-pure w J J _ λ c q e. q

    own_refund-Does :
        (frontier : ℕ) (rest : Exec Waited)
        → Does w J Waits (on_sighting own_refund frontier rest) After
    unfolding on_sighting
    own_refund-Does frontier rest =
        Spec-bind w J J _ _ {Q = λ _. Any}
          (Spec-puts w J J (weaker J) _ λ c t j q. (
            other_entry w p c (record c { refunded = some frontier }) t refl refl refl refl refl j,
            tt,
          ))
          λ _.
            and_then_does w J (search (steady_rules, pocket_incoming-Steady) depth 20)
              λ _. Spec-pure w J J _ λ c q. q

    reaction :
        (s : Sighting) (frontier : ℕ) (rest : Exec Waited)
        → Does w J Waits rest After
        → Does w J Waits (on_sighting s frontier rest) After
    unfolding on_sighting
    reaction unmoved frontier rest h = h
    reaction own_refund frontier rest h = own_refund-Does frontier rest
    reaction (claim_seen sig) frontier rest h = Spec-pure w J J _ λ c q. q

    wait_claim-Does : (n deadline : ℕ) → Does w J Waits (wait_claim n p o.hash deadline) After
    unfolding wait_claim
    wait_claim-Does zero deadline = Triple-die w J
    wait_claim-Does (suc n) deadline = and_then_does w J (search steady_rules) λ refund.
        and_then_does w J (search (look_at_account-Steady)) λ look. reaction look.0 look.1 _ (
          Spec-bind w J J _ _ (late_refund-Does deadline) λ late.
            Spec-on_option w J J late _ _
              (λ e.
                Spec-weaken w J J _
                  (and_then_does w J (search steady_rules) λ _. wait_claim-Does n deadline)
                  (λ c q. q (ap is_some e)) (λ a c q. q) (λ c q. q))
              λ ending _. Spec-pure w J J _ λ c q. tt)

    learns :
        (x : ℕ) (c : Core) (t : Trace)
        → J c t
        → Waits c
        → J (record c { x = some x }) t × KnowsX (record c { x = some x })
    learns x c t j q = (
      (
        record {
          refund_ok = record { at = j.0.refund_ok.at };
          seen_after = j.0.seen_after;
          presigned_after = j.0.presigned_after;
          x_after = λ _. q.0.1;
        },
        j.1,
      ),
      refl,
    )

    keep_x-Does :
        (pre : ℕ) (waited : Waited)
        → Does w J (After waited) (keep_x pre waited) (λ early c. is_some early ≡ false → KnowsX c)
    unfolding keep_x
    keep_x-Does pre (ended ending) = Spec-pure w J J _ λ c q e. absurd (ground arith)
    keep_x-Does pre (claimed_with sig) = Spec-asking w J J _ _ (
        Spec-bind w J J _ _ {Q = λ _. KnowsX} (Spec-puts w J J (weaker J) _ (learns _))
          λ _. Spec-pure w J J _ λ c q _. q)

    pub learn_x-Does :
        (pre : ℕ)
        → Does w J
            (Presigned w p o)
            (learn_x p o.hash pre)
            (λ early c. is_some early ≡ false → KnowsX c)
    unfolding learn_x
    learn_x-Does pre = Spec-getting w J J _ _ λ known.
        Spec-if w J J known _ _ (λ e. Spec-pure w J J _ λ c q _. q.1 ∙ e)
          λ e. and_then_does w J (search steady_rules) λ start.
            and_then_does w J (search steady_rules) λ wait_ms.
              and_then_does w J (search steady_rules) λ rounds.
                Spec-bind w J J _ _
                  (Spec-weaken w J J _ (wait_claim-Does rounds (start + wait_ms))
                    (λ c q. (q.0, q.1 ∙ e)) (λ a c q. q) (λ c q. q))
                  λ waited. keep_x-Does pre waited

  -- A sweep with the secret that is known.
  sweeps_now : (x : ℕ) → Allows J (λ c. c.x ≡ some x) (sweeps (w.xmr_joint_secret p.my_xmr_share x))
  sweeps_now x = record { at = λ c t j q. (j.0, and_then (sweeps_known _ x c t q refl) j.1) }

  stored_x : (m : Option ℕ) (x : ℕ) → is_some m ≡ true → with_default m 0 ≡ x → m ≡ some x
  stored_x none x held e = absurd (ground arith)
  stored_x (some n) x held e = ap some e

  pub sweep_step-Does : Does w J KnowsX (sweep_step p) (λ _. Any)
  unfolding sweep_step
  sweep_step-Does = and_then_does w J (search steady_rules) λ done.
      Spec-if w J J done _ _ (λ _. Spec-pure w J J _ λ c q. tt)
        λ _. and_then_does w J (search steady_rules) λ seen.
          and_then_does w J (search steady_rules) λ priced.
            and_then_does w J (search (wait_joint_xmr_lock-Steady, weaker J, (Guard-a w p).checks))
              λ found.
                Spec-on_option w J J found _ _ (λ _. Spec-raise w J J _ λ c q. tt)
                  λ hit_tip _. Spec-getting w J J _ _ λ x. Spec-asking w J J _ _ (
                    Spec-weaken w J J _ {P = λ c. c.x ≡ some x} {Q = λ _. Any}
                      (and_then_does w J (search steady_rules) λ _.
                        and_then_does w J (search (sweep_dest-Steady)) λ dest.
                          and_then_does w J (search (sweep_output-Steady, weaker J, sweeps_now))
                            λ tx.
                              Spec-puts w J J (weaker J) _
                                λ c t j q. (other_entry w p c _ t refl refl refl refl refl j, tt))
                      (λ c q. stored_x c.x x q.0 q.1) (λ a c q. q) (λ c q. q))

  pub finish_a-Does : Does w J Any (finish_a p) (λ _. Any)
  unfolding finish_a
  finish_a-Does = and_then_does w J (search steady_rules) λ received.
      Spec-bind w J J _ _ {Q = λ _. Any}
        (Spec-puts w J J (weaker J) _
          λ c t j q. (other_entry w p c _ t refl refl refl refl refl j, tt))
        λ _. Spec-pure w J J _ λ c q. q
