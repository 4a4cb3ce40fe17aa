-- ===== src/Settlement/SafeA/Seeing.antt =====
-- A's invariant through its funding, its wait for the lock and its pre-signature.
use near_instant.Common.{arith, ℕ, ◌≡◌, refl, ◌∙◌, ap, Bool, true, false, none, some}
use near_instant.Settlement.Types.{
  Hit, World, Party, Core, Open, funds, funded, claim_round, Ending,
}
use near_instant.Settlement.Exec.{pure, ◌>>=◌}
use near_instant.Settlement.Exec.Rules.{Trace, Assert}
use near_instant.Settlement.Exec.Does.{Any, Does, and_then_does, weaker}
use near_instant.Settlement.Exec.Steadiness.{Allows, Spec, steady_rules}
use near_instant.Settlement.Exec.Specs.{
  Spec-bind, Spec-tell, Spec-if, Spec-pure, Spec-raise, Spec-puts, Spec-on_option, Spec-weaken,
  Spec-getting, Spec-catch,
}
use near_instant.Settlement.Steady.{
  gate_here-Steady, wait_joint_xmr_lock-Steady, adaptor_presign_role-Steady, read_height-Steady,
}
use near_instant.Settlement.Refunds.{is_some, take_refund}
use near_instant.Settlement.Signing.{adaptor_presign_role}
use near_instant.Settlement.SideA.{
  await_lock, fund_step, record_scan_from, see_lock, commit_claim, presign_step, stored_presig,
}
use near_instant.Settlement.Trail.{and_then, IsSecured}
use near_instant.Settlement.Guard.{none_of}
use near_instant.Settlement.SafeA.{InOrder, funds_first, funded_any, KeepsA}
use near_instant.Settlement.SafeA.Keeping.{
  Guard-a, other_entry, still-IsSecured, claim_hash, HasSeen, shares_now,
}
use near_instant.Settlement.SafeA.Refunding.{take_refund-Does}

false_of : {b c : Bool} → (b ≡ true → c ≡ true) → c ≡ false → b ≡ false
false_of {b = false} f e = refl
false_of {b = true} f e = absurd (ground (arith, f refl))

module _ (w : World) (p : Party) where
  abbrev J : Assert
  J = KeepsA w p

  funds_now : Allows J (λ c. c.fund ≡ none) funds
  funds_now = record { at = λ c t j q. (j.0, and_then (funds_first c t q) j.1) }

  funded_now : Allows J Any funded
  funded_now = record { at = λ c t j q. (j.0, and_then (funded_any c t) j.1) }

  pub fund_step-Does : Does w J Any fund_step (λ _. Any)
  unfolding fund_step
  fund_step-Does = Spec-getting w J J _ _ λ done.
      Spec-if w J J done _ _ (λ _. Spec-pure w J J _ λ c q. tt)
        λ e.
          Spec-bind w J J _ _ {Q = λ _. Any}
            (Spec-weaken w J J _ (Spec-tell w J J (weaker J) funds {E = Any} funds_now)
              (λ c q. none_of c.fund (q.1 ∙ e)) (λ a c q. tt) (λ c q. q))
            λ _. and_then_does w J (search steady_rules) λ hash.
              and_then_does w J (search (steady_rules, weaker J, funded_now)) λ _.
                Spec-puts w J J (weaker J) _ λ c t j q. (
                  other_entry w p c (record c { fund = some hash }) t refl refl refl refl refl j,
                  tt,
                )

  module _ (o : Open) where
    -- Secured, and the lock is not seen yet.
    abbrev Unseen : Core → Type 0
    Unseen c = IsSecured w p o c × (is_some c.lock_seen ≡ false)

    record_scan_from-Does : Does w J Unseen record_scan_from (λ _. Unseen)
    unfolding record_scan_from
    record_scan_from-Does = and_then_does w J (search steady_rules) λ known.
        Spec-if w J J known _ _ (λ _. Spec-pure w J J _ λ c q. q)
          λ _. and_then_does w J (search (steady_rules, read_height-Steady)) λ height.
            Spec-on_option w J J height _ _ (λ _. Spec-pure w J J _ λ c q. q)
              λ h _. Spec-puts w J J (weaker J) _ λ c t j q. (
                other_entry w p c _ t refl refl refl refl refl j,
                (still-IsSecured w p o c _ refl refl q.0, q.1),
              )

    -- Without the lock, the peer's share is not known.
    unknown : (c : Core) → InOrder w p c → is_some c.lock_seen ≡ false → c.x ≡ none
    unknown c h e = none_of c.x (false_of h.x_after (false_of h.presigned_after e))

    ends_refunded :
        (P : Core → Type 0)
        → ((c : Core) → InOrder w p c → P c → c.x ≡ none)
        → (Q : Core → Type 0)
        → Does w J P
            (take_refund p o.hash >>= λ ending. pure (some ending))
            (λ early c. is_some early ≡ false → Q c)
    ends_refunded P no_x Q =
        Spec-bind w J J _ _ (take_refund-Does w p P no_x o.hash)
          λ ending. Spec-pure w J J _ λ c q e. absurd (ground arith)

    -- The entry for a lock that was seen.
    sees :
        (h : Hit) (c : Core) (t : Trace)
        → J c t
        → Unseen c
        → J (record c { lock_seen = some h }) t × HasSeen w p o (record c { lock_seen = some h })
    sees h c t j q = (
      (
        record {
          refund_ok = record { at = j.0.refund_ok.at };
          seen_after = λ _. ap is_some q.0.at_refund;
          presigned_after = λ _. refl;
          x_after = j.0.x_after;
        },
        j.1,
      ),
      (still-IsSecured w p o c _ refl refl q.0, refl),
    )

    await_lock-Does :
        Does w J Unseen (await_lock p o.hash) (λ early c. is_some early ≡ false → HasSeen w p o c)
    unfolding await_lock
    await_lock-Does = and_then_does w J (search steady_rules) λ start.
        and_then_does w J (search steady_rules) λ wait_ms.
          Spec-bind w J J _ _ record_scan_from-Does λ _.
            and_then_does w J (search steady_rules) λ since.
              and_then_does w J (search steady_rules) λ conf.
                and_then_does w J (search steady_rules) λ priced.
                  and_then_does w J
                    (search (wait_joint_xmr_lock-Steady, weaker J, (Guard-a w p).checks))
                    λ found.
                      Spec-on_option w J J found _ _
                        (λ _. ends_refunded Unseen (λ c h q. unknown c h q.1) (HasSeen w p o))
                        λ hit_tip _.
                          Spec-bind w J J _ _ {Q = λ _. HasSeen w p o}
                            (Spec-puts w J J (weaker J) _ (sees hit_tip.0))
                            λ _. Spec-pure w J J _ λ c q _. q

    pub see_lock-Does :
        Does w J
          (IsSecured w p o)
          (see_lock p o.hash)
          (λ early c. is_some early ≡ false → HasSeen w p o c)
    unfolding see_lock
    see_lock-Does = Spec-getting w J J _ _ λ seen.
        Spec-if w J J seen _ _ (λ e. Spec-pure w J J _ λ c q _. (q.0, q.1 ∙ e))
          λ e. Spec-weaken w J J _ await_lock-Does (λ c q. (q.0, q.1 ∙ e)) (λ a c q. q) (λ c q. q)

    -- Seen, and this side's share of the claim is given.
    abbrev pub Presigned : Core → Type 0
    Presigned c = HasSeen w p o c × (is_some c.presigned ≡ true)

    abbrev Unsigned : Core → Type 0
    Unsigned c = HasSeen w p o c × (is_some c.presigned ≡ false)

    signs :
        (pre : ℕ) (c : Core) (t : Trace)
        → J c t
        → HasSeen w p o c
        → J (record c { presigned = some (some pre) }) t
          × Presigned (record c { presigned = some (some pre) })
    signs pre c t j q = (
      (
        record {
          refund_ok = record { at = j.0.refund_ok.at };
          seen_after = j.0.seen_after;
          presigned_after = λ _. q.1;
          x_after = λ _. refl;
        },
        j.1,
      ),
      ((still-IsSecured w p o c _ refl refl q.0, q.1), refl),
    )

    commit_claim-Does :
        Does w J Unsigned
          (commit_claim p o.hash (claim_hash w p o))
          (λ early c. is_some early ≡ false → Presigned c)
    unfolding commit_claim
    commit_claim-Does =
        and_then_does w J (search (gate_here-Steady, weaker J, (Guard-a w p).checks)) λ cert.
          Spec-if w J J cert.is_ok _ _
            (λ _.
              Spec-catch w J J _ _ _ {E' = Unsigned} given
                (λ pre.
                  Spec-bind w J J _ _ {Q = λ _. Presigned}
                    (Spec-puts w J J (weaker J) _ λ c t j q. signs pre c t j q.0)
                    λ _. Spec-pure w J J _ λ c q _. q)
                (λ e. refunds_instead))
            λ _. refunds_instead
      where
        given :
            Spec w J J Unsigned
              (adaptor_presign_role p (claim_hash w p o) none claim_round)
              (λ _. Unsigned)
              Unsigned
        given =
            (adaptor_presign_role-Steady w J J (weaker J) claim_round (claim_hash w p o)
              (record { at = λ c t j q. (shares_now w p o).at c t j q.0 }) p none).at

        refunds_instead :
            Does w J Unsigned
              (take_refund p o.hash >>= λ ending. pure (some ending))
              (λ early c. is_some {A = Ending} early ≡ false → Presigned c)
        refunds_instead =
            ends_refunded Unsigned (λ c h q. none_of c.x (false_of h.x_after q.1)) Presigned

    pub presign_step-Does :
        Does w J
          (HasSeen w p o)
          (presign_step p o.hash (claim_hash w p o))
          (λ early c. is_some early ≡ false → Presigned c)
    unfolding presign_step
    presign_step-Does = Spec-getting w J J _ _ λ presigned.
        Spec-if w J J presigned _ _ (λ e. Spec-pure w J J _ λ c q _. (q.0, q.1 ∙ e))
          λ e. Spec-weaken w J J _ commit_claim-Does (λ c q. (q.0, q.1 ∙ e)) (λ a c q. q) (λ c q. q)

    pub stored_presig-Does :
        Does w J Presigned (stored_presig p (claim_hash w p o)) (λ _. Presigned)
    unfolding stored_presig
    stored_presig-Does = and_then_does w J (search steady_rules) λ presigned.
        Spec-on_option w J J presigned _ _
          (λ _.
            Spec-if w J J p.has_wire _ _
              (λ _.
                Spec-bind w J J _ _
                  (Spec-weaken w J J _
                    (adaptor_presign_role-Steady w J J (weaker J) claim_round (claim_hash w p o)
                      (shares_now w p o) p none).at
                    (λ c q. q.0) (λ a c q. q) (λ c q. tt))
                  λ pre.
                    Spec-bind w J J _ _ {Q = λ _. Presigned}
                      (Spec-puts w J J (weaker J) _ (signs pre)) λ _. Spec-pure w J J _ λ c q. q)
              λ _. Spec-raise w J J _ λ c q. tt)
          λ pre _. Spec-pure w J J _ λ c q. q
