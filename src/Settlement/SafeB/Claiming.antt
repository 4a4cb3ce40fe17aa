-- ===== src/Settlement/SafeB/Claiming.antt =====
-- B's invariant through its claim.
use near_instant.Common.{◌==◌, arith, ℕ, ◌≡◌, ap, true, false, some}
use near_instant.Settlement.Types.{World, Party, Core, Open, shares, claims, claim_round}
use near_instant.Settlement.Exec.{pure, ◌>>=◌}
use near_instant.Settlement.Exec.Steadiness.{Allows, steady_rules}
use near_instant.Settlement.Exec.Specs.{
  Spec-bind, Spec-if, Spec-pure, Spec-raise, Spec-puts, Spec-on_option, Spec-weaken, Spec-asking,
  Spec-checking, Spec-catch,
}
use near_instant.Settlement.Steady.{
  pocket_incoming-Steady, adaptor_presign_role-Steady, broadcast-Steady,
}
use near_instant.Settlement.Signing.{send_kind}
use near_instant.Settlement.Refunds.{is_some}
use near_instant.Settlement.SideB.{
  Moved, on_moved, before_claim, claim_signature, broadcast_claim, claim_fallback, make_claim,
  claim_step,
}
use near_instant.Settlement.Trail.{and_then}
use near_instant.Settlement.SafeB.{shares_claim, claims_checked, KeepsB}
use near_instant.Settlement.Exec.Does.{Any, Does, steadily, and_then_does, weaker}
use near_instant.Settlement.SafeB.Locking.{IsLocked}
use near_instant.Settlement.SafeB.Recovering.{
  check_moved-Steady, await_quorum-Steady, await_own_lock-Steady, on_moved-Does,
  watch_from_now-Does,
}

module _ (w : World) (p : Party) where
  module _ (o : Open) where
    before_claim-Does :
        Does w
          (KeepsB w p)
          (IsLocked w p o)
          (before_claim p o.hash)
          (λ early c. is_some early ≡ false → IsLocked w p o c)
    unfolding before_claim
    before_claim-Does = and_then_does w (KeepsB w p) (search (check_moved-Steady)) λ moved.
        Spec-on_option w (KeepsB w p) (KeepsB w p) moved _ _
          (λ _.
            Spec-if w (KeepsB w p) (KeepsB w p) p.has_wire _ _
              (λ _. Spec-pure w (KeepsB w p) (KeepsB w p) _ λ c q _. q)
              λ _.
                Spec-if w (KeepsB w p) (KeepsB w p) p.has_resume _ _
                  (λ _. Spec-pure w (KeepsB w p) (KeepsB w p) _ λ c q _. q)
                  λ _.
                    Spec-bind w (KeepsB w p) (KeepsB w p) _ _
                      (Spec-weaken w (KeepsB w p) (KeepsB w p) _ (watch_from_now-Does w p o.hash)
                        (λ c q. tt) (λ a c q. q) (λ c q. q))
                      λ landed.
                        Spec-on_option w (KeepsB w p) (KeepsB w p) landed _ _
                          (λ _. Spec-raise w (KeepsB w p) (KeepsB w p) _ λ c q. tt)
                          λ l _.
                            Spec-pure w (KeepsB w p) (KeepsB w p) _ λ c q e. absurd (ground arith))
          λ mv _.
            Spec-weaken w (KeepsB w p) (KeepsB w p) _ (early_landing mv) (λ c q. tt) (λ a c q. q)
              (λ c q. q)
      where
        early_landing :
            (mv : Moved)
            → Does w
                (KeepsB w p)
                Any
                (on_moved p mv >>= λ landed. pure (some landed))
                (λ early c. is_some early ≡ false → IsLocked w p o c)
        early_landing mv =
            Spec-bind w (KeepsB w p) (KeepsB w p) _ _ (on_moved-Does w p mv)
              λ l. Spec-pure w (KeepsB w p) (KeepsB w p) _ λ c q e. absurd (ground arith)

    shares_now : (msg : ℕ) → Allows (KeepsB w p) (IsLocked w p o) (shares claim_round msg)
    shares_now msg = record { at = λ c t j q. (j.0, and_then (shares_claim msg o c t q.0 q.1) j.1) }

    -- The block that claims the XNO.
    abbrev claim_hash : ℕ
    claim_hash = w.state_block_hash p.account o.hash 0 p.my_wallet_acct send_kind

    abbrev Signed : ℕ → Core → Type 0
    Signed sig c = IsLocked w p o c × (w.nano_check p.account claim_hash sig ≡ true)

    claim_signature-Does :
        Does w (KeepsB w p) (IsLocked w p o) (claim_signature p claim_hash) Signed
    unfolding claim_signature
    claim_signature-Does =
        and_then_does w (KeepsB w p)
          (search (adaptor_presign_role-Steady, weaker (KeepsB w p), shares_now))
          λ pre. Spec-asking w (KeepsB w p) (KeepsB w p) _ _ (
            Spec-checking w (KeepsB w p) (KeepsB w p) _ _ _
              (λ e. Spec-pure w (KeepsB w p) (KeepsB w p) _ λ c q. (q, e))
              λ _. Spec-raise w (KeepsB w p) (KeepsB w p) _ λ c q. tt)

    claims_now : (sig : ℕ) → Allows (KeepsB w p) (Signed sig) (claims sig)
    claims_now sig = record {
      at = λ c t j q. (j.0, and_then (claims_checked sig o c t q.0.0 q.0.1 q.1) j.1);
    }

    broadcast_claim-Does :
        (sig : ℕ) → Does w (KeepsB w p) (Signed sig) (broadcast_claim sig) (λ _. Any)
    unfolding broadcast_claim
    broadcast_claim-Does sig =
        and_then_does w (KeepsB w p) (search (broadcast-Steady, weaker (KeepsB w p), claims_now))
          λ hash.
            Spec-bind w (KeepsB w p) (KeepsB w p) _ _ {Q = λ _. Any}
              (Spec-puts w (KeepsB w p) (KeepsB w p) (weaker (KeepsB w p)) _
                λ c t j q. ((record { at = j.0.at }, j.1), tt))
              λ _. steadily w (KeepsB w p) (search (steady_rules, pocket_incoming-Steady) depth 20)

    make_claim-Does : Does w (KeepsB w p) (IsLocked w p o) (make_claim p o.hash) (λ _. Any)
    unfolding make_claim claim_fallback
    make_claim-Does = and_then_does w (KeepsB w p) (search (await_own_lock-Steady)) λ _.
        and_then_does w (KeepsB w p) (search (await_quorum-Steady)) λ _.
          Spec-if w (KeepsB w p) (KeepsB w p) (p.my_wallet_acct == 0) _ _
            (λ _. Spec-raise w (KeepsB w p) (KeepsB w p) _ λ c q. tt)
            λ _. Spec-asking w (KeepsB w p) (KeepsB w p) _ _ (
              Spec-catch w (KeepsB w p) (KeepsB w p) _ _ _ claim_signature-Does broadcast_claim-Does
                λ why.
                  Spec-if w (KeepsB w p) (KeepsB w p) p.has_wire _ _
                    (λ _. Spec-raise w (KeepsB w p) (KeepsB w p) _ λ c q. tt)
                    λ _.
                      Spec-bind w (KeepsB w p) (KeepsB w p) _ _ (watch_from_now-Does w p o.hash)
                        λ landed.
                          Spec-on_option w (KeepsB w p) (KeepsB w p) landed _ _
                            (λ _. Spec-raise w (KeepsB w p) (KeepsB w p) _ λ c q. tt)
                            λ l _. Spec-pure w (KeepsB w p) (KeepsB w p) _ λ c q. q)

    pub claim_step-Does : Does w (KeepsB w p) (IsLocked w p o) (claim_step p o.hash) (λ _. Any)
    unfolding claim_step
    claim_step-Does = and_then_does w (KeepsB w p) (search steady_rules) λ claimed.
        Spec-if w (KeepsB w p) (KeepsB w p) claimed _ _
          (λ _. Spec-pure w (KeepsB w p) (KeepsB w p) _ λ c q. tt)
          λ _. Spec-bind w (KeepsB w p) (KeepsB w p) _ _ before_claim-Does λ early.
            Spec-on_option w (KeepsB w p) (KeepsB w p) early _ _
              (λ e.
                Spec-weaken w (KeepsB w p) (KeepsB w p) _ make_claim-Does (λ c q. q (ap is_some e))
                  (λ a c q. q) (λ c q. q))
              λ l _. Spec-pure w (KeepsB w p) (KeepsB w p) _ λ c q. tt
