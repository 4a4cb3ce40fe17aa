-- ===== src/Settlement/SafeA/Refunding.antt =====
-- A's invariant through its refund: take_refund and refund_now.
use near_instant.Common.{arith, ℕ, ◌≡◌, refl, ◌∙◌, false, not, ◌||◌, Option, none, some}
use near_instant.Settlement.Types.{World, Party, Core, Refund, refunds}
use near_instant.Settlement.Exec.Rules.{Assert}
use near_instant.Settlement.Exec.Does.{Any, Does, and_then_does, weaker}
use near_instant.Settlement.Exec.Steadiness.{
  Allows, Spec, Steady, steady_rules, Steady-if, Steady-asking,
}
use near_instant.Settlement.Exec.Specs.{
  Spec-bind, Spec-if, Spec-pure, Spec-raise, Spec-puts, Spec-on_option, Spec-weaken, Spec-getting,
}
use near_instant.Settlement.Steady.{pocket_incoming-Steady, broadcast-Steady, stored_refund-Spec}
use near_instant.Settlement.Refunds.{is_some, broadcast_refund, take_refund, refund_now}
use near_instant.Settlement.Trail.{and_then}
use near_instant.Settlement.SafeA.{InOrder, refunds_own, KeepsA}
use near_instant.Settlement.SafeA.Keeping.{other_entry}

module _ (w : World) (p : Party) where
  abbrev J : Assert
  J = KeepsA w p

  module _ (P : Core → Type 0) (no_x : (c : Core) → InOrder w p c → P c → c.x ≡ none) where
    refunds_now :
        (r : Refund)
        → Allows J
            (λ c. P c × (c.refund ≡ some r))
            (refunds (w.presig_complete r.presig p.my_xmr_share))
    refunds_now r = record {
      at = λ c t j q. (j.0, and_then (refunds_own _ r c t q.1 refl (no_x c j.0 q.0)) j.1);
    }

    broadcast_refund-Steady :
        (opened : ℕ) (r : Refund)
        → Steady w J J (λ c. P c × (c.refund ≡ some r)) (broadcast_refund p opened r)
    unfolding broadcast_refund
    broadcast_refund-Steady opened r =
        Steady-if w J J (not p.role_is_a) _ _ (λ _. search steady_rules)
          λ _. Steady-asking w J J _ _ (
            search (steady_rules, weaker J, broadcast-Steady, pocket_incoming-Steady, refunds_now r)
              depth 20)

    -- Until the entry is made, nothing in the store changes.
    pub take_refund-Spec : (opened : ℕ) → Spec w J J P (take_refund p opened) (λ _. Any) P
    unfolding take_refund
    take_refund-Spec opened = Spec-bind w J J _ _ (stored_refund-Spec w J J) λ r.
        Spec-bind w J J _ _
          (Spec-weaken w J J _ (broadcast_refund-Steady opened r).at (λ c q. q) (λ a c q. q.0)
            (λ c q. q.0))
          λ hash.
            Spec-bind w J J _ _ {Q = λ _. Any}
              (Spec-puts w J J (weaker J) _ λ c t j q. (
                other_entry w p c (record c { refunded = some hash }) t refl refl refl refl refl j,
                tt,
              ))
              λ _. Spec-pure w J J _ λ c q. q

    pub take_refund-Does : (opened : ℕ) → Does w J P (take_refund p opened) (λ _. Any)
    take_refund-Does opened =
        Spec-weaken w J J _ (take_refund-Spec opened) (λ c q. q) (λ a c q. q) (λ c q. tt)

  neither :
      {A B : Type 0} (a : Option A) (b : Option B) → (is_some a || is_some b) ≡ false → a ≡ none
  neither none b e = refl
  neither (some a) b e = absurd (ground arith)

  pub refund_now-Does : Does w J Any (refund_now p) (λ _. Any)
  unfolding refund_now
  refund_now-Does =
      Spec-if w J J (not p.role_is_a) _ _ (λ _. Spec-raise w J J _ λ c q. tt)
        λ _. and_then_does w J (search steady_rules) λ refunded. Spec-getting w J J _ _ λ has_xmr.
          and_then_does w J (search steady_rules) λ opened.
            Spec-if w J J (is_some refunded) _ _ (λ _. Spec-pure w J J _ λ c q. tt)
              λ _.
                Spec-if w J J has_xmr _ _ (λ _. Spec-raise w J J _ λ c q. tt)
                  λ e.
                    Spec-on_option w J J opened _ _ (λ _. Spec-raise w J J _ λ c q. tt)
                      λ o _.
                        take_refund-Does
                          (λ c. Unit {0} × ((is_some c.x || is_some c.sweep) ≡ has_xmr))
                          (λ c j q. neither c.x c.sweep (q.1 ∙ e)) o.hash
