-- ===== src/Settlement/Guard.antt =====
-- The steps that both sides take, up to the refund, under the laws that a side's invariant gives.
use near_instant.Common.{
  arith, ℕ, zero, suc, ◌≡◌, refl, sym, ◌∙◌, Bool, true, false, Option, none, some,
}
use mathlib.Core.Option.{some-injective}
use mathlib.Core.Path.{subst}
use near_instant.Settlement.Types.{
  World, Party, Core, Open, Refund, checked, opens, shares, open_round, refund_round,
}
use near_instant.Settlement.Exec.Rules.{Triple-pure, Trace, Assert}
use near_instant.Settlement.Exec.Does.{Any, Does, and_then_does, weaker}
use near_instant.Settlement.Exec.Steadiness.{Allows, Steady, steady_rules}
use near_instant.Settlement.Exec.Specs.{
  Spec-checking, Spec-bind, Spec-if, Spec-pure, Spec-raise, Spec-puts, Spec-on_option, Spec-asking,
  Spec-getting, Spec-weaken,
}
use near_instant.Settlement.Steady.{
  broadcast-Steady, gate_here-Steady, joint_sign_role-Steady, adaptor_presign_role-Steady,
}
use near_instant.Settlement.Signing.{co_sign_refund_role}
use near_instant.Settlement.Opening.{gate_funding, wait_funding, sign_open, co_open, fund_and_open}
use near_instant.Settlement.Refunds.{is_some}
use near_instant.Settlement.SideB.{ensure_refund}
use near_instant.Settlement.Trail.{RefundOk, IsSecured, RefundFor}

pub none_of : {A : Type 0} (m : Option A) → is_some m ≡ false → m ≡ none
none_of none e = refl
none_of (some a) e = absurd (ground arith)

abbrev pub IsOpened : Open → Core → Type 0
IsOpened o c = c.open_block ≡ some o

-- What a side's invariant allows and keeps.
pub record Guard (w : World) (p : Party) (broadcasts : Bool) (J : Assert) : Type 1 where
  pub checks : (P : Core → Type 0) (b : Bool) → Allows J P (checked b)
  pub signs_open : (P : Core → Type 0) (n : ℕ) → Allows J P (shares open_round n)
  pub broadcasts_open : (P : Core → Type 0) (n : ℕ) → broadcasts ≡ true → Allows J P (opens n)
  pub signs_refund : (o : Open) (n : ℕ) → Allows J (IsOpened o) (shares refund_round n)
  pub has_refund : (c : Core) (t : Trace) → J c t → RefundOk w p c
  pub opens_first :
      (c : Core) (t : Trace) (o : Open)
      → J c t
      → c.open_block ≡ none
      → J (record c { open_block = some o }) t
  pub refund_first :
      (c : Core) (t : Trace) (r : Refund)
      → J c t
      → RefundOk w p (record c { refund = some r })
      → J (record c { refund = some r }) t

-- Without an open block there is no refund.
pub first_open :
    (w : World) (p : Party) (c : Core)
    → c.open_block ≡ none
    → RefundOk w p c
    → (o : Option Open) → RefundOk w p (record c { open_block = o })
first_open w p c e ok o = record {
  at = λ r q. let (o', (x, good)) = ok.at r q in absurd (grind arith);
}

module _ (w : World) (p : Party) (broadcasts : Bool) (J : Assert) (g : Guard w p broadcasts J) where
  module _ {P : Core → Type 0} where
    gate_funding-Steady : (n : ℕ) → Steady w J J P (gate_funding p broadcasts n)
    unfolding gate_funding
    gate_funding-Steady n = search (steady_rules, gate_here-Steady, weaker J, g.checks) depth 20

    wait_funding-Steady :
        (n deadline round : ℕ) → Steady w J J P (wait_funding n p broadcasts deadline round)
    unfolding wait_funding
    wait_funding-Steady zero deadline round = search steady_rules
    wait_funding-Steady (suc n) deadline round =
        search (steady_rules, gate_funding-Steady, wait_funding-Steady n) depth 20

    sign_open-Steady : (funding : ℕ × ℕ) → Steady w J J P (sign_open p broadcasts funding)
    unfolding sign_open
    sign_open-Steady (send_hash, amount) =
        search
          (
            steady_rules,
            joint_sign_role-Steady,
            weaker J,
            broadcast-Steady,
            g.signs_open,
            g.broadcasts_open,
          )
          depth 20

    fund_and_open-Steady : Steady w J J P (fund_and_open p broadcasts)
    unfolding fund_and_open
    fund_and_open-Steady = search (steady_rules, wait_funding-Steady, sign_open-Steady) depth 20

  pub co_open-Does : Does w J Any (co_open p broadcasts) (λ o c. c.open_block ≡ some o)
  unfolding co_open
  co_open-Does = Spec-getting w J J _ _ λ cached.
      Spec-on_option w J J cached _ _
        (λ e. and_then_does w J fund_and_open-Steady λ opened.
          Spec-bind w J J _ _ {Q = λ _ c. c.open_block ≡ some opened}
            (Spec-puts w J J (weaker J) _ λ c t j q. (g.opens_first c t opened j (q.1 ∙ e), refl))
            λ _. Spec-pure w J J opened λ c q. q)
        λ o e. Spec-pure w J J o λ c q. q.1 ∙ e

  module _ (o : Open) where
    co_sign_refund_role-Does :
        Does w J
          (IsOpened o)
          (co_sign_refund_role p o.hash)
          (λ r c. IsOpened o c × RefundFor w p o r)
    unfolding co_sign_refund_role
    co_sign_refund_role-Does = Spec-asking w J J _ _ (
        Spec-on_option w J J p.ta _ _ (λ _. Spec-raise w J J _ λ c q. tt)
          λ ta _.
            and_then_does w J (search (adaptor_presign_role-Steady, weaker J, g.signs_refund))
              λ pre.
                Spec-checking w J J _ _ _
                  (λ e. Spec-pure w J J _ λ c q.
                    (q, record { follows = refl; pays_back = refl; block = refl; checks = e }))
                  λ _. Spec-raise w J J _ λ c q. tt)

    IsSecured-of :
        (c : Core) (m : Option Refund)
        → RefundOk w p c
        → IsOpened o c
        → c.refund ≡ m
        → is_some m ≡ true
        → IsSecured w p o c
    IsSecured-of c none ok opened e held = absurd (grind arith)
    IsSecured-of c (some r) ok opened e held =
        let (o', (at, good)) = ok.at r e in
        record {
          refund = r;
          at_open = opened;
          at_refund = e;
          good = subst (λ x. RefundFor w p x r) (some-injective _ _ (sym at ∙ opened)) good;
        }

    ok_of :
        (c : Core) (r : Refund)
        → IsOpened o c
        → c.refund ≡ some r
        → RefundFor w p o r
        → RefundOk w p c
    ok_of c r opened e good = record {
      at = λ r' e'. (o, (opened, subst (RefundFor w p o) (some-injective _ _ (sym e ∙ e')) good));
    }

    pub ensure_refund-Does : Does w J (IsOpened o) (ensure_refund p o.hash) (λ _. IsSecured w p o)
    unfolding ensure_refund
    ensure_refund-Does = Spec-getting w J J _ _ λ held.
        Spec-if w J J held _ _
          (λ e.
            Triple-pure w J tt λ c t j q.
              (q.0, IsSecured-of c c.refund (g.has_refund c t q.0) q.1.0 refl (q.1.1 ∙ e)))
          λ _.
            Spec-bind w J J _ _
              (Spec-weaken w J J _ co_sign_refund_role-Does (λ c q. q.0) (λ a c q. q) (λ c q. tt))
              λ r. Spec-puts w J J (weaker J) _ λ c t j q.
                let d : Core = record c { refund = some r } in
                (
                  g.refund_first c t r j (ok_of d r q.0 refl q.1),
                  record { refund = r; at_open = q.0; at_refund = refl; good = q.1 },
                )
