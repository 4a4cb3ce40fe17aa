-- ===== src/Settlement/SafeB/Locking.antt =====
-- B's invariant through the resume guard and the lock.
use near_instant.Common.{with_default, ℕ, ◌≡◌, refl, ◌∙◌, ap, ◌∷◌, true, false, Option, none, some}
use near_instant.Certify.{Certificate}
use near_instant.Settlement.Types.{World, Party, Core, Open, locks, locked, Lock, skipped}
use near_instant.Settlement.Exec.Rules.{
  Trace, Triple, Triple-pure, Triple-bind, Triple-tell, Triple-puts, Triple-weaken, Triple-if,
}
use near_instant.Settlement.Exec.Steadiness.{Holds, Allows, Steady, steady_rules}
use near_instant.Settlement.Exec.Specs.{Spec-if, Spec-pure, Spec-puts, Spec-getting}
use near_instant.Settlement.Steady.{read_height-Steady, gate_on-Steady}
use near_instant.Settlement.Calls.{gate_here}
use near_instant.Settlement.Refunds.{is_some}
use near_instant.Settlement.SideB.{account_moved, resume_guard, send_lock, lock_xmr}
use near_instant.Settlement.Trail.{RefundOk, and_then, IsSecured, last_verdict}
use near_instant.Settlement.SafeB.{locks_secured, locked_any, KeepsB}
use near_instant.Settlement.Exec.Does.{Any, Does, and_then_does, weaker}
use near_instant.Settlement.Guard.{none_of}
use near_instant.Settlement.SafeB.Keeping.{Guard-b}

module _ (w : World) (p : Party) (o : Open) where
  -- Secured, with an entry for the lock.
  abbrev pub IsLocked : Core → Type 0
  IsLocked c = IsSecured w p o c × (is_some c.lock ≡ true)

  account_moved-Steady :
      (n : ℕ) {P : Core → Type 0} → Steady w (KeepsB w p) (KeepsB w p) P (account_moved n)
  unfolding account_moved
  account_moved-Steady n = search steady_rules

  -- An entry for the lock changes nothing else.
  enters : (l : Lock) (c : Core) → IsSecured w p o c → IsLocked (record c { lock = some l })
  enters l c h = (
    record { refund = h.refund; at_open = h.at_open; at_refund = h.at_refund; good = h.good },
    refl,
  )

  enters_ok : (l : Option Lock) (c : Core) → RefundOk w p c → RefundOk w p (record c { lock = l })
  enters_ok l c h = record { at = h.at }

  pub resume_guard-Does :
      Does w (KeepsB w p) (IsSecured w p o) (resume_guard o.hash) (λ _. IsSecured w p o)
  unfolding resume_guard
  resume_guard-Does = Spec-getting w (KeepsB w p) (KeepsB w p) _ _ λ held.
      Spec-if w (KeepsB w p) (KeepsB w p) held _ _
        (λ _. Spec-pure w (KeepsB w p) (KeepsB w p) tt λ c q. q.0)
        λ _. and_then_does w (KeepsB w p) (search (steady_rules, account_moved-Steady)) λ moved.
          Spec-if w (KeepsB w p) (KeepsB w p) (with_default moved false) _ _
            (λ _.
              Spec-puts w (KeepsB w p) (KeepsB w p) (weaker (KeepsB w p)) _
                λ c t j q. ((enters_ok (some skipped) c j.0, j.1), (enters skipped c q.0).0))
            λ _. Spec-pure w (KeepsB w p) (KeepsB w p) tt λ c q. q.0

  -- After the gate, its verdict is the last one.
  gate_here-Verdict :
      (P : Core → Type 0)
      → Triple w
          (KeepsB w p)
          (Holds (KeepsB w p) Any)
          (Holds (KeepsB w p) P)
          (gate_here p)
          (λ cert c t. Holds (KeepsB w p) P c t × (last_verdict t ≡ some cert.is_ok))
  unfolding gate_here last_verdict
  gate_here-Verdict P = and_then_does w (KeepsB w p) (search steady_rules) λ priced.
      and_then_does w (KeepsB w p) (search steady_rules) λ answer.
        and_then_does w (KeepsB w p) (search (gate_on-Steady)) λ cert.
          Triple-bind w (KeepsB w p) _ _
            {Q = λ _ c t. Holds (KeepsB w p) P c t × (last_verdict t ≡ some cert.is_ok)}
            (Triple-tell w (KeepsB w p) _ λ c t j q.
              let kept = ((Guard-b w p).checks P cert.is_ok).at c t j q.1 in
              (kept, ((kept, q.1), refl)))
            λ _. Triple-pure w (KeepsB w p) cert λ c t j q. q

  abbrev IsReady : Core → Type 0
  IsReady c = IsSecured w p o c × (c.lock ≡ none)

  locks_now :
      (c : Core) (t : Trace)
      → KeepsB w p c t
      → IsReady c
      → last_verdict t ≡ some true
      → KeepsB w p c ((locks, c) ∷ t)
  locks_now c t j q e = (j.0, and_then (locks_secured o c t q.0 q.1 e) j.1)

  locked_now : Allows (KeepsB w p) IsReady locked
  locked_now = record { at = λ c t j q. (j.0, and_then (locked_any c t) j.1) }

  send_lock-Does :
      Triple w
        (KeepsB w p)
        (Holds (KeepsB w p) Any)
        (λ c t. Holds (KeepsB w p) IsReady c t × (last_verdict t ≡ some true))
        send_lock
        (λ _. Holds (KeepsB w p) IsLocked)
  unfolding send_lock
  send_lock-Does =
      Triple-bind w (KeepsB w p) _ _ {Q = λ _. Holds (KeepsB w p) IsReady}
        (Triple-tell w (KeepsB w p) _
          λ c t j q. let kept = locks_now c t j q.0.1 q.1 in (kept, (kept, q.0.1)))
        λ _. and_then_does w (KeepsB w p) (search steady_rules) λ tx.
          and_then_does w (KeepsB w p) (search (steady_rules, weaker (KeepsB w p), locked_now)) λ _.
            and_then_does w (KeepsB w p) (search (steady_rules, read_height-Steady)) λ height.
              Spec-puts w (KeepsB w p) (KeepsB w p) (weaker (KeepsB w p)) _
                λ c t j q. ((enters_ok _ c j.0, j.1), enters _ c q.0)

  -- With no reason to decline, the lock is on record.
  abbrev pub Settled : Option Certificate → Core → Type 0
  Settled none = IsLocked
  Settled (some cert) = Any

  pub lock_xmr-Does : Does w (KeepsB w p) (IsSecured w p o) (lock_xmr p) Settled
  unfolding lock_xmr
  lock_xmr-Does = Spec-getting w (KeepsB w p) (KeepsB w p) _ _ λ done.
      Spec-if w (KeepsB w p) (KeepsB w p) done _ _
        (λ e. Spec-pure w (KeepsB w p) (KeepsB w p) none λ c q. (q.0, q.1 ∙ e))
        λ e.
          Triple-bind w (KeepsB w p) _ _
            (Triple-weaken w (KeepsB w p) _ (gate_here-Verdict IsReady)
              (λ c t j q. (q.0, (q.1.0, none_of c.lock (q.1.1 ∙ e)))) (λ a c t j q. q)
              (λ c t j q. q))
            λ cert.
              Triple-if w (KeepsB w p) cert.is_ok _ _
                (λ passed.
                  Triple-bind w (KeepsB w p) _ _
                    (Triple-weaken w (KeepsB w p) _ send_lock-Does
                      (λ c t j q. (q.0, q.1 ∙ ap some passed)) (λ a c t j q. q) (λ c t j q. q))
                    λ _. Spec-pure w (KeepsB w p) (KeepsB w p) none λ c q. q)
                λ _.
                  Triple-bind w (KeepsB w p) _ _ {Q = λ _. Holds (KeepsB w p) Any}
                    (Triple-puts w (KeepsB w p) _ λ c t j q.
                      let kept : KeepsB w p (record c { declined = some cert }) t =
                        (record { at = j.0.at }, j.1) in
                      (kept, (kept, tt)))
                    λ _. Spec-pure w (KeepsB w p) (KeepsB w p) (some cert) λ c q. tt
