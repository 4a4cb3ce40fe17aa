-- ===== src/Settlement/SafeB/Whole.antt =====
-- B's invariant through runB.
use near_instant.Common.{false, Option, none, some}
use near_instant.Certify.{Certificate}
use near_instant.Settlement.Types.{
  Realized, complete, declined_for, World, Party, Open, Run, Reason, gone, Ending,
}
use near_instant.Settlement.Exec.{
  pure, puts, on_option, Outcome, returns, raises, dies, ◌>>=◌, ◌>>◌,
}
use near_instant.Settlement.Exec.Rules.{After}
use near_instant.Settlement.Exec.Steadiness.{Holds}
use near_instant.Settlement.Exec.Specs.{Spec-bind, Spec-pure, Spec-raise, Spec-puts, Spec-catch}
use near_instant.Settlement.SideB.{
  claim_step, Landed, claim_landed, refund_landed, finish_b, run_b_opened, decline_b, run_b,
}
use near_instant.Settlement.Trail.{RefundOk, AllMeet}
use near_instant.Settlement.SafeB.{MayB, KeepsB}
use near_instant.Settlement.Exec.Does.{Any, Does, weaker}
use near_instant.Settlement.Guard.{IsOpened, co_open-Does, ensure_refund-Does}
use near_instant.Settlement.SafeB.Keeping.{Guard-b}
use near_instant.Settlement.SafeB.Locking.{Settled, resume_guard-Does, lock_xmr-Does}
use near_instant.Settlement.SafeB.Claiming.{claim_step-Does}

module _ (w : World) (p : Party) where
  realizes :
      (o : Open) (r : Realized)
      → Does w
          (KeepsB w p)
          Any
          (puts (λ c. record c { realized = some r }) >> pure (complete r))
          (λ _. Any)
  realizes o r =
      Spec-bind w (KeepsB w p) (KeepsB w p) _ _ {Q = λ _. Any}
        (Spec-puts w (KeepsB w p) (KeepsB w p) (weaker (KeepsB w p)) _
          λ c t j q. ((record { at = j.0.at }, j.1), tt))
        λ _. Spec-pure w (KeepsB w p) (KeepsB w p) _ λ c q. q

  finish_b-Does :
      (o : Open) (landed : Option Landed) → Does w (KeepsB w p) Any (finish_b p o landed) (λ _. Any)
  unfolding finish_b
  finish_b-Does o none = realizes o _
  finish_b-Does o (some claim_landed) = realizes o _
  finish_b-Does o (some refund_landed) = Spec-pure w (KeepsB w p) (KeepsB w p) _ λ c q. q

  run_b_opened-Does : (o : Open) → Does w (KeepsB w p) (IsOpened o) (run_b_opened p o) (λ _. Any)
  unfolding run_b_opened on_option
  run_b_opened-Does o =
      Spec-bind w (KeepsB w p) (KeepsB w p) _ _
        (ensure_refund-Does w p false (KeepsB w p) (Guard-b w p) o)
        λ _. Spec-bind w (KeepsB w p) (KeepsB w p) _ _ (resume_guard-Does w p o) λ _.
          Spec-bind w (KeepsB w p) (KeepsB w p) _ _ (lock_xmr-Does w p o) λ refusal. settled refusal
    where
      settled :
          (m : Option Certificate)
          → Does w
              (KeepsB w p)
              (Settled w p o m)
              (on_option m
                (do landed ← claim_step p o.hash; finish_b p o landed)
                (λ cert. pure (declined_for cert)))
              (λ _. Any)
      settled none =
          Spec-bind w (KeepsB w p) (KeepsB w p) _ _ (claim_step-Does w p o) (finish_b-Does o)
      settled (some cert) = Spec-pure w (KeepsB w p) (KeepsB w p) _ λ c q. q

  decline_b-Does : (e : Reason) → Does w (KeepsB w p) Any (decline_b e) (λ _. Any)
  unfolding decline_b
  decline_b-Does (gone cert) =
      Spec-bind w (KeepsB w p) (KeepsB w p) _ _ {Q = λ _. Any}
        (Spec-puts w (KeepsB w p) (KeepsB w p) (weaker (KeepsB w p)) _
          λ c t j q. ((record { at = j.0.at }, j.1), tt))
        λ _. Spec-pure w (KeepsB w p) (KeepsB w p) _ λ c q. q
  decline_b-Does _ = Spec-raise w (KeepsB w p) (KeepsB w p) _ λ c q. q

  run_b-Does : Does w (KeepsB w p) Any (run_b p) (λ _. Any)
  unfolding run_b
  run_b-Does =
      Spec-catch w (KeepsB w p) (KeepsB w p) _ _ _
        (co_open-Does w p false (KeepsB w p) (Guard-b w p)) run_b_opened-Does decline_b-Does

  -- The store and the trace that a run leaves are what the rules keep.
  after_run :
      (r : Outcome Ending × Run)
      → After (KeepsB w p) (Holds (KeepsB w p) Any) (λ _. Holds (KeepsB w p) Any) r
      → KeepsB w p r.1.core r.1.trace
  after_run (returns a, s) h = h.0
  after_run (raises e, s) h = h.0
  after_run (dies, s) h = h

-- In a run of B from a store whose refund is for the open block, whatever the nodes, the peer and the
-- clock do and wherever the process ends, every effect is one that B may have: the lock only with the
-- opened XNO and the checked refund in the store, no lock on record, and a gate that has just passed;
-- the share of the claim and the claim only with a lock entry in the store, which is a lock that was
-- sent or one that the resume guard skipped because the joint account had moved; never a funding or a
-- refund.
pub run_b-safe :
    (w : World) (p : Party) (s : Run)
    → RefundOk w p s.core
    → AllMeet (MayB w p) s.trace
    → RefundOk w p (run_b p w s).1.core × AllMeet (MayB w p) (run_b p w s).1.trace
run_b-safe w p s ok trace =
    after_run w p (run_b p w s) ((run_b-Does w p).at s (ok, trace) ((ok, trace), tt))
