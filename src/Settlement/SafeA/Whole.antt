-- ===== src/Settlement/SafeA/Whole.antt =====
-- A's invariant through runA and refundNow.
use near_instant.Common.{◌≡◌, ap, true, false, Option}
use near_instant.Settlement.Types.{World, Party, Core, Open, Run, Ending}
use near_instant.Settlement.Exec.{Exec, Outcome, returns, raises, dies, pure, on_option}
use near_instant.Settlement.Exec.Rules.{Assert, After}
use near_instant.Settlement.Exec.Does.{Any, Does}
use near_instant.Settlement.Exec.Steadiness.{Holds}
use near_instant.Settlement.Exec.Specs.{
  Spec-bind, Spec-pure, Spec-on_option, Spec-weaken, Spec-asking,
}
use near_instant.Settlement.Refunds.{is_some, refund_now}
use near_instant.Settlement.SideA.{run_a_presigned, run_a_opened, run_a}
use near_instant.Settlement.Trail.{AllMeet}
use near_instant.Settlement.Guard.{IsOpened, co_open-Does, ensure_refund-Does}
use near_instant.Settlement.SafeA.{MayA, InOrder, KeepsA}
use near_instant.Settlement.SafeA.Keeping.{Guard-a, claim_hash}
use near_instant.Settlement.SafeA.Refunding.{refund_now-Does}
use near_instant.Settlement.SafeA.Seeing.{
  Presigned, fund_step-Does, see_lock-Does, presign_step-Does, stored_presig-Does,
}
use near_instant.Settlement.SafeA.Sweeping.{KnowsX, learn_x-Does, sweep_step-Does, finish_a-Does}

module _ (w : World) (p : Party) where
  abbrev J : Assert
  J = KeepsA w p

  -- A step that may end the run, and what follows it.
  unless_ended :
      (P : Core → Type 0) (early : Option Ending) (rest : Exec Ending)
      → Does w J P rest (λ _. Any)
      → Does w J
          (λ c. is_some early ≡ false → P c)
          (on_option early rest (λ ending. pure ending))
          (λ _. Any)
  unless_ended P early rest h =
      Spec-on_option w J J early _ _
        (λ e. Spec-weaken w J J _ h (λ c q. q (ap is_some e)) (λ a c q. q) (λ c q. q))
        λ ending _. Spec-pure w J J _ λ c q. tt

  run_a_presigned-Does :
      (o : Open)
      → Does w J (Presigned w p o) (run_a_presigned p o.hash (claim_hash w p o)) (λ _. Any)
  unfolding run_a_presigned
  run_a_presigned-Does o = Spec-bind w J J _ _ (stored_presig-Does w p o) λ pre.
      Spec-bind w J J _ _ (learn_x-Does w p o pre) λ early.
        unless_ended (KnowsX w p) early _
          (Spec-bind w J J _ _ (sweep_step-Does w p) λ _. finish_a-Does w p)

  run_a_opened-Does : (o : Open) → Does w J (IsOpened o) (run_a_opened p o.hash) (λ _. Any)
  unfolding run_a_opened
  run_a_opened-Does o = Spec-bind w J J _ _ (ensure_refund-Does w p true J (Guard-a w p) o) λ _.
      Spec-bind w J J _ _ (see_lock-Does w p o) λ early. Spec-asking w J J _ _ (
        unless_ended _ early _ (
          Spec-bind w J J _ _ (presign_step-Does w p o)
            λ refunded. unless_ended _ refunded _ (run_a_presigned-Does o)))

  run_a-Does : Does w J Any (run_a p) (λ _. Any)
  unfolding run_a
  run_a-Does =
      Spec-bind w J J _ _ (fund_step-Does w p)
        λ _. Spec-bind w J J _ _ (co_open-Does w p true J (Guard-a w p)) run_a_opened-Does

  after_run :
      (r : Outcome Ending × Run) → After J (Holds J Any) (λ _. Holds J Any) r → J r.1.core r.1.trace
  after_run (returns a, s) h = h.0
  after_run (raises e, s) h = h.0
  after_run (dies, s) h = h

-- In a run of A from a store whose steps are in order, whatever the nodes, the peer and the clock do
-- and wherever the process ends, the steps stay in order and every effect is one that A may have: it
-- funds only with no funding on record; its share of the claim goes only to the block that pays the
-- peer, with the checked refund in the store and the lock seen; it refunds only while the peer's share
-- is not known, and sweeps only with the secret made of that share; it never locks or claims.
pub run_a-safe :
    (w : World) (p : Party) (s : Run)
    → InOrder w p s.core
    → AllMeet (MayA w p) s.trace
    → InOrder w p (run_a p w s).1.core × AllMeet (MayA w p) (run_a p w s).1.trace
run_a-safe w p s ok trace =
    after_run w p (run_a p w s) ((run_a-Does w p).at s (ok, trace) ((ok, trace), tt))

-- The manual refund keeps to the same conditions.
pub refund_now-safe :
    (w : World) (p : Party) (s : Run)
    → InOrder w p s.core
    → AllMeet (MayA w p) s.trace
    → InOrder w p (refund_now p w s).1.core × AllMeet (MayA w p) (refund_now p w s).1.trace
refund_now-safe w p s ok trace =
    after_run w p (refund_now p w s) ((refund_now-Does w p).at s (ok, trace) ((ok, trace), tt))
