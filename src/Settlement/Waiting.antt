-- ===== src/Settlement/Waiting.antt =====
-- What waitJointXmrLock of web/two_party.js returns.
use near_instant.Common.{
  arith, leb→le, max, ℕ, zero, suc, ◌+◌, ◌-◌, ◌≤◌, ◌≡◌, refl, ◌∙◌, ap, Bool, true, false, List, [],
  ◌∷◌, Option, none, some, leb, ltb, if◌then◌else◌,
}
use mathlib.Core.Path.{subst}
use near_instant.Settlement.Types.{checked, World, Party, Core, Answer, got, Hit, Run}
use near_instant.Settlement.Exec.{
  Exec, Outcome, returns, raises, dies, continue, outcome, pure, call, asks, on_option, ◌>>=◌, ◌>>◌,
}
use near_instant.Settlement.Exec.Rules.{Triple-die, Assert, After}
use near_instant.Settlement.Exec.Does.{Any, Does, and_then_does, weaker}
use near_instant.Settlement.Exec.Steadiness.{Holds, Allows, steady_rules}
use near_instant.Settlement.Exec.Specs.{Spec-bind, Spec-if, Spec-pure, Spec-on_option}
use near_instant.Settlement.Steady.{scan_chunk-Steady, still_waits-Steady}
use near_instant.Settlement.Lock.{
  Wait, first_hit, scan_window, scan_from, look_for, still_waits, wait_loop, wait_joint_xmr_lock,
}
use near_instant.Settlement.Scanning.{span, Scans, scan_window_lem}

-- Of every store and trace.
abbrev always : Assert
always c t = Unit {0}

-- A known output is large enough.
abbrev Enough : ℕ → Option Hit → Type 0
Enough least none = Unit {0}
Enough least (some hit) = least ≤ hit.amount

-- What the wait answers is large enough and deep enough.
abbrev Deep : Wait → Option (Hit × ℕ) → Type 0
Deep q none = Unit {0}
Deep q (some (hit, tip)) = (q.least ≤ hit.amount) × (hit.block + q.conf ≤ tip)

first_hit-Enough : (least : ℕ) (outs : List Hit) → Enough least (first_hit least outs)
unfolding first_hit
first_hit-Enough least [] = tt
first_hit-Enough least (o ∷ os) = chosen (leb least o.amount) refl (first_hit-Enough least os)
  where
    chosen :
        (b : Bool)
        → leb least o.amount ≡ b
        → Enough least (first_hit least os)
        → Enough least (if b then some o else first_hit least os)
    chosen true e later = leb→le least o.amount e
    chosen false e later = later

module _ (w : World) (p : Party) where
  checks : (P : Core → Type 0) (b : Bool) → Allows always P (checked b)
  checks P b = record { at = λ c t j q. tt }

  scan_window-Does :
      (fuel least from tip : ℕ)
      → Does w always Any (scan_window fuel least from tip) (λ o _. Enough least o)
  unfolding scan_window
  scan_window-Does zero least from tip = Spec-pure w always always _ λ c q. tt
  scan_window-Does (suc fuel) least from tip =
      Spec-if w always always (ltb from tip) _ _
        (λ _. and_then_does w always (search (scan_chunk-Steady)) λ outs.
          Spec-on_option w always always (first_hit least outs) _ _
            (λ _. scan_window-Does fuel least (from + 10) tip)
            λ hit e.
              Spec-pure w always always _
                λ c q. subst (Enough least) e (first_hit-Enough least outs))
        λ _. Spec-pure w always always _ λ c q. tt

  -- A fact that holds is at hand.
  given :
      {A : Type 0} (X : Type 0) (m : Exec A) {Q : A → Core → Type 0}
      → (X → Does w always Any m Q)
      → Does w always (λ _. X) m Q
  given X m h = record { at = λ s i p. (h p.1).at s i (p.0, tt) }

  look_for-Does :
      (q : Wait) (known : Option Hit) (tip : ℕ)
      → Enough q.least known
      → Does w always Any (look_for q known tip) (λ o _. Enough q.least o)
  unfolding look_for
  look_for-Does q none tip h = scan_window-Does _ _ _ _
  look_for-Does q (some hit) tip h = Spec-pure w always always _ λ c q. h

  -- A round that finds nothing deep enough, and the next.
  goes_on :
      (n : ℕ) (q : Wait) (o : Option Hit) (tip : ℕ)
      → Does w always Any (wait_loop n p q o tip) (λ r _. Deep q r)
      → Does w always Any
          (still_waits p q o >>= λ going.
            if going then (call (λ w. w.pause) >> wait_loop n p q o tip) else pure none)
          (λ r _. Deep q r)
  goes_on n q o tip next =
      and_then_does w always (search (still_waits-Steady, weaker always, checks)) λ going.
        Spec-if w always always going _ _
          (λ _. and_then_does w always (search steady_rules) λ _. next)
          λ _. Spec-pure w always always _ λ c q. tt

  wait_loop-Does :
      (n : ℕ) (q : Wait) (known : Option Hit) (tip_max : ℕ)
      → Enough q.least known
      → Does w always Any (wait_loop n p q known tip_max) (λ r _. Deep q r)
  unfolding wait_loop
  wait_loop-Does zero q known tip_max h = Triple-die w always
  wait_loop-Does (suc n) q known tip_max h = and_then_does w always (search steady_rules) λ read.
      Spec-bind w always always _ _ (look_for-Does q known (max read tip_max) h) λ hit.
        given (Enough q.least hit) _ λ enough.
          Spec-on_option w always always hit _ _
            (λ _.
              goes_on n q none (max read tip_max) (wait_loop-Does n q none (max read tip_max) tt))
            λ found e.
              Spec-if w always always (leb (found.block + q.conf) (max read tip_max)) _ _
                (λ deep.
                  Spec-pure w always always _
                    λ c _. (subst (Enough q.least) e enough, leb→le _ _ deep))
                λ _. goes_on n q (some found) (max read tip_max) (
                  wait_loop-Does n q (some found) (max read tip_max)
                    (subst (Enough q.least) e enough))

  wait_joint_xmr_lock-Does :
      (q : Wait) → Does w always Any (wait_joint_xmr_lock p q) (λ r _. Deep q r)
  unfolding wait_joint_xmr_lock
  wait_joint_xmr_lock-Does q =
      and_then_does w always (search steady_rules) λ _.
        and_then_does w always (search steady_rules) λ rounds. wait_loop-Does rounds q none 0 tt

  abbrev Answers : Wait → Outcome (Option (Hit × ℕ)) → Type 0
  Answers q (returns found) = Deep q found
  Answers q other = Unit {0}

  answered :
      (q : Wait) (r : Outcome (Option (Hit × ℕ)) × Run)
      → After always (Holds always Any) (λ a. Holds always (λ _. Deep q a)) r
      → Answers q r.0
  answered q (returns a, s) h = h.1.1
  answered q (raises x, s) h = tt
  answered q (dies, s) h = tt

-- Whatever the node answers, an output that the wait returns is as large as asked and, at the highest
-- tip that was read, as deep as asked.
pub wait_joint_xmr_lock-deep :
    (w : World) (p : Party) (q : Wait) (s : Run) (hit : Hit) (tip : ℕ)
    → (wait_joint_xmr_lock p q w s).0 ≡ returns (some (hit, tip))
    → (q.least ≤ hit.amount) × (hit.block + q.conf ≤ tip)
wait_joint_xmr_lock-deep w p q s hit tip e = subst (Answers w p q) e (
    answered w p q (wait_joint_xmr_lock p q w s)
      ((wait_joint_xmr_lock-Does w p q).at s tt (tt, tt)))

-- The node is up and its tip stays.
pub record AtTip (w : World) (outs : ℕ → List Hit) (tip : ℕ) : Type 0 where
  pub connects : (t : ℕ) → w.connect t ≡ got tt
  pub heights : (t : ℕ) → w.height t ≡ got tip
  pub scans : Scans w outs

-- An action that returns, and one that goes on from what it returned.
returns_then :
    {A B : Type 0} (w : World) (m : Exec A) (f : A → Exec B) (s : Run) (a : A) (r : Outcome B)
    → (m w s).0 ≡ returns a
    → ((s' : Run) → (f a w s').0 ≡ r)
    → ((m >>= f) w s).0 ≡ r
unfolding ◌>>=◌ continue
returns_then w m f s a r e next = ap (λ o. (continue o f w (m w s).1).0) e ∙ next (m w s).1

le→leb : (a b : ℕ) → a ≤ b → leb a b ≡ true
le→leb a b h = ground arith

call-got :
    {A : Type 0} (w : World) (f : World → ℕ → Answer A) (s : Run) (a : A)
    → f w s.tick ≡ got a
    → (call f w s).0 ≡ returns a
unfolding call outcome
call-got w f s a e = ap outcome e

module _ (w : World) (p : Party) (q : Wait) (outs : ℕ → List Hit) (tip : ℕ) (hit : Hit)
    (node : AtTip w outs tip) where
  first_round :
      (left : ℕ) (s : Run)
      → first_hit q.least
          (span outs (scan_from q.since q.lookback tip) (tip - scan_from q.since q.lookback tip))
        ≡ some hit
      → hit.block + q.conf ≤ tip
      → (wait_loop (suc left) p q none 0 w s).0 ≡ returns (some (hit, tip))
  unfolding wait_loop look_for on_option pure
  first_round left s found deep =
      returns_then w _ _ s tip _ (call-got w (λ w. w.height) s tip (node.heights s.tick)) λ s'.
        returns_then w _ _ s' (some hit) _
          (ap (λ n. (scan_window (suc n) q.least (scan_from q.since q.lookback n) n w s').0) top
            ∙ scan_window_lem (suc tip) q.least (scan_from q.since q.lookback tip) tip w outs s'
                (omega arith) node.scans
            ∙ ap returns found)
          λ s''. rw (now_deep, top)
    where
      top : max tip 0 ≡ tip
      top = omega arith

      now_deep : leb (hit.block + q.conf) (max tip 0) ≡ true
      now_deep = le→leb (hit.block + q.conf) (max tip 0) (omega arith)

-- When the node answers and the first large enough output of the scanned blocks is deep enough, the
-- wait returns it in its first round, without asking for the time or the price.
pub wait_joint_xmr_lock-found :
    (w : World) (p : Party) (q : Wait) (s : Run) (outs : ℕ → List Hit) (tip left : ℕ) (hit : Hit)
    → AtTip w outs tip
    → w.rounds ≡ suc left
    → first_hit q.least
        (span outs (scan_from q.since q.lookback tip) (tip - scan_from q.since q.lookback tip))
      ≡ some hit
    → hit.block + q.conf ≤ tip
    → (wait_joint_xmr_lock p q w s).0 ≡ returns (some (hit, tip))
unfolding wait_joint_xmr_lock asks
wait_joint_xmr_lock-found w p q s outs tip left hit node rounds found deep =
    returns_then w _ _ s tt _ (call-got w (λ w. w.connect) s tt (node.connects s.tick)) λ s'.
      returns_then w _ _ s' w.rounds _ refl λ s''.
        ap (λ n. (wait_loop n p q none 0 w s'').0) rounds
        ∙ first_round w p q outs tip hit node left s'' found deep
