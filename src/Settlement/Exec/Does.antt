-- ===== src/Settlement/Exec/Does.antt =====
-- Specifications under one invariant for every moment, where any throw is fine.
use near_instant.Settlement.Types.{World, Core}
use near_instant.Settlement.Exec.{Exec, ◌>>=◌}
use near_instant.Settlement.Exec.Rules.{Trace, Assert, Triple, Triple-bind}
use near_instant.Settlement.Exec.Steadiness.{Holds, Spec, Steady}
use near_instant.Settlement.Exec.Specs.{Spec-steady}

abbrev pub Any : Core → Type 0
Any c = Unit {0}

module _ (w : World) (J : Assert) where
  abbrev pub Does : {A : Type 0} → (Core → Type 0) → Exec A → (A → Core → Type 0) → Type 0
  Does P m Q = Spec w J J P m Q Any

  module _ {A : Type 0} {P : Core → Type 0} where
    pub steadily : {m : Exec A} → Steady w J J P m → Does P m (λ a. P)
    steadily h = Spec-steady w J J _ h λ c q. tt

    pub and_then_does :
        {B : Type 0} {m : Exec A} {f : A → Exec B} {R : B → Assert}
        → Steady w J J P m
        → ((a : A) → Triple w J (Holds J Any) (Holds J P) (f a) R)
        → Triple w J (Holds J Any) (Holds J P) (m >>= f) R
    and_then_does h k = Triple-bind w J _ _ (steadily h) k

pub weaker : (J : Assert) (c : Core) (t : Trace) → J c t → J c t
weaker J c t h = h
