-- ===== src/Settlement/Exec/Steadiness.antt =====
-- Specifications by what the store needs and keeps, beside an invariant of store and trace, and rules
-- for actions that keep what is known of the store.
use near_instant.Common.{ℕ, ◌≡◌, refl, Bool, true, false, ◌∷◌, Option, none, some, if◌then◌else◌}
use near_instant.Settlement.Types.{Answer, World, Core, Effect, Reason}
use near_instant.Settlement.Exec.{
  Exec, pure, raise, die, asks, gets, reads, call, attempt, tell, on_option, ◌>>=◌,
}
use near_instant.Settlement.Exec.Rules.{
  Trace, Assert, Triple, Triple-pure, Triple-raise, Triple-die, Triple-asks, Triple-gets,
  Triple-reads, Triple-call, Triple-attempt, Triple-tell, Triple-bind,
}

abbrev pub Holds : Assert → (Core → Type 0) → Assert
Holds J P c t = J c t × P c

-- From `P`, the action returns with `Q` and throws with `E`.
abbrev pub Spec :
    World
    → Assert
    → Assert
    → {A : Type 0} → (Core → Type 0)
    → Exec A
    → (A → Core → Type 0)
    → (Core → Type 0)
    → Type 0
Spec w I J P m Q E = Triple w I (Holds J E) (Holds J P) m (λ a. Holds J (Q a))

-- The effect may happen in such a store.
pub record Allows (J : Assert) (P : Core → Type 0) (e : Effect) : Type 0 where
  pub at : (c : Core) (t : Trace) → J c t → P c → J c ((e, c) ∷ t)

-- The action keeps what is known of the store.
pub record Steady (w : World) (I J : Assert) (P : Core → Type 0) {A : Type 0} (m : Exec A)
    : Type 0 where
  pub at : Spec w I J P m (λ a. P) P

module _ (w : World) (I J : Assert) {P : Core → Type 0} where
  module _ {A : Type 0} where
    pub Steady-pure : (a : A) → Steady w I J P (pure a)
    Steady-pure a = record { at = Triple-pure w I a λ c t i h. h }

    pub Steady-raise : (e : Reason) → Steady w I J P (raise {A = A} e)
    Steady-raise e = record { at = Triple-raise w I e λ c t i h. h }

    pub Steady-die : Steady w I J P (die {A = A})
    Steady-die = record { at = Triple-die w I }

    pub Steady-asks : (f : World → A) → Steady w I J P (asks f)
    Steady-asks f = record { at = Triple-asks w I f λ c t i h. h }

    pub Steady-gets : (f : Core → A) → Steady w I J P (gets f)
    Steady-gets f = record { at = Triple-gets w I f λ c t i h. h }

    pub Steady-reads : (f : World → ℕ → A) → Steady w I J P (reads f)
    Steady-reads f = record { at = Triple-reads w I f λ a c t i h. h }

    pub Steady-call : (f : World → ℕ → Answer A) → Steady w I J P (call f)
    Steady-call f = record { at = Triple-call w I f (λ c t i h. h) (λ a c t i h. h) }

    pub Steady-attempt : (m : Exec A) → Steady w I J P m → Steady w I J P (attempt m)
    Steady-attempt m h = record { at = Triple-attempt w I m h.at (λ a c t i q. q) (λ c t i q. q) }

    pub Steady-if :
        (b : Bool) (m n : Exec A)
        → (b ≡ true → Steady w I J P m)
        → (b ≡ false → Steady w I J P n)
        → Steady w I J P (if b then m else n)
    Steady-if true m n hm hn = hm refl
    Steady-if false m n hm hn = hn refl

  module _ {A B : Type 0} where
    pub Steady-on_option :
        (o : Option A) (m : Exec B) (f : A → Exec B)
        → Steady w I J P m
        → ((a : A) → Steady w I J P (f a))
        → Steady w I J P (on_option o m f)
    unfolding on_option
    Steady-on_option none m f hm hf = hm
    Steady-on_option (some a) m f hm hf = hf a

    pub Steady-bind :
        (m : Exec A) (f : A → Exec B)
        → Steady w I J P m
        → ((a : A) → Steady w I J P (f a))
        → Steady w I J P (m >>= f)
    Steady-bind m f hm hf = record { at = Triple-bind w I m f hm.at (λ a. (hf a).at) }

  pub Steady-asking :
      {A B : Type 0} (f : World → A) (k : A → Exec B)
      → Steady w I J P (k (f w))
      → Steady w I J P (asks f >>= k)
  unfolding asks ◌>>=◌
  Steady-asking f k h = record { at = record { at = h.at.at } }

  pub Steady-tell :
      (e : Effect)
      → ((c : Core) (t : Trace) → J c t → I c t)
      → Allows J P e
      → Steady w I J P (tell e)
  Steady-tell e weaker keep = record {
    at =
        Triple-tell w I e
          λ c t i p. let kept = keep.at c t p.0 p.1 in (weaker c _ kept, (kept, p.1));
  }

pub ruleset steady_rules = (
  Steady-pure, Steady-raise, Steady-die, Steady-asks, Steady-gets, Steady-reads, Steady-call,
  Steady-attempt, Steady-if, Steady-on_option, Steady-bind, Steady-tell,
)
