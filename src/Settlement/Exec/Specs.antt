-- ===== src/Settlement/Exec/Specs.antt =====
-- Rules for actions that may change what is known of the store: `J` is an invariant of the store and
-- the trace, and wherever the process may end, `I` holds.
use near_instant.Common.{◌≡◌, refl, Bool, true, false, Option, none, some, if◌then◌else◌}
use near_instant.Settlement.Types.{World, Core, Effect, Reason}
use near_instant.Settlement.Exec.{
  Exec, pure, raise, asks, gets, attempt, puts, tell, catch, on_option, ◌>>=◌,
}
use near_instant.Settlement.Exec.Rules.{
  Trace, Assert, Triple-pure, Triple-raise, Triple-asks, Triple-gets, Triple-attempt, Triple-puts,
  Triple-tell, Triple-bind, Triple-catch, Triple-if, Triple-weaken,
}
use near_instant.Settlement.Exec.Steadiness.{Spec, Allows, Steady}

module _ (w : World) (I J : Assert) where
  module _ {A : Type 0} where
    -- Once the store's part is known to be `k`, it stays so.
    pub Spec-pure :
        (a : A) {P E : Core → Type 0} {Q : A → Core → Type 0}
        → ((c : Core) → P c → Q a c)
        → Spec w I J P (pure a) Q E
    Spec-pure a h = Triple-pure w I a λ c t i p. (p.0, h c p.1)

    pub Spec-raise :
        (e : Reason) {P E : Core → Type 0} {Q : A → Core → Type 0}
        → ((c : Core) → P c → E c)
        → Spec w I J P (raise e) Q E
    Spec-raise e h = Triple-raise w I e λ c t i p. (p.0, h c p.1)

    pub Spec-gets :
        (f : Core → A) {P E : Core → Type 0} {Q : A → Core → Type 0}
        → ((c : Core) → P c → Q (f c) c)
        → Spec w I J P (gets f) Q E
    Spec-gets f h = Triple-gets w I f λ c t i p. (p.0, h c p.1)

    pub Spec-asks :
        (f : World → A) {P E : Core → Type 0} {Q : A → Core → Type 0}
        → ((c : Core) → P c → Q (f w) c)
        → Spec w I J P (asks f) Q E
    Spec-asks f h = Triple-asks w I f λ c t i p. (p.0, h c p.1)

    pub Spec-weaken :
        (m : Exec A) {P P' E E' : Core → Type 0} {Q Q' : A → Core → Type 0}
        → Spec w I J P m Q E
        → ((c : Core) → P' c → P c)
        → ((a : A) (c : Core) → Q a c → Q' a c)
        → ((c : Core) → E c → E' c)
        → Spec w I J P' m Q' E'
    Spec-weaken m h before after on_throw =
        Triple-weaken w I m h (λ c t i p. (p.0, before c p.1)) (λ a c t i q. (q.0, after a c q.1))
          (λ c t i e. (e.0, on_throw c e.1))

    -- A steady action keeps what is needed for the return and for a throw.
    pub Spec-steady :
        (m : Exec A) {P E : Core → Type 0}
        → Steady w I J P m
        → ((c : Core) → P c → E c)
        → Spec w I J P m (λ a. P) E
    Spec-steady m {P} h e = Spec-weaken m h.at (λ c p. p) (λ a c q. q) e

    pub Spec-if :
        (b : Bool) (m n : Exec A) {P E : Core → Type 0} {Q : A → Core → Type 0}
        → (b ≡ true → Spec w I J P m Q E)
        → (b ≡ false → Spec w I J P n Q E)
        → Spec w I J P (if b then m else n) Q E
    Spec-if b m n hm hn = Triple-if w I b m n hm hn

    pub Spec-attempt :
        (m : Exec A) {P E E' : Core → Type 0} {Q : A → Core → Type 0} {R : Option A → Core → Type 0}
        → Spec w I J P m Q E'
        → ((a : A) (c : Core) → Q a c → R (some a) c)
        → ((c : Core) → E' c → R none c)
        → Spec w I J P (attempt m) R E
    Spec-attempt m h q e =
        Triple-attempt w I m h (λ a c t i p. (p.0, q a c p.1)) (λ c t i p. (p.0, e c p.1))

  module _ {A : Type 0} where
    -- A check decides.
    pub Spec-checking :
        (f : World → Bool) (m n : Exec A) {P E : Core → Type 0} {R : A → Core → Type 0}
        → (f w ≡ true → Spec w I J P m R E)
        → (f w ≡ false → Spec w I J P n R E)
        → Spec w I J P (asks f >>= λ b. if b then m else n) R E
    unfolding asks ◌>>=◌
    Spec-checking f m n hm hn = record { at = (Spec-if (f w) m n hm hn).at }

  module _ {A B : Type 0} where
    pub Spec-bind :
        (m : Exec A) (f : A → Exec B) {P E : Core → Type 0} {Q : A → Core → Type 0}
        {R : B → Core → Type 0}
        → Spec w I J P m Q E
        → ((a : A) → Spec w I J (Q a) (f a) R E)
        → Spec w I J P (m >>= f) R E
    Spec-bind m f hm hf = Triple-bind w I m f hm hf

    -- What is asked is known.
    pub Spec-asking :
        (f : World → A) (k : A → Exec B) {P E : Core → Type 0} {R : B → Core → Type 0}
        → Spec w I J P (k (f w)) R E
        → Spec w I J P (asks f >>= k) R E
    unfolding asks ◌>>=◌
    Spec-asking f k h = record { at = h.at }

    -- What is read is what the store has.
    pub Spec-getting :
        (f : Core → A) (k : A → Exec B) {P E : Core → Type 0} {R : B → Core → Type 0}
        → ((a : A) → Spec w I J (λ c. P c × (f c ≡ a)) (k a) R E)
        → Spec w I J P (gets f >>= k) R E
    unfolding gets ◌>>=◌
    Spec-getting f k h = record { at = λ s i p. (h (f s.core)).at s i (p.0, (p.1, refl)) }

    pub Spec-on_option :
        (o : Option A) (m : Exec B) (f : A → Exec B) {P E : Core → Type 0} {R : B → Core → Type 0}
        → (o ≡ none → Spec w I J P m R E)
        → ((a : A) → o ≡ some a → Spec w I J P (f a) R E)
        → Spec w I J P (on_option o m f) R E
    unfolding on_option
    Spec-on_option none m f hm hf = hm refl
    Spec-on_option (some a) m f hm hf = hf a refl

    pub Spec-catch :
        (m : Exec A) (f : A → Exec B) (g : Reason → Exec B) {P E E' : Core → Type 0}
        {Q : A → Core → Type 0} {R : B → Core → Type 0}
        → Spec w I J P m Q E'
        → ((a : A) → Spec w I J (Q a) (f a) R E)
        → ((e : Reason) → Spec w I J E' (g e) R E)
        → Spec w I J P (catch m f g) R E
    Spec-catch m f g hm hf hg = Triple-catch w I m f g hm hf hg

  module _ (weaker : (c : Core) (t : Trace) → J c t → I c t) where
    pub Spec-tell :
        (e : Effect) {P E : Core → Type 0} → Allows J P e → Spec w I J P (tell e) (λ _. P) E
    Spec-tell e keep =
        Triple-tell w I e
          λ c t i p. let kept = keep.at c t p.0 p.1 in (weaker c _ kept, (kept, p.1))

    pub Spec-puts :
        (f : Core → Core) {P E : Core → Type 0} {Q : Unit {0} → Core → Type 0}
        → ((c : Core) (t : Trace) → J c t → P c → J (f c) t × Q tt (f c))
        → Spec w I J P (puts f) Q E
    Spec-puts f keep =
        Triple-puts w I f λ c t i p. let kept = keep c t p.0 p.1 in (weaker _ t kept.0, kept)
