-- ===== src/Settlement/Exec/Rules.antt =====
-- Rules for what a run guarantees: at its return, at a throw, and wherever the process may end.
use near_instant.Common.{
  ℕ, ◌+◌, ◌≡◌, refl, Bool, true, false, List, ◌∷◌, Option, none, some, if◌then◌else◌,
}
use near_instant.Settlement.Types.{Answer, got, threw, crashed, World, Core, Effect, Run, Reason}
use near_instant.Settlement.Exec.{
  outcome, caught, continue, handle, Exec, Outcome, returns, raises, dies, pure, raise, die, asks,
  gets, reads, call, attempt, puts, tell, catch, ◌>>=◌,
}

abbrev pub Trace : Type 0
Trace = List (Effect × Core)

-- What is known of the store and of the trace.
abbrev pub Assert : Type 1
Assert = Core → Trace → Type 0

-- The guarantees after each way in which an action ends.
abbrev pub After : {A : Type 0} → Assert → Assert → (A → Assert) → Outcome A × Run → Type 0
After I E Q (returns a, s) = I s.core s.trace × Q a s.core s.trace
After I E Q (raises e, s) = I s.core s.trace × E s.core s.trace
After I E Q (dies, s) = I s.core s.trace

-- In the world `w`, an action that starts under `P` keeps `I` wherever it stops, returns under `Q`
-- and throws under `E`.
pub record Triple (w : World) (I E P : Assert) {A : Type 0} (m : Exec A) (Q : A → Assert)
    : Type 0 where
  pub at : (s : Run) → I s.core s.trace → P s.core s.trace → After I E Q (m w s)

module _ (I : Assert) where
  After-weaken :
      {A : Type 0} {Q R : A → Assert} {E E' : Assert}
      → ((a : A) (c : Core) (t : Trace) → I c t → Q a c t → R a c t)
      → ((c : Core) (t : Trace) → I c t → E c t → E' c t)
      → (r : Outcome A × Run) → After I E Q r
      → After I E' R r
  After-weaken q e (returns a, s) h = (h.0, q a s.core s.trace h.0 h.1)
  After-weaken q e (raises x, s) h = (h.0, e s.core s.trace h.0 h.1)
  After-weaken q e (dies, s) h = h

module _ (w : World) (I : Assert) where
  module _ {A : Type 0} {E P : Assert} where
    pub Triple-pure :
        (a : A) {Q : A → Assert}
        → ((c : Core) (t : Trace) → I c t → P c t → Q a c t)
        → Triple w I E P (pure a) Q
    unfolding pure
    Triple-pure a h = record { at = λ s i p. (i, h s.core s.trace i p) }

    pub Triple-raise :
        (e : Reason) {Q : A → Assert}
        → ((c : Core) (t : Trace) → I c t → P c t → E c t)
        → Triple w I E P (raise {A = A} e) Q
    unfolding raise
    Triple-raise e h = record { at = λ s i p. (i, h s.core s.trace i p) }

    pub Triple-die : {Q : A → Assert} → Triple w I E P (die {A = A}) Q
    unfolding die
    Triple-die = record { at = λ s i p. i }

    pub Triple-asks :
        (f : World → A) {Q : A → Assert}
        → ((c : Core) (t : Trace) → I c t → P c t → Q (f w) c t)
        → Triple w I E P (asks f) Q
    unfolding asks
    Triple-asks f h = record { at = λ s i p. (i, h s.core s.trace i p) }

    pub Triple-gets :
        (f : Core → A) {Q : A → Assert}
        → ((c : Core) (t : Trace) → I c t → P c t → Q (f c) c t)
        → Triple w I E P (gets f) Q
    unfolding gets
    Triple-gets f h = record { at = λ s i p. (i, h s.core s.trace i p) }

    -- A premise that holds by itself is found first.
    pub Triple-use :
        (m : Exec A) {P' : Assert} {Q : A → Assert}
        → Triple w I E P' m Q
        → ((c : Core) (t : Trace) → I c t → P c t → P' c t)
        → Triple w I E P m Q
    Triple-use m h use_it = record { at = λ s i p. h.at s i (use_it s.core s.trace i p) }

    pub Triple-if :
        (b : Bool) (m n : Exec A) {Q : A → Assert}
        → (b ≡ true → Triple w I E P m Q)
        → (b ≡ false → Triple w I E P n Q)
        → Triple w I E P (if b then m else n) Q
    Triple-if true m n hm hn = hm refl
    Triple-if false m n hm hn = hn refl

    pub Triple-weaken :
        (m : Exec A) {P' E' : Assert} {Q R : A → Assert}
        → Triple w I E P' m Q
        → ((c : Core) (t : Trace) → I c t → P c t → P' c t)
        → ((a : A) (c : Core) (t : Trace) → I c t → Q a c t → R a c t)
        → ((c : Core) (t : Trace) → I c t → E c t → E' c t)
        → Triple w I E' P m R
    Triple-weaken m h before after on_throw = record {
      at = λ s i p. After-weaken I after on_throw (m w s) (h.at s i (before s.core s.trace i p));
    }

    pub Triple-reads :
        (f : World → ℕ → A) {Q : A → Assert}
        → ((a : A) (c : Core) (t : Trace) → I c t → P c t → Q a c t)
        → Triple w I E P (reads f) Q
    unfolding reads
    Triple-reads f h = record { at = λ s i p. (i, h (f w s.tick) s.core s.trace i p) }

    -- A call may return anything, throw, or be the last.
    pub Triple-call :
        (f : World → ℕ → Answer A) {Q : A → Assert}
        → ((c : Core) (t : Trace) → I c t → P c t → E c t)
        → ((a : A) (c : Core) (t : Trace) → I c t → P c t → Q a c t)
        → Triple w I E P (call f) Q
    unfolding call
    Triple-call f {Q} e q = record { at = λ s i p. answered s i p (f w s.tick) }
      where
        answered :
            (s : Run)
            → I s.core s.trace
            → P s.core s.trace
            → (a : Answer A) → After I E Q (outcome a, record s { tick = s.tick + 1 })
        answered s i p (got a) = (i, q a s.core s.trace i p)
        answered s i p threw = (i, e s.core s.trace i p)
        answered s i p crashed = i

    -- What holds after `try`: the return's, or the throw's.
    pub Triple-attempt :
        (m : Exec A) {Q : A → Assert} {E' : Assert} {R : Option A → Assert}
        → Triple w I E' P m Q
        → ((a : A) (c : Core) (t : Trace) → I c t → Q a c t → R (some a) c t)
        → ((c : Core) (t : Trace) → I c t → E' c t → R none c t)
        → Triple w I E P (attempt m) R
    unfolding attempt
    Triple-attempt m {Q} {E'} {R} h q e = record { at = λ s i p. tried (m w s) (h.at s i p) }
      where
        tried : (r : Outcome A × Run) → After I E' Q r → After I E R (caught r.0, r.1)
        tried (returns a, s) (i, p) = (i, q a s.core s.trace i p)
        tried (raises x, s) (i, p) = (i, e s.core s.trace i p)
        tried (dies, s) i = i

  module _ {E P : Assert} where
    pub Triple-puts :
        (f : Core → Core) {Q : Unit {0} → Assert}
        → ((c : Core) (t : Trace) → I c t → P c t → I (f c) t × Q tt (f c) t)
        → Triple w I E P (puts f) Q
    unfolding puts
    Triple-puts f h = record { at = λ s i p. h s.core s.trace i p }

    pub Triple-tell :
        (e : Effect) {Q : Unit {0} → Assert}
        → ((c : Core) (t : Trace) → I c t → P c t → I c ((e, c) ∷ t) × Q tt c ((e, c) ∷ t))
        → Triple w I E P (tell e) Q
    unfolding tell
    Triple-tell e h = record { at = λ s i p. h s.core s.trace i p }

  module _ {A B : Type 0} {E P : Assert} where
    pub Triple-bind :
        (m : Exec A) (f : A → Exec B) {Q : A → Assert} {R : B → Assert}
        → Triple w I E P m Q
        → ((a : A) → Triple w I E (Q a) (f a) R)
        → Triple w I E P (m >>= f) R
    unfolding ◌>>=◌
    Triple-bind m f {Q} {R} hm hf = record { at = λ s i p. next (m w s) (hm.at s i p) }
      where
        next : (r : Outcome A × Run) → After I E Q r → After I E R (continue r.0 f w r.1)
        next (returns a, s) (i, p) = (hf a).at s i p
        next (raises x, s) h = h
        next (dies, s) h = h

    pub Triple-catch :
        (m : Exec A) (f : A → Exec B) (g : Reason → Exec B) {Q : A → Assert} {E' : Assert}
        {R : B → Assert}
        → Triple w I E' P m Q
        → ((a : A) → Triple w I E (Q a) (f a) R)
        → ((e : Reason) → Triple w I E E' (g e) R)
        → Triple w I E P (catch m f g) R
    unfolding catch
    Triple-catch m f g {Q} {E'} {R} hm hf hg = record { at = λ s i p. next (m w s) (hm.at s i p) }
      where
        next : (r : Outcome A × Run) → After I E' Q r → After I E R (handle r.0 f g w r.1)
        next (returns a, s) (i, p) = (hf a).at s i p
        next (raises x, s) (i, p) = (hg x).at s i p
        next (dies, s) h = h
