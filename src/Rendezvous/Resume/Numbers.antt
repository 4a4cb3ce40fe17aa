-- ===== src/Rendezvous/Resume/Numbers.antt =====
-- The numbers of a party's channels, and the bytes that are hashed for them: stepSalt and stepWire of
-- web/two_party.js.
use mathlib.Core.Path.{subst}
use near_instant.Common.{
  ℕ, ◌+◌, ◌≤◌, ◌<◌, ◌≡◌, ◌≢◌, refl, ap, sym, List, [], ◌∷◌, ◌++◌, some, Bool-cases, inl, inr, All,
  arith,
}
use near_instant.Common.Texts.{same_text, same_text-eq, same_text_refl}
use near_instant.Common.Decimal.{decimal, decimal-inj, decimal-IsDigit, IsDigit}
use near_instant.Mailbox.{Crypto}
use near_instant.Mailbox.Slots.{first_of, rest_of, append-cancel}
use near_instant.Rendezvous.Types.{Text}
use near_instant.Rendezvous.Resume.{
  resume_tag, salt_bytes, Counters, set_counter, Resume, my_attempt, step_wire,
}

-- A text without a colon.
abbrev pub IsPlain : Text → Type 0
IsPlain = All (λ c. c ≢ 58)

plain_fronts :
    (xs ys us vs : Text)
    → IsPlain xs
    → IsPlain ys
    → xs ++ 58 ∷ us ≡ ys ++ 58 ∷ vs
    → (xs ≡ ys) × (us ≡ vs)
unfolding first_of rest_of
plain_fronts [] [] us vs px py e = (refl, ap rest_of e)
plain_fronts [] (y ∷ ys) us vs px py e = absurd (py.0 (sym (ap first_of e)))
plain_fronts (x ∷ xs) [] us vs px py e = absurd (px.0 (ap first_of e))
plain_fronts (x ∷ xs) (y ∷ ys) us vs px py e =
    let h = plain_fronts xs ys us vs px.1 py.1 (ap rest_of e) in (cc (ap first_of e, h.0), h.1)

digits-IsPlain : (ds : Text) → All IsDigit ds → IsPlain ds
digits-IsPlain [] h = tt
digits-IsPlain (d ∷ ds) h = (λ e. omega arith, digits-IsPlain ds h.1)

-- What is hashed for a step's channel tells the step, the attempt and the secret.
pub salt_bytes-binds :
    (s s' : List ℕ) (step step' : Text) (a a' : ℕ)
    → IsPlain step
    → IsPlain step'
    → salt_bytes s step a ≡ salt_bytes s' step' a'
    → (step ≡ step') × (a ≡ a') × (s ≡ s')
unfolding salt_bytes
salt_bytes-binds s s' step step' a a' p p' e =
    let tail = append-cancel resume_tag _ _ e in
    let h = plain_fronts step step' _ _ p p' tail in
    let g =
      plain_fronts (decimal a) (decimal a') s s' (digits-IsPlain _ (decimal-IsDigit a))
        (digits-IsPlain _ (decimal-IsDigit a')) h.1 in
    (h.0, decimal-inj a a' g.0, g.1)

-- The step and the attempt of each channel that a party opens.
unfoldable pub numbers : Crypto → Resume → List Text → List (Text × ℕ)
unfolding step_wire
numbers c r [] = []
numbers c r (step ∷ steps) = (step, my_attempt r step) ∷ numbers c (step_wire c r step).0 steps

module _ (c : Crypto) (r : Resume) where
  abbrev pub with_store : Counters → Resume
  with_store counters = record r { store = some counters }

  le-set_counter :
      (counters : Counters) (step other : Text)
      → counters other ≤ set_counter counters step (counters step + 1) other
  le-set_counter counters step other = elim (Bool-cases (same_text other step)) [
    | inl same ↦ rw same (omega (arith, ap counters (same_text-eq other step same)))
    | inr differs ↦ rw differs (omega arith)
  ]

  abbrev Above : Counters → Text × ℕ → Type 0
  Above counters opened = counters opened.0 < opened.1

  Above-weaken :
      (f g : Counters)
      → ((step : Text) → f step ≤ g step)
      → (l : List (Text × ℕ)) → All (Above g) l
      → All (Above f) l
  Above-weaken f g h [] k = tt
  Above-weaken f g h (o ∷ l) k = (omega (arith, h o.0, k.0), Above-weaken f g h l k.1)

  numbers-Above :
      (steps : List Text) (counters : Counters)
      → All (Above counters) (numbers c (with_store counters) steps)
  unfolding numbers my_attempt
  numbers-Above [] counters = tt
  numbers-Above (step ∷ steps) counters = (
    omega arith,
    Above-weaken counters (set_counter counters step (counters step + 1))
        (le-set_counter counters step) _
        (numbers-Above steps (set_counter counters step (counters step + 1))),
  )

  numbers-IsPlain :
      (steps : List Text) (counters : Counters)
      → All IsPlain steps
      → All (λ (o : Text × ℕ). IsPlain o.0) (numbers c (with_store counters) steps)
  unfolding numbers my_attempt
  numbers-IsPlain [] counters h = tt
  numbers-IsPlain (step ∷ steps) counters h =
      (h.0, numbers-IsPlain steps (set_counter counters step (counters step + 1)) h.1)

  -- The bytes that are hashed for two openings differ.
  abbrev pub SaltsDiffer : Text × ℕ → Text × ℕ → Type 0
  SaltsDiffer o o' = salt_bytes r.shared o.0 o.1 ≢ salt_bytes r.shared o'.0 o'.1

  abbrev pub AreDistinct : List (Text × ℕ) → Type 0
  AreDistinct [] = Unit {0}
  AreDistinct (o ∷ l) = All (SaltsDiffer o) l × AreDistinct l

  first-SaltsDiffer :
      (counters : Counters) (step : Text) (n : ℕ) (l : List (Text × ℕ))
      → IsPlain step
      → All (λ (o : Text × ℕ). IsPlain o.0) l
      → All (Above (set_counter counters step n)) l
      → All (SaltsDiffer (step, n)) l
  first-SaltsDiffer counters step n [] plain h k = tt
  first-SaltsDiffer counters step n (o ∷ l) plain h k = (
    λ e.
        let (same, number, rest) = salt_bytes-binds r.shared r.shared step o.0 n o.1 plain h.0 e in
        let at : set_counter counters step n step < o.1 =
          subst (λ t. set_counter counters step n t < o.1) (sym same) k.0 in
        let reads : set_counter counters step n step ≡ n = rw (same_text_refl step) in omega arith,
    first-SaltsDiffer counters step n l plain h.1 k.1,
  )

  pub numbers-AreDistinct :
      (steps : List Text) (counters : Counters)
      → All IsPlain steps
      → AreDistinct (numbers c (with_store counters) steps)
  unfolding numbers my_attempt
  numbers-AreDistinct [] counters h = tt
  numbers-AreDistinct (step ∷ steps) counters h =
      let after = set_counter counters step (counters step + 1) in
      (
        first-SaltsDiffer counters step (counters step + 1) (numbers c (with_store after) steps) h.0
            (numbers-IsPlain steps after h.1) (numbers-Above steps after),
        numbers-AreDistinct steps after h.1,
      )
