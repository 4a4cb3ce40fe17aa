-- ===== src/Common/Decimal.antt =====
-- Natural numbers as decimal text, in ASCII codes.
use Prim.Native.Nat.{ℕ, zero, suc, ◌+◌, ◌-◌, ◌*◌, ◌/◌, ◌%◌, ◌≤◌, ◌<◌, ◌^◌}
use mathlib.Core.Path.{◌≡◌, refl, sym, ap, ◌∙◌}
use mathlib.Core.Bool.{true}
use mathlib.Core.Logic.{inl, inr}
use mathlib.Core.List.{List, [], ◌∷◌, ◌++◌, foldl}
use native.Mathlib.Omega.{arith}
use native.Mathlib.Nat.{pow-suc}
use near_instant.Common.Tests.{ltb, if◌then◌else◌, Bool-cases}
use near_instant.Common.Lists.{All, length, replicate}

abbrev pub IsDigit : ℕ → Type 0
IsDigit c = (48 ≤ c) × (c ≤ 57)

-- The number that digits spell behind `n`.
abbrev pub value : ℕ → List ℕ → ℕ
value = foldl (λ n c. n * 10 + (c - 48))

digits_onto : ℕ → ℕ → List ℕ → List ℕ
digits_onto zero n acc = acc
digits_onto (suc fuel) n acc =
    let rest = digits_onto fuel (n / 10) ((48 + n % 10) ∷ acc) in
    if ltb n 10 then (48 + n) ∷ acc else rest

-- `String(n)`.
unfoldable pub decimal : ℕ → List ℕ
unfolding digits_onto
decimal n = digits_onto (suc n) n []

value-digits_onto :
    (fuel n : ℕ) (acc : List ℕ) → n < fuel → value 0 (digits_onto fuel n acc) ≡ value n acc
unfolding digits_onto
value-digits_onto zero n acc h = absurd (omega arith)
value-digits_onto (suc fuel) n acc h = elim (Bool-cases (ltb n 10)) [
  | inl small ↦
      let e : 0 * 10 + (48 + n - 48) ≡ n = omega arith in rw small (ap (λ m. value m acc) e)
  | inr large ↦
      let e : n / 10 * 10 + (48 + n % 10 - 48) ≡ n = omega arith in
      rw large (
        value-digits_onto fuel (n / 10) ((48 + n % 10) ∷ acc) (ground arith)
        ∙ ap (λ m. value m acc) e)
]

-- The text of a number spells that number.
pub value-decimal : (n : ℕ) → value 0 (decimal n) ≡ n
unfolding decimal
value-decimal n = value-digits_onto (suc n) n [] (omega arith)

pub decimal-inj : (m n : ℕ) → decimal m ≡ decimal n → m ≡ n
decimal-inj m n e = sym (value-decimal m) ∙ ap (value 0) e ∙ value-decimal n

digits_onto-IsDigit :
    (fuel n : ℕ) (acc : List ℕ) → All IsDigit acc → All IsDigit (digits_onto fuel n acc)
unfolding digits_onto
digits_onto-IsDigit zero n acc h = h
digits_onto-IsDigit (suc fuel) n acc h = elim (Bool-cases (ltb n 10)) [
  | inl small ↦ rw small ((omega arith, ground arith), h)
  | inr large ↦ rw large (digits_onto-IsDigit fuel (n / 10) _ ((omega arith, omega arith), h))
]

pub decimal-IsDigit : (n : ℕ) → All IsDigit (decimal n)
unfolding decimal
decimal-IsDigit n = digits_onto-IsDigit (suc n) n [] tt

digits_onto-cons :
    (fuel n c : ℕ) (acc : List ℕ)
    → (d : ℕ) × (ds : List ℕ) × (digits_onto fuel n (c ∷ acc) ≡ d ∷ ds)
unfolding digits_onto
digits_onto-cons zero n c acc = (c, acc, refl)
digits_onto-cons (suc fuel) n c acc = elim (Bool-cases (ltb n 10)) [
  | inl small ↦ (48 + n, c ∷ acc, rw small refl)
  | inr large ↦ rw large (digits_onto-cons fuel (n / 10) (48 + n % 10) (c ∷ acc))
]

pub decimal-cons : (n : ℕ) → (d : ℕ) × (ds : List ℕ) × (decimal n ≡ d ∷ ds)
unfolding decimal digits_onto
decimal-cons n = elim (Bool-cases (ltb n 10)) [
  | inl small ↦ (48 + n, [], rw small refl)
  | inr large ↦ rw large (digits_onto-cons n (n / 10) (48 + n % 10) [])
]

length-digits_onto :
    (fuel n k : ℕ) (acc : List ℕ)
    → n < 10 ^ suc k
    → length (digits_onto fuel n acc) ≤ suc k + length acc
unfolding digits_onto
length-digits_onto zero n k acc h = omega arith
length-digits_onto (suc fuel) n zero acc h =
    let small : ltb n 10 ≡ true = ground arith in rw small (omega arith)
length-digits_onto (suc fuel) n (suc k) acc h = elim (Bool-cases (ltb n 10)) [
  | inl small ↦ rw small (omega arith)
  | inr large ↦
      let next : n / 10 < 10 ^ suc k = omega (arith, pow-suc 10 (suc k)) in
      rw large (omega (arith, length-digits_onto fuel (n / 10) k ((48 + n % 10) ∷ acc) next))
]

pub length-decimal : (n k : ℕ) → n < 10 ^ suc k → length (decimal n) ≤ suc k
unfolding decimal
length-decimal n k h = omega (arith, length-digits_onto (suc n) n k [] h)

-- What digits spell behind `n`, and behind nothing.
pub value-shift : (n : ℕ) (ds : List ℕ) → value n ds ≡ n * 10 ^ length ds + value 0 ds
value-shift n [] = omega arith
value-shift n (d ∷ ds) =
    let power : 10 ^ suc (length ds) ≡ 10 ^ length ds * 10 = pow-suc 10 (length ds) in
    rw (power, value-shift (n * 10 + (d - 48)) ds, value-shift (0 * 10 + (d - 48)) ds) (grind arith)

pub value-lt : (ds : List ℕ) → All IsDigit ds → value 0 ds < 10 ^ length ds
value-lt [] h = omega arith
value-lt (d ∷ ds) h =
    let power : 10 ^ suc (length ds) ≡ 10 ^ length ds * 10 = pow-suc 10 (length ds) in
    let first : d - 48 ≤ 9 = omega (arith, h.0) in
    rw (power, value-shift (0 * 10 + (d - 48)) ds) (grind (arith, value-lt ds h.1))

pub value-append : (n : ℕ) (xs ys : List ℕ) → value n (xs ++ ys) ≡ value (value n xs) ys
value-append n [] ys = refl
value-append n (x ∷ xs) ys = value-append (n * 10 + (x - 48)) xs ys

pub value-zeros : (k : ℕ) → value 0 (replicate k 48) ≡ 0
value-zeros zero = refl
value-zeros (suc k) = value-zeros k
