-- ===== src/Wallet/Amounts/Digits.antt =====
-- The steps of printing and reading an amount: padding, cutting, trimming, and the digits of a text.
use mathlib.Core.List.{append_assoc}
use near_instant.Common.{
  ℕ, zero, suc, ◌+◌, ◌-◌, ◌≤◌, ◌≡◌, refl, ap, sym, ◌∙◌, true, false, [], ◌∷◌, ◌++◌, ◌==◌, ==_iff,
  Bool-cases, inl, inr, length, take, drop, length-append, length-replicate, All, arith,
}
use near_instant.Common.Decimal.{IsDigit}
use near_instant.Common.Spaces.{is_space}
use near_instant.Wallet.Amounts.{
  Text, zeros, pad_start, pad_end, strip_zeros, is_digit, span_digits, trim_start, trim_end,
  cons_kept, cons_unless_space,
}

-- What is stripped are zeros.
pub strip_zeros-append : (s : Text) → (m : ℕ) × (s ≡ strip_zeros s ++ zeros m)
unfolding strip_zeros
strip_zeros-append [] = (0, refl)
strip_zeros-append (c ∷ cs) = let (m, e) = strip_zeros-append cs in kept c cs (strip_zeros cs) m e
  where
    kept :
        (c : ℕ) (cs rest : Text) (m : ℕ)
        → cs ≡ rest ++ zeros m
        → (k : ℕ) × (c ∷ cs ≡ cons_kept c rest ++ zeros k)
    kept c cs [] m e = elim (Bool-cases (c == 48)) [
      | inl zero_digit ↦ (suc m, rw zero_digit (cc ((==_iff c 48).0 zero_digit, e)))
      | inr other ↦ (m, rw other (ap (λ x. c ∷ x) e))
    ]
    kept c cs (d ∷ ds) m e = (m, ap (λ x. c ∷ x) e)

zeros-append : (j k : ℕ) → zeros j ++ zeros k ≡ zeros (j + k)
zeros-append zero k = let e : k ≡ 0 + k = omega arith in ap zeros e
zeros-append (suc j) k =
    let e : suc (j + k) ≡ suc j + k = omega arith in
    ap (λ x. 48 ∷ x) (zeros-append j k) ∙ ap zeros e

pub length-zeros : (k : ℕ) → length (zeros k) ≡ k
length-zeros k = length-replicate k 48

-- Padding after stripping is padding.
pub pad_end-strip_zeros :
    (n : ℕ) (s : Text) → length s ≤ n → pad_end n (strip_zeros s) ≡ pad_end n s
pad_end-strip_zeros n s h =
    let (m, e) = strip_zeros-append s in
    let core = strip_zeros s in
    let size : length s ≡ length core + m =
      ap length e ∙ length-append core (zeros m) ∙ ap (λ k. length core + k) (length-zeros m) in
    let count : n - length core ≡ m + (n - length s) = omega arith in
    ap (λ k. core ++ zeros k) count
    ∙ ap (λ x. core ++ x) (sym (zeros-append m (n - length s)))
    ∙ sym (append_assoc core (zeros m) (zeros (n - length s)))
    ∙ ap (λ x. x ++ zeros (n - length s)) (sym e)

pub length-pad_start : (n : ℕ) (s : Text) → length s ≤ n → length (pad_start n s) ≡ n
length-pad_start n s h =
    omega (arith, length-append (zeros (n - length s)) s, length-zeros (n - length s))

pub take-drop : (k : ℕ) (s : Text) → s ≡ take k s ++ drop k s
take-drop zero s = refl
take-drop (suc k) [] = refl
take-drop (suc k) (c ∷ cs) = ap (λ x. c ∷ x) (take-drop k cs)

pub length-take : (k : ℕ) (s : Text) → k ≤ length s → length (take k s) ≡ k
length-take zero s h = refl
length-take (suc k) [] h = absurd (omega arith)
length-take (suc k) (c ∷ cs) h = omega (arith, length-take k cs (omega arith))

pub take_all : (n : ℕ) (s : Text) → length s ≡ n → take n s ≡ s
take_all zero [] h = refl
take_all zero (c ∷ cs) h = absurd (omega arith)
take_all (suc n) [] h = refl
take_all (suc n) (c ∷ cs) h = ap (λ x. c ∷ x) (take_all n cs (omega arith))

pub zeros-IsDigit : (k : ℕ) → All IsDigit (zeros k)
zeros-IsDigit zero = tt
zeros-IsDigit (suc k) = ((omega arith, omega arith), zeros-IsDigit k)

pub take-IsDigit : (k : ℕ) (s : Text) → All IsDigit s → All IsDigit (take k s)
take-IsDigit zero s h = tt
take-IsDigit (suc k) [] h = tt
take-IsDigit (suc k) (c ∷ cs) h = (h.0, take-IsDigit k cs h.1)

pub drop-IsDigit : (k : ℕ) (s : Text) → All IsDigit s → All IsDigit (drop k s)
drop-IsDigit zero s h = h
drop-IsDigit (suc k) [] h = tt
drop-IsDigit (suc k) (c ∷ cs) h = drop-IsDigit k cs h.1

pub strip_zeros-IsDigit : (s : Text) → All IsDigit s → All IsDigit (strip_zeros s)
unfolding strip_zeros
strip_zeros-IsDigit [] h = tt
strip_zeros-IsDigit (c ∷ cs) h = kept c (strip_zeros cs) h.0 (strip_zeros-IsDigit cs h.1)
  where
    kept : (c : ℕ) (rest : Text) → IsDigit c → All IsDigit rest → All IsDigit (cons_kept c rest)
    kept c [] h k = elim (Bool-cases (c == 48)) [ inl e ↦ rw e tt | inr e ↦ rw e (h, tt) ]
    kept c (d ∷ ds) h k = (h, k)

-- The digits at the front are found.
pub span_digits-nil : (ds : Text) → All IsDigit ds → span_digits ds ≡ (ds, [])
unfolding span_digits
span_digits-nil [] h = refl
span_digits-nil (d ∷ ds) h =
    let digit : is_digit d ≡ true = ground (arith, h.0) in rw (span_digits-nil ds h.1, digit)

pub span_digits-append :
    (ds : Text) (c : ℕ) (rest : Text)
    → All IsDigit ds
    → is_digit c ≡ false
    → span_digits (ds ++ c ∷ rest) ≡ (ds, c ∷ rest)
unfolding span_digits
span_digits-append [] c rest h k = rw k
span_digits-append (d ∷ ds) c rest h k =
    let digit : is_digit d ≡ true = ground (arith, h.0) in
    rw (span_digits-append ds c rest h.1 k, digit)

-- A text without spaces is not trimmed.
abbrev pub IsVisible : ℕ → Type 0
IsVisible c = is_space c ≡ false

unless_space-visible : (c : ℕ) (rest : Text) → IsVisible c → cons_unless_space c rest ≡ c ∷ rest
unless_space-visible c [] h = rw h
unless_space-visible c (d ∷ ds) h = refl

trim_end-visible : (s : Text) → All IsVisible s → trim_end s ≡ s
unfolding trim_end
trim_end-visible [] h = refl
trim_end-visible (c ∷ cs) h =
    ap (cons_unless_space c) (trim_end-visible cs h.1) ∙ unless_space-visible c cs h.0

pub trim_visible : (s : Text) → All IsVisible s → trim_end (trim_start s) ≡ s
unfolding trim_start
trim_visible [] h = trim_end-visible [] h
trim_visible (c ∷ cs) h = rw h.0 (trim_end-visible (c ∷ cs) h)

pub digit-IsVisible : (c : ℕ) → IsDigit c → IsVisible c
unfolding is_space
digit-IsVisible c h = ground arith
