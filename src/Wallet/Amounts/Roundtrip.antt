-- ===== src/Wallet/Amounts/Roundtrip.antt =====
-- What reading a printed amount gives: fmtXno, parseXno, fmtXmr and parseXmr of web/wallet.js.
use native.Mathlib.Nat.{pow-suc}
use near_instant.Common.{
  ℕ, zero, suc, ◌+◌, ◌-◌, ◌*◌, ◌/◌, ◌%◌, ◌^◌, ◌≤◌, ◌<◌, ◌≡◌, refl, ap, sym, ◌∙◌, [], ◌∷◌, ◌++◌,
  some, length, take, drop, length-drop, length-append, All, All-append, arith,
}
use near_instant.Common.Decimal.{
  IsDigit, value, decimal, value-decimal, decimal-IsDigit, decimal-cons, length-decimal,
  value-append, value-shift, value-lt, value-zeros,
}
use near_instant.Common.Spaces.{is_space}
use near_instant.Wallet.Amounts.{
  Text, zeros, pad_start, pad_end, strip_zeros, with_fraction, fmt_atomic, span_digits, digits_only,
  amount_of, sum_of, parse_atomic, fmt_xno, parse_xno, fmt_xmr, parse_xmr,
}
use near_instant.Wallet.Amounts.Digits.{
  pad_end-strip_zeros, length-pad_start, length-zeros, take-drop, length-take, take_all,
  zeros-IsDigit, take-IsDigit, drop-IsDigit, strip_zeros-IsDigit, span_digits-nil,
  span_digits-append, IsVisible, trim_visible, digit-IsVisible,
}

digits-IsVisible : (s : Text) → All IsDigit s → All IsVisible s
digits-IsVisible [] h = tt
digits-IsVisible (c ∷ cs) h = (digit-IsVisible c h.0, digits-IsVisible cs h.1)

point-IsVisible : IsVisible 46
unfolding is_space
point-IsVisible = refl

-- A printed text of digits, with a point and more digits if there are any, is read by its digits.
with_fraction-IsVisible :
    (whole : ℕ) (f : Text) → All IsDigit f → All IsVisible (with_fraction whole f)
with_fraction-IsVisible whole [] h = digits-IsVisible (decimal whole) (decimal-IsDigit whole)
with_fraction-IsVisible whole (c ∷ cs) h =
    All-append IsVisible (decimal whole) (46 ∷ c ∷ cs)
      (digits-IsVisible (decimal whole) (decimal-IsDigit whole))
      (point-IsVisible, digits-IsVisible (c ∷ cs) h)

with_fraction-read :
    (whole digits : ℕ) (f : Text)
    → All IsDigit f
    → amount_of digits (span_digits (with_fraction whole f))
      ≡ some (value 0 (decimal whole) * 10 ^ digits + value 0 (take digits (pad_end digits f)))
with_fraction-read whole digits [] h =
    let (d, ds, e) = decimal-cons whole in
    rw (span_digits-nil (decimal whole) (decimal-IsDigit whole), e) refl
with_fraction-read whole digits (c ∷ cs) h =
    let (d, ds, e) = decimal-cons whole in
    rw (span_digits-append (decimal whole) 46 (c ∷ cs) (decimal-IsDigit whole) refl, e)
      (ap (λ o. sum_of digits (d ∷ ds) o) (ap digits_only (span_digits-nil (c ∷ cs) h)))

-- The amount that such a text stands for.
parse_atomic-with_fraction :
    (whole digits : ℕ) (f : Text)
    → All IsDigit f
    → parse_atomic (with_fraction whole f) digits
      ≡ some (whole * 10 ^ digits + value 0 (take digits (pad_end digits f)))
unfolding parse_atomic
parse_atomic-with_fraction whole digits f h =
    ap (λ s. amount_of digits (span_digits s))
      (trim_visible (with_fraction whole f) (with_fraction-IsVisible whole f h))
    ∙ with_fraction-read whole digits f h
    ∙ ap (λ n. some (n * 10 ^ digits + value 0 (take digits (pad_end digits f))))
        (value-decimal whole)

append_zeros : (s : Text) (m : ℕ) → value 0 (s ++ zeros m) ≡ value 0 s * 10 ^ m
append_zeros s m =
    value-append 0 s (zeros m)
    ∙ value-shift (value 0 s) (zeros m)
    ∙ omega (arith, ap (λ (j : ℕ). value 0 s * 10 ^ j) (length-zeros m), value-zeros m)

take_and_drop :
    (d : ℕ) (s : Text)
    → value 0 (take d s) * 10 ^ length (drop d s) + value 0 (drop d s) ≡ value 0 s
take_and_drop d s =
    sym (value-shift (value 0 (take d s)) (drop d s))
    ∙ sym (value-append 0 (take d s) (drop d s))
    ∙ ap (value 0) (sym (take-drop d s))

-- What is printed after the point, read with its zeros back, is the front of the padded digits.
cut_and_read :
    (k dp v : ℕ)
    → dp ≤ suc k
    → v < 10 ^ suc k
    → (t : ℕ) × (rest : ℕ) × (value 0
          (take (suc k) (pad_end (suc k) (strip_zeros (take dp (pad_start (suc k) (decimal v))))))
        ≡ t * 10 ^ (suc k - dp))
      × (t * 10 ^ (suc k - dp) + rest ≡ v)
      × (rest < 10 ^ (suc k - dp))
cut_and_read k dp v cut fits =
    let n : ℕ = suc k in
    let padded = pad_start n (decimal v) in
    let size : length padded ≡ n = length-pad_start n (decimal v) (length-decimal v k fits) in
    let front = take dp padded in
    let back = drop dp padded in
    let front_size : length front ≡ dp = length-take dp padded (omega arith) in
    let back_size : length back ≡ n - dp = omega (arith, length-drop dp padded) in
    let digits : All IsDigit padded =
      All-append IsDigit (zeros (n - length (decimal v))) (decimal v) (zeros-IsDigit _)
        (decimal-IsDigit v) in
    let whole : value 0 padded ≡ v =
      value-append 0 (zeros (n - length (decimal v))) (decimal v)
      ∙ ap (λ m. value m (decimal v)) (value-zeros (n - length (decimal v)))
      ∙ value-decimal v in
    let padded_end : pad_end n (strip_zeros front) ≡ front ++ zeros (n - length front) =
      pad_end-strip_zeros n front (omega arith) in
    let end_size : length (front ++ zeros (n - length front)) ≡ n =
      omega
        (arith, length-append front (zeros (n - length front)), length-zeros (n - length front)) in
    let read : value 0 (take n (pad_end n (strip_zeros front))) ≡ value 0 front * 10 ^ (n - dp) =
      ap (λ s. value 0 (take n s)) padded_end
      ∙ ap (value 0) (take_all n _ end_size)
      ∙ append_zeros front (n - length front)
      ∙ ap (λ j. value 0 front * 10 ^ (n - j)) front_size in
    let split : value 0 front * 10 ^ (n - dp) + value 0 back ≡ v =
      ap (λ j. value 0 front * 10 ^ j + value 0 back) (sym back_size)
      ∙ take_and_drop dp padded
      ∙ whole in
    (
      value 0 front,
      value 0 back,
      read,
      split,
      rw (← back_size) (value-lt back (drop-IsDigit dp padded digits)),
    )

ten_pos : (k : ℕ) → 0 < 10 ^ k
ten_pos zero = omega arith
ten_pos (suc k) = omega (arith, pow-suc 10 k, ten_pos k)

mod_fits : (a m : ℕ) → 0 < m → a % m < m
mod_fits a m h = grind arith

-- A printed amount is read with its last digits cut off.
fmt_atomic-parsed :
    (k dp raw : ℕ)
    → dp ≤ suc k
    → (t : ℕ) × (rest : ℕ) × (parse_atomic (fmt_atomic raw (suc k) dp) (suc k)
        ≡ some (raw / 10 ^ suc k * 10 ^ suc k + t * 10 ^ (suc k - dp)))
      × (t * 10 ^ (suc k - dp) + rest ≡ raw % 10 ^ suc k)
      × (rest < 10 ^ (suc k - dp))
unfolding fmt_atomic
fmt_atomic-parsed k dp raw cut =
    let v : ℕ = raw % 10 ^ suc k in
    let (t, rest, read, split, small) =
      cut_and_read k dp v cut (mod_fits raw (10 ^ suc k) (ten_pos (suc k))) in
    (
      t,
      rest,
      parse_atomic-with_fraction (raw / 10 ^ suc k) (suc k)
            (strip_zeros (take dp (pad_start (suc k) (decimal v))))
            (strip_zeros-IsDigit _ (
              take-IsDigit dp _ (
                All-append IsDigit (zeros (suc k - length (decimal v))) (decimal v)
                  (zeros-IsDigit _) (decimal-IsDigit v))))
          ∙ ap (λ x. some (raw / 10 ^ suc k * 10 ^ suc k + x)) read,
      split,
      small,
    )

-- An amount of XNO that is printed and read again is cut off to six decimals.
pub parse_xno-fmt_xno : (raw : ℕ) → parse_xno (fmt_xno raw) ≡ some (raw / 10 ^ 24 * 10 ^ 24)
unfolding fmt_xno parse_xno
parse_xno-fmt_xno raw =
    let (t, rest, read, split, small) = fmt_atomic-parsed 29 6 raw (omega arith) in
    read ∙ ap some (omega arith)

-- An amount of XMR that is printed and read again is cut off to eight decimals.
pub parse_xmr-fmt_xmr : (pico : ℕ) → parse_xmr (fmt_xmr pico) ≡ some (pico / 10 ^ 4 * 10 ^ 4)
unfolding fmt_xmr parse_xmr
parse_xmr-fmt_xmr pico =
    let (t, rest, read, split, small) = fmt_atomic-parsed 11 8 pico (omega arith) in
    read ∙ ap some (omega arith)
