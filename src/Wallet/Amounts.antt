-- ===== src/Wallet/Amounts.antt =====
-- fmtAtomic, parseAtomic, fmtXno, parseXno, fmtXmr and parseXmr of web/wallet.js. Texts are lists of
-- code units; a unit is given by the number of its digits.
pub mod Digits
pub mod Roundtrip
use near_instant.Common.{
  ℕ, zero, suc, ◌+◌, ◌-◌, ◌*◌, ◌/◌, ◌%◌, ◌^◌, Bool, true, false, ◌&&◌, List, [], ◌∷◌, ◌++◌, Option,
  none, some, leb, ◌==◌, if◌then◌else◌, length, take, replicate,
}
use near_instant.Common.Decimal.{decimal, value}
use near_instant.Common.Spaces.{is_space}

abbrev pub Text : Type 0
Text = List ℕ

-- RAW_PER_XNO is 10 ^ 30 and PICO_PER_XMR is 10 ^ 12.
abbrev pub xno_digits : ℕ
xno_digits = 30

abbrev pub xmr_digits : ℕ
xmr_digits = 12

abbrev pub zeros : ℕ → Text
zeros k = replicate k 48

-- `padStart(n, "0")` and `padEnd(n, "0")`
abbrev pub pad_start : ℕ → Text → Text
pad_start n s = zeros (n - length s) ++ s

abbrev pub pad_end : ℕ → Text → Text
pad_end n s = s ++ zeros (n - length s)

abbrev pub cons_kept : ℕ → Text → Text
cons_kept c [] = if c == 48 then [] else c ∷ []
cons_kept c (d ∷ ds) = c ∷ d ∷ ds

-- `replace(/0+$/, "")`
unfoldable pub strip_zeros : Text → Text
strip_zeros [] = []
strip_zeros (c ∷ cs) = cons_kept c (strip_zeros cs)

abbrev pub with_fraction : ℕ → Text → Text
with_fraction whole [] = decimal whole
with_fraction whole (c ∷ cs) = decimal whole ++ 46 ∷ c ∷ cs

-- `fmtAtomic`, for the unit 10 ^ digits and `dp` decimal places.
unfoldable pub fmt_atomic : ℕ → ℕ → ℕ → Text
unfolding strip_zeros
fmt_atomic raw digits dp =
    with_fraction (raw / 10 ^ digits)
      (strip_zeros (take dp (pad_start digits (decimal (raw % 10 ^ digits)))))

abbrev pub is_digit : ℕ → Bool
is_digit c = leb 48 c && leb c 57

-- The digits at the front of a text, and the rest.
unfoldable pub span_digits : Text → Text × Text
span_digits [] = ([], [])
span_digits (c ∷ cs) =
    let (ds, rest) = span_digits cs in if is_digit c then (c ∷ ds, rest) else ([], c ∷ cs)

unfoldable pub trim_start : Text → Text
unfolding is_space
trim_start [] = []
trim_start (c ∷ cs) = let rest = trim_start cs in if is_space c then rest else c ∷ cs

abbrev pub cons_unless_space : ℕ → Text → Text
cons_unless_space c [] = if is_space c then [] else c ∷ []
cons_unless_space c (d ∷ ds) = c ∷ d ∷ ds

unfoldable pub trim_end : Text → Text
trim_end [] = []
trim_end (c ∷ cs) = cons_unless_space c (trim_end cs)

-- What follows the whole digits in `/^(\d+)(?:\.(\d+))?$/`: nothing, or a point and digits.
abbrev pub digits_only : Text × Text → Option Text
digits_only ([], rest) = none
digits_only (d ∷ ds, []) = some (d ∷ ds)
digits_only (d ∷ ds, c ∷ rest) = none

abbrev pub fraction : Text → Option Text
fraction [] = some []
fraction (c ∷ rest) = if c == 46 then digits_only (span_digits rest) else none

abbrev pub sum_of : ℕ → Text → Option Text → Option ℕ
sum_of digits whole none = none
sum_of digits whole (some f) =
    some (value 0 whole * 10 ^ digits + value 0 (take digits (pad_end digits f)))

abbrev pub amount_of : ℕ → Text × Text → Option ℕ
amount_of digits ([], rest) = none
amount_of digits (d ∷ ds, rest) = sum_of digits (d ∷ ds) (fraction rest)

-- `parseAtomic`; none where it throws.
unfoldable pub parse_atomic : Text → ℕ → Option ℕ
unfolding span_digits trim_start trim_end
parse_atomic s digits = amount_of digits (span_digits (trim_end (trim_start s)))

-- `fmtXno` and `parseXno` write the same steps out for their unit.
unfoldable pub fmt_xno : ℕ → Text
unfolding fmt_atomic
fmt_xno raw = fmt_atomic raw xno_digits 6

unfoldable pub parse_xno : Text → Option ℕ
unfolding parse_atomic
parse_xno s = parse_atomic s xno_digits

unfoldable pub fmt_xmr : ℕ → Text
unfolding fmt_atomic
fmt_xmr pico = fmt_atomic pico xmr_digits 8

unfoldable pub parse_xmr : Text → Option ℕ
unfolding parse_atomic
parse_xmr s = parse_atomic s xmr_digits
