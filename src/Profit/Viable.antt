-- ===== src/Profit/Viable.antt =====
-- The smallest fill that is still a certified win, found by bisection.
use near_instant.Common.{
  ℕ, zero, suc, ◌+◌, ◌-◌, ◌*◌, ◌/◌, ◌^◌, ◌≤◌, ◌<◌, ◌≡◌, refl, ◌⊎◌, ◌↔◌, inl, inr, Bool, true, false,
  Option, none, some, arith, ltb, Bool-cases, with_default,
}
use near_instant.Common.Int.{ℤ, pos}
use near_instant.Profit.{bisect, wins, min_viable_xno_raw}
use native.Mathlib.Nat.{pow-suc}

-- A size that wins, at most `10 ^ 24` raw (a millionth of an XNO) above one that loses or above 0.
abbrev pub IsViable : (ℕ → Bool) → ℕ → Type 0
IsViable win size =
    (win size ≡ true)
    × ((lo : ℕ) × ((win lo ≡ false) ⊎ (lo ≡ 0)) × (lo < size) × (size ≤ lo + 10 ^ 24))

halve :
    (lo hi rounds : ℕ)
    → hi - lo ≤ 10 ^ 24 * 2 ^ suc rounds
    → ((lo + hi) / 2 - lo ≤ 10 ^ 24 * 2 ^ rounds) × (hi - (lo + hi) / 2 ≤ 10 ^ 24 * 2 ^ rounds)
halve lo hi rounds gap =
    let twice = pow-suc 2 rounds in (omega (arith, twice), omega (arith, twice))

bisect-IsViable :
    (win : ℕ → Bool) (rounds lo hi : ℕ)
    → win hi ≡ true
    → (win lo ≡ false) ⊎ (lo ≡ 0)
    → lo < hi
    → hi - lo ≤ 10 ^ 24 * 2 ^ rounds
    → IsViable win (bisect win rounds lo hi) × (bisect win rounds lo hi ≤ hi)
unfolding bisect
bisect-IsViable win zero lo hi w l lt gap = ((w, (lo, l, lt, omega arith)), omega arith)
bisect-IsViable win (suc rounds) lo hi w l lt gap = elim (Bool-cases (ltb (10 ^ 24) (hi - lo))) [
  | inr near ↦ rw near ((w, (lo, l, lt, ground arith)), omega arith)
  | inl far ↦ elim (Bool-cases (win ((lo + hi) / 2))) [
    | inl up ↦
        let r =
          bisect-IsViable win rounds lo ((lo + hi) / 2) up l (ground arith)
            (halve lo hi rounds gap).0 in
        rw (far, up) (r.0, omega (arith, r.1))
    | inr down ↦
        rw (far, down)
          (bisect-IsViable win rounds ((lo + hi) / 2) hi w (inl down) (ground arith)
            (halve lo hi rounds gap).1)
  ]
]

-- The smallest viable fill, against the threshold of basis points. `none` is returned exactly when
-- even 1000 XNO lose at this price. A size that is returned is at most 1000 XNO and wins, and it is
-- at most a millionth of an XNO above a smaller size that loses, or above 0.
pub min_viable_xno_raw_lem :
    (price_e9 : ℕ) (role_is_a : Bool) (mid_e18 : ℕ) (fee min_bps : Option ℤ)
    → let win = wins price_e9 role_is_a mid_e18 fee (with_default min_bps (pos 0)) in
      ((min_viable_xno_raw price_e9 role_is_a mid_e18 fee min_bps ≡ none) ↔ (win (10 ^ 33) ≡ false))
      × ((size : ℕ)
          → min_viable_xno_raw price_e9 role_is_a mid_e18 fee min_bps ≡ some size
          → IsViable win size × (size ≤ 10 ^ 33))
unfolding min_viable_xno_raw
min_viable_xno_raw_lem price_e9 role_is_a mid_e18 fee min_bps =
    let win = wins price_e9 role_is_a mid_e18 fee (with_default min_bps (pos 0)) in
    elim (Bool-cases (win (10 ^ 33))) [
      | inr loses ↦ ((λ _. loses, λ _. rw loses), λ size h. absurd (ground arith))
      | inl good ↦ (
        (λ h. absurd (ground arith), λ h. absurd (ground arith)),
        λ size h.
            let found =
              bisect-IsViable win 60 0 (10 ^ 33) good (inr refl) (omega arith) (omega arith) in
            let same : bisect win 60 0 (10 ^ 33) ≡ size = ground arith in rw same at found,
      )
    ]
