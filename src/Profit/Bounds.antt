-- ===== src/Profit/Bounds.antt =====
-- The two sides of a deal, and what a ratio in basis points promises.
use near_instant.Common.{ℕ, zero, suc, ◌+◌, ◌*◌, ◌/◌, ◌≤◌, ◌<◌, ◌≡◌, refl, true, false, some, arith}
use near_instant.Common.Int.{ℤ, pos, negsuc, scale, quot, ◌+ℤ◌, ◌≤ℤ◌, pos_part, neg_part, int_laws}
use native.Mathlib.Nat.{div-mul-le_self, zero-div}
use near_instant.Profit.{party_profit, bps_of}

-- A swap has one price, and the two parties sit on opposite sides of it: their gross results cancel,
-- and together they lose exactly the two fees.
pub party_profit-zero_sum :
    (xno_raw xmr_atomic : ℤ) (mid_e18 : ℕ) (fee : ℤ)
    → let a = party_profit xno_raw xmr_atomic true mid_e18 (some fee) in
      let b = party_profit xno_raw xmr_atomic false mid_e18 (some fee) in
      (a.gross_atomic +ℤ b.gross_atomic ≡ pos 0)
      × (a.net_atomic +ℤ b.net_atomic +ℤ fee +ℤ fee ≡ pos 0)
      × (a.outlay_atomic ≡ b.xno_value_atomic)
unfolding party_profit
party_profit-zero_sum xno_raw xmr_atomic mid_e18 fee = (omega int_laws, omega int_laws, refl)

pub mul-le_of_le-div : (k a d : ℕ) → k ≤ a / d → k * d ≤ a
mul-le_of_le-div k a d h = grind (arith, div-mul-le_self a d)

-- The ratio of a gain or a loss to a positive outlay.
bps_of_pos : (n d : ℕ) → bps_of (pos n) (pos (suc d)) ≡ pos (n * 10_000 / suc d)
unfolding bps_of scale quot
bps_of_pos n d = ground (arith, zero-div (suc d))

bps_of_negsuc : (n d : ℕ) → bps_of (negsuc n) (pos (suc d)) ≤ℤ pos 0
unfolding bps_of scale quot
bps_of_negsuc n d = ground (arith, zero-div (suc d))

-- A ratio of at least `m` basis points, for a positive `m`, is a gain of at least `m` parts in ten
-- thousand of a positive outlay.
pub bps_of_sound :
    (x outlay : ℤ) (m : ℕ)
    → 0 < m
    → pos m ≤ℤ bps_of x outlay
    → (pos 1 ≤ℤ outlay) × (m * pos_part outlay + neg_part x * 10_000 ≤ pos_part x * 10_000)
bps_of_sound x (negsuc d) m p h = absurd (unfold bps_of in ground arith)
bps_of_sound x (pos zero) m p h = absurd (unfold bps_of in ground arith)
bps_of_sound (pos n) (pos (suc d)) m p h = (
  omega arith,
  omega (arith, mul-le_of_le-div m (n * 10_000) (suc d) (ground (arith, bps_of_pos n d))),
)
bps_of_sound (negsuc n) (pos (suc d)) m p h = absurd (omega (arith, bps_of_negsuc n d))
