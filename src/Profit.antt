-- ===== src/Profit.antt =====
-- partyProfit, makerProfit and minViableXnoRaw of web/two_party.js. The float mid is kept as the
-- natural number `mid_e18` = Math.round(mid * 1e18), the only form in which the amounts use it; a
-- ratio in basis points, which the source turns into a Number, is kept exact.
pub mod Bounds
pub mod Viable
use near_instant.Common.{
  ℕ, zero, suc, ◌+◌, ◌-◌, ◌*◌, ◌/◌, ◌^◌, Bool, true, false, not, ◌&&◌, Option, none, some,
  with_default, ltb, leb, ◌==◌, if◌then◌else◌,
}
use near_instant.Common.Int.{ℤ, pos, negsuc, scale, quot, ◌*ℤ◌, ◌-ℤ◌, pos_part, ltb_ℤ, leb_ℤ}
use near_instant.Deal.{xmr_amount}

abbrev pub xmr_tx_fee_atomic_default : ℤ
xmr_tx_fee_atomic_default = pos 80_000_000

pub record Profit : Type 0 where
  pub gross_atomic : ℤ
  pub fee_atomic : ℤ
  pub net_atomic : ℤ
  pub outlay_atomic : ℤ
  pub net_bps : ℤ
  pub xno_value_atomic : ℤ

-- xnoRaw * midE18 / 10n ** 36n
unfoldable pub xno_value : ℤ → ℕ → ℤ
xno_value xno_raw mid_e18 = quot (scale xno_raw mid_e18) (10 ^ 36)

-- `x * 10000n / outlay` for a positive outlay, and 0 otherwise.
unfoldable pub bps_of : ℤ → ℤ → ℤ
bps_of x outlay = if ltb_ℤ (pos 0) outlay then quot (scale x 10_000) (pos_part outlay) else pos 0

unfoldable pub party_profit : ℤ → ℤ → Bool → ℕ → Option ℤ → Profit
unfolding xno_value bps_of
party_profit xno_raw xmr_atomic role_is_a mid_e18 fee_atomic =
    let fee = with_default fee_atomic xmr_tx_fee_atomic_default in
    let value = xno_value xno_raw mid_e18 in
    let gross = if role_is_a then xmr_atomic -ℤ value else value -ℤ xmr_atomic in
    let outlay = if role_is_a then value else xmr_atomic in
    let net = gross -ℤ fee in
    record {
      gross_atomic = gross;
      fee_atomic = fee;
      net_atomic = net;
      outlay_atomic = outlay;
      net_bps = bps_of net outlay;
      xno_value_atomic = value;
    }

-- Side 0 is the maker who sells XNO.
unfoldable pub maker_profit : ℤ → ℤ → ℕ → ℕ → Option ℤ → Profit
unfolding party_profit
maker_profit xno_raw xmr_atomic side mid_e18 fee_atomic =
    party_profit xno_raw xmr_atomic (side == 0) mid_e18 fee_atomic

-- `wins` of minViableXnoRaw: the fill of this size at this price clears the threshold.
unfoldable pub wins : ℕ → Bool → ℕ → Option ℤ → ℤ → ℕ → Bool
unfolding party_profit xmr_amount
wins price_e9 role_is_a mid_e18 fee_atomic min_bps xno_raw =
    let xmr = xmr_amount (pos xno_raw) (pos price_e9) in
    leb_ℤ min_bps (party_profit (pos xno_raw) xmr role_is_a mid_e18 fee_atomic).net_bps

-- The bisection: `rounds` of the 60 are left, `lo` loses (or is 0) and `hi` wins.
unfoldable pub bisect : (ℕ → Bool) → ℕ → ℕ → ℕ → ℕ
bisect win zero lo hi = hi
bisect win (suc rounds) lo hi =
    let m = (lo + hi) / 2 in
    let rest = bisect win rounds (if win m then lo else m) (if win m then m else hi) in
    if ltb (10 ^ 24) (hi - lo) then rest else hi

-- `none` is the source's null: the price loses even at 1000 XNO.
unfoldable pub min_viable_xno_raw : ℕ → Bool → ℕ → Option ℤ → Option ℤ → Option ℕ
unfolding wins bisect
min_viable_xno_raw price_e9 role_is_a mid_e18 fee_atomic min_bps =
    let threshold = with_default min_bps (pos 0) in
    let win = wins price_e9 role_is_a mid_e18 fee_atomic threshold in
    let hi = 10 ^ 33 in if win hi then some (bisect win 60 0 hi) else none
