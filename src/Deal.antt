-- ===== src/Deal.antt =====
-- dealFromOffer and makerValidateDeal of web/two_party.js: how the deal that two parties settle is
-- bound to the posted offer.
pub mod Binding
use near_instant.Common.{
  ℕ, ◌+◌, ◌*◌, ◌^◌, Bool, true, false, not, Option, none, some, Result, ok, err, ◌>>=◌, ◌>>◌,
  throw_if, ◌==◌, if◌then◌else◌,
}
use near_instant.Common.Int.{ℤ, pos, scale, quot, ◌*ℤ◌, ltb_ℤ, leb_ℤ, eqb_ℤ}
use Prim.Native.String.{String}

-- A value that arrives as text or as a number: the decimal text of an integer, or any other value,
-- with what `BigInt` makes of it (`none` where it throws).
pub data Numeral : Type 0 where
  decimal : ℤ → Numeral
  other : Option ℤ → Numeral

abbrev pub big_int : Numeral → Option ℤ
big_int (decimal z) = some z
big_int (other z) = z

-- `String(a) === String(b)` where `b` is an integer.
abbrev pub same_text : Numeral → ℤ → Bool
same_text (decimal z) n = eqb_ℤ z n
same_text (other z) n = false

-- What a beacon entry carries: the side and the price, XMR per XNO times 10^9.
pub record Intent : Type 0 where
  pub side : ℕ
  pub price_e9 : ℕ

pub record Offer : Type 0 where
  pub block_hash : String
  pub intent : Intent

pub record Deal : Type 0 where
  pub offer_hash : String
  pub side : ℕ
  pub price_e9 : Numeral
  pub xno_raw : Numeral
  pub xmr_atomic : Numeral

pub data DealError : Type 0 where
  not_a_number not_positive too_small price_mismatch too_large inconsistent : DealError

-- `BigInt(s)`.
abbrev pub read : Numeral → Result DealError ℤ
read n = elim (big_int n) [ none ↦ err not_a_number | some z ↦ ok z ]

abbrev pub raw_per_xno : ℕ
raw_per_xno = 10 ^ 30

-- xnoRaw * priceE9 * 1000n / 10n ** 30n
unfoldable pub xmr_amount : ℤ → ℤ → ℤ
xmr_amount xno_raw price_e9 = quot (scale (xno_raw *ℤ price_e9) 1000) raw_per_xno

-- A taker's deal at the offer's price. The texts that it writes are decimal.
unfoldable pub deal_from_offer : Offer → Numeral → Result DealError Deal
unfolding xmr_amount
deal_from_offer offer xno_raw_text = do
  xno_raw ← read xno_raw_text
  throw_if (leb_ℤ xno_raw (pos 0)) not_positive
  let xmr_atomic = xmr_amount xno_raw (pos offer.intent.price_e9)
  throw_if (leb_ℤ xmr_atomic (pos 0)) too_small
  ok (record {
    offer_hash = offer.block_hash;
    side = offer.intent.side;
    price_e9 = decimal (pos offer.intent.price_e9);
    xno_raw = decimal xno_raw;
    xmr_atomic = decimal xmr_atomic;
  })

-- The maker's check of a deal that it received against its own offer.
unfoldable pub maker_validate_deal : Deal → Intent → ℤ → Result DealError (Unit {0})
unfolding xmr_amount
maker_validate_deal deal my_intent max_xno_raw = do
  throw_if (not (same_text deal.price_e9 (pos my_intent.price_e9))) price_mismatch
  xno_raw ← read deal.xno_raw
  throw_if (ltb_ℤ max_xno_raw xno_raw) too_large
  price_e9 ← read deal.price_e9
  throw_if (not (same_text deal.xmr_atomic (xmr_amount xno_raw price_e9))) inconsistent
