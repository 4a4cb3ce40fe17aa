-- ===== src/Deal/Binding.antt =====
-- The maker's check and the taker's construction agree, and what the check leaves open.
use near_instant.Common.{◌≡◌, ◌↔◌, refl, true, some, ok, err, arith, Option-cases, inl, inr}
use near_instant.Common.Int.{ℤ, pos, ◌≤ℤ◌, eqb_ℤ_iff}
use near_instant.Deal.{
  Numeral, decimal, big_int, same_text, Intent, Offer, Deal, not_positive, deal_from_offer,
  maker_validate_deal, xmr_amount,
}

same_text_iff : (a : Numeral) (n : ℤ) → (same_text a n ≡ true) ↔ (a ≡ decimal n)
same_text_iff (decimal z) n = ground (arith, eqb_ℤ_iff z n)
same_text_iff (Numeral.other z) n = ground arith

accepted :
    (deal : Deal) (intent : Intent) (limit : ℤ)
    → maker_validate_deal deal intent limit ≡ ok tt
    → (deal.price_e9 ≡ decimal (pos intent.price_e9))
      × ((xno_raw : ℤ) × (big_int deal.xno_raw ≡ some xno_raw)
          × (xno_raw ≤ℤ limit)
          × (deal.xmr_atomic ≡ decimal (xmr_amount xno_raw (pos intent.price_e9))))
unfolding maker_validate_deal
accepted deal intent limit h = elim (Option-cases (big_int deal.xno_raw)) [
  | inl bad ↦ ground arith
  | inr (z, parsed) ↦ (
    ground (arith, same_text_iff deal.price_e9 (pos intent.price_e9)),
    (
      z,
      parsed,
      ground arith,
      ground (
        arith,
        same_text_iff deal.price_e9 (pos intent.price_e9),
        same_text_iff deal.xmr_atomic (xmr_amount z (pos intent.price_e9)),
      ),
    ),
  )
]

accepts :
    (deal : Deal) (intent : Intent) (limit z : ℤ)
    → deal.price_e9 ≡ decimal (pos intent.price_e9)
    → big_int deal.xno_raw ≡ some z
    → z ≤ℤ limit
    → deal.xmr_atomic ≡ decimal (xmr_amount z (pos intent.price_e9))
    → maker_validate_deal deal intent limit ≡ ok tt
unfolding maker_validate_deal
accepts deal intent limit z price parsed small amount = ground (
  arith,
  same_text_iff deal.price_e9 (pos intent.price_e9),
  same_text_iff deal.xmr_atomic (xmr_amount z (pos intent.price_e9)),
)

-- The maker accepts a deal exactly when its price is the posted one, its size is a number of at most
-- the maximum, and its Monero amount is the one that the price and the size give.
pub maker_validate_deal-ok :
    (deal : Deal) (intent : Intent) (limit : ℤ)
    → (maker_validate_deal deal intent limit ≡ ok tt) ↔ (
        (deal.price_e9 ≡ decimal (pos intent.price_e9))
        × ((xno_raw : ℤ) × (big_int deal.xno_raw ≡ some xno_raw)
            × (xno_raw ≤ℤ limit)
            × (deal.xmr_atomic ≡ decimal (xmr_amount xno_raw (pos intent.price_e9)))))
maker_validate_deal-ok deal intent limit =
    (accepted deal intent limit, λ h. accepts deal intent limit h.1.0 h.0 h.1.1 h.1.2 h.1.3)

-- A deal that a taker builds from an offer is accepted by a maker who posted that intent exactly
-- when its size is at most the maker's maximum; its size and its Monero amount are positive, and it
-- carries the offer's hash and side.
pub deal_from_offer-accepted :
    (offer : Offer) (text : Numeral) (limit : ℤ) {deal : Deal}
    → deal_from_offer offer text ≡ ok deal
    → (xno_raw : ℤ) × (big_int text ≡ some xno_raw)
      × (pos 1 ≤ℤ xno_raw)
      × (pos 1 ≤ℤ xmr_amount xno_raw (pos offer.intent.price_e9))
      × (deal.offer_hash ≡ offer.block_hash)
      × (deal.side ≡ offer.intent.side)
      × ((maker_validate_deal deal offer.intent limit ≡ ok tt) ↔ (xno_raw ≤ℤ limit))
unfolding deal_from_offer
deal_from_offer-accepted offer text limit {deal} h = elim (Option-cases (big_int text)) [
  | inl bad ↦ absurd (ground arith)
  | inr (z, parsed) ↦
      let amount = xmr_amount z (pos offer.intent.price_e9) in
      (
        z,
        parsed,
        ground arith,
        ground arith,
        ground arith,
        ground arith,
        (
          λ ok_it. ground (arith, (maker_validate_deal-ok deal offer.intent limit).0 ok_it),
          λ small.
              accepts deal offer.intent limit z (ground arith) (ground arith) small (ground arith),
        ),
      )
]

-- The taker's and the maker's checks differ on sizes that are not positive. Where the taker's side
-- refuses to build a deal of size zero or less, the maker's check accepts the deal of that size
-- whose Monero amount is the one that the price gives.
pub validate-nonpositive :
    (offer : Offer) (z limit : ℤ)
    → z ≤ℤ pos 0
    → z ≤ℤ limit
    → (deal_from_offer offer (decimal z) ≡ err not_positive)
      × (maker_validate_deal
            (record {
              offer_hash = offer.block_hash;
              side = offer.intent.side;
              price_e9 = decimal (pos offer.intent.price_e9);
              xno_raw = decimal z;
              xmr_atomic = decimal (xmr_amount z (pos offer.intent.price_e9));
            })
            offer.intent
            limit
          ≡ ok tt)
unfolding deal_from_offer
validate-nonpositive offer z limit small fits =
    (ground arith, accepts _ offer.intent limit z refl refl fits refl)
