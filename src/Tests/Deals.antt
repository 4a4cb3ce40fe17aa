-- ===== src/Tests/Deals.antt =====
-- Deals, their profit and their certificates at concrete inputs.
use near_instant.Common.{
  ℕ, ◌*◌, ◌^◌, ◌≤◌, ◌≡◌, ◌↔◌, refl, true, false, [], none, some, ok, err, arith,
}
use near_instant.Common.Int.{ℤ, pos, negsuc, ◌-ℤ◌, ◌*ℤ◌, ◌≤ℤ◌, scale, quot}
use near_instant.Deal.{
  decimal, big_int, Offer, Deal, not_positive, deal_from_offer, maker_validate_deal, xmr_amount,
}
use near_instant.Deal.Binding.{deal_from_offer-accepted, validate-nonpositive}
use near_instant.Profit.{party_profit, bps_of, wins, min_viable_xno_raw}
use near_instant.Profit.Viable.{IsViable, min_viable_xno_raw_lem}
use near_instant.Certify.{
  Terms, Price, Certificate, Options, Deps, Store, certify, gate, gate_options,
}
use near_instant.Certify.Rules.{Certifies, certify-ok, certify-untimed}
use near_instant.Certify.Gates.{gate-ok}

-- 0.0019 XMR for an XNO, on side 0.
abbrev pub offer : Offer
offer = record { block_hash = "AB"; intent = record { side = 0; price_e9 = 1_900_000 } }

-- 800 XNO.
abbrev pub size : ℤ
size = pos (800 * 10 ^ 30)

abbrev pub deal : Deal
deal = record {
  offer_hash = "AB";
  side = 0;
  price_e9 = decimal (pos 1_900_000);
  xno_raw = decimal size;
  xmr_atomic = decimal (pos 1_520_000_000_000);
}

deal_is_built : deal_from_offer offer (decimal size) ≡ ok deal
unfolding deal_from_offer quot scale ◌*ℤ◌
deal_is_built = refl

deal_from_offer-accepted_example :
    (xno_raw : ℤ) × (big_int (decimal size) ≡ some xno_raw)
    × (pos 1 ≤ℤ xno_raw)
    × (pos 1 ≤ℤ xmr_amount xno_raw (pos 1_900_000))
    × (deal.offer_hash ≡ offer.block_hash)
    × (deal.side ≡ offer.intent.side)
    × ((maker_validate_deal deal offer.intent size ≡ ok tt) ↔ (xno_raw ≤ℤ size))
deal_from_offer-accepted_example = deal_from_offer-accepted offer (decimal size) size deal_is_built

validate-nonpositive_example :
    (deal_from_offer offer (decimal (negsuc 4)) ≡ err not_positive)
    × (maker_validate_deal
          (record {
            offer_hash = "AB";
            side = 0;
            price_e9 = decimal (pos 1_900_000);
            xno_raw = decimal (negsuc 4);
            xmr_atomic = decimal (xmr_amount (negsuc 4) (pos 1_900_000));
          })
          offer.intent
          size
        ≡ ok tt)
validate-nonpositive_example =
    validate-nonpositive offer (negsuc 4) size (omega arith) (omega arith)

-- 0.00188 XMR for an XNO.
abbrev pub mid : ℕ
mid = 1_880_000_000_000_000

net_bps_runs : (party_profit size (pos 1_520_000_000_000) true mid none).net_bps ≡ pos 105
unfolding party_profit quot scale ◌-ℤ◌
net_bps_runs = refl

min_viable_xno_raw_lem_example :
    let win = wins 1_900_000 true mid none (pos 30) in
    ((min_viable_xno_raw 1_900_000 true mid none (some (pos 30)) ≡ none) ↔ (win (10 ^ 33) ≡ false))
    × ((found : ℕ)
        → min_viable_xno_raw 1_900_000 true mid none (some (pos 30)) ≡ some found
        → IsViable win found × (found ≤ 10 ^ 33))
min_viable_xno_raw_lem_example = min_viable_xno_raw_lem 1_900_000 true mid none (some (pos 30))

abbrev pub terms : Terms
terms = record { xno_raw = size; xmr_atomic = pos 1_520_000_000_000 }

abbrev pub price : Price
price = record { is_ok = true; mid_e18 = mid; sources = some 3; at = some 950_000; stress = none }

abbrev opts : Options
opts = record {
  min_bps = some (pos 30);
  fee_atomic = none;
  max_age_ms = none;
  max_stress = none;
  baseline = none;
  max_unrealized_loss_bps = none;
}

certified : (certify terms true (some price) opts 1_000_000).is_ok ≡ true
unfolding certify party_profit quot scale ◌-ℤ◌
certified = refl

certify-ok_example :
    ((certify terms true (some price) opts 1_000_000).is_ok ≡ true)
    ↔ Certifies terms true price opts 1_000_000
certify-ok_example = certify-ok terms true price opts 1_000_000

certify-untimed_example :
    (certify terms true (some (record price { at = none })) opts 1_000_000).is_ok
    ≡ (certify terms true (some (record price { at = some 1_000_000 })) opts 1_000_000).is_ok
certify-untimed_example = certify-untimed terms true price opts 1_000_000

abbrev pub accept : Certificate
accept = record {
  is_ok = true;
  reason = none;
  profit = some (record {
    gross_atomic = pos 16_000_000_000;
    fee_atomic = pos 80_000_000;
    net_atomic = pos 15_920_000_000;
    outlay_atomic = pos 1_504_000_000_000;
    net_bps = pos 105;
    xno_value_atomic = pos 1_504_000_000_000;
  });
  mid_e18 = mid;
  age_ms = 0;
  stress = 1;
  unrealized_atomic = none;
  unrealized_bps = none;
}

abbrev deps : Deps
deps = record {
  oracle = some (some price);
  fee_atomic = none;
  max_unrealized_loss_bps = none;
  max_stress = none;
}

abbrev store : Store
store = record { accept_cert = some accept; certs = [] }

passes : (gate deps terms true none 1_000_000 (some store)).0.is_ok ≡ true
unfolding gate certify party_profit bps_of quot scale ◌-ℤ◌
passes = refl

gate-ok_example :
    (p : Price) × (s : Store) × (baseline : Certificate) × (deps.oracle ≡ some (some p))
    × (some store ≡ some s)
    × (s.accept_cert ≡ some baseline)
    × Certifies terms true p (gate_options deps none baseline) 1_000_000
gate-ok_example = gate-ok deps terms true none 1_000_000 (some store) passes
