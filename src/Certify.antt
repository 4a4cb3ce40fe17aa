-- ===== src/Certify.antt =====
-- certify and gate of web/two_party.js: whether a deal may go on at the market of the moment. The
-- amounts of the deal are those that BigInt reads; times are milliseconds; the text of a refusal is
-- a constructor. The float `midDriftPct`, which is only reported, is left out.
pub mod Rules
pub mod Gates
use near_instant.Common.{
  ℕ, ◌-◌, ◌*◌, Bool, true, false, not, List, [], ◌∷◌, ◌++◌, Option, none, some, Result, ok, err,
  with_default, ltb, leb, ◌==◌, length, drop, if◌then◌else◌,
}
use near_instant.Common.Int.{ℤ, pos, negsuc, ◌-ℤ◌, sub_ℕ, ltb_ℤ, leb_ℤ}
use near_instant.Profit.{Profit, party_profit, bps_of}

abbrev pub mid_max_age_ms_default : ℕ
mid_max_age_ms_default = 60 * 1000

-- The amounts of a deal.
pub record Terms : Type 0 where
  pub xno_raw : ℤ
  pub xmr_atomic : ℤ

-- What the caller's oracle answers. The stress may be a fraction in the source; it is only compared, and
-- is a whole number here.
pub record Price : Type 0 where
  pub is_ok : Bool
  pub mid_e18 : ℕ
  pub sources : Option ℕ
  pub at : Option ℕ
  pub stress : Option ℕ

pub data Refusal : Type 0 where
  no_price few_sources stale moving unrealized_loss below_threshold : Refusal
  no_oracle no_baseline : Refusal

-- `mark` is present from the point on where the profit is computed; `unrealized` where a baseline
-- was given.
pub record Certificate : Type 0 where
  pub is_ok : Bool
  pub reason : Option Refusal
  pub profit : Option Profit
  pub mid_e18 : ℕ
  pub age_ms : ℕ
  pub stress : ℕ
  pub unrealized_atomic : Option ℤ
  pub unrealized_bps : Option ℤ

pub record Options : Type 0 where
  pub min_bps : Option ℤ
  pub fee_atomic : Option ℤ
  pub max_age_ms : Option ℕ
  pub max_stress : Option ℕ
  pub baseline : Option Certificate
  pub max_unrealized_loss_bps : Option ℕ

-- A refusal before anything was computed.
abbrev pub refuse : Refusal → Certificate
refuse why = record {
  is_ok = false;
  reason = some why;
  profit = none;
  mid_e18 = 0;
  age_ms = 0;
  stress = 0;
  unrealized_atomic = none;
  unrealized_bps = none;
}

-- `price.at ? Math.max(0, now - price.at) : 0`
abbrev pub age : ℕ → Option ℕ → ℕ
age now none = 0
age now (some at) = if at == 0 then 0 else now - at

-- `price.stress || 1`
abbrev pub stress_of : Option ℕ → ℕ
stress_of none = 1
stress_of (some n) = if n == 0 then 1 else n

-- The baseline that counts: one with a net result and a mid.
abbrev pub usable : Option Certificate → Option Profit
usable none = none
usable (some c) = if c.mid_e18 == 0 then none else c.profit

-- The last test, against the threshold.
unfoldable pub certify_threshold : ℤ → Profit → Certificate → Certificate
certify_threshold min_bps pr out =
    if leb_ℤ min_bps pr.net_bps
    then record out { is_ok = true; reason = none }
    else record out { is_ok = false; reason = some below_threshold }

-- The unrealised result against the baseline.
unfoldable pub certify_baseline : ℤ → ℕ → Option Profit → Profit → Certificate → Certificate
unfolding certify_threshold
certify_baseline min_bps max_loss none pr out = certify_threshold min_bps pr out
certify_baseline min_bps max_loss (some base) pr out =
    let unreal = pr.net_atomic -ℤ base.net_atomic in
    let bps = bps_of unreal pr.outlay_atomic in
    let out' = record out { unrealized_atomic = some unreal; unrealized_bps = some bps } in
    if ltb_ℤ bps (sub_ℕ 0 max_loss)
    then record out' { is_ok = false; reason = some unrealized_loss }
    else certify_threshold min_bps pr out'

-- From the point on where the price is trusted.
unfoldable pub certify_market : Terms → Bool → Price → Options → ℕ → Certificate
unfolding certify_baseline
certify_market terms role_is_a price opts now =
    let pr = party_profit terms.xno_raw terms.xmr_atomic role_is_a price.mid_e18 opts.fee_atomic in
    let out = record (refuse moving) {
      profit = some pr;
      mid_e18 = price.mid_e18;
      age_ms = age now price.at;
      stress = stress_of price.stress;
    } in
    if leb (with_default opts.max_stress 2) (stress_of price.stress)
    then out
    else certify_baseline (with_default opts.min_bps (pos 0))
        (with_default opts.max_unrealized_loss_bps 50) (usable opts.baseline) pr out

unfoldable pub certify : Terms → Bool → Option Price → Options → ℕ → Certificate
unfolding certify_market
certify terms role_is_a none opts now = refuse no_price
certify terms role_is_a (some price) opts now =
    if not price.is_ok
    then refuse no_price
    else if not (leb 2 (with_default price.sources 0))
    then refuse few_sources
    else if ltb (with_default opts.max_age_ms mid_max_age_ms_default) (age now price.at)
    then refuse stale
    else certify_market terms role_is_a price opts now

-- What the two parties keep between steps: the certificate that the deal was accepted on, and the
-- log of the certificates.
pub record Store : Type 0 where
  pub accept_cert : Option Certificate
  pub certs : List Certificate

-- `log.slice(-40)`
abbrev pub last_forty : List Certificate → List Certificate
last_forty log = drop (length log - 40) log

abbrev pub logged : Certificate → Store → Store
logged c s = record s { certs = last_forty (s.certs ++ c ∷ []) }

pub record Deps : Type 0 where
  pub oracle : Option (Option Price)
  pub fee_atomic : Option ℤ
  pub max_unrealized_loss_bps : Option ℕ
  pub max_stress : Option ℕ

-- The options that the gate passes on: no floor on the result unless the caller names one.
abbrev pub gate_options : Deps → Option ℤ → Certificate → Options
gate_options deps min_bps baseline = record {
  min_bps = some (with_default min_bps (negsuc 999_999_999));
  fee_atomic = deps.fee_atomic;
  max_age_ms = none;
  max_stress = deps.max_stress;
  baseline = some baseline;
  max_unrealized_loss_bps = deps.max_unrealized_loss_bps;
}

-- `oracle` is `none` where no oracle is supplied; its answer is `none` where the call threw. The
-- store is `none` where there is none.
unfoldable pub gate : Deps → Terms → Bool → Option ℤ → ℕ → Option Store → Certificate × Option Store
gate deps terms role_is_a min_bps now store = elim deps.oracle [
  | none ↦ (refuse no_oracle, store)
  | some price ↦ elim store [
    | none ↦ (refuse no_baseline, none)
    | some s ↦ elim s.accept_cert [
      | none ↦ (refuse no_baseline, some (logged (refuse no_baseline) s))
      | some baseline ↦
          let cert = certify terms role_is_a price (gate_options deps min_bps baseline) now in
          (cert, some (logged cert s))
    ]
  ]
]
