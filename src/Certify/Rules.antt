-- ===== src/Certify/Rules.antt =====
-- When a deal is certified, and what a certificate then promises.
use near_instant.Common.{
  ℕ, ◌+◌, ◌*◌, ◌≤◌, ◌<◌, ◌≡◌, ◌↔◌, refl, Bool, true, Option, none, some, arith, with_default, leb,
  Bool-cases, inl, inr,
}
use near_instant.Common.Int.{ℤ, pos, ◌-ℤ◌, ◌≤ℤ◌, sub_ℕ, pos_part, neg_part}
use near_instant.Profit.{Profit, party_profit, bps_of}
use near_instant.Profit.Bounds.{bps_of_sound}
use near_instant.Certify.{
  Terms, Price, Options, Certificate, age, stress_of, usable, mid_max_age_ms_default, certify,
  certify_market, certify_baseline,
}

-- The result of the party at the price of the moment.
abbrev pub result : Terms → Bool → Price → Options → Profit
result terms role_is_a price opts =
    party_profit terms.xno_raw terms.xmr_atomic role_is_a price.mid_e18 opts.fee_atomic

-- The unrealised loss against the baseline is within the limit; without a usable baseline there is
-- nothing to compare.
abbrev pub WithinLoss : Profit → Option Profit → ℕ → Type 0
WithinLoss pr none max_loss = Unit
WithinLoss pr (some base) max_loss =
    sub_ℕ 0 max_loss ≤ℤ bps_of (pr.net_atomic -ℤ base.net_atomic) pr.outlay_atomic

-- Everything that has to hold of a price for a deal to be certified.
pub record Certifies (terms : Terms) (role_is_a : Bool) (price : Price) (opts : Options) (now : ℕ)
    : Type 0 where
  pub trusted : price.is_ok ≡ true
  pub agreed : 2 ≤ with_default price.sources 0
  pub fresh : age now price.at ≤ with_default opts.max_age_ms mid_max_age_ms_default
  pub calm : stress_of price.stress < with_default opts.max_stress 2
  pub kept :
      WithinLoss
        (result terms role_is_a price opts)
        (usable opts.baseline)
        (with_default opts.max_unrealized_loss_bps 50)
  pub enough : with_default opts.min_bps (pos 0) ≤ℤ (result terms role_is_a price opts).net_bps

certify_baseline-ok :
    (min_bps : ℤ) (max_loss : ℕ) (base : Option Profit) (pr : Profit) (out : Certificate)
    → ((certify_baseline min_bps max_loss base pr out).is_ok ≡ true)
      ↔ (WithinLoss pr base max_loss × (min_bps ≤ℤ pr.net_bps))
unfolding certify_baseline
certify_baseline-ok min_bps max_loss none pr out = ground arith
certify_baseline-ok min_bps max_loss (some base) pr out = ground arith

certify_market-ok :
    (terms : Terms) (role_is_a : Bool) (price : Price) (opts : Options) (now : ℕ)
    → let pr = result terms role_is_a price opts in
      ((certify_market terms role_is_a price opts now).is_ok ≡ true) ↔ (
        (stress_of price.stress < with_default opts.max_stress 2)
        × WithinLoss pr (usable opts.baseline) (with_default opts.max_unrealized_loss_bps 50)
        × (with_default opts.min_bps (pos 0) ≤ℤ pr.net_bps))
unfolding certify_market
certify_market-ok terms role_is_a price opts now =
    let base =
      certify_baseline-ok (with_default opts.min_bps (pos 0))
        (with_default opts.max_unrealized_loss_bps 50) (usable opts.baseline)
        (result terms role_is_a price opts) _ in
    elim (Bool-cases (leb (with_default opts.max_stress 2) (stress_of price.stress))) [
      | inl wild ↦ ((λ h. absurd (ground arith)), λ h. absurd (ground arith))
      | inr calm ↦ (
        (λ h. let (a, b) = base.0 (rw calm at h) in (ground arith, a, b)),
        λ h. rw calm (base.1 (h.1, h.2)),
      )
    ]

-- A deal is certified exactly when the price is trusted, at least two sources agree on it, it is no
-- older than the limit, the market's stress is below the limit, the unrealised loss against the
-- baseline is within the limit, and the net result reaches the threshold.
pub certify-ok :
    (terms : Terms) (role_is_a : Bool) (price : Price) (opts : Options) (now : ℕ)
    → ((certify terms role_is_a (some price) opts now).is_ok ≡ true)
      ↔ Certifies terms role_is_a price opts now
unfolding certify
certify-ok terms role_is_a price opts now =
    let market = certify_market-ok terms role_is_a price opts now in
    (
      (λ h.
          let passed : (certify_market terms role_is_a price opts now).is_ok ≡ true =
            ground arith in
          let (calm, kept, enough) = market.0 passed in
          record {
            trusted = ground arith;
            agreed = ground arith;
            fresh = ground arith;
            calm = calm;
            kept = kept;
            enough = enough;
          }),
      (λ c. let passed = market.1 (c.calm, c.kept, c.enough) in ground arith),
    )

result-net_bps :
    (terms : Terms) (role_is_a : Bool) (price : Price) (opts : Options)
    → let pr = result terms role_is_a price opts in
      pr.net_bps ≡ bps_of pr.net_atomic pr.outlay_atomic
unfolding party_profit
result-net_bps terms role_is_a price opts = refl

-- A certified win is a win: under a positive threshold of `m` basis points, a certified deal has a
-- positive outlay and a net result of at least `m` parts in ten thousand of it, after the fee.
pub certify-profitable :
    (terms : Terms) (role_is_a : Bool) (price : Price) (opts : Options) (now m : ℕ)
    → opts.min_bps ≡ some (pos m)
    → 0 < m
    → (certify terms role_is_a (some price) opts now).is_ok ≡ true
    → let pr = result terms role_is_a price opts in
      (pos 1 ≤ℤ pr.outlay_atomic)
      × (m * pos_part pr.outlay_atomic + neg_part pr.net_atomic * 10_000
          ≤ pos_part pr.net_atomic * 10_000)
certify-profitable terms role_is_a price opts now m threshold p h =
    let c = (certify-ok terms role_is_a price opts now).0 h in
    let pr = result terms role_is_a price opts in
    let at_threshold : pos m ≤ℤ pr.net_bps = rw threshold at c.enough in
    bps_of_sound pr.net_atomic pr.outlay_atomic m p
      (rw (result-net_bps terms role_is_a price opts) at at_threshold)

Bool-ext : (a b : Bool) → (a ≡ true → b ≡ true) → (b ≡ true → a ≡ true) → a ≡ b
Bool-ext a b f g = ground (arith, f, g)

-- What certifies at no age certifies at any price with the same other fields that has none.
Certifies-age :
    (terms : Terms) (role_is_a : Bool) (price : Price) (opts : Options) (now : ℕ) (at' : Option ℕ)
    → age now at' ≡ 0
    → Certifies terms role_is_a price opts now
    → Certifies terms role_is_a (record price { at = at' }) opts now
Certifies-age terms role_is_a price opts now at' e c = record {
  trusted = c.trusted;
  agreed = c.agreed;
  fresh = omega arith;
  calm = c.calm;
  kept = c.kept;
  enough = c.enough;
}

-- A price that carries no time is never stale: it is certified exactly when the same price stamped
-- with the present moment is, whatever the limit on its age.
pub certify-untimed :
    (terms : Terms) (role_is_a : Bool) (price : Price) (opts : Options) (now : ℕ)
    → (certify terms role_is_a (some (record price { at = none })) opts now).is_ok
      ≡ (certify terms role_is_a (some (record price { at = some now })) opts now).is_ok
certify-untimed terms role_is_a price opts now =
    let untimed : Price = record price { at = none } in
    let stamped : Price = record price { at = some now } in
    let no_age : age now (some now) ≡ 0 = ground arith in
    Bool-ext _ _
      (λ h. (certify-ok terms role_is_a stamped opts now).1 (
        Certifies-age terms role_is_a untimed opts now (some now) no_age
          ((certify-ok terms role_is_a untimed opts now).0 h)))
      (λ h. (certify-ok terms role_is_a untimed opts now).1 (
        Certifies-age terms role_is_a stamped opts now none refl
          ((certify-ok terms role_is_a stamped opts now).0 h)))
