-- ===== src/Certify/Gates.antt =====
-- The gate before an irreversible step: what it lets through, and what it writes down.
use near_instant.Common.{
  ℕ, zero, suc, ◌-◌, ◌≤◌, ◌≡◌, ◌≢◌, refl, inl, inr, Bool, true, List, [], ◌∷◌, ◌++◌, Option, none,
  some, arith, length, length-append, length-drop, drop, Option-cases,
}
use near_instant.Common.Int.{ℤ}
use near_instant.Certify.{
  Terms, Price, Certificate, certify, Store, Deps, gate_options, gate, logged, last_forty,
}
use near_instant.Certify.Rules.{Certifies, certify-ok}

silent :
    (deps : Deps) (terms : Terms) (role_is_a : Bool) (min_bps : Option ℤ) (now : ℕ)
    (store : Option Store)
    → deps.oracle ≡ some none
    → (gate deps terms role_is_a min_bps now store).0.is_ok ≢ true
unfolding gate certify
silent deps terms role_is_a min_bps now store e h = ground arith

length-last_forty : (log : List Certificate) → length (last_forty log) ≤ 40
length-last_forty log = omega (arith, length-drop (length log - 40) log)

-- What is left after a drop still ends as the list did, if anything is left.
drop-append :
    (n : ℕ) (xs : List Certificate) (c : Certificate)
    → n ≤ length xs
    → drop n (xs ++ c ∷ []) ≡ drop n xs ++ c ∷ []
drop-append zero xs c h = refl
drop-append (suc n) [] c h = absurd (omega arith)
drop-append (suc n) (x ∷ xs) c h = drop-append n xs c (omega arith)

-- What logging does to a store.
logged_lem :
    (c : Certificate) (s : Store)
    → (front : List Certificate) × ((logged c s).certs ≡ front ++ c ∷ [])
      × (length (logged c s).certs ≤ 40)
logged_lem c s =
    let all = s.certs ++ c ∷ [] in
    (
      drop (length all - 40) s.certs,
      drop-append (length all - 40) s.certs c (omega (arith, length-append s.certs (c ∷ []))),
      length-last_forty all,
    )

-- A gate that lets a step through had an oracle that answered, a store, and the certificate that the
-- deal was accepted on, and the price of the moment certifies the deal against that certificate.
pub gate-ok :
    (deps : Deps) (terms : Terms) (role_is_a : Bool) (min_bps : Option ℤ) (now : ℕ)
    (store : Option Store)
    → (gate deps terms role_is_a min_bps now store).0.is_ok ≡ true
    → (price : Price) × (s : Store) × (baseline : Certificate) × (deps.oracle ≡ some (some price))
      × (store ≡ some s)
      × (s.accept_cert ≡ some baseline)
      × Certifies terms role_is_a price (gate_options deps min_bps baseline) now
unfolding gate
gate-ok deps terms role_is_a min_bps now store h = elim (Option-cases deps.oracle) [
  | inl e ↦ absurd (ground arith)
  | inr (none, e) ↦ absurd (silent deps terms role_is_a min_bps now store e h)
  | inr (some price, e) ↦ elim (Option-cases store) [
    | inl f ↦ absurd (ground arith)
    | inr (s, f) ↦ elim (Option-cases s.accept_cert) [
      | inl g ↦ absurd (ground arith)
      | inr (baseline, g) ↦ (
        price,
        s,
        baseline,
        e,
        f,
        g,
        (certify-ok terms role_is_a price (gate_options deps min_bps baseline) now).0
            (ground arith),
      )
    ]
  ]
]

-- The log of a store holds at most forty certificates after a gate, the last of them the one that
-- was returned, and the certificate that the deal was accepted on stays. Without an oracle nothing
-- is written.
pub gate-log :
    (deps : Deps) (terms : Terms) (role_is_a : Bool) (min_bps : Option ℤ) (now : ℕ) (s : Store)
    → deps.oracle ≢ none
    → (s' : Store) × (front : List Certificate) × ((gate deps terms role_is_a min_bps now
          (some s)).1
        ≡ some s')
      × (s'.accept_cert ≡ s.accept_cert)
      × (s'.certs ≡ front ++ (gate deps terms role_is_a min_bps now (some s)).0 ∷ [])
      × (length s'.certs ≤ 40)
unfolding gate
gate-log deps terms role_is_a min_bps now s some_oracle = elim (Option-cases deps.oracle) [
  | inl e ↦ absurd (some_oracle e)
  | inr (price, e) ↦
      let c = (gate deps terms role_is_a min_bps now (some s)).0 in
      let (front, ends, short) = logged_lem c s in
      (
        logged c s,
        front,
        elim (Option-cases s.accept_cert) [ inl g ↦ ground arith | inr (b, g) ↦ ground arith ],
        refl,
        ends,
        short,
      )
]
