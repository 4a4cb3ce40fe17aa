-- ===== src/Wallet/Monero/Select/Cover.antt =====
-- What the choice of inputs guarantees: xmrSend of web/wallet.js.
use mathlib.Core.Path.{subst}
use near_instant.Common.{
  ℕ, suc, ◌+◌, ◌≤◌, ◌<◌, ◌≡◌, ◌⊎◌, refl, ap, ◌∙◌, Bool, true, false, ◌||◌, List, [], ◌∷◌, ltb, leb,
  if◌then◌else◌, Bool-cases, inl, inr, length, max, Result, ok, err, All, arith,
}
use near_instant.Wallet.Monero.Select.{
  Output, is_spendable, has_index, spendable_of, insert, sort_onto, total_of, fees, choose,
  SelectError, too_many_small, not_enough, need, checked_choice, select, max_inputs,
}

module _ (P : Output → Type 0) where
  spendable_of-All :
      (spent : List ℕ) (tip : ℕ) (os : List Output)
      → All P os
      → All (λ o. P o × (is_spendable spent tip o ≡ true)) (spendable_of spent tip os)
  unfolding spendable_of
  spendable_of-All spent tip [] h = tt
  spendable_of-All spent tip (o ∷ os) h = elim (Bool-cases (is_spendable spent tip o)) [
    | inl e ↦ rw e ((h.0, e), spendable_of-All spent tip os h.1)
    | inr e ↦ rw e (spendable_of-All spent tip os h.1)
  ]

  insert-All : (o : Output) (ps : List Output) → P o → All P ps → All P (insert o ps)
  unfolding insert
  insert-All o [] h k = (h, tt)
  insert-All o (p ∷ ps) h k = elim (Bool-cases (ltb p.amount o.amount)) [
    | inl e ↦ rw e (k.0, insert-All o ps h k.1)
    | inr e ↦ rw e (h, k)
  ]

  sort_onto-All : (os sorted : List Output) → All P sorted → All P os → All P (sort_onto sorted os)
  unfolding sort_onto
  sort_onto-All [] sorted h k = h
  sort_onto-All (o ∷ os) sorted h k =
      sort_onto-All os (insert o sorted) (insert-All o sorted k.0 h) k.1

  choose-All : (amount taken s : ℕ) (os : List Output) → All P os → All P (choose amount taken s os)
  unfolding choose
  choose-All amount taken s [] h = tt
  choose-All amount taken s (o ∷ os) h = (
    h.0,
    stop (leb (amount + fees (taken + 1)) (s + o.amount) || leb max_inputs (taken + 1)) _
        (choose-All amount (taken + 1) (s + o.amount) os h.1),
  )
    where
      stop : (b : Bool) (rest : List Output) → All P rest → All P (if b then [] else rest)
      stop true rest k = tt
      stop false rest k = k

insert-total : (o : Output) (ps : List Output) → total_of (insert o ps) ≡ o.amount + total_of ps
unfolding insert
insert-total o [] = refl
insert-total o (p ∷ ps) = ground (arith, insert-total o ps)

insert-length : (o : Output) (ps : List Output) → length (insert o ps) ≡ suc (length ps)
unfolding insert
insert-length o [] = refl
insert-length o (p ∷ ps) = ground (arith, insert-length o ps)

sort_onto-total :
    (os sorted : List Output) → total_of (sort_onto sorted os) ≡ total_of sorted + total_of os
unfolding sort_onto
sort_onto-total [] sorted = omega arith
sort_onto-total (o ∷ os) sorted =
    omega (arith, sort_onto-total os (insert o sorted), insert-total o sorted)

sort_onto-length :
    (os sorted : List Output) → length (sort_onto sorted os) ≡ length sorted + length os
unfolding sort_onto
sort_onto-length [] sorted = omega arith
sort_onto-length (o ∷ os) sorted =
    omega (arith, sort_onto-length os (insert o sorted), insert-length o sorted)

-- The loop stops with the amount and the fees covered, with sixteen inputs, or with every output.
abbrev Stops : ℕ → ℕ → ℕ → List Output → List Output → Type 0
Stops amount taken s os chosen =
    (length chosen + taken ≤ 16)
    × ((amount + fees (taken + length chosen) ≤ s + total_of chosen)
        ⊎ ((length chosen + taken ≡ 16) ⊎ (chosen ≡ os)))

Stops-step :
    (amount taken s : ℕ) (o : Output) (os rest : List Output) (covered full : Bool)
    → taken < 16
    → leb (amount + fees (taken + 1)) (s + o.amount) ≡ covered
    → leb max_inputs (taken + 1) ≡ full
    → (taken + 1 < 16 → Stops amount (taken + 1) (s + o.amount) os rest)
    → Stops amount taken s (o ∷ os) (o ∷ (if covered || full then [] else rest))
Stops-step amount taken s o os rest true full h c f ih = (omega arith, inl (ground arith))
Stops-step amount taken s o os rest false true h c f ih = (omega arith, inr (inl (ground arith)))
Stops-step amount taken s o os rest false false h c f ih =
    let below : taken + 1 < 16 = ground arith in
    let (bound, ends) = ih below in
    (
      omega arith,
      elim ends [
        | inl paid ↦ inl (omega arith)
        | inr (inl full_up) ↦ inr (inl (omega arith))
        | inr (inr every) ↦ inr (inr (ap (λ x. o ∷ x) every))
      ],
    )

choose-Stops :
    (amount taken s : ℕ) (os : List Output)
    → taken < 16
    → Stops amount taken s os (choose amount taken s os)
unfolding choose
choose-Stops amount taken s [] h = (omega arith, inr (inr refl))
choose-Stops amount taken s (o ∷ os) h =
    Stops-step amount taken s o os (choose amount (taken + 1) (s + o.amount) os)
      (leb (amount + fees (taken + 1)) (s + o.amount)) (leb max_inputs (taken + 1)) h refl refl
      (λ below. choose-Stops amount (taken + 1) (s + o.amount) os below)

-- An output of the wallet that may be spent: it is not marked spent, and ten blocks deep.
abbrev pub MaySpend : (Output → Type 0) → List ℕ → ℕ → Output → Type 0
MaySpend P spent tip o = P o × (has_index o.index spent ≡ false) × (o.block + 10 ≤ tip)

may_spend :
    (P : Output → Type 0) (spent : List ℕ) (tip : ℕ) (os : List Output)
    → All (λ o. P o × (is_spendable spent tip o ≡ true)) os
    → All (MaySpend P spent tip) os
may_spend P spent tip [] h = tt
may_spend P spent tip (o ∷ os) h =
    ((h.0.0, ground (arith, h.0.1), ground (arith, h.0.1)), may_spend P spent tip os h.1)

-- What a choice that is not empty comes to, or why there is none.
abbrev pub Selects : ℕ → List Output → Result SelectError (List Output) → Type 0
Selects amount spendable (ok chosen) =
    (1 ≤ length chosen) × (length chosen ≤ 16) × (amount + fees (length chosen) ≤ total_of chosen)
Selects amount spendable (err not_enough) =
    total_of spendable < amount + fees (max 1 (length spendable))
Selects amount spendable (err too_many_small) = 16 ≤ length spendable

short_choice :
    (amount : ℕ) (os spendable chosen : List Output) (full : Bool)
    → Stops amount 0 0 os chosen
    → total_of chosen < need amount chosen
    → total_of os ≡ total_of spendable
    → length os ≡ length spendable
    → length chosen ≤ length os
    → leb max_inputs (length chosen) ≡ full
    → Selects amount spendable (err (if full then too_many_small else not_enough))
short_choice amount os spendable chosen true (bound, ends) short same count fewer f = ground arith
short_choice amount os spendable [] false (bound, inl paid) short same count fewer f =
    absurd (omega arith)
short_choice amount os spendable (o ∷ cs) false (bound, inl paid) short same count fewer f =
    absurd (omega arith)
short_choice amount os spendable chosen false (bound, inr (inl full_up)) short same count fewer f =
    absurd (ground arith)
short_choice amount os spendable chosen false (bound, inr (inr every)) short same count fewer f =
    omega (arith, ap total_of every, ap length every)

checked_choice-Selects :
    (amount : ℕ) (os spendable chosen : List Output)
    → Stops amount 0 0 os chosen
    → total_of os ≡ total_of spendable
    → length os ≡ length spendable
    → length chosen ≤ length os
    → Selects amount spendable (checked_choice amount chosen)
checked_choice-Selects amount os spendable [] stops same count fewer =
    short_choice amount os spendable [] false stops (omega arith) same count fewer refl
checked_choice-Selects amount os spendable (o ∷ cs) stops same count fewer =
    elim (Bool-cases (ltb (total_of (o ∷ cs)) (need amount (o ∷ cs)))) [
      | inl short ↦ rw short (
          short_choice amount os spendable (o ∷ cs) (leb max_inputs (length (o ∷ cs))) stops
            (ground arith) same count fewer refl)
      | inr enough ↦ rw enough (omega arith, omega (arith, stops.0), ground arith)
    ]

choose_fewer :
    (amount taken s : ℕ) (os : List Output) → length (choose amount taken s os) ≤ length os
unfolding choose
choose_fewer amount taken s [] = omega arith
choose_fewer amount taken s (o ∷ os) =
    stop (leb (amount + fees (taken + 1)) (s + o.amount) || leb max_inputs (taken + 1)) _
      (choose_fewer amount (taken + 1) (s + o.amount) os)
  where
    stop :
        (b : Bool) (rest : List Output)
        → length rest ≤ length os
        → suc (length (if b then [] else rest)) ≤ suc (length os)
    stop true rest k = omega arith
    stop false rest k = omega arith

-- The inputs of a payment cover it, or it is refused for a reason. Inputs that are chosen are between
-- one and sixteen outputs whose sum covers the amount and the fee reserve for that many; they are not
-- marked spent, ten blocks deep, and as `P` if the wallet's outputs are. `not_enough` is answered only
-- if all that may be spent together does not cover the amount and its fees, and `too_many_small` only
-- if at least sixteen outputs may be spent.
pub select-Selects :
    (P : Output → Type 0) (spent : List ℕ) (tip : ℕ) (outputs : List Output) (amount : ℕ)
    → All P outputs
    → Selects amount (spendable_of spent tip outputs) (select spent tip outputs amount)
      × ((chosen : List Output)
          → select spent tip outputs amount ≡ ok chosen
          → All (MaySpend P spent tip) chosen)
unfolding select
select-Selects P spent tip outputs amount h =
    let spendable = spendable_of spent tip outputs in
    let os = sort_onto [] spendable in
    let chosen = choose amount 0 0 os in
    (
      checked_choice-Selects amount os spendable chosen (choose-Stops amount 0 0 os (omega arith))
          (sort_onto-total spendable [] ∙ omega arith) (sort_onto-length spendable [] ∙ omega arith)
          (choose_fewer amount 0 0 os),
      λ c e. subst (All (MaySpend P spent tip)) (chosen_is amount chosen c e) (
          may_spend P spent tip chosen (
            choose-All _ amount 0 0 os
              (sort_onto-All _ spendable [] tt (spendable_of-All P spent tip outputs h)))),
    )
  where
    chosen_is :
        (amount : ℕ) (chosen c : List Output) → checked_choice amount chosen ≡ ok c → chosen ≡ c
    chosen_is amount [] c e = absurd (ground arith)
    chosen_is amount (o ∷ cs) c e = ground arith
