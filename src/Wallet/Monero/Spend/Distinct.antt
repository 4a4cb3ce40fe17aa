-- ===== src/Wallet/Monero/Spend/Distinct.antt =====
-- The inputs of a payment are different outputs: xmrSend of web/wallet.js.
use mathlib.Core.Path.{subst}
use near_instant.Common.{
  ℕ, ◌+◌, ◌≡◌, refl, Bool, true, false, ◌||◌, List, [], ◌∷◌, ltb, leb, ◌==◌, if◌then◌else◌,
  Bool-cases, inl, inr, ok, arith,
}
use near_instant.Wallet.Monero.Select.{
  Output, has_index, is_spendable, spendable_of, insert, sort_onto, choose, checked_choice, select,
  fees, max_inputs,
}
use near_instant.Wallet.Monero.Scan.{indices}
use near_instant.Wallet.Monero.Scan.Keeping.{IsDistinct}

spendable_of-absent :
    (spent : List ℕ) (tip i : ℕ) (os : List Output)
    → has_index i (indices os) ≡ false
    → has_index i (indices (spendable_of spent tip os)) ≡ false
unfolding spendable_of
spendable_of-absent spent tip i [] h = refl
spendable_of-absent spent tip i (o ∷ os) h = ground (arith, spendable_of-absent spent tip i os)

spendable_of-IsDistinct :
    (spent : List ℕ) (tip : ℕ) (os : List Output)
    → IsDistinct os
    → IsDistinct (spendable_of spent tip os)
unfolding spendable_of
spendable_of-IsDistinct spent tip [] h = tt
spendable_of-IsDistinct spent tip (o ∷ os) h = elim (Bool-cases (is_spendable spent tip o)) [
  | inl e ↦
      rw e (spendable_of-absent spent tip o.index os h.0, spendable_of-IsDistinct spent tip os h.1)
  | inr e ↦ rw e (spendable_of-IsDistinct spent tip os h.1)
]

insert-index :
    (o : Output) (ps : List Output) (i : ℕ)
    → has_index i (indices (insert o ps)) ≡ (i == o.index) || has_index i (indices ps)
unfolding insert
insert-index o [] i = refl
insert-index o (p ∷ ps) i = ground (arith, insert-index o ps i)

insert-IsDistinct :
    (o : Output) (ps : List Output)
    → has_index o.index (indices ps) ≡ false
    → IsDistinct ps
    → IsDistinct (insert o ps)
unfolding insert
insert-IsDistinct o [] h k = (refl, tt)
insert-IsDistinct o (p ∷ ps) h k = elim (Bool-cases (ltb p.amount o.amount)) [
  | inl e ↦
      rw e (ground (arith, insert-index o ps p.index), insert-IsDistinct o ps (ground arith) k.1)
  | inr e ↦ rw e (h, k)
]

-- Two lists of outputs share no index.
abbrev Apart : List Output → List Output → Type 0
Apart [] ps = Unit {0}
Apart (o ∷ os) ps = (has_index o.index (indices ps) ≡ false) × Apart os ps

Apart-insert :
    (o : Output) (os ps : List Output)
    → has_index o.index (indices os) ≡ false
    → Apart os ps
    → Apart os (insert o ps)
Apart-insert o [] ps h k = tt
Apart-insert o (p ∷ os) ps h k =
    (ground (arith, insert-index o ps p.index), Apart-insert o os ps (ground arith) k.1)

sort_onto-IsDistinct :
    (os sorted : List Output)
    → IsDistinct os
    → IsDistinct sorted
    → Apart os sorted
    → IsDistinct (sort_onto sorted os)
unfolding sort_onto
sort_onto-IsDistinct [] sorted h k a = k
sort_onto-IsDistinct (o ∷ os) sorted h k a =
    sort_onto-IsDistinct os (insert o sorted) h.1 (insert-IsDistinct o sorted a.0 k)
      (Apart-insert o os sorted h.0 a.1)

Apart-nil : (os : List Output) → Apart os []
Apart-nil [] = tt
Apart-nil (o ∷ os) = (refl, Apart-nil os)

stop_absent :
    (b : Bool) (i : ℕ) (rest : List Output)
    → has_index i (indices rest) ≡ false
    → has_index i (indices (if b then [] else rest)) ≡ false
stop_absent true i rest h = refl
stop_absent false i rest h = h

stop-IsDistinct :
    (b : Bool) (rest : List Output) → IsDistinct rest → IsDistinct (if b then [] else rest)
stop-IsDistinct true rest h = tt
stop-IsDistinct false rest h = h

choose_absent :
    (amount taken s i : ℕ) (os : List Output)
    → has_index i (indices os) ≡ false
    → has_index i (indices (choose amount taken s os)) ≡ false
unfolding choose
choose_absent amount taken s i [] h = refl
choose_absent amount taken s i (o ∷ os) h =
    let full = leb (amount + fees (taken + 1)) (s + o.amount) || leb max_inputs (taken + 1) in
    let rest = choose amount (taken + 1) (s + o.amount) os in
    let later : has_index i (indices (if full then [] else rest)) ≡ false =
      stop_absent full i rest
        (choose_absent amount (taken + 1) (s + o.amount) i os (ground arith)) in
    ground arith

choose-IsDistinct :
    (amount taken s : ℕ) (os : List Output) → IsDistinct os → IsDistinct (choose amount taken s os)
unfolding choose
choose-IsDistinct amount taken s [] h = tt
choose-IsDistinct amount taken s (o ∷ os) h = (
  stop_absent _ o.index _ (choose_absent amount (taken + 1) (s + o.amount) o.index os h.0),
  stop-IsDistinct _ _ (choose-IsDistinct amount (taken + 1) (s + o.amount) os h.1),
)

checked_choice-IsDistinct :
    (amount : ℕ) (chosen c : List Output)
    → IsDistinct chosen
    → checked_choice amount chosen ≡ ok c
    → IsDistinct c
checked_choice-IsDistinct amount [] c h e = absurd (ground arith)
checked_choice-IsDistinct amount (o ∷ cs) c h e =
    let same : o ∷ cs ≡ c = ground arith in subst IsDistinct same h

pub select-IsDistinct :
    (spent : List ℕ) (tip : ℕ) (outputs : List Output) (amount : ℕ) (chosen : List Output)
    → IsDistinct outputs
    → select spent tip outputs amount ≡ ok chosen
    → IsDistinct chosen
unfolding select
select-IsDistinct spent tip outputs amount chosen h e =
    let spendable = spendable_of spent tip outputs in
    checked_choice-IsDistinct amount (choose amount 0 0 (sort_onto [] spendable)) chosen
      (choose-IsDistinct amount 0 0 _ (
        sort_onto-IsDistinct spendable [] (spendable_of-IsDistinct spent tip outputs h) tt
          (Apart-nil spendable)))
      e
