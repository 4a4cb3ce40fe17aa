-- ===== src/Wallet/Monero/Select.antt =====
-- The choice of inputs for a Monero payment: the filter, the order and the loop of xmrSend in
-- web/wallet.js.
pub mod Cover
use near_instant.Common.{
  ℕ, zero, suc, ◌+◌, ◌-◌, ◌*◌, Bool, true, false, not, ◌&&◌, ◌||◌, List, [], ◌∷◌, ltb, leb, ◌==◌,
  if◌then◌else◌, length, sum, map, max, Result, ok, err,
}

-- An output that the view key found; `output` is what the worker needs of it.
pub record Output : Type 0 where
  pub index : ℕ
  pub amount : ℕ
  pub block : ℕ
  pub output : List ℕ

-- XMR_UNLOCK, FEE_BASE, FEE_PER_INPUT and MAX_INPUTS.
abbrev pub xmr_unlock : ℕ
xmr_unlock = 10

abbrev pub fee_base : ℕ
fee_base = 100_000_000

abbrev pub fee_per_input : ℕ
fee_per_input = 30_000_000

abbrev pub max_inputs : ℕ
max_inputs = 16

abbrev pub has_index : ℕ → List ℕ → Bool
has_index i [] = false
has_index i (j ∷ js) = (i == j) || has_index i js

-- tip - o.block >= XMR_UNLOCK, where the difference may be negative
abbrev pub is_unlocked : ℕ → Output → Bool
is_unlocked tip o = leb (o.block + xmr_unlock) tip

abbrev pub is_spendable : List ℕ → ℕ → Output → Bool
is_spendable spent tip o = not (has_index o.index spent) && is_unlocked tip o

unfoldable pub spendable_of : List ℕ → ℕ → List Output → List Output
spendable_of spent tip [] = []
spendable_of spent tip (o ∷ os) =
    let rest = spendable_of spent tip os in if is_spendable spent tip o then o ∷ rest else rest

-- The comparator never answers zero: of equal amounts the one that is inserted comes first.
unfoldable pub insert : Output → List Output → List Output
insert o [] = o ∷ []
insert o (p ∷ ps) = let rest = p ∷ insert o ps in if ltb p.amount o.amount then rest else o ∷ p ∷ ps

unfoldable pub sort_onto : List Output → List Output → List Output
unfolding insert
sort_onto sorted [] = sorted
sort_onto sorted (o ∷ os) = sort_onto (insert o sorted) os

abbrev pub total_of : List Output → ℕ
total_of [] = 0
total_of (o ∷ os) = o.amount + total_of os

abbrev pub fees : ℕ → ℕ
fees inputs = fee_base + fee_per_input * inputs

-- The loop over the outputs: `taken` and `sum` are the count and the sum of those chosen so far.
unfoldable pub choose : ℕ → ℕ → ℕ → List Output → List Output
choose amount taken sum_so_far [] = []
choose amount taken sum_so_far (o ∷ os) =
    let rest = choose amount (taken + 1) (sum_so_far + o.amount) os in
    o
    ∷ (if leb (amount + fees (taken + 1)) (sum_so_far + o.amount) || leb max_inputs (taken + 1)
        then []
        else rest)

pub data SelectError : Type 0 where
  too_many_small not_enough : SelectError

abbrev pub need : ℕ → List Output → ℕ
need amount chosen = amount + fees (max 1 (length chosen))

abbrev pub is_empty : List Output → Bool
is_empty [] = true
is_empty (o ∷ os) = false

abbrev pub checked_choice : ℕ → List Output → Result SelectError (List Output)
checked_choice amount chosen =
    if is_empty chosen || ltb (total_of chosen) (need amount chosen)
    then err (if leb max_inputs (length chosen) then too_many_small else not_enough)
    else ok chosen

-- The inputs for an amount, or why there are none.
unfoldable pub select : List ℕ → ℕ → List Output → ℕ → Result SelectError (List Output)
unfolding choose spendable_of sort_onto
select spent tip outputs amount =
    checked_choice amount (choose amount 0 0 (sort_onto [] (spendable_of spent tip outputs)))
