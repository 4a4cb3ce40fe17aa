-- ===== src/Wallet/Monero/Spend/Once.antt =====
-- Payments and scans one after another: xmrSend, xmrRefresh and xmrRescanFrom of web/wallet.js.
use mathlib.Core.Path.{subst}
use near_instant.Common.{
  ℕ, ◌≡◌, refl, ap, ◌∙◌, Bool, true, false, ◌||◌, List, [], ◌∷◌, ◌++◌, Option, none, some, ◌==◌,
  ==_iff, All, Bool-cases, inl, inr, arith,
}
use near_instant.Wallet.Amounts.{Text}
use near_instant.Wallet.Monero.Select.{Output, has_index}
use near_instant.Wallet.Monero.Scan.{Scanned, indices, refresh, rescan_from}
use near_instant.Wallet.Monero.Scan.Keeping.{IsDistinct, refresh-Keeps}
use near_instant.Wallet.Monero.Spend.{
  Sent, XmrCall, pays, refreshes, rescans, Done, pay_done, refresh_done, rescan_done, max_chunks,
  xmr_send, xmr_calls,
}
use near_instant.Wallet.Monero.Spend.Phases.{Phases, xmr_send-IsOrderly}

abbrev pub inputs_of : Option (List Output × List ℕ) → List ℕ
inputs_of none = []
inputs_of (some (inputs, tx)) = indices inputs

has_index_either :
    (i : ℕ) (xs ys : List ℕ) → has_index i (xs ++ ys) ≡ has_index i xs || has_index i ys
has_index_either i [] ys = refl
has_index_either i (x ∷ xs) ys = ground (arith, has_index_either i xs ys)

unmarked_absent :
    (i : ℕ) (marks : List ℕ) (inputs : List Output)
    → All (λ o. has_index o.index marks ≡ false) inputs
    → has_index i marks ≡ true
    → has_index i (indices inputs) ≡ false
unmarked_absent i marks [] h k = refl
unmarked_absent i marks (o ∷ os) h k = elim (Bool-cases (i == o.index)) [
  | inl same ↦
      let here : has_index o.index marks ≡ true =
        subst (λ j. has_index j marks ≡ true) ((==_iff i o.index).0 same) k in
      absurd (differ here h.0)
  | inr other ↦ ground (arith, unmarked_absent i marks os h.1 k)
]
  where
    differ : {b : Bool} → b ≡ true → b ≡ false → ⊥
    differ e f = cc

module _ (st : Scanned) (amount_text : Text) where
  -- What is marked is no input now, and stays marked.
  marked_stays :
      (i : ℕ) (s : Sent) (o : Option (List Output × List ℕ))
      → Phases st amount_text s o
      → has_index i st.spent ≡ true
      → (has_index i (inputs_of o) ≡ false) × (has_index i s.state.spent ≡ true)
  marked_stays i s none h k = (refl, ap (has_index i) h.1 ∙ k)
  marked_stays i s (some (inputs, tx)) (broadcasts, e, same, marks, (amount, parsed, positive, c))
        k =
      (
        unmarked_absent i st.spent inputs c.unmarked k,
        ap (has_index i) marks ∙ ground (arith, has_index_either i st.spent (indices inputs)),
      )

  -- The inputs are marked.
  inputs_marked :
      (i : ℕ) (s : Sent) (o : Option (List Output × List ℕ))
      → Phases st amount_text s o
      → has_index i (inputs_of o) ≡ true
      → has_index i s.state.spent ≡ true
  inputs_marked i s none h k = absurd (ground arith)
  inputs_marked i s (some (inputs, tx)) (broadcasts, e, same, marks, (amount, parsed, positive, c))
        k =
      ap (has_index i) marks ∙ ground (arith, has_index_either i st.spent (indices inputs))

-- No payment of these has the input, up to the first rescan.
abbrev pub Without : ℕ → List Done → Type 0
Without i [] = Unit {0}
Without i (pay_done s ∷ ds) = (has_index i (inputs_of s.signed) ≡ false) × Without i ds
Without i (refresh_done r ∷ ds) = Without i ds
Without i (rescan_done r ∷ ds) = Unit {0}

later_Without :
    (i : ℕ) (calls : List XmrCall) (st : Scanned) (moment : ℕ)
    → IsDistinct st.outputs
    → has_index i st.spent ≡ true
    → Without i (xmr_calls st calls moment)
unfolding xmr_calls
later_Without i [] st moment d k = tt
later_Without i (pays p ∷ calls) st moment d k =
    let s = xmr_send p.payer st p.dest p.amount_text moment in
    let orderly = xmr_send-IsOrderly p.payer st p.amount_text p.dest moment d in
    let (absent, stays) = marked_stays st p.amount_text i s s.signed orderly.phases k in
    (absent, later_Without i calls s.state s.moment (orderly.once d) stays)
later_Without i (refreshes w ∷ calls) st moment d k =
    let r = refresh w max_chunks (some st) moment in
    let keeps = refresh-Keeps w max_chunks (some st) moment in
    later_Without i calls r.state r.cursor.moment (keeps.once d) (ap (has_index i) keeps.marks ∙ k)
later_Without i (rescans w height ∷ calls) st moment d k = tt

-- No payment has an input of an earlier one, unless a rescan came between.
abbrev pub IsOnce : List Done → Type 0
IsOnce [] = Unit {0}
IsOnce (pay_done s ∷ ds) =
    ((i : ℕ) → has_index i (inputs_of s.signed) ≡ true → Without i ds) × IsOnce ds
IsOnce (refresh_done r ∷ ds) = IsOnce ds
IsOnce (rescan_done r ∷ ds) = IsOnce ds

-- Between two rescans a wallet never signs an output away twice. Of the payments, refreshes and rescans
-- that it makes one after another, whichever nodes fail and whether or not a broadcast succeeds, no two
-- payments that sign a transaction, with no rescan between them, have an input in common, if no index
-- stands twice in what is stored at first and every save succeeds. A rescan clears the marks.
pub xmr_calls-IsOnce :
    (calls : List XmrCall) (st : Scanned) (moment : ℕ)
    → IsDistinct st.outputs
    → IsOnce (xmr_calls st calls moment)
unfolding xmr_calls rescan_from
xmr_calls-IsOnce [] st moment d = tt
xmr_calls-IsOnce (pays p ∷ calls) st moment d =
    let s = xmr_send p.payer st p.dest p.amount_text moment in
    let orderly = xmr_send-IsOrderly p.payer st p.amount_text p.dest moment d in
    (
      λ i k.
          later_Without i calls s.state s.moment (orderly.once d)
            (inputs_marked st p.amount_text i s s.signed orderly.phases k),
      xmr_calls-IsOnce calls s.state s.moment (orderly.once d),
    )
xmr_calls-IsOnce (refreshes w ∷ calls) st moment d =
    let r = refresh w max_chunks (some st) moment in
    xmr_calls-IsOnce calls r.state r.cursor.moment
      ((refresh-Keeps w max_chunks (some st) moment).once d)
xmr_calls-IsOnce (rescans w height ∷ calls) st moment d =
    let r = rescan_from w max_chunks height moment in
    let cleared : Scanned = record {
      restore = some height;
      scanned_to = some height;
      outputs = [];
      spent = [];
    } in
    xmr_calls-IsOnce calls r.state r.cursor.moment
      ((refresh-Keeps w max_chunks (some cleared) moment).once tt)
