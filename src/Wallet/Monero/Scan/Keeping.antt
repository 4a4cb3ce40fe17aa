-- ===== src/Wallet/Monero/Scan/Keeping.antt =====
-- What a scan keeps of the wallet's outputs: xmrRefresh of web/wallet.js.
use mathlib.Core.List.{append_assoc, append-nil}
use near_instant.Common.{
  ℕ, zero, suc, ◌+◌, ◌≤◌, ◌≡◌, refl, ap, sym, ◌∙◌, false, ◌||◌, List, [], ◌∷◌, ◌++◌, Option, none,
  some, leb, ◌==◌, Bool-cases, inl, inr, with_default, arith,
}
use near_instant.Wallet.Monero.Select.{Output, has_index, spendable_of, total_of, xmr_unlock}
use near_instant.Wallet.Monero.Scan.{
  Scanned, unscanned, Found, Scanner, Cursor, scan_nodes, indices, add_outputs, merge, Refreshed,
  after_chunk, scan_chunks, start_at, after_first, refresh_from, refresh, balance,
}

-- No index stands twice.
abbrev pub IsDistinct : List Output → Type 0
IsDistinct [] = Unit {0}
IsDistinct (o ∷ os) = (has_index o.index (indices os) ≡ false) × IsDistinct os

has_index-append :
    (i : ℕ) (os : List Output) (o : Output)
    → has_index i (indices (os ++ o ∷ [])) ≡ has_index i (indices os) || (i == o.index)
has_index-append i [] o = ground arith
has_index-append i (p ∷ os) o = ground (arith, has_index-append i os o)

append-IsDistinct :
    (os : List Output) (o : Output)
    → IsDistinct os
    → has_index o.index (indices os) ≡ false
    → IsDistinct (os ++ o ∷ [])
append-IsDistinct [] o h k = (refl, tt)
append-IsDistinct (p ∷ os) o h k =
    (ground (arith, has_index-append p.index os o), append-IsDistinct os o h.1 (ground arith))

-- One list is the other with more behind it.
abbrev pub Extends : List Output → List Output → Type 0
Extends before after = (more : List Output) × (after ≡ before ++ more)

-- What a step keeps: the outputs that were known, in front and once each, and the marks.
pub record Keeps (st st' : Scanned) : Type 0 where
  pub grows : Extends st.outputs st'.outputs
  pub marks : st'.spent ≡ st.spent
  pub once : IsDistinct st.outputs → IsDistinct st'.outputs

pub Keeps-all : (st : Scanned) → Keeps st st
Keeps-all st = record { grows = ([], sym (append-nil st.outputs)); marks = refl; once = λ h. h }

Keeps-then : (a b c : Scanned) → Keeps a b → Keeps b c → Keeps a c
Keeps-then a b c h k = record {
  grows = (
    h.grows.0 ++ k.grows.0,
    k.grows.1 ∙ ap (λ x. x ++ k.grows.0) h.grows.1 ∙ append_assoc a.outputs h.grows.0 k.grows.0,
  );
  marks = k.marks ∙ h.marks;
  once = λ d. k.once (h.once d);
}

add_outputs-Extends : (found known : List Output) → Extends known (add_outputs known found)
unfolding add_outputs
add_outputs-Extends [] known = ([], sym (append-nil known))
add_outputs-Extends (o ∷ found) known = elim (Bool-cases (has_index o.index (indices known))) [
  | inl there ↦ rw there (add_outputs-Extends found known)
  | inr new ↦
      let (more, e) = add_outputs-Extends found (known ++ o ∷ []) in
      rw new (o ∷ more, e ∙ append_assoc known (o ∷ []) more)
]

add_outputs-IsDistinct :
    (found known : List Output) → IsDistinct known → IsDistinct (add_outputs known found)
unfolding add_outputs
add_outputs-IsDistinct [] known h = h
add_outputs-IsDistinct (o ∷ found) known h = elim (Bool-cases (has_index o.index (indices known))) [
  | inl there ↦ rw there (add_outputs-IsDistinct found known h)
  | inr new ↦
      rw new (add_outputs-IsDistinct found (known ++ o ∷ []) (append-IsDistinct known o h new))
]

merge-Keeps : (st : Scanned) (found : Found) → Keeps st (merge st found)
unfolding merge
merge-Keeps st found = record {
  grows = add_outputs-Extends found.outputs st.outputs;
  marks = refl;
  once = add_outputs-IsDistinct found.outputs st.outputs;
}

module _ (w : Scanner) where
  after_chunk-Keeps :
      (st : Scanned) (more : Scanned → ℕ → Cursor → Refreshed) (r : Option Found × Cursor)
      → ((st' : Scanned) (tip : ℕ) (c : Cursor) → Keeps st' (more st' tip c).state)
      → Keeps st (after_chunk st more r).state
  after_chunk-Keeps st more (none, c) h = Keeps-all st
  after_chunk-Keeps st more (some found, c) h = elim (Bool-cases (leb found.tip found.scanned_to)) [
    | inl done ↦ rw done (merge-Keeps st found)
    | inr on ↦ rw on (
        Keeps-then st (merge st found) (more (merge st found) found.tip c).state
          (merge-Keeps st found) (h (merge st found) found.tip c))
  ]

  scan_chunks-Keeps :
      (left : ℕ) (st : Scanned) (tip : ℕ) (c : Cursor)
      → Keeps st (scan_chunks w left st tip c).state
  unfolding scan_chunks
  scan_chunks-Keeps zero st tip c = Keeps-all st
  scan_chunks-Keeps (suc left) st tip c =
      after_chunk-Keeps st (scan_chunks w left) (scan_nodes w st.scanned_to w.nodes c)
        (scan_chunks-Keeps left)

  start-Keeps : (st st' : Scanned) (tip : ℕ) → Keeps (start_at st tip) st' → Keeps st st'
  start-Keeps st st' tip k = record { grows = k.grows; marks = k.marks; once = k.once }

  after_first-Keeps :
      (chunks : ℕ) (st : Scanned) (r : Option Found × Cursor)
      → Keeps st (after_first w chunks st r).state
  after_first-Keeps chunks st (none, c) = Keeps-all st
  after_first-Keeps chunks st (some found, c) =
      start-Keeps st _ found.tip (scan_chunks-Keeps chunks (start_at st found.tip) _ c)

  refresh_from-Keeps :
      (chunks : ℕ) (st : Scanned) (from : Option ℕ) (c : Cursor)
      → Keeps st (refresh_from w chunks st from c).state
  refresh_from-Keeps chunks st none c = after_first-Keeps chunks st (scan_nodes w none w.nodes c)
  refresh_from-Keeps chunks st (some height) c = scan_chunks-Keeps chunks st height c

  -- A refresh forgets nothing, whichever scans fail. The outputs that were stored stay in front, no
  -- index stands twice if none did, and the marks of spent outputs are those that were stored.
  pub refresh-Keeps :
      (chunks : ℕ) (stored : Option Scanned) (moment : ℕ)
      → Keeps (with_default stored unscanned) (refresh w chunks stored moment).state
  unfolding refresh
  refresh-Keeps chunks stored moment = elim (Bool-cases (w.nodes == 0)) [
    | inl none_usable ↦ rw none_usable (Keeps-all (with_default stored unscanned))
    | inr some_usable ↦
        let st = with_default stored unscanned in
        rw some_usable (refresh_from-Keeps chunks st st.scanned_to _)
  ]

-- The balance is what could be spent: the second sum is that of the outputs from which a payment
-- chooses its inputs, and it is at most the first.
pub balance_lem :
    (spent : List ℕ) (tip : ℕ) (outputs : List Output)
    → ((balance spent tip outputs).1 ≡ total_of (spendable_of spent tip outputs))
      × ((balance spent tip outputs).1 ≤ (balance spent tip outputs).0)
unfolding balance spendable_of
balance_lem spent tip [] = (refl, omega arith)
balance_lem spent tip (o ∷ os) =
    let (same, less) = balance_lem spent tip os in
    elim (Bool-cases (has_index o.index spent)) [
      | inl gone ↦ rw gone (same, less)
      | inr here ↦ elim (Bool-cases (leb (o.block + xmr_unlock) tip)) [
        | inl deep ↦ rw (here, deep) (omega arith, omega arith)
        | inr young ↦ rw (here, young) (same, omega arith)
      ]
    ]
