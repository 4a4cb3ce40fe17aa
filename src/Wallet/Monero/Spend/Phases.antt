-- ===== src/Wallet/Monero/Spend/Phases.antt =====
-- The order of a payment's phases: xmrSend of web/wallet.js.
use mathlib.Core.Path.{subst}
use near_instant.Common.{
  ℕ, zero, suc, ◌+◌, ◌≤◌, ◌<◌, ◌≡◌, refl, ap, false, List, [], ◌∷◌, ◌++◌, Option, none, some,
  Result, ok, err, ◌==◌, length, All, Bool-cases, inl, inr, arith,
}
use near_instant.Wallet.Amounts.{Text, trim_start, trim_end, parse_xmr}
use near_instant.Wallet.Monero.Select.{
  Output, SelectError, has_index, total_of, fees, select, spendable_of,
}
use near_instant.Wallet.Monero.Select.Cover.{MaySpend, Selects, select-Selects}
use near_instant.Wallet.Monero.Scan.{Scanned, Cursor, indices, refresh}
use near_instant.Wallet.Monero.Scan.Keeping.{IsDistinct, Extends, Keeps, Keeps-all, refresh-Keeps}
use near_instant.Wallet.Monero.Spend.{
  Payer, Event, stored, sent, SendError, not_positive, bad_address, Sent, build_twice,
  after_publish, publish_nodes, mark, gives_up, after_build, after_select, after_refresh,
  max_chunks, after_parse, looks_valid, xmr_send,
}
use near_instant.Wallet.Monero.Spend.Distinct.{select-IsDistinct}

-- A broadcast of these bytes.
abbrev pub IsOf : List ℕ → Event → Type 0
IsOf tx (stored st) = ⊥
IsOf tx (sent node bytes) = bytes ≡ tx

after_publish-IsOf :
    (tx : List ℕ) (node moment : ℕ) (later : List Event × Option Text × ℕ) (o : Option Text)
    → All (IsOf tx) later.0
    → All (IsOf tx) (after_publish node tx moment later o).0
after_publish-IsOf tx node moment later none h = (refl, h)
after_publish-IsOf tx node moment later (some taken) h = (refl, tt)

publish_nodes-IsOf :
    (w : Payer) (tx : List ℕ) (left node moment : ℕ)
    → All (IsOf tx) (publish_nodes w tx left node moment).0
unfolding publish_nodes
publish_nodes-IsOf w tx zero node moment = tt
publish_nodes-IsOf w tx (suc left) node moment =
    after_publish-IsOf tx node moment (publish_nodes w tx left (node + 1) (moment + 1))
      (w.publish moment node tx) (publish_nodes-IsOf w tx left (node + 1) (moment + 1))

-- The inputs of a transaction that was signed: unmarked before, different from one another, from one to
-- sixteen, and enough for an amount and the fees.
pub record Covers (st : Scanned) (amount : ℕ) (inputs : List Output) : Type 0 where
  pub unmarked : All (λ o. has_index o.index st.spent ≡ false) inputs
  pub once : IsDistinct inputs
  pub least : 1 ≤ length inputs
  pub most : length inputs ≤ 16
  pub enough : amount + fees (length inputs) ≤ total_of inputs

-- What has happened when a payment ends, by what was signed. Nothing: then nothing was broadcast or
-- marked, and it threw. A transaction: then its inputs are marked, and the marks were saved before the
-- first broadcast; every broadcast is of its bytes.
abbrev pub Phases : Scanned → Text → Sent → Option (List Output × List ℕ) → Type 0
Phases st amount_text s none =
    (s.events ≡ []) × (s.state.spent ≡ st.spent) × ((e : SendError) × (s.result ≡ err e))
Phases st amount_text s (some (inputs, tx)) =
    (broadcasts : List Event) × (s.events ≡ stored s.state ∷ broadcasts)
    × All (IsOf tx) broadcasts
    × (s.state.spent ≡ st.spent ++ indices inputs)
    × ((amount : ℕ) × (parse_xmr amount_text ≡ some amount)
        × (0 < amount)
        × Covers st amount inputs)

pub record IsOrderly (st : Scanned) (amount_text : Text) (s : Sent) : Type 0 where
  pub phases : Phases st amount_text s s.signed
  pub grows : Extends st.outputs s.state.outputs
  pub once : IsDistinct st.outputs → IsDistinct s.state.outputs

module _ (w : Payer) (st : Scanned) (amount_text : Text) where
  gives_up-IsOrderly :
      (st' : Scanned) (e : SendError) (moment : ℕ)
      → Keeps st st'
      → IsOrderly st amount_text (gives_up st' e moment)
  gives_up-IsOrderly st' e moment k = record {
    phases = (refl, k.marks, (e, refl));
    grows = k.grows;
    once = k.once;
  }

  after_build-IsOrderly :
      (st' : Scanned) (amount : ℕ) (inputs : List Output) (r : Option (List ℕ) × ℕ)
      → Keeps st st'
      → parse_xmr amount_text ≡ some amount
      → 0 < amount
      → Covers st amount inputs
      → IsOrderly st amount_text (after_build w st' inputs r)
  unfolding mark
  after_build-IsOrderly st' amount inputs (none, moment) k e positive c =
      gives_up-IsOrderly st' _ moment k
  after_build-IsOrderly st' amount inputs (some tx, moment) k e positive c = record {
    phases = (
      _,
      refl,
      publish_nodes-IsOf w tx w.scanner.nodes 0 moment,
      ap (λ x. x ++ indices inputs) k.marks,
      (amount, e, positive, c),
    );
    grows = k.grows;
    once = k.once;
  }

  unmarked_by :
      (spent : List ℕ) (tip : ℕ) (inputs : List Output)
      → All (MaySpend (λ o. Unit {0}) spent tip) inputs
      → All (λ o. has_index o.index spent ≡ false) inputs
  unmarked_by spent tip [] h = tt
  unmarked_by spent tip (o ∷ os) h = (h.0.1, unmarked_by spent tip os h.1)

  anything : (os : List Output) → All (λ o. Unit {0}) os
  anything [] = tt
  anything (o ∷ os) = (tt, anything os)

  after_select-IsOrderly :
      (st' : Scanned) (dest : Text) (amount tip moment : ℕ) (r : Result SelectError (List Output))
      → Keeps st st'
      → IsDistinct st.outputs
      → parse_xmr amount_text ≡ some amount
      → 0 < amount
      → select st'.spent tip st'.outputs amount ≡ r
      → IsOrderly st amount_text (after_select w st' dest amount moment r)
  after_select-IsOrderly st' dest amount tip moment (err x) k d e positive sel =
      gives_up-IsOrderly st' _ moment k
  after_select-IsOrderly st' dest amount tip moment (ok inputs) k d e positive sel =
      let (fits, spendable) =
        select-Selects (λ o. Unit {0}) st'.spent tip st'.outputs amount (anything st'.outputs) in
      let sizes = subst (Selects amount (spendable_of st'.spent tip st'.outputs)) sel fits in
      after_build-IsOrderly st' amount inputs (build_twice w inputs dest amount moment) k e positive
        (record {
          unmarked =
              subst (λ marks. All (λ o. has_index o.index marks ≡ false) inputs) k.marks
                (unmarked_by st'.spent tip inputs (spendable inputs sel));
          once = select-IsDistinct st'.spent tip st'.outputs amount inputs (k.once d) sel;
          least = sizes.0;
          most = sizes.1;
          enough = sizes.2;
        })

  after_refresh-IsOrderly :
      (st' : Scanned) (c : Cursor) (dest : Text) (amount : ℕ) (tip : Option ℕ)
      → Keeps st st'
      → IsDistinct st.outputs
      → parse_xmr amount_text ≡ some amount
      → 0 < amount
      → IsOrderly st amount_text (after_refresh w dest amount st' c tip)
  after_refresh-IsOrderly st' c dest amount none k d e positive =
      gives_up-IsOrderly st' _ c.moment k
  after_refresh-IsOrderly st' c dest amount (some tip) k d e positive =
      after_select-IsOrderly st' dest amount tip c.moment _ k d e positive refl

  after_parse-IsOrderly :
      (dest : Text) (moment : ℕ) (o : Option ℕ)
      → IsDistinct st.outputs
      → parse_xmr amount_text ≡ o
      → IsOrderly st amount_text (after_parse w st dest moment o)
  after_parse-IsOrderly dest moment none d e = gives_up-IsOrderly st _ moment (Keeps-all st)
  after_parse-IsOrderly dest moment (some amount) d e = elim (Bool-cases (amount == 0)) [
    | inl nothing ↦ rw nothing (gives_up-IsOrderly st not_positive moment (Keeps-all st))
    | inr something ↦
        let r = refresh w.scanner max_chunks (some st) moment in
        rw something (
          after_refresh-IsOrderly r.state r.cursor dest amount r.tip
            (refresh-Keeps w.scanner max_chunks (some st) moment) d e (ground arith))
  ]

  -- The phases of a payment are in order, whichever scans, builds and broadcasts fail, if no index
  -- stands twice in what is stored. If a transaction is signed, its inputs were unmarked, differ from
  -- one another, are from one to sixteen, and cover a positive amount that the text spells and the
  -- fees; they are marked, and that was saved before the first broadcast; all broadcasts are of that
  -- one transaction. If none is signed, nothing is broadcast, nothing is marked, and the call throws.
  -- Stored outputs are never forgotten, and no index comes to stand twice.
  pub xmr_send-IsOrderly :
      (dest_text : Text) (moment : ℕ)
      → IsDistinct st.outputs
      → IsOrderly st amount_text (xmr_send w st dest_text amount_text moment)
  unfolding xmr_send
  xmr_send-IsOrderly dest_text moment d =
      let dest = trim_end (trim_start dest_text) in
      elim (Bool-cases (looks_valid dest)) [
        | inl valid ↦ rw valid (after_parse-IsOrderly dest moment (parse_xmr amount_text) d refl)
        | inr invalid ↦ rw invalid (gives_up-IsOrderly st bad_address moment (Keeps-all st))
      ]
