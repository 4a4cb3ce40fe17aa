-- ===== src/Rendezvous/Peek/Listing.antt =====
-- The list of take-requests that an agent reads without replying: peekTakes of web/two_party.js.
use mathlib.Core.Path.{subst}
use near_instant.Common.{
  ℕ, zero, suc, ◌+◌, ◌≤◌, ◌<◌, ◌≡◌, refl, ap, sym, ◌∙◌, Bool, List, [], ◌∷◌, Option, none, some,
  Result, ok, err, arith, All, ◌⊎◌, ◌≢◌, inl, inr, Bool-cases, ◌==◌, ==_iff,
}
use near_instant.Deal.{Deal, DealError, maker_validate_deal}
use near_instant.Rendezvous.Types.{
  rv_slots, rv_box, rv_resp_box, Request, Platform, Fetched, unreachable, vacant, blob, Relay,
  Verdict,
}
use near_instant.Rendezvous.Visiting.{
  Maker, Visit, junk, chosen, visit, judge, judge_by, judge_verdict, checked_visit, judged_visit,
  parsed_visit, fetched_visit,
}
use near_instant.Rendezvous.Peek.{
  Row, has_blob, checked_row, parsed_row, fetched_row, peek_from, peek_takes, peek_by,
}

-- What a row says of its slot: valid rows are those that a poll would answer or refuse, and the
-- verdict tells which.
abbrev verdict_visit : Request → Option Verdict → Visit
verdict_visit r none = chosen r none
verdict_visit r (some v) = judged_visit r (judge_verdict v)

module _ (p : Platform) (relay : Relay) (m : Maker) where
  -- A row tells what a poll would make of the slot.
  pub data Tells (row : Row) : Type 0 where
    invalid : row.deal ≡ none → visit p relay m row.slot ≡ junk → Tells row
    valid :
        (r : Request)
        → row.deal ≡ some r.deal
        → visit p relay m row.slot ≡ verdict_visit r row.verdict
        → Tells row

  -- What is known of a row of the slots from `slot` on.
  abbrev pub IsRow : ℕ → ℕ → Row → Type 0
  IsRow slot left row =
      ((slot ≤ row.slot) × (row.slot < slot + left))
      × (row.answered ≡ has_blob (relay.fetch row.slot (rv_resp_box m.offer_hash) row.slot))
      × Tells row

  judged_row :
      (o : Option (ℕ → Deal → Verdict)) (slot : ℕ) (r : Request)
      → m.certify ≡ o
      → judged_visit r (judge m slot r.deal) ≡ verdict_visit r (peek_by o slot r.deal)
  unfolding judge
  judged_row none slot r e = ap (λ x. judged_visit r (judge_by x slot r.deal)) e
  judged_row (some certify) slot r e = ap (λ x. judged_visit r (judge_by x slot r.deal)) e

  checked_row-Tells :
      (slot : ℕ) (answered : Bool) (r : Request) (v : Result DealError (Unit {0}))
      → visit p relay m slot ≡ checked_visit m slot r v
      → Tells (checked_row m slot answered r.deal v)
  checked_row-Tells slot answered r (ok u) e =
      Tells.valid r refl (e ∙ judged_row m.certify slot r refl)
  checked_row-Tells slot answered r (err x) e = Tells.invalid refl e

  parsed_row-Tells :
      (slot : ℕ) (answered : Bool) (o : Option Request)
      → visit p relay m slot ≡ parsed_visit m slot o
      → Tells (parsed_row m slot answered o)
  parsed_row-Tells slot answered none e = Tells.invalid refl e
  parsed_row-Tells slot answered (some r) e =
      checked_row-Tells slot answered r (maker_validate_deal r.deal m.intent m.limit) e

  checked_row-slot :
      (slot : ℕ) (answered : Bool) (deal : Deal) (v : Result DealError (Unit {0}))
      → ((checked_row m slot answered deal v).slot ≡ slot)
        × ((checked_row m slot answered deal v).answered ≡ answered)
  checked_row-slot slot answered deal (ok u) = (refl, refl)
  checked_row-slot slot answered deal (err x) = (refl, refl)

  parsed_row-slot :
      (slot : ℕ) (answered : Bool) (o : Option Request)
      → ((parsed_row m slot answered o).slot ≡ slot)
        × ((parsed_row m slot answered o).answered ≡ answered)
  parsed_row-slot slot answered none = (refl, refl)
  parsed_row-slot slot answered (some r) =
      checked_row-slot slot answered r.deal (maker_validate_deal r.deal m.intent m.limit)

  -- A row for slot `i` is in the list.
  abbrev pub HasSlot : ℕ → List Row → Type 0
  HasSlot i [] = ⊥
  HasSlot i (row ∷ rows) = (row.slot ≡ i) ⊎ HasSlot i rows

  -- The rows of `left` slots from `slot` on.
  abbrev Lists : ℕ → ℕ → List Row → Type 0
  Lists slot left rows =
      All (IsRow slot left) rows
      × ((i : ℕ) (bytes : List ℕ)
          → slot ≤ i
          → i < slot + left
          → relay.fetch i (rv_box m.offer_hash) i ≡ blob bytes
          → HasSlot i rows)

  IsRow-before :
      (slot left : ℕ) (rows : List Row)
      → All (IsRow (slot + 1) left) rows
      → All (IsRow slot (suc left)) rows
  IsRow-before slot left [] h = tt
  IsRow-before slot left (row ∷ rows) ((bound, says, tells), h) =
      (((omega arith, omega arith), says, tells), IsRow-before slot left rows h)

  skip_slot :
      (slot left : ℕ) (rows : List Row)
      → ((bytes : List ℕ) → relay.fetch slot (rv_box m.offer_hash) slot ≢ blob bytes)
      → Lists (slot + 1) left rows
      → Lists slot (suc left) rows
  skip_slot slot left rows none_here (all_rows, complete) = (
    IsRow-before slot left rows all_rows,
    λ i bytes lo hi e. elim (Bool-cases (slot == i)) [
      | inl same ↦ absurd (
          none_here bytes (
            subst (λ n. relay.fetch n (rv_box m.offer_hash) n ≡ blob bytes)
              (sym ((==_iff slot i).0 same)) e))
      | inr other ↦ complete i bytes (ground arith) (omega arith) e
    ],
  )

  fetched_row-Lists :
      (slot left : ℕ) (f : Fetched) (rows : List Row)
      → relay.fetch slot (rv_box m.offer_hash) slot ≡ f
      → Lists (slot + 1) left rows
      → Lists slot (suc left) (fetched_row p relay m slot f rows)
  unfolding visit
  fetched_row-Lists slot left unreachable rows g h =
      skip_slot slot left rows (λ bytes e. absurd (ground arith)) h
  fetched_row-Lists slot left vacant rows g h =
      skip_slot slot left rows (λ bytes e. absurd (ground arith)) h
  fetched_row-Lists slot left (blob bytes) rows g (all_rows, complete) =
      let answered = has_blob (relay.fetch slot (rv_resp_box m.offer_hash) slot) in
      let row = parsed_row m slot answered (p.parse_request bytes) in
      let (at, says) = parsed_row-slot slot answered (p.parse_request bytes) in
      (
        (
          (
            (omega (arith, at), omega (arith, at)),
            says ∙ ap (λ n. has_blob (relay.fetch n (rv_resp_box m.offer_hash) n)) (sym at),
            parsed_row-Tells slot answered (p.parse_request bytes) (ap (fetched_visit p m slot) g),
          ),
          IsRow-before slot left rows all_rows,
        ),
        λ i other lo hi e. elim (Bool-cases (slot == i)) [
          | inl same ↦ inl (at ∙ (==_iff slot i).0 same)
          | inr differs ↦ inr (complete i other (ground arith) (omega arith) e)
        ],
      )

  peek_from-Lists : (left slot : ℕ) → Lists slot left (peek_from p relay m left slot)
  unfolding peek_from
  peek_from-Lists zero slot = (tt, λ i bytes lo hi e. absurd (omega arith))
  peek_from-Lists (suc left) slot =
      fetched_row-Lists slot left (relay.fetch slot (rv_box m.offer_hash) slot)
        (peek_from p relay m left (slot + 1)) refl (peek_from-Lists left (slot + 1))

  -- Peeking lists what a poll would find. Each row is about one of the eight slots, says whether a
  -- reply stands in it, and is invalid if a poll would take the slot's request for junk; otherwise the
  -- poll would answer its deal or refuse it, as the row's verdict says. Every slot that holds a
  -- request has a row.
  pub peek_takes_lem :
      All (IsRow 0 8) (peek_takes p relay m)
      × ((i : ℕ) (bytes : List ℕ)
          → i < 8
          → relay.fetch i (rv_box m.offer_hash) i ≡ blob bytes
          → HasSlot i (peek_takes p relay m))
  unfolding peek_takes
  peek_takes_lem =
      let (all_rows, complete) = peek_from-Lists rv_slots 0 in
      (all_rows, λ i bytes lt e. complete i bytes (omega arith) (omega arith) e)
