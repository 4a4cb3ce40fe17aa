-- ===== src/LedgerRelay/Roundtrip.antt =====
-- From the poster to the reader.
use near_instant.Common.{
  ℕ, zero, suc, ◌+◌, ◌%◌, ◌^◌, ◌≤◌, ◌<◌, ◌≡◌, refl, ap, ◌∙◌, sym, inl, inr, Bool, true, false, ◌||◌,
  List, [], ◌∷◌, ◌++◌, Option, some, ok, arith, Bool-cases, Option-cases, length, map, All, ◌==◌,
}
use near_instant.LedgerRelay.{
  Header, Entry, unpack_header, pack_header, wanted, fetch, Sent, Pocket, Outcome, done, post,
  chunk_at, chunk_count,
}
use near_instant.LedgerRelay.Packing.{unpack_header-pack_header}
use near_instant.LedgerRelay.Posting.{payload, message, post-message}
use near_instant.LedgerRelay.Chunks.{
  rows_from, length-rows_from, get_elem?-rows_from, length-chunk_at, take-concat-rows_from,
}
use near_instant.LedgerRelay.Reassembly.{covers, Carries, fetch_whole}

-- The entries list these sends, in any order, each with its amount and with the chunk in its block;
-- every other entry is of no message with this sequence number.
unfoldable pub Shown : (ℕ → Option (List ℕ)) → ℕ → List Sent → List Entry → Type 0
Shown contents seq [] entries = wanted seq entries ≡ []
Shown contents seq (s ∷ ss) entries =
    (before after : List Entry) × (hash : ℕ) × (entries ≡ before ++ (hash, s.amount) ∷ after)
    × (contents hash ≡ some s.chunk)
    × Shown contents seq ss (before ++ after)

wanted-append :
    (seq : ℕ) (xs ys : List Entry) → wanted seq (xs ++ ys) ≡ wanted seq xs ++ wanted seq ys
unfolding wanted
wanted-append seq [] ys = refl
wanted-append seq ((hash, amount) ∷ xs) ys =
    let later = wanted-append seq xs ys in
    elim (Option-cases (unpack_header amount)) [
      | inl p ↦ rw (wanted, p) later
      | inr (h, p) ↦ elim (Bool-cases (h.seq == seq)) [
        | inl q ↦ rw (wanted, p, q) (ap (λ r. (hash, h) ∷ r) later)
        | inr q ↦ rw (wanted, p, q) later
      ]
    ]

-- An entry of the message is among the wanted ones.
wanted-insert :
    (seq hash amount : ℕ) (h : Header) (before after : List Entry)
    → unpack_header amount ≡ some h
    → h.seq ≡ seq
    → wanted seq (before ++ (hash, amount) ∷ after)
      ≡ wanted seq before ++ (hash, h) ∷ wanted seq after
unfolding wanted
wanted-insert seq hash amount h before after e same =
    let q : (h.seq == seq) ≡ true = ground arith in
    wanted-append seq before ((hash, amount) ∷ after)
    ∙ ap (λ r. wanted seq before ++ r) (rw (wanted, e, q) refl)

All-insert :
    (P : ℕ × Header → Type 0) (w : ℕ × Header) (xs ys : List (ℕ × Header))
    → P w
    → All P (xs ++ ys)
    → All P (xs ++ w ∷ ys)
All-insert P w [] ys p ps = (p, ps)
All-insert P w (x ∷ xs) ys p ps = (ps.0, All-insert P w xs ys p ps.1)

length-insert :
    (w : ℕ × Header) (xs ys : List (ℕ × Header)) → length (xs ++ w ∷ ys) ≡ suc (length (xs ++ ys))
length-insert w [] ys = refl
length-insert w (x ∷ xs) ys = ap suc (length-insert w xs ys)

or_swap : (a b c : Bool) → (a || (b || c)) ≡ (b || (a || c))
or_swap true true c = refl
or_swap true false c = refl
or_swap false b c = refl

covers-insert :
    (i hash : ℕ) (h : Header) (xs ys : List (ℕ × Header))
    → covers i (xs ++ (hash, h) ∷ ys) ≡ (h.idx == i || covers i (xs ++ ys))
covers-insert i hash h [] ys = refl
covers-insert i hash h ((g, k) ∷ xs) ys =
    rw (covers-insert i hash h xs ys) (or_swap (k.idx == i) (h.idx == i) (covers i (xs ++ ys)))

abbrev head_or : List (List ℕ × ℕ) → List ℕ × ℕ
head_or [] = ([], 0)
head_or (x ∷ xs) = x

abbrev tail_of : List (List ℕ × ℕ) → List (List ℕ × ℕ)
tail_of [] = []
tail_of (x ∷ xs) = xs

-- A short enough message keeps its header.
header_lem :
    (seq : ℕ) (blob : List ℕ) (idx total : ℕ)
    → seq < 2 ^ 16
    → idx < 2 ^ 12
    → total < 2 ^ 12
    → length blob < 2 ^ 16
    → unpack_header (pack_header seq idx total (length blob))
      ≡ some (record { seq = seq; idx = idx; total = total; blob_len = length blob })
header_lem seq blob idx total a b c d =
    let p : seq % 2 ^ 16 ≡ seq = omega arith in
    let q : idx % 2 ^ 12 ≡ idx = omega arith in
    let r : total % 2 ^ 12 ≡ total = omega arith in
    let t : length blob % 2 ^ 16 ≡ length blob = omega arith in
    (unpack_header-pack_header seq idx total (length blob)).0 ∙ rw (p, q, r, t) refl

module _ (contents : ℕ → Option (List ℕ)) (seq : ℕ) (blob : List ℕ) (total : ℕ)
    (seq_fits : seq < 2 ^ 16) (total_fits : total < 2 ^ 12) (blob_fits : length blob < 2 ^ 16) where
  Complete : ℕ → ℕ → List (ℕ × Header) → Type 0
  Complete idx n ws =
      All (Carries contents (rows_from blob 0 total) (length blob)) ws
      × (length ws ≡ n)
      × ((i : ℕ) → idx ≤ i → i < idx + n → covers i ws ≡ true)

  Complete-insert :
      (idx n hash : ℕ) (xs ys : List (ℕ × Header))
      → idx < total
      → contents hash ≡ some (chunk_at blob idx)
      → Complete (idx + 1) n (xs ++ ys)
      → Complete idx (suc n) (
          xs ++ (hash, record { seq = seq; idx = idx; total = total; blob_len = length blob }) ∷ ys)
  unfolding Complete
  Complete-insert idx n hash xs ys lt shown c =
      let h : Header = record { seq = seq; idx = idx; total = total; blob_len = length blob } in
      (
        All-insert _ (hash, h) xs ys
            (
              sym (length-rows_from blob 0 total),
              refl,
              (
                chunk_at blob idx,
                shown,
                length-chunk_at blob idx,
                get_elem?-rows_from blob 0 total idx lt
                    ∙ ap (λ j. some (chunk_at blob j)) (omega arith),
              ),
            )
            c.0,
        length-insert (hash, h) xs ys ∙ ap suc c.1,
        λ i le below. rw (covers-insert i hash h xs ys) (elim (Bool-cases (idx == i)) [
          | inl here ↦ rw here refl
          | inr there ↦ rw there (c.2 i (ground arith) (omega arith))
        ]),
      )

  Shown-Complete :
      (ss : List Sent) (n idx : ℕ) (entries : List Entry)
      → idx + n ≡ total
      → map payload ss ≡ message seq blob total idx n
      → Shown contents seq ss entries
      → Complete idx n (wanted seq entries)
  unfolding Shown Complete
  Shown-Complete [] zero idx entries e m shown =
      rw shown (tt, refl, λ i le below. absurd (omega arith))
  Shown-Complete [] (suc n) idx entries e m shown =
      absurd (let l : 0 ≡ suc _ = ap length m in omega arith)
  Shown-Complete (s ∷ ss) zero idx entries e m shown = absurd (ground arith)
  Shown-Complete (s ∷ ss) (suc n) idx entries e m (before, after, hash, split, block, later) =
      let chunk : s.chunk ≡ chunk_at blob idx = ap (λ l. (head_or l).0) m in
      let amount : s.amount ≡ pack_header seq idx total (length blob) = ap (λ l. (head_or l).1) m in
      let h : Header = record { seq = seq; idx = idx; total = total; blob_len = length blob } in
      let header : unpack_header s.amount ≡ some h =
        ap unpack_header amount
        ∙ header_lem seq blob idx total seq_fits (omega arith) total_fits blob_fits in
      let rest =
        Shown-Complete ss n (idx + 1) (before ++ after) (omega arith) (ap tail_of m) later in
      rw (split, wanted-insert seq hash s.amount h before after header refl)
        (Complete-insert idx n hash (wanted seq before) (wanted seq after) (omega arith)
          (block ∙ ap some chunk) (rw (wanted-append seq before after) at rest))

-- From the poster to the reader: if a post of a message of fewer than 2 ^ 16 bytes is done, and the
-- account's entries list its sends, in any order and among sends of other messages, then `fetch` with
-- its sequence number, of 16 bits, returns the message.
pub post-fetch :
    (seeded : Bool) (seq : ℕ) (blob : List ℕ) (pockets : ℕ → Pocket) (outcomes : List Outcome)
    (contents : ℕ → Option (List ℕ)) (entries : List Entry)
    → seq < 2 ^ 16
    → length blob < 2 ^ 16
    → (post seeded seq blob pockets outcomes).1 ≡ done
    → Shown contents seq (post seeded seq blob pockets outcomes).0 entries
    → fetch contents seq entries ≡ ok (some blob)
unfolding Complete
post-fetch seeded seq blob pockets outcomes contents entries seq_fits blob_fits finished shown =
    let total = chunk_count blob in
    let told = post-message seeded seq blob pockets outcomes finished in
    let size = length-rows_from blob 0 total in
    let (carries, count, covered) =
      Shown-Complete contents seq blob total seq_fits (ground arith) blob_fits _ total 0 entries
        (omega arith) told shown in
    fetch_whole contents (rows_from blob 0 total) (length blob) seq entries (ground arith)
      (ground arith) carries (λ i lt. covered i (omega arith) (omega arith))
    ∙ ap (λ r. ok (some r)) (take-concat-rows_from blob total 0 (ground arith))
