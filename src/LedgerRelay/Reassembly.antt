-- ===== src/LedgerRelay/Reassembly.antt =====
-- Reading a message back from the ledger, in whatever order the sends are listed.
use near_instant.Common.{
  ℕ, zero, suc, ◌+◌, ◌≤◌, ◌<◌, ◌≡◌, refl, ap, ◌∙◌, sym, inl, inr, Bool, true, false, ◌||◌, List, [],
  ◌∷◌, Option, some, ok, arith, length, take, get_elem?, set, replicate, concat, All, ◌==◌, ltb,
  Bool-cases, length-set, get_elem?-set_self, get_elem?-set_ne, length-replicate,
  get_elem?-replicate, list_ext,
}
use near_instant.LedgerRelay.{Header, Entry, wanted, place_one, place, fetch_wanted, fetch}

-- Some of the sends carries the chunk at index `i`.
abbrev pub covers : ℕ → List (ℕ × Header) → Bool
covers i [] = false
covers i ((hash, h) ∷ ws) = h.idx == i || covers i ws

-- A send of the message with these rows: its header counts them, and its contents are the row of its
-- index.
abbrev pub Carries : (ℕ → Option (List ℕ)) → List (List ℕ) → ℕ → ℕ × Header → Type 0
Carries contents rows blob_len (hash, h) =
    (h.total ≡ length rows)
    × (h.blob_len ≡ blob_len)
    × ((row : List ℕ) × (contents hash ≡ some row)
        × (length row ≡ 32)
        × (get_elem? rows h.idx ≡ some row))

get_elem?-lt :
    (rows : List (List ℕ)) (i : ℕ) {row : List ℕ} → get_elem? rows i ≡ some row → i < length rows
get_elem?-lt [] i h = absurd (ground arith)
get_elem?-lt (r ∷ rows) zero h = omega arith
get_elem?-lt (r ∷ rows) (suc i) h = omega (arith, get_elem?-lt rows i h)

module _ (contents : ℕ → Option (List ℕ)) (rows : List (List ℕ)) (blob_len : ℕ) where
  -- What a run of the loop leaves: a covered row is the message's, any other is as it was.
  abbrev Placed : List (ℕ × Header) → List (List ℕ) → List (List ℕ) → Type 0
  Placed ws before out =
      (length out ≡ length before)
      × ((i : ℕ) → covers i ws ≡ true → get_elem? out i ≡ get_elem? rows i)
      × ((i : ℕ) → covers i ws ≡ false → get_elem? out i ≡ get_elem? before i)

  place_one-ok :
      (hash : ℕ) (h : Header) (out : List (List ℕ)) (have : ℕ)
      → length out ≡ length rows
      → (c : Carries contents rows blob_len (hash, h))
      → place_one contents (hash, h) (out, have) ≡ ok (set out h.idx c.2.0, have + 1)
  unfolding place_one
  place_one-ok hash h out have e c = let below = get_elem?-lt rows h.idx c.2.3 in ground arith

  here :
      (before : List (List ℕ)) (hash : ℕ) (h : Header)
      → (c : Carries contents rows blob_len (hash, h)) → (i : ℕ) → length before ≡ length rows
      → h.idx ≡ i
      → get_elem? (set before h.idx c.2.0) i ≡ get_elem? rows i
  here before hash h c i e p =
      let below = get_elem?-lt rows h.idx c.2.3 in
      rw (← p) (get_elem?-set_self before h.idx c.2.0 (omega arith) ∙ sym c.2.3)

  place_lem :
      (ws : List (ℕ × Header)) (before : List (List ℕ)) (have : ℕ)
      → length before ≡ length rows
      → All (Carries contents rows blob_len) ws
      → (out : List (List ℕ)) × (place contents ws (before, have) ≡ ok (out, have + length ws))
        × Placed ws before out
  unfolding place
  place_lem [] before have e cs = (before, ground arith, (refl, (λ i h. cc), λ i h. refl))
  place_lem ((hash, h) ∷ ws) before have e cs =
      let row = cs.0.2.0 in
      let placed = set before h.idx row in
      let (out, run, left) =
        place_lem ws placed (have + 1) (length-set before h.idx row ∙ e) cs.1 in
      (
        out,
        rw (place_one-ok hash h before have e cs.0) (run ∙ ap (λ n. ok (out, n)) (omega arith)),
        (
          left.0 ∙ length-set before h.idx row,
          (λ i c. elim (Bool-cases (covers i ws)) [
            | inl later ↦ left.1 i later
            | inr now ↦ left.2 i now ∙ here before hash h cs.0 i e (ground arith)
          ]),
          λ i c. left.2 i (ground arith) ∙ get_elem?-set_ne before h.idx i row (λ p. ground arith),
        ),
      )

abbrev Fetched : (ℕ → Option (List ℕ)) → List (List ℕ) → ℕ → List (ℕ × Header) → Type 0
Fetched contents rows blob_len ws =
    (out : List (List ℕ)) × (fetch_wanted contents ws ≡ ok (some (take blob_len (concat out))))
    × (length out ≡ length rows)
    × ((i : ℕ) → covers i ws ≡ true → get_elem? out i ≡ get_elem? rows i)
    × ((i : ℕ) → i < length rows → covers i ws ≡ false → get_elem? out i ≡ some (replicate 32 0))

fetch_wanted-placed :
    (contents : ℕ → Option (List ℕ)) (hash : ℕ) (h : Header) (ws : List (ℕ × Header))
    (out : List (List ℕ)) (have : ℕ)
    → h.total ≤ suc (length ws)
    → h.total ≤ have
    → place contents ((hash, h) ∷ ws) (replicate h.total (replicate 32 0), 0) ≡ ok (out, have)
    → fetch_wanted contents ((hash, h) ∷ ws) ≡ ok (some (take h.blob_len (concat out)))
unfolding fetch_wanted
fetch_wanted-placed contents hash h ws out have p q run =
    let first : ltb (suc (length ws)) h.total ≡ false = ground arith in
    let second : ltb have h.total ≡ false = ground arith in rw (first, run) (rw second)

fetch_wanted-rows :
    (contents : ℕ → Option (List ℕ)) (rows : List (List ℕ)) (blob_len : ℕ) (ws : List (ℕ × Header))
    → 0 < length rows
    → length rows ≤ length ws
    → All (Carries contents rows blob_len) ws
    → Fetched contents rows blob_len ws
fetch_wanted-rows contents rows blob_len [] some_row enough cs = absurd (omega arith)
fetch_wanted-rows contents rows blob_len ((hash, h) ∷ ws) some_row enough cs =
    let total : h.total ≡ length rows = cs.0.0 in
    let blank : List (List ℕ) = replicate h.total (replicate 32 0) in
    let blank-length : length blank ≡ length rows =
      length-replicate h.total (replicate 32 0) ∙ total in
    let (out, run, left) =
      place_lem contents rows blob_len ((hash, h) ∷ ws) blank 0 blank-length cs in
    (
      out,
      fetch_wanted-placed contents hash h ws out (suc (length ws)) (omega arith) (omega arith)
            (run ∙ ap (λ n. ok (out, n)) (omega arith))
          ∙ ap (λ n. ok (some (take n (concat out)))) cs.0.1,
      left.0 ∙ blank-length,
      left.1,
      λ i lt c. left.2 i c ∙ get_elem?-replicate h.total i (replicate 32 0) (omega arith),
    )

-- What `fetch` returns from sends of one message: as soon as there are as many sends as the message
-- has chunks, it returns bytes, made of rows: a row that some send carries is the message's, and a row
-- that none carries is 32 zeros.
pub fetch-rows :
    (contents : ℕ → Option (List ℕ)) (rows : List (List ℕ)) (blob_len seq : ℕ)
    (entries : List Entry)
    → 0 < length rows
    → length rows ≤ length (wanted seq entries)
    → All (Carries contents rows blob_len) (wanted seq entries)
    → (out : List (List ℕ)) × (fetch contents seq entries ≡ ok (some (take blob_len (concat out))))
      × (length out ≡ length rows)
      × ((i : ℕ) → covers i (wanted seq entries) ≡ true → get_elem? out i ≡ get_elem? rows i)
      × ((i : ℕ)
          → i < length rows
          → covers i (wanted seq entries) ≡ false
          → get_elem? out i ≡ some (replicate 32 0))
unfolding fetch
fetch-rows contents rows blob_len seq entries some_row enough cs =
    fetch_wanted-rows contents rows blob_len (wanted seq entries) some_row enough cs

-- A message is read back whole, in whatever order its sends are listed: if every chunk is carried by
-- one of them, and there are as many sends as chunks, `fetch` returns the first `blob_len` bytes of
-- the message's rows.
pub fetch_whole :
    (contents : ℕ → Option (List ℕ)) (rows : List (List ℕ)) (blob_len seq : ℕ)
    (entries : List Entry)
    → 0 < length rows
    → length rows ≤ length (wanted seq entries)
    → All (Carries contents rows blob_len) (wanted seq entries)
    → ((i : ℕ) → i < length rows → covers i (wanted seq entries) ≡ true)
    → fetch contents seq entries ≡ ok (some (take blob_len (concat rows)))
fetch_whole contents rows blob_len seq entries some_row enough cs whole =
    let (out, run, same, covered, _) =
      fetch-rows contents rows blob_len seq entries some_row enough cs in
    let equal = list_ext out rows same (λ i lt. covered i (whole i (omega arith))) in
    rw equal at run
