-- ===== src/Tests/Relay.antt =====
-- Runs of web/ledger_relay.js: a message of two chunks that is posted and read back.
use near_instant.Common.{
  ℕ, ◌^◌, ◌≤◌, ◌<◌, ◌≡◌, refl, true, false, get_elem?, List, [], ◌∷◌, Option, none, some, ok, arith,
  length, map, replicate, take, concat, All, ◌==◌, if◌then◌else◌,
}
use near_instant.LedgerRelay.{
  pack_header, unpack_header, Entry, wanted, fetch, Pocket, pocketed, disagree, Outcome, accepted,
  stale, done, post_answer, post_loop, first_head, post, chunk_at,
}
use near_instant.LedgerRelay.Posting.{payload, message, post-message}
use near_instant.LedgerRelay.Reassembly.{covers, Carries, fetch-rows}
use near_instant.LedgerRelay.Chunks.{rows_from}
use near_instant.LedgerRelay.Roundtrip.{Shown, post-fetch}

abbrev blob : List ℕ
blob = replicate 33 7

abbrev balance : ℕ
balance = 10 ^ 30

-- The first read of the account fails for disagreement.
abbrev pockets : ℕ → Pocket
pockets a = if a == 0 then disagree else pocketed (record { frontier = 1; balance = balance })

-- The second chunk is rejected once, and rebuilt on a fresh head.
abbrev outcomes : List Outcome
outcomes =
    accepted 10 ∷ stale (some (record { frontier = 5; balance = balance })) ∷ accepted 11 ∷ []

abbrev amounts : ℕ → ℕ
amounts idx = pack_header 3 idx 2 33

-- The reader sees the second send first, and one of another message.
abbrev entries : List Entry
entries = (11, amounts 1) ∷ (12, 77) ∷ (10, amounts 0) ∷ []

abbrev contents : ℕ → Option (List ℕ)
contents hash =
    if hash == 10
    then some (chunk_at blob 0)
    else if hash == 11
    then some (chunk_at blob 1)
    else none

post_run : (post true 3 blob pockets outcomes).1 ≡ done
unfolding post first_head post_loop post_answer pack_header
post_run = refl

post-message_example : map payload (post true 3 blob pockets outcomes).0 ≡ message 3 blob 2 0 2
post-message_example = post-message true 3 blob pockets outcomes post_run

shown : Shown contents 3 (post true 3 blob pockets outcomes).0 entries
unfolding Shown wanted post first_head post_loop post_answer pack_header unpack_header
shown =
    ((11, amounts 1) ∷ (12, 77) ∷ [], [], 10, refl, refl, ([], (12, 77) ∷ [], 11, refl, refl, refl))

post-fetch_example : fetch contents 3 entries ≡ ok (some blob)
post-fetch_example =
    post-fetch true 3 blob pockets outcomes contents entries (omega arith) (omega arith) post_run
      shown

-- The first chunk twice: the second row is read as zeros.
abbrev doubled : List Entry
doubled = (10, amounts 0) ∷ (10, amounts 0) ∷ []

doubled_fits : All (Carries contents (rows_from blob 0 2) 33) (wanted 3 doubled)
unfolding wanted pack_header unpack_header rows_from
doubled_fits = (
  (refl, refl, (chunk_at blob 0, refl, refl, refl)),
  ((refl, refl, (chunk_at blob 0, refl, refl, refl)), tt),
)

two_rows : 0 < length (rows_from blob 0 2)
unfolding rows_from
two_rows = omega arith

enough : length (rows_from blob 0 2) ≤ length (wanted 3 doubled)
unfolding wanted pack_header unpack_header rows_from
enough = omega arith

fetch-rows_example :
    (out : List (List ℕ)) × (fetch contents 3 doubled ≡ ok (some (take 33 (concat out))))
    × (length out ≡ length (rows_from blob 0 2))
    × ((i : ℕ)
        → covers i (wanted 3 doubled) ≡ true
        → get_elem? out i ≡ get_elem? (rows_from blob 0 2) i)
    × ((i : ℕ)
        → i < length (rows_from blob 0 2)
        → covers i (wanted 3 doubled) ≡ false
        → get_elem? out i ≡ some (replicate 32 0))
fetch-rows_example =
    fetch-rows contents (rows_from blob 0 2) 33 3 doubled two_rows enough doubled_fits
