-- ===== src/LedgerRelay.antt =====
-- web/ledger_relay.js: messages as dust sends on the Nano ledger. A chunk of 32 bytes rides in the
-- representative of a send to the mailbox account, and a packed header in its amount.
pub mod Packing
pub mod Reassembly
pub mod Rounds
pub mod Posting
pub mod Chunks
pub mod Roundtrip
use near_instant.Common.{
  ℕ, zero, suc, ◌+◌, ◌-◌, ◌*◌, ◌/◌, ◌%◌, ◌^◌, max, Bool, true, false, ◌&&◌, List, [], ◌∷◌, ◌++◌,
  Option, none, some, Result, ok, err, ◌>>=◌, length, take, drop, set, replicate, concat, ltb, leb,
  ◌==◌, if◌then◌else◌,
}
use Prim.Native.Nat.{bit_or}

abbrev pub magic : ℕ
magic = 0x5a

-- The shifts are multiplications, and the masks of 16 and 12 ones remainders.
unfoldable pub pack_header : ℕ → ℕ → ℕ → ℕ → ℕ
pack_header seq idx total blob_len =
    bit_or
      (bit_or (bit_or (bit_or (magic * 2 ^ 56) (seq % 2 ^ 16 * 2 ^ 40)) (idx % 2 ^ 12 * 2 ^ 28))
        (total % 2 ^ 12 * 2 ^ 16))
      (blob_len % 2 ^ 16)

pub record Header : Type 0 where
  pub seq : ℕ
  pub idx : ℕ
  pub total : ℕ
  pub blob_len : ℕ

-- `none` is the source's null, for an amount without the magic byte.
unfoldable pub unpack_header : ℕ → Option Header
unpack_header v =
    if v / 2 ^ 56 == magic
    then some (record {
      seq = v / 2 ^ 40 % 2 ^ 16;
      idx = v / 2 ^ 28 % 2 ^ 12;
      total = v / 2 ^ 16 % 2 ^ 12;
      blob_len = v % 2 ^ 16;
    })
    else none

-- A chunk: 32 bytes of the blob, filled up with zeros.
abbrev pub pad : List ℕ → List ℕ
pad xs = xs ++ replicate (32 - length xs) 0

abbrev pub chunk_at : List ℕ → ℕ → List ℕ
chunk_at blob idx = pad (take 32 (drop (idx * 32) blob))

-- `Math.max(1, Math.ceil(blob.length / 32))`
abbrev pub chunk_count : List ℕ → ℕ
chunk_count blob = max 1 ((length blob + 31) / 32)

-- An entry of the `receivable` answer: a block hash and the amount, as BigInt reads it.
abbrev pub Entry : Type 0
Entry = ℕ × ℕ

pub data FetchError : Type 0 where
  range_error : FetchError

unfoldable pub wanted : ℕ → List Entry → List (ℕ × Header)
wanted seq [] = []
wanted seq ((hash, amount) ∷ entries) =
    let rest = wanted seq entries in
    elim (unpack_header amount) [
      | none ↦ rest
      | some h ↦ if h.seq == seq then (hash, h) ∷ rest else rest
    ]

-- One round of the loop over `want`. The byte array `out` is kept as its rows of 32 bytes, since
-- every write is 32 bytes long at a multiple of 32; past the end the source throws RangeError.
-- `contents` is the answer of `blocks_info` with the representative decoded to its bytes; `none`
-- where the block, its contents or its representative is missing.
unfoldable pub place_one :
    (ℕ → Option (List ℕ)) → ℕ × Header → List (List ℕ) × ℕ → Result FetchError (List (List ℕ) × ℕ)
place_one contents (hash, h) (out, have) = elim (contents hash) [
  | none ↦ ok (out, have)
  | some chunk ↦
      if length chunk == 32
      then if ltb h.idx (length out) then ok (set out h.idx chunk, have + 1) else err range_error
      else ok (out, have)
]

unfoldable pub place :
    (ℕ → Option (List ℕ))
    → List (ℕ × Header)
    → List (List ℕ) × ℕ
    → Result FetchError (List (List ℕ) × ℕ)
place contents [] s = ok s
place contents (w ∷ ws) s = place_one contents w s >>= place contents ws

-- `fetch` from the entries on; `ok none` is the source's null, not all chunks visible yet.
unfoldable pub fetch_wanted :
    (ℕ → Option (List ℕ)) → List (ℕ × Header) → Result FetchError (Option (List ℕ))
fetch_wanted contents [] = ok none
fetch_wanted contents ((hash, h) ∷ ws) =
    if ltb (length ((hash, h) ∷ ws)) h.total then ok none else do
      placed ← place contents ((hash, h) ∷ ws) (replicate h.total (replicate 32 0), 0)
      if ltb placed.1 h.total then ok none else ok (some (take h.blob_len (concat placed.0)))

unfoldable pub fetch : (ℕ → Option (List ℕ)) → ℕ → List Entry → Result FetchError (Option (List ℕ))
unfolding fetch_wanted wanted unpack_header place place_one
fetch contents seq entries = fetch_wanted contents (wanted seq entries)

-- What the poster knows of its identity account: the frontier block and the balance.
pub record Head : Type 0 where
  pub frontier : ℕ
  pub balance : ℕ

-- A send that a node accepted.
pub record Sent : Type 0 where
  pub previous : ℕ
  pub chunk : List ℕ
  pub balance : ℕ
  pub amount : ℕ

-- One answer of `pocketAll`: it throws for the disagreement or failure that is retried, or for
-- another reason.
pub data Pocket : Type 0 where
  pocketed : Head → Pocket
  disagree fault : Pocket

-- What signing, work and broadcasting of one chunk come to, as the poster sees it: the new frontier of
-- an accepted send; a rejection that is tried again, with what the up to four fresh reads of the account
-- gave; a refusal to sign; another error. A rejection does not tell that the block is not on the
-- ledger: a node that has it already answers `old block`.
pub data Outcome : Type 0 where
  accepted : ℕ → Outcome
  stale : Option Head → Outcome
  unsigned failed : Outcome

pub data PostError : Type 0 where
  read_only no_head low_balance not_signed not_accepted : PostError

-- How a post ends; `waiting` is a run whose list of answers is over before the loop is.
pub data PostEnd : Type 0 where
  done waiting : PostEnd
  threw : PostError → PostEnd

pub record PostState : Type 0 where
  pub head : Head
  pub idx : ℕ
  pub refreshes : ℕ
  pub sent : List Sent

-- The answer to the chunk that was just built; `none` goes on with the loop.
unfoldable pub post_answer : List ℕ → ℕ → Outcome → PostState → PostState × Option PostEnd
post_answer chunk amount (accepted hash) s =
    let nb = s.head.balance - amount in
    let sent : Sent = record {
      previous = s.head.frontier;
      chunk = chunk;
      balance = nb;
      amount = amount;
    } in
    (
      record s {
        head = record { frontier = hash; balance = nb };
        idx = s.idx + 1;
        sent = s.sent ++ sent ∷ [];
      },
      none,
    )
post_answer chunk amount (stale none) s = (
  if ltb s.refreshes 3 then record s { refreshes = s.refreshes + 1 } else s,
  some (threw not_accepted),
)
post_answer chunk amount (stale (some head)) s =
    if ltb s.refreshes 3
    then (record s { head = head; refreshes = s.refreshes + 1 }, none)
    else (s, some (threw not_accepted))
post_answer chunk amount unsigned s = (s, some (threw not_signed))
post_answer chunk amount failed s = (s, some (threw not_accepted))

-- The broadcast loop, one outcome to a round.
unfoldable pub post_loop : ℕ → List ℕ → ℕ → List Outcome → PostState → PostState × PostEnd
unfolding post_answer
post_loop seq blob total [] s =
    if ltb s.idx total
    then if ltb s.head.balance (pack_header seq s.idx total (length blob))
      then (s, threw low_balance)
      else (s, waiting)
    else (s, done)
post_loop seq blob total (o ∷ os) s =
    let amount = pack_header seq s.idx total (length blob) in
    let (s', stop) = post_answer (chunk_at blob s.idx) amount o s in
    let rest : PostState × PostEnd = elim stop [
      | none ↦ post_loop seq blob total os s'
      | some end ↦ (s', end)
    ] in
    if ltb s.idx total
    then if ltb s.head.balance amount then (s, threw low_balance) else rest
    else (s, done)

-- The first reads of the account, up to six; `answers` is what the reads give, by attempt.
unfoldable pub first_head : ℕ → ℕ → (ℕ → Pocket) → Option Head
first_head zero a answers = none
first_head (suc left) a answers = elim (answers a) [
  | pocketed head ↦ some head
  | disagree ↦ first_head left (a + 1) answers
  | fault ↦ none
]

-- `post`, with the nodes' answers to its reads and to its sends; `seeded` is false for a read-only relay.
unfoldable pub post : Bool → ℕ → List ℕ → (ℕ → Pocket) → List Outcome → List Sent × PostEnd
post seeded seq blob pockets outcomes =
    if seeded
    then elim (first_head 6 0 pockets) [
      | none ↦ ([], threw no_head)
      | some head ↦
          let (s, end) =
            post_loop seq blob (chunk_count blob) outcomes
              (record { head = head; idx = 0; refreshes = 0; sent = [] }) in
          (s.sent, end)
    ]
    else ([], threw read_only)
