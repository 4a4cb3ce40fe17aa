-- ===== src/LedgerRelay/Posting.antt =====
-- The sends that a finished post has had accepted, and that it ends.
use near_instant.Common.{
  ℕ, zero, suc, ◌+◌, ◌*◌, ◌^◌, ◌≤◌, ◌≡◌, ◌≢◌, refl, ap, ◌∙◌, sym, Bool, true, false, List, [], ◌∷◌,
  ◌++◌, none, some, arith, length, map, ltb, Bool-cases, Option-cases, inl, inr,
}
use mathlib.Core.List.{append_assoc, append-nil, map-append}
use near_instant.LedgerRelay.Packing.{unpack_header-pack_header}
use near_instant.LedgerRelay.{
  pocketed, pack_header, chunk_at, chunk_count, Head, Sent, Pocket, Outcome, done, waiting,
  PostState, accepted, stale, unsigned, failed, not_accepted, threw, post_answer, post_loop,
  first_head, post,
}
use near_instant.LedgerRelay.Rounds.{
  post_loop-over, post_loop-low, post_loop-next, post_loop-refused, post_loop-out, stale_again,
  next_amount,
}

-- What a send tells the reader.
abbrev pub payload : Sent → List ℕ × ℕ
payload s = (s.chunk, s.amount)

-- The sends of a message from one index on: the chunks in order, each with its header.
abbrev pub message : ℕ → List ℕ → ℕ → ℕ → ℕ → List (List ℕ × ℕ)
message seq blob total idx zero = []
message seq blob total idx (suc n) =
    (chunk_at blob idx, pack_header seq idx total (length blob))
    ∷ message seq blob total (idx + 1) n

-- A run that is done has appended the rest of the message, `n` sends, to what was sent.
abbrev Told : ℕ → List ℕ → ℕ → List Outcome → Type 0
Told seq blob total os =
    (n : ℕ) (s : PostState)
    → s.idx + n ≡ total
    → (post_loop seq blob total os s).1 ≡ done
    → map payload (post_loop seq blob total os s).0.sent
      ≡ map payload s.sent ++ message seq blob total s.idx n

round-Told :
    (seq : ℕ) (blob : List ℕ) (total n : ℕ) (o : Outcome) (os : List Outcome) (s : PostState)
    → Told seq blob total os
    → s.idx + suc n ≡ total
    → ltb s.head.balance (next_amount seq blob total s) ≡ false
    → (post_loop seq blob total (o ∷ os) s).1 ≡ done
    → map payload (post_loop seq blob total (o ∷ os) s).0.sent
      ≡ map payload s.sent ++ message seq blob total s.idx (suc n)
unfolding post_answer
round-Told seq blob total n (accepted hash) os s later e rich h =
    let next = post_loop-next seq blob total s (omega arith) (accepted hash) os rich refl in
    rw next (
      later n _ (omega arith) (rw next at h)
      ∙ ap (λ l. l ++ message seq blob total (s.idx + 1) n) (map-append payload s.sent (_ ∷ []))
      ∙ append_assoc (map payload s.sent) (_ ∷ []) (message seq blob total (s.idx + 1) n))
round-Told seq blob total n (stale none) os s later e rich h =
    let end = post_loop-refused seq blob total s (omega arith) (stale none) os rich _ refl in
    absurd (ground arith)
round-Told seq blob total n (stale (some head)) os s later e rich h =
    elim (Bool-cases (ltb s.refreshes 3)) [
      | inl again ↦
          let answer =
            stale_again (chunk_at blob s.idx) (next_amount seq blob total s) head s
              (ground arith) in
          let next =
            post_loop-next seq blob total s (omega arith) (stale (some head)) os rich
              (ap (λ a. a.1) answer) in
          rw (next, answer) (later (suc n) _ e (rw (next, answer) at h))
      | inr over ↦
          let end =
            post_loop-refused seq blob total s (omega arith) (stale (some head)) os rich
              (threw not_accepted) (rw over refl) in
          absurd (ground arith)
    ]
round-Told seq blob total n unsigned os s later e rich h =
    let end = post_loop-refused seq blob total s (omega arith) unsigned os rich _ refl in
    absurd (ground arith)
round-Told seq blob total n failed os s later e rich h =
    let end = post_loop-refused seq blob total s (omega arith) failed os rich _ refl in
    absurd (ground arith)

post_loop-done : (seq : ℕ) (blob : List ℕ) (total : ℕ) (os : List Outcome) → Told seq blob total os
post_loop-done seq blob total os zero s e h =
    rw (post_loop-over seq blob total os s (ground arith)) (sym (append-nil (map payload s.sent)))
post_loop-done seq blob total [] (suc n) s e h =
    let end = post_loop-out seq blob total s (omega arith) in absurd (ground arith)
post_loop-done seq blob total (o ∷ os) (suc n) s e h =
    elim (Bool-cases (ltb s.head.balance (next_amount seq blob total s))) [
      | inl p ↦
          let low = post_loop-low seq blob total s (omega arith) (o ∷ os) p in absurd (ground arith)
      | inr p ↦ round-Told seq blob total n o os s (post_loop-done seq blob total os) e p h
    ]

-- A run ends by itself if `n` sends are left to make and the answers suffice for them and for the
-- fresh reads that are left.
abbrev Ends : ℕ → List ℕ → ℕ → List Outcome → Type 0
Ends seq blob total os =
    (n : ℕ) (s : PostState)
    → s.idx + n ≡ total
    → s.refreshes ≤ 3
    → n + 3 ≤ length os + s.refreshes
    → (post_loop seq blob total os s).1 ≢ waiting

round-Ends :
    (seq : ℕ) (blob : List ℕ) (total n : ℕ) (o : Outcome) (os : List Outcome) (s : PostState)
    → Ends seq blob total os
    → s.idx + suc n ≡ total
    → s.refreshes ≤ 3
    → n + 3 ≤ length os + s.refreshes
    → ltb s.head.balance (next_amount seq blob total s) ≡ false
    → (post_loop seq blob total (o ∷ os) s).1 ≢ waiting
unfolding post_answer
round-Ends seq blob total n (accepted hash) os s later e few enough rich h =
    let next = post_loop-next seq blob total s (omega arith) (accepted hash) os rich refl in
    later n _ (omega arith) few enough (rw next at h)
round-Ends seq blob total n (stale none) os s later e few enough rich h =
    let end = post_loop-refused seq blob total s (omega arith) (stale none) os rich _ refl in
    absurd (ground arith)
round-Ends seq blob total n (stale (some head)) os s later e few enough rich h =
    elim (Bool-cases (ltb s.refreshes 3)) [
      | inl again ↦
          let answer =
            stale_again (chunk_at blob s.idx) (next_amount seq blob total s) head s
              (ground arith) in
          let next =
            post_loop-next seq blob total s (omega arith) (stale (some head)) os rich
              (ap (λ a. a.1) answer) in
          later (suc n) _ e (ground arith) (omega arith) (rw (next, answer) at h)
      | inr over ↦
          let end =
            post_loop-refused seq blob total s (omega arith) (stale (some head)) os rich
              (threw not_accepted) (rw over refl) in
          absurd (ground arith)
    ]
round-Ends seq blob total n unsigned os s later e few enough rich h =
    let end = post_loop-refused seq blob total s (omega arith) unsigned os rich _ refl in
    absurd (ground arith)
round-Ends seq blob total n failed os s later e few enough rich h =
    let end = post_loop-refused seq blob total s (omega arith) failed os rich _ refl in
    absurd (ground arith)

post_loop-Ends : (seq : ℕ) (blob : List ℕ) (total : ℕ) (os : List Outcome) → Ends seq blob total os
post_loop-Ends seq blob total os zero s e few enough h =
    let end = post_loop-over seq blob total os s (ground arith) in ground arith
post_loop-Ends seq blob total [] (suc n) s e few enough h = absurd (omega arith)
post_loop-Ends seq blob total (o ∷ os) (suc n) s e few enough h =
    elim (Bool-cases (ltb s.head.balance (next_amount seq blob total s))) [
      | inl p ↦
          let low = post_loop-low seq blob total s (omega arith) (o ∷ os) p in absurd (ground arith)
      | inr p ↦
          round-Ends seq blob total n o os s (post_loop-Ends seq blob total os) e few (omega arith)
            p h
    ]

-- In a post that is done, the sends that a node accepted are the whole message, in order: for every
-- chunk of the blob exactly one, which has the chunk and the header with its index. Sends that were
-- rejected are not among them, whether or not the ledger has their blocks all the same.
pub post-message :
    (seeded : Bool) (seq : ℕ) (blob : List ℕ) (pockets : ℕ → Pocket) (outcomes : List Outcome)
    → (post seeded seq blob pockets outcomes).1 ≡ done
    → map payload (post seeded seq blob pockets outcomes).0
      ≡ message seq blob (chunk_count blob) 0 (chunk_count blob)
unfolding post
post-message false seq blob pockets outcomes h = absurd (ground arith)
post-message true seq blob pockets outcomes h = elim (Option-cases (first_head 6 0 pockets)) [
  | inl p ↦ absurd (ground arith)
  | inr (head, p) ↦ rw p (
      post_loop-done seq blob (chunk_count blob) outcomes (chunk_count blob)
        (record { head = head; idx = 0; refreshes = 0; sent = [] }) (omega arith) (rw p at h))
]

-- A post ends, and asks for at most three answers more than there are chunks: with so many answers,
-- it is not left waiting.
pub post-ends :
    (seeded : Bool) (seq : ℕ) (blob : List ℕ) (pockets : ℕ → Pocket) (outcomes : List Outcome)
    → chunk_count blob + 3 ≤ length outcomes
    → (post seeded seq blob pockets outcomes).1 ≢ waiting
unfolding post
post-ends false seq blob pockets outcomes enough h = absurd (ground arith)
post-ends true seq blob pockets outcomes enough h = elim (Option-cases (first_head 6 0 pockets)) [
  | inl p ↦ ground arith
  | inr (head, p) ↦
      post_loop-Ends seq blob (chunk_count blob) outcomes (chunk_count blob)
        (record { head = head; idx = 0; refreshes = 0; sent = [] }) (omega arith) (omega arith)
        (omega arith) (rw p at h)
]

post_loop-accepted :
    (seq : ℕ) (blob : List ℕ) (total n : ℕ) (hashes : List ℕ) (s : PostState)
    → s.idx + n ≡ total
    → length hashes ≡ n
    → n * 2 ^ 63 ≤ s.head.balance
    → (post_loop seq blob total (map accepted hashes) s).1 ≡ done
unfolding post_answer
post_loop-accepted seq blob total zero hashes s e count rich =
    rw (post_loop-over seq blob total (map accepted hashes) s (ground arith)) refl
post_loop-accepted seq blob total (suc n) [] s e count rich = absurd (ground arith)
post_loop-accepted seq blob total (suc n) (hash ∷ hashes) s e count rich =
    let dust = (unpack_header-pack_header seq s.idx total (length blob)).1 in
    let next =
      post_loop-next seq blob total s (omega arith) (accepted hash) (map accepted hashes)
        (ground arith) refl in
    rw next
      (post_loop-accepted seq blob total n hashes _ (omega arith) (ground arith) (omega arith))

-- A post whose first read of the account succeeds and whose sends are all accepted is done, if the
-- account has 2 ^ 63 raw for each chunk.
pub post-accepted :
    (seq : ℕ) (blob : List ℕ) (head : Head) (pockets : ℕ → Pocket) (hashes : List ℕ)
    → pockets 0 ≡ pocketed head
    → length hashes ≡ chunk_count blob
    → chunk_count blob * 2 ^ 63 ≤ head.balance
    → (post true seq blob pockets (map accepted hashes)).1 ≡ done
unfolding post first_head
post-accepted seq blob head pockets hashes read count rich = rw read (
    post_loop-accepted seq blob (chunk_count blob) (chunk_count blob) hashes
      (record { head = head; idx = 0; refreshes = 0; sent = [] }) (omega arith) count rich)
