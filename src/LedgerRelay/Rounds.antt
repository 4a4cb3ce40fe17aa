-- ===== src/LedgerRelay/Rounds.antt =====
-- One round of the broadcast loop of `post`.
use near_instant.Common.{
  ℕ, ◌+◌, ◌<◌, ◌≡◌, ◌≢◌, refl, true, false, List, [], ◌∷◌, none, some, arith, length, ltb,
  Bool-cases, inl, inr,
}
use near_instant.LedgerRelay.{
  pack_header, chunk_at, Head, Outcome, PostEnd, done, PostState, stale, low_balance, threw,
  post_answer, post_loop,
}

-- A loop that has reached the end.
pub post_loop-over :
    (seq : ℕ) (blob : List ℕ) (total : ℕ) (os : List Outcome) (s : PostState)
    → ltb s.idx total ≡ false
    → post_loop seq blob total os s ≡ (s, done)
unfolding post_loop
post_loop-over seq blob total [] s over = rw over refl
post_loop-over seq blob total (o ∷ os) s over = rw over refl

-- The amount of the next send.
abbrev pub next_amount : ℕ → List ℕ → ℕ → PostState → ℕ
next_amount seq blob total s = pack_header seq s.idx total (length blob)

module _ (seq : ℕ) (blob : List ℕ) (total : ℕ) (s : PostState) (lt : s.idx < total) where
  -- A round without the balance for the amount.
  pub post_loop-low :
      (os : List Outcome)
      → ltb s.head.balance (next_amount seq blob total s) ≡ true
      → (post_loop seq blob total os s).1 ≡ threw low_balance
  unfolding post_loop
  post_loop-low [] low =
      let in_loop : ltb s.idx total ≡ true = ground arith in rw (in_loop, low) refl
  post_loop-low (o ∷ os) low =
      let in_loop : ltb s.idx total ≡ true = ground arith in rw (in_loop, low) refl

  module _ (o : Outcome) (os : List Outcome)
      (rich : ltb s.head.balance (next_amount seq blob total s) ≡ false) where
    -- A round after which the loop goes on.
    pub post_loop-next :
        (post_answer (chunk_at blob s.idx) (next_amount seq blob total s) o s).1 ≡ none
        → post_loop seq blob total (o ∷ os) s
          ≡ post_loop seq blob total os
              (post_answer (chunk_at blob s.idx) (next_amount seq blob total s) o s).0
    unfolding post_loop
    post_loop-next answer =
        let in_loop : ltb s.idx total ≡ true = ground arith in rw (in_loop, rich, answer) refl

    -- A round that the answer ends.
    pub post_loop-refused :
        (end : PostEnd)
        → (post_answer (chunk_at blob s.idx) (next_amount seq blob total s) o s).1 ≡ some end
        → (post_loop seq blob total (o ∷ os) s).1 ≡ end
    unfolding post_loop
    post_loop-refused end answer =
        let in_loop : ltb s.idx total ≡ true = ground arith in rw (in_loop, rich, answer) refl

-- A run without an answer to its next send.
pub post_loop-out :
    (seq : ℕ) (blob : List ℕ) (total : ℕ) (s : PostState)
    → s.idx < total
    → (post_loop seq blob total [] s).1 ≢ done
unfolding post_loop
post_loop-out seq blob total s lt h =
    elim (Bool-cases (ltb s.head.balance (next_amount seq blob total s))) [
      | inl p ↦ ground arith
      | inr p ↦ ground arith
    ]

pub stale_again :
    (chunk : List ℕ) (amount : ℕ) (head : Head) (s : PostState)
    → s.refreshes < 3
    → post_answer chunk amount (stale (some head)) s
      ≡ (record s { head = head; refreshes = s.refreshes + 1 }, none)
unfolding post_answer
stale_again chunk amount head s lt =
    let again : ltb s.refreshes 3 ≡ true = ground arith in rw again refl
