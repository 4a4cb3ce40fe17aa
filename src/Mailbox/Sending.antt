-- ===== src/Mailbox/Sending.antt =====
-- What `send` puts on the relays.
use near_instant.Common.{
  ℕ, zero, suc, ◌+◌, ◌*◌, ◌≤◌, ◌≡◌, refl, ap, inl, inr, ◌⊎◌, ◌||◌, Bool, true, false, List, [], ◌∷◌,
  ◌++◌, arith, length, All, All-append, Bool-cases, if◌then◌else◌,
}
use near_instant.Mailbox.{
  Crypto, Wire, Post, PostAnswer, taken, refused, failed, post_round, post_rounds, seal, send,
}

-- A post of this blob to this slot.
abbrev pub Carries : List ℕ → ℕ → List ℕ → Post → Type 0
Carries box seq blob p = (p.box ≡ box) × (p.seq ≡ seq) × (p.blob ≡ blob)

length-append : (xs ys : List Post) → length (xs ++ ys) ≡ length xs + length ys
length-append [] ys = omega arith
length-append (x ∷ xs) ys = omega (arith, length-append xs ys)

abbrev is_taken : PostAnswer → Bool
is_taken taken = true
is_taken refused = false
is_taken failed = false

-- One of the relays takes a post in this round.
abbrev pub takes : (ℕ → PostAnswer) → ℕ → ℕ → Bool
takes answers relay zero = false
takes answers relay (suc left) = is_taken (answers relay) || takes answers (relay + 1) left

-- Some relay takes a post in one of the rounds.
abbrev pub takes_in : ℕ → (ℕ → ℕ → PostAnswer) → ℕ → ℕ → Bool
takes_in relays answers round zero = false
takes_in relays answers round (suc left) =
    takes (answers round) 0 relays || takes_in relays answers (round + 1) left

answers-cases : (a : PostAnswer) → (a ≡ taken) ⊎ ((a ≡ refused) ⊎ (a ≡ failed))
answers-cases taken = inl refl
answers-cases refused = inr (inl refl)
answers-cases failed = inr (inr refl)

module _ (box : List ℕ) (seq : ℕ) (blob : List ℕ) where
  post_round_lem :
      (answers : ℕ → PostAnswer) (relay left : ℕ)
      → All (Carries box seq blob) (post_round box seq blob answers relay left).0
        × (length (post_round box seq blob answers relay left).0 ≤ left)
        × ((post_round box seq blob answers relay left).1 ≡ takes answers relay left)
  unfolding post_round
  post_round_lem answers relay zero = (tt, omega arith, refl)
  post_round_lem answers relay (suc left) =
      let (same, few, ends) = post_round_lem answers (relay + 1) left in
      elim (answers-cases (answers relay)) [
        | inl p ↦ rw (post_round, p) (((refl, refl, refl), tt), omega arith, refl)
        | inr (inl p) ↦ rw (post_round, p) (((refl, refl, refl), same), omega arith, ends)
        | inr (inr p) ↦ rw (post_round, p) (((refl, refl, refl), same), omega arith, ends)
      ]

  post_rounds_lem :
      (relays : ℕ) (answers : ℕ → ℕ → PostAnswer) (round left : ℕ)
      → All (Carries box seq blob) (post_rounds box seq blob relays answers round left).0
        × (length (post_rounds box seq blob relays answers round left).0 ≤ left * relays)
        × ((post_rounds box seq blob relays answers round left).1
            ≡ takes_in relays answers round left)
  unfolding post_rounds
  post_rounds_lem relays answers round zero = (tt, omega arith, refl)
  post_rounds_lem relays answers round (suc left) =
      let (same, few, ends) = post_round_lem (answers round) 0 relays in
      let (later_same, later_few, later_ends) = post_rounds_lem relays answers (round + 1) left in
      let more : suc left * relays ≡ relays + left * relays = omega arith in
      elim (Bool-cases (post_round box seq blob (answers round) 0 relays).1) [
        | inl p ↦ rw (← ends, p) (same, omega (arith, more), refl)
        | inr p ↦
            rw (← ends, p)
              (
                All-append (Carries box seq blob) _ _ same later_same,
                omega (
                  arith,
                  more,
                  length-append (post_round box seq blob (answers round) 0 relays).0
                      (post_rounds box seq blob relays answers (round + 1) left).0,
                ),
                later_ends,
              )
      ]

-- What `send` does, whatever the relays answer: every post it tries is of the same blob to the same
-- slot, the message sealed for the next number of the outgoing box, so that a repeated post changes
-- nothing; there are at most four for each relay; it returns exactly if some relay takes one, and
-- then goes on to the next number; else it throws, and the wire is as before.
pub send_lem :
    (c : Crypto) (relays : ℕ) (answers : ℕ → ℕ → PostAnswer) (w : Wire) (msg : List ℕ)
    → All
        (Carries w.send_box w.sseq (seal c w.key w.send_box w.sseq msg))
        (send c relays answers w msg).1
      × (length (send c relays answers w msg).1 ≤ 4 * relays)
      × ((send c relays answers w msg).2 ≡ takes_in relays answers 0 4)
      × ((send c relays answers w msg).0
          ≡ (if takes_in relays answers 0 4 then record w { sseq = w.sseq + 1 } else w))
unfolding send
send_lem c relays answers w msg =
    let (same, few, ends) =
      post_rounds_lem w.send_box w.sseq (seal c w.key w.send_box w.sseq msg) relays answers 0 4 in
    (same, few, ends, ap (λ d. if d then record w { sseq = w.sseq + 1 } else w) ends)
