-- ===== src/Mailbox/Receiving.antt =====
-- What `recv` returns.
use near_instant.Common.{
  ℕ, zero, suc, ◌+◌, ◌≡◌, refl, ap, ◌∙◌, sym, inl, inr, ◌⊎◌, true, List, [], ◌∷◌, Option, none,
  some, Option-cases, arith, All, map, get_elem?,
}
use near_instant.Mailbox.{
  Crypto, Wire, seal, open_slot, send, Post, PostAnswer, recv, Received, message, bad_blob, timeout,
  first_blob,
}
use near_instant.Mailbox.Sending.{send_lem}
use near_instant.Mailbox.Slots.{IsCipher, open_slot-seal, seal-open_slot}

-- The first blob that any poll gives.
abbrev pub arrival : List (List (Option (List ℕ))) → Option (List ℕ)
arrival [] = none
arrival (poll ∷ polls) =
    let later = arrival polls in elim (first_blob poll) [ none ↦ later | some blob ↦ some blob ]

-- What becomes of the first blob.
abbrev pub opened : Crypto → Wire → Option (List ℕ) → Wire × Received
opened c w none = (w, timeout)
opened c w (some blob) = elim (open_slot c w.key w.recv_box w.rseq blob) [
  | none ↦ (w, bad_blob)
  | some msg ↦ (record w { rseq = w.rseq + 1 }, message msg)
]

recv-arrival :
    (c : Crypto) (polls : List (List (Option (List ℕ)))) (w : Wire)
    → recv c polls w ≡ opened c w (arrival polls)
unfolding recv
recv-arrival c [] w = refl
recv-arrival c (poll ∷ polls) w = elim (Option-cases (first_blob poll)) [
  | inl p ↦ rw (recv, arrival, p) (recv-arrival c polls w)
  | inr (blob, p) ↦ rw (recv, arrival, p) refl
]

module _ (c : Crypto) (law : IsCipher c) (w : Wire) where
  opened-message :
      (o : Option (List ℕ)) (w' : Wire) (msg : List ℕ)
      → opened c w o ≡ (w', message msg)
      → o ≡ some (seal c w.key w.recv_box w.rseq msg)
  opened-message none w' msg e = absurd (ground arith)
  opened-message (some blob) w' msg e =
      elim (Option-cases (open_slot c w.key w.recv_box w.rseq blob)) [
        | inl p ↦ absurd (ground arith)
        | inr (got, p) ↦
            let same : got ≡ msg = ground arith in
            ap some (sym (seal-open_slot c law w.key w.recv_box w.rseq blob msg (p ∙ ap some same)))
      ]

  opened-seal :
      (msg : List ℕ)
      → opened c w (some (seal c w.key w.recv_box w.rseq msg))
        ≡ (record w { rseq = w.rseq + 1 }, message msg)
  opened-seal msg = rw (opened, open_slot-seal c law w.key w.recv_box w.rseq msg) refl

  opened_wire :
      (o : Option (List ℕ))
      → ((opened c w o).0 ≡ w)
        ⊎ ((got : List ℕ) × (opened c w o ≡ (record w { rseq = w.rseq + 1 }, message got)))
  opened_wire none = inl refl
  opened_wire (some blob) = elim (Option-cases (open_slot c w.key w.recv_box w.rseq blob)) [
    | inl p ↦ inl (rw (opened, p) refl)
    | inr (got, p) ↦ inr (got, rw (opened, p) refl)
  ]

-- `recv` returns a message exactly if the first blob that a relay gives is that message sealed for
-- the next number of the incoming box; then, and only then, it goes on to the next number. So a blob
-- that was changed or belongs to another slot is never taken, and moves nothing.
pub recv-message :
    (c : Crypto)
    → IsCipher c
    → (polls : List (List (Option (List ℕ)))) (w : Wire) (msg : List ℕ)
    → ((recv c polls w ≡ (record w { rseq = w.rseq + 1 }, message msg))
        → arrival polls ≡ some (seal c w.key w.recv_box w.rseq msg))
      × ((arrival polls ≡ some (seal c w.key w.recv_box w.rseq msg))
          → recv c polls w ≡ (record w { rseq = w.rseq + 1 }, message msg))
      × (((recv c polls w).0 ≡ w)
          ⊎ ((got : List ℕ) × (recv c polls w ≡ (record w { rseq = w.rseq + 1 }, message got))))
recv-message c law polls w msg = rw (recv-arrival c polls w) (
  opened-message c law w (arrival polls) _ msg,
  (λ e. rw e (opened-seal c law w msg)),
  opened_wire c law w (arrival polls),
)

-- A message on its way: what is sent, what the relays answer to its posts, and what the receiver's
-- polls give.
abbrev pub Passage : Type 0
Passage = List ℕ × (ℕ → ℕ → PostAnswer) × List (List (Option (List ℕ)))

-- Every message is posted, and what arrives first is one of the blobs posted for it.
abbrev pub Delivers : Crypto → ℕ → Wire → Wire → List Passage → Type 0
Delivers c relays s r [] = Unit
Delivers c relays s r ((msg, answers, polls) ∷ passages) =
    ((send c relays answers s msg).2 ≡ true)
    × ((p : Post) × ((i : ℕ) × (get_elem? (send c relays answers s msg).1 i ≡ some p))
        × (arrival polls ≡ some p.blob))
    × Delivers c relays (send c relays answers s msg).0 (recv c polls r).0 passages

-- What the receiver's calls return, one after another.
abbrev pub receive_all : Crypto → Wire → List Passage → List Received
receive_all c r [] = []
receive_all c r ((msg, answers, polls) ∷ passages) =
    (recv c polls r).1 ∷ receive_all c (recv c polls r).0 passages

get_elem?-All :
    (P : Post → Type 0) (p : Post) (ps : List Post) (i : ℕ)
    → All P ps
    → get_elem? ps i ≡ some p
    → P p
get_elem?-All P p [] i all e = absurd (ground arith)
get_elem?-All P p (q ∷ ps) zero all e = let same : q ≡ p = ground arith in rw same at all.0
get_elem?-All P p (q ∷ ps) (suc i) all e = get_elem?-All P p ps i all.1 e

-- The messages are received as they were sent, each once and in order, if the two sides share the
-- key and the box and stand at the same number, and what arrives first for each is one of the blobs
-- posted for it: whichever relay took it, in whichever round.
pub receive_all-send :
    (c : Crypto)
    → IsCipher c
    → (relays : ℕ) (s r : Wire) (passages : List Passage) → s.send_box ≡ r.recv_box
    → s.key ≡ r.key
    → s.sseq ≡ r.rseq
    → Delivers c relays s r passages
    → receive_all c r passages ≡ map (λ p. message p.0) passages
receive_all-send c law relays s r [] box key seq d = refl
receive_all-send c law relays s r ((msg, answers, polls) ∷ passages) box key seq
      (sent, (p, (i, member), arrived), later) =
    let (same, _, took, after) = send_lem c relays answers s msg in
    let blob : p.blob ≡ seal c r.key r.recv_box r.rseq msg =
      (get_elem?-All _ p _ i same member).2 ∙ rw (box, key, seq) refl in
    let got : recv c polls r ≡ (record r { rseq = r.rseq + 1 }, message msg) =
      (recv-message c law polls r msg).1 (arrived ∙ ap some blob) in
    let on = rw (← took, sent) at after in
    let rest =
      receive_all-send c law relays (send c relays answers s msg).0 (recv c polls r).0 passages
        (ap (λ x. x.send_box) on ∙ box ∙ sym (ap (λ x. x.0.recv_box) got))
        (ap (λ x. x.key) on ∙ key ∙ sym (ap (λ x. x.0.key) got))
        (ap (λ x. x.sseq) on ∙ ap (λ n. n + 1) seq ∙ sym (ap (λ x. x.0.rseq) got)) later in
    ap (λ x. x.1 ∷ receive_all c (recv c polls r).0 passages) got ∙ ap (λ l. message msg ∷ l) rest
