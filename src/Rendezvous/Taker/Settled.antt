-- ===== src/Rendezvous/Taker/Settled.antt =====
-- What a taker knows of a handshake that returns: takerHandshake of web/two_party.js.
use mathlib.Core.Path.{subst}
use near_instant.Common.{
  ℕ, zero, suc, ◌+◌, ◌≤◌, ◌<◌, ◌≡◌, refl, ap, sym, ◌∙◌, not, List, [], ◌∷◌, ok, err, throw_if,
  arith, Bool-cases, inl, inr, chain-returned, ◌==◌, ==_iff,
}
use near_instant.Rendezvous.Types.{
  Text, rv_slots, rv_box, rv_resp_box, Platform, Fetched, unreachable, vacant, blob, Relay, Posting,
}
use near_instant.Rendezvous.Taker.{
  Taker, Take, Handshake, relay_failed, free_slot, first_or, wait_reply, poll_or, request_posting,
  after_request, with_slot, taker_handshake,
}
use near_instant.Rendezvous.Taker.Verified.{IsRead, handle_reply-IsRead}

module _ (relay : Relay) (hash : Text) where
  -- A slot is taken by another request.
  abbrev pub IsTaken : ℕ → Type 0
  IsTaken i = (bytes : List ℕ) × (relay.fetch i (rv_box hash) i ≡ blob bytes)

  first_or-first :
      (left slot s : ℕ) (f : Fetched)
      → relay.fetch slot (rv_box hash) slot ≡ f
      → ((r : ℕ)
          → free_slot relay hash left (slot + 1) ≡ ok r
          → (slot + 1 ≤ r)
            × (r < slot + 1 + left)
            × (relay.fetch r (rv_box hash) r ≡ vacant)
            × ((i : ℕ) → slot + 1 ≤ i → i < r → IsTaken i))
      → first_or f slot (free_slot relay hash left (slot + 1)) ≡ ok s
      → (slot ≤ s)
        × (s < slot + suc left)
        × (relay.fetch s (rv_box hash) s ≡ vacant)
        × ((i : ℕ) → slot ≤ i → i < s → IsTaken i)
  first_or-first left slot s unreachable g ih e = absurd (ground arith)
  first_or-first left slot s vacant g ih e =
      let same : slot ≡ s = ground arith in
      (
        omega arith,
        omega arith,
        subst (λ n. relay.fetch n (rv_box hash) n ≡ vacant) same g,
        λ i lo hi. absurd (omega arith),
      )
  first_or-first left slot s (blob bytes) g ih e =
      let (lo, hi, here, before) = ih s e in
      (
        omega arith,
        omega arith,
        here,
        λ i low high. elim (Bool-cases (slot == i)) [
          | inl same ↦ subst IsTaken ((==_iff slot i).0 same) (bytes, g)
          | inr other ↦ before i (ground arith) high
        ],
      )

  free_slot-first :
      (left slot : ℕ) (s : ℕ)
      → free_slot relay hash left slot ≡ ok s
      → (slot ≤ s)
        × (s < slot + left)
        × (relay.fetch s (rv_box hash) s ≡ vacant)
        × ((i : ℕ) → slot ≤ i → i < s → IsTaken i)
  unfolding free_slot
  free_slot-first zero slot s e = absurd (ground arith)
  free_slot-first (suc left) slot s e =
      first_or-first left slot s (relay.fetch slot (rv_box hash) slot) refl
        (λ r e'. free_slot-first left (slot + 1) r e') e

  -- A reply was read within so many polls.
  abbrev IsPolled : ℕ → ℕ → ℕ → List ℕ → Type 0
  IsPolled slot polls now bytes =
      (k : ℕ) × (now ≤ k) × (k < now + polls) × (relay.fetch k (rv_resp_box hash) slot ≡ blob bytes)

  poll_or-IsPolled :
      (slot left now : ℕ) (f : Fetched) (bytes : List ℕ)
      → relay.fetch now (rv_resp_box hash) slot ≡ f
      → (wait_reply relay hash slot left (now + 1) ≡ ok bytes → IsPolled slot left (now + 1) bytes)
      → poll_or f (wait_reply relay hash slot left (now + 1)) ≡ ok bytes
      → IsPolled slot (suc left) now bytes
  poll_or-IsPolled slot left now unreachable bytes g ih e = absurd (ground arith)
  poll_or-IsPolled slot left now vacant bytes g ih e =
      let (k, lo, hi, h) = ih e in (k, omega arith, omega arith, h)
  poll_or-IsPolled slot left now (blob found) bytes g ih e =
      (now, omega arith, omega arith, g ∙ ground arith)

  wait_reply-IsPolled :
      (slot left now : ℕ) (bytes : List ℕ)
      → wait_reply relay hash slot left now ≡ ok bytes
      → IsPolled slot left now bytes
  unfolding wait_reply
  wait_reply-IsPolled slot zero now bytes e = absurd (ground arith)
  wait_reply-IsPolled slot (suc left) now bytes e =
      poll_or-IsPolled slot left now (relay.fetch now (rv_resp_box hash) slot) bytes refl
        (wait_reply-IsPolled slot left (now + 1) bytes) e

module _ (p : Platform) (relay : Relay) (t : Taker) where
  -- The ways of a handshake that returns.
  pub record IsSettled (posts : List Posting) (h : Handshake) : Type 0 where
    pub inside : h.slot < 8
    pub free : relay.fetch h.slot (rv_box t.offer_hash) h.slot ≡ vacant
    pub others : (i : ℕ) → i < h.slot → IsTaken relay t.offer_hash i
    pub asked : posts ≡ request_posting p t h.slot ∷ []
    pub moment : ℕ
    pub in_time : moment < 8 + t.polls
    pub bytes : List ℕ
    pub answered : relay.fetch moment (rv_resp_box t.offer_hash) h.slot ≡ blob bytes
    pub read : IsRead p t h.slot bytes h

  with_slot-IsSettled :
      (o : Take ℕ) (posts : List Posting) (h : Handshake)
      → free_slot relay t.offer_hash rv_slots 0 ≡ o
      → with_slot p relay t o ≡ (posts, ok h)
      → IsSettled posts h
  unfolding after_request
  with_slot-IsSettled (err x) posts h g e = absurd (ground arith)
  with_slot-IsSettled (ok slot) posts h g e =
      let (lo, hi, here, before) = free_slot-first relay t.offer_hash rv_slots 0 slot g in
      let (u, sent, e1) =
        chain-returned (throw_if (not (relay.post_returns (rv_box t.offer_hash) slot)) relay_failed)
          _ (ap (λ x. x.1) e) in
      let (bytes, waited, e2) =
        chain-returned (wait_reply relay t.offer_hash slot t.polls rv_slots) _ e1 in
      let r = handle_reply-IsRead p t slot bytes h e2 in
      let polled = wait_reply-IsPolled relay t.offer_hash slot t.polls rv_slots bytes waited in
      let own : slot ≡ h.slot = sym r.own_slot in
      subst (λ s. IsRead p t s bytes h → IsSettled posts h) (sym own)
        (λ r'. record {
          inside = omega arith;
          free = subst (λ s. relay.fetch s (rv_box t.offer_hash) s ≡ vacant) own here;
          others = λ i lt. before i (omega arith) (omega arith);
          asked = sym (ap (λ x. x.0) e) ∙ ap (λ s. request_posting p t s ∷ []) own;
          moment = polled.0;
          in_time = polled.2;
          bytes = bytes;
          answered =
              subst (λ s. relay.fetch polled.0 (rv_resp_box t.offer_hash) s ≡ blob bytes) own
                polled.3;
          read = r';
        })
        r

  -- A handshake that returns took the first slot that nobody stood in, posted one request there, and
  -- read its reply from the same slot before the deadline. The reply is no decline; where the taker
  -- has a verifier, it carries a signature that the verifier accepts over the hash of the offer, the
  -- key, the confirmations and the price that the handshake returns, the confirmations being from 1 to
  -- 9 and the price from 100 to 10^12 if there are any; and the wire is the initiator's for the secret
  -- that the two keys give.
  pub taker_handshake-IsSettled :
      (posts : List Posting) (h : Handshake)
      → taker_handshake p relay t ≡ (posts, ok h)
      → IsSettled posts h
  unfolding taker_handshake
  taker_handshake-IsSettled posts h e =
      with_slot-IsSettled (free_slot relay t.offer_hash rv_slots 0) posts h refl e
