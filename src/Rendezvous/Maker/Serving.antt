-- ===== src/Rendezvous/Maker/Serving.antt =====
-- What a request gets that stands behind others: makerPollTake of web/two_party.js.
use mathlib.Core.Path.{subst}
use near_instant.Common.{
  ℕ, zero, suc, ◌+◌, ◌≤◌, ◌<◌, ◌≡◌, refl, ap, sym, ◌∙◌, Bool, true, false, List, [], ◌∷◌, ◌++◌,
  Option, none, some, arith,
}
use near_instant.Certify.{Certificate}
use near_instant.Rendezvous.Types.{Text, rv_resp_box, Request, Platform, Relay, Posting}
use near_instant.Rendezvous.Visiting.{Maker, Visit, lost, skipped, junk, refusal, chosen, visit}
use near_instant.Rendezvous.Maker.{
  Polled, failed, answer, secret_with, after_visit, poll_from, maker_poll_take, post_decline,
}
use near_instant.Rendezvous.Visiting.Worthy.{IsPassed, IsWorthy, IsWorthy-visit}
use near_instant.Rendezvous.Maker.Picking.{reply_posting}

module _ (p : Platform) (relay : Relay) (m : Maker) where
  -- A poll comes to what an answer comes to, after some posts.
  abbrev EndsAs : List Posting × Polled → List Posting × Polled → Type 0
  EndsAs poll reply = (earlier : List Posting) × (poll ≡ (earlier ++ reply.0, reply.1))

  after_visit-EndsAs :
      (slot : ℕ) (j : Bool) (d : Option Text) (poll : Bool → Option Text → List Posting × Polled)
      (reply : List Posting × Polled) (v : Visit)
      → IsPassed v
      → ((j' : Bool) (d' : Option Text) → EndsAs (poll j' d') reply)
      → EndsAs (after_visit p relay m slot j d poll v) reply
  after_visit-EndsAs slot j d poll reply lost h k = absurd h
  after_visit-EndsAs slot j d poll reply skipped h k = k j d
  after_visit-EndsAs slot j d poll reply junk h k = k true d
  after_visit-EndsAs slot j d poll reply (refusal reason) h k =
      let (earlier, e) = k j (some reason) in
      let first = post_decline p m.offer_hash slot reason in
      (first ∷ earlier, ap (λ (x : List Posting × Polled). (first ∷ x.0, x.1)) e)
  after_visit-EndsAs slot j d poll reply (chosen r c) h k = absurd h

  poll_from-reaches :
      (left k slot : ℕ) (j : Bool) (d : Option Text) (r : Request) (c : Option Certificate)
      → k < left
      → ((i : ℕ) → slot ≤ i → i < slot + k → IsPassed (visit p relay m i))
      → visit p relay m (slot + k) ≡ chosen r c
      → EndsAs (poll_from p relay m left slot j d) (answer p relay m (slot + k) r c)
  unfolding poll_from
  poll_from-reaches zero k slot j d r c lt h v = absurd (omega arith)
  poll_from-reaches (suc left) zero slot j d r c lt h v =
      let here : slot + 0 ≡ slot = omega arith in
      let v' : visit p relay m slot ≡ chosen r c = ap (visit p relay m) (sym here) ∙ v in
      ([], rw (v', here) refl)
  poll_from-reaches (suc left) (suc k) slot j d r c lt h v =
      let next : slot + 1 + k ≡ slot + suc k = omega arith in
      after_visit-EndsAs slot j d (poll_from p relay m left (slot + 1))
        (answer p relay m (slot + suc k) r c) (visit p relay m slot)
        (h slot (omega arith) (omega arith))
        (λ j' d'.
          subst (λ n. EndsAs (poll_from p relay m left (slot + 1) j' d') (answer p relay m n r c))
            next
            (poll_from-reaches left k (slot + 1) j' d' r c (omega arith)
              (λ i lo hi. h i (omega arith) (omega arith)) (ap (visit p relay m) next ∙ v)))

  -- A request that is worth an answer in slot `s`.
  module _ (s : ℕ) (r : Request) (c : Option Certificate) (inside : s < 8)
      (passed : (i : ℕ) → i < s → IsPassed (visit p relay m i)) (worthy : IsWorthy p relay m s r c)
      (sent : relay.post_returns (rv_resp_box m.offer_hash) s ≡ true) where
    reaches : EndsAs (maker_poll_take p relay m) (answer p relay m s r c)
    unfolding maker_poll_take
    reaches =
        subst (λ n. EndsAs (maker_poll_take p relay m) (answer p relay m n r c)) zero_add
          (poll_from-reaches 8 s 0 false none r c inside (λ i lo hi. passed i (omega arith))
            (ap (visit p relay m) zero_add ∙ IsWorthy-visit p relay m s r c worthy))
      where
        zero_add : 0 + s ≡ s
        zero_add = omega arith

    -- A request with a usable deal and an unusable key is not skipped. If every slot before `s` is
    -- empty, junk or refused, and the request in `s` is valid and certified but has no usable key, then
    -- the poll throws once it has posted its reply, whatever stands in the slots behind `s`.
    pub maker_poll_take-bad_key :
        secret_with p (m.keys s) r.key_text ≡ none
        → (earlier : List Posting) × (maker_poll_take p relay m
            ≡ (earlier ++ reply_posting p m s r ∷ [], failed))
    unfolding answer
    maker_poll_take-bad_key e = let (earlier, h) = reaches in (earlier, h ∙ rw (sent, e))
