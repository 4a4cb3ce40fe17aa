-- ===== src/Rendezvous/Maker/Picking.antt =====
-- Which take-request a poll accepts: makerPollTake of web/two_party.js.
use near_instant.Common.{
  ℕ, ◌≤◌, ◌<◌, ◌≡◌, refl, ap, sym, ◌∙◌, List, [], ◌∷◌, ◌++◌, Option, none, some, if◌then◌else◌,
  arith, All, Bool-cases, inl, inr,
}
use near_instant.Certify.{Certificate}
use near_instant.Rendezvous.Types.{rv_resp_box, Request, Platform, Relay, Posting}
use near_instant.Rendezvous.Visiting.{Maker, chosen, visit}
use near_instant.Rendezvous.Maker.{
  offered_confs, reply_to, Accepted, acceptance, accepted, failed, answer, with_secret, secret_with,
}
use near_instant.Rendezvous.Visiting.Worthy.{IsPassed}

-- What is posted to a slot as the answer.
abbrev pub reply_posting : Platform → Maker → ℕ → Request → Posting
reply_posting p m slot r = record {
  box = rv_resp_box m.offer_hash;
  slot = slot;
  bytes = p.print_reply (reply_to p m slot r);
}

module _ (p : Platform) (relay : Relay) (m : Maker) where
  -- A poll from `slot` on posted `posts` and accepted `a`.
  pub record Picked (slot : ℕ) (posts : List Posting) (a : Accepted) : Type 0 where
    pub request : Request
    pub chosen_at : visit p relay m a.slot ≡ chosen request a.cert
    pub reached : slot ≤ a.slot
    pub passed : (i : ℕ) → slot ≤ i → i < a.slot → IsPassed (visit p relay m i)
    pub same_deal : a.deal ≡ request.deal
    pub promised : a.instant ≡ offered_confs m request
    pub earlier : List Posting
    pub all_posts : posts ≡ earlier ++ reply_posting p m a.slot request ∷ []
    pub declines : All (λ q. q.slot < a.slot) earlier

  with_secret-accepted :
      (slot : ℕ) (r : Request) (c : Option Certificate) (a : Accepted) (o : Option (List ℕ))
      → with_secret p m slot r c o ≡ accepted a
      → (shared : List ℕ) × (o ≡ some shared) × (a ≡ acceptance p m slot r c shared)
  with_secret-accepted slot r c a none e = absurd (ground arith)
  with_secret-accepted slot r c a (some shared) e = (shared, refl, ground arith)

  -- An answer that is accepted, taken apart.
  pub answer-accepted :
      (slot : ℕ) (r : Request) (c : Option Certificate) (posts : List Posting) (a : Accepted)
      → answer p relay m slot r c ≡ (posts, accepted a)
      → (shared : List ℕ) × (secret_with p (m.keys slot) r.key_text ≡ some shared)
        × (a ≡ acceptance p m slot r c shared)
        × (posts ≡ reply_posting p m slot r ∷ [])
  unfolding answer
  answer-accepted slot r c posts a e =
      elim (Bool-cases (relay.post_returns (rv_resp_box m.offer_hash) slot)) [
        | inl sent ↦
            let h = with_secret-accepted slot r c a (secret_with p (m.keys slot) r.key_text) (
              sym (
                ap
                  (λ b.
                    if b
                    then with_secret p m slot r c (secret_with p (m.keys slot) r.key_text)
                    else failed)
                  sent)
              ∙ ap (λ x. x.1) e) in
            (h.0, h.1, h.2, sym (ap (λ x. x.0) e))
        | inr lost_post ↦ absurd (ground arith)
      ]
