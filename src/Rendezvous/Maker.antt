-- ===== src/Rendezvous/Maker.antt =====
-- makerPollTake and postDecline of web/two_party.js.
pub mod Picking
pub mod Serving
use near_instant.Common.{
  ℕ, zero, suc, ◌+◌, Bool, true, false, ◌&&◌, List, [], ◌∷◌, Option, none, some, Result, ok, err,
  leb, ltb, take, if◌then◌else◌,
}
use near_instant.Common.Int.{ℤ, pos, negsuc}
use near_instant.Deal.{Deal, Intent, DealError, maker_validate_deal}
use near_instant.Certify.{Certificate}
use near_instant.Mailbox.{Wire, derive, new_wire, hex}
use near_instant.Rendezvous.{auth_bytes}
use near_instant.Rendezvous.Hex.{hb}
use near_instant.Rendezvous.Types.{
  Text, rv_slots, rv_box, rv_resp_box, Request, Reply, accept, decline, KeyPair, Platform, Fetched,
  unreachable, vacant, blob, Relay, Posting, Verdict, certificate, nothing, raised,
}
use near_instant.Rendezvous.Visiting.{
  Maker, not_certified, or_text, Judged, judge_verdict, judge_by, judge, Visit, judged_visit,
  checked_visit, parsed_visit, fetched_visit, visit, cleared, refused, lost, skipped, junk, refusal,
  chosen,
}

-- "declined"
abbrev declined_text : Text
declined_text = 100 ∷ 101 ∷ 99 ∷ 108 ∷ 105 ∷ 110 ∷ 101 ∷ 100 ∷ []

-- `postDecline`
unfoldable pub post_decline : Platform → Text → ℕ → Text → Posting
post_decline p hash slot reason = record {
  box = rv_resp_box hash;
  slot = slot;
  bytes = p.print_reply (decline (take 200 (or_text reason declined_text)));
}

-- The confirmations that are offered, if they are an integer from 1 to 9.
unfoldable pub sane_confs : Option ℤ → Option ℕ
sane_confs none = none
sane_confs (some (pos n)) = if leb 1 n && leb n 9 then some n else none
sane_confs (some (negsuc n)) = none

abbrev pub positive : Option ℤ → Option ℕ
positive none = none
positive (some (pos n)) = if ltb 0 n then some n else none
positive (some (negsuc n)) = none

-- What the reply to a request promises: early confirmations to a taker that knows of them, and the
-- price to one that does, if it can be signed.
unfoldable pub offered_confs : Maker → Request → Option ℕ
unfolding sane_confs
offered_confs m r = if r.iok then sane_confs m.instant_offer else none

unfoldable pub attested_mid : Maker → Request → Option ℕ
attested_mid m r = elim m.sign [
  | none ↦ none
  | some sign ↦ if r.mok then positive m.mid_e9 else none
]

abbrev pub unless_empty : Option (List ℕ) → Option Text
unless_empty none = none
unless_empty (some []) = none
unless_empty (some (b ∷ bytes)) = some (hex (b ∷ bytes))

abbrev pub sign_by : Option (ℕ → List ℕ → Option (List ℕ)) → ℕ → List ℕ → Option Text
sign_by none slot hash = none
sign_by (some sign) slot hash = unless_empty (sign slot hash)

unfoldable pub signature : Platform → Maker → ℕ → Request → Option Text
unfolding offered_confs attested_mid
signature p m slot r = sign_by m.sign slot (
    p.crypto.sha256
      (auth_bytes (hb m.offer_hash) (m.keys slot).public (offered_confs m r) (attested_mid m r)))

unfoldable pub reply_to : Platform → Maker → ℕ → Request → Reply
unfolding signature
reply_to p m slot r =
    accept (hex (m.keys slot).public) (offered_confs m r) (attested_mid m r) (signature p m slot r)

pub record Accepted : Type 0 where
  pub wire : Wire
  pub deal : Deal
  pub cert : Option Certificate
  pub shared : List ℕ
  pub slot : ℕ
  pub instant : Option ℕ

-- How a poll ends; `failed` is an exception.
pub data Polled : Type 0 where
  nobody only_junk failed : Polled
  declined : Text → Polled
  accepted : Accepted → Polled

-- The secret that the taker's key gives, once the reply is posted.
unfoldable pub secret_with : Platform → KeyPair → Option Text → Option (List ℕ)
secret_with p keys none = none
secret_with p keys (some text) = p.agree keys.secret (hb text)

abbrev pub acceptance : Platform → Maker → ℕ → Request → Option Certificate → List ℕ → Accepted
acceptance p m slot r c shared = record {
  wire = new_wire (derive p.crypto shared false);
  deal = r.deal;
  cert = c;
  shared = shared;
  slot = slot;
  instant = offered_confs m r;
}

abbrev pub with_secret :
    Platform → Maker → ℕ → Request → Option Certificate → Option (List ℕ) → Polled
with_secret p m slot r c none = failed
with_secret p m slot r c (some shared) = accepted (acceptance p m slot r c shared)

-- The reply is posted, then the wire is made.
unfoldable pub answer :
    Platform → Relay → Maker → ℕ → Request → Option Certificate → List Posting × Polled
unfolding reply_to secret_with
answer p relay m slot r c =
    let posting : Posting = record {
      box = rv_resp_box m.offer_hash;
      slot = slot;
      bytes = p.print_reply (reply_to p m slot r);
    } in
    (
      posting ∷ [],
      if relay.post_returns posting.box slot
          then with_secret p m slot r c (secret_with p (m.keys slot) r.key_text)
          else failed,
    )

-- No slot was chosen: a refusal outranks junk.
abbrev pub ending : Bool → Option Text → Polled
ending saw_junk (some reason) = declined reason
ending true none = only_junk
ending false none = nobody

-- What follows a visit; `poll` goes on with the next slot. A decline's own post may fail unseen.
abbrev pub after_visit :
    Platform
    → Relay
    → Maker
    → ℕ
    → Bool
    → Option Text
    → (Bool → Option Text → List Posting × Polled)
    → Visit
    → List Posting × Polled
after_visit p relay m slot saw_junk refused_for poll lost = ([], failed)
after_visit p relay m slot saw_junk refused_for poll skipped = poll saw_junk refused_for
after_visit p relay m slot saw_junk refused_for poll junk = poll true refused_for
after_visit p relay m slot saw_junk refused_for poll (refusal reason) =
    let rest = poll saw_junk (some reason) in
    (post_decline p m.offer_hash slot reason ∷ rest.0, rest.1)
after_visit p relay m slot saw_junk refused_for poll (chosen r c) = answer p relay m slot r c

-- The slots from `slot` on.
unfoldable pub poll_from :
    Platform → Relay → Maker → ℕ → ℕ → Bool → Option Text → List Posting × Polled
unfolding answer post_decline
poll_from p relay m zero slot saw_junk refused_for = ([], ending saw_junk refused_for)
poll_from p relay m (suc left) slot saw_junk refused_for =
    after_visit p relay m slot saw_junk refused_for (poll_from p relay m left (slot + 1))
      (visit p relay m slot)

unfoldable pub maker_poll_take : Platform → Relay → Maker → List Posting × Polled
unfolding poll_from
maker_poll_take p relay m = poll_from p relay m rv_slots 0 false none
