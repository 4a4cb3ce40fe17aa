-- ===== src/Rendezvous/Visiting.antt =====
-- One slot of a maker's poll in web/two_party.js: whether its request is empty, junk, refused, or chosen.
-- The offer's hash is in lower case; the clocks and the key generator are read through the slot, since
-- a slot is visited once.
pub mod Worthy
use near_instant.Common.{
  ℕ, zero, suc, ◌+◌, Bool, true, false, ◌&&◌, List, [], ◌∷◌, Option, none, some, Result, ok, err,
  leb, ltb, take, if◌then◌else◌,
}
use near_instant.Common.Int.{ℤ, pos, negsuc}
use near_instant.Deal.{Deal, Intent, DealError, maker_validate_deal}
use near_instant.Certify.{Certificate}
use near_instant.Mailbox.{Wire, derive, new_wire, hex}
use near_instant.Rendezvous.{auth_bytes}
use near_instant.Rendezvous.Hex.{hb}
use near_instant.Rendezvous.Types.{
  Text, rv_slots, rv_box, rv_resp_box, Request, Reply, accept, decline, KeyPair, Platform, Fetched,
  unreachable, vacant, blob, Relay, Posting, Verdict, certificate, nothing, raised,
}

-- The arguments of a poll. `sign` has none where the signer throws or gives nothing.
pub record Maker : Type 0 where
  pub offer_hash : Text
  pub intent : Intent
  pub limit : ℤ
  pub certify : Option (ℕ → Deal → Verdict)
  pub sign : Option (ℕ → List ℕ → Option (List ℕ))
  pub instant_offer : Option ℤ
  pub mid_e9 : Option ℤ
  pub keys : ℕ → KeyPair

-- "not certified"
abbrev pub not_certified : Text
not_certified = 110 ∷ 111 ∷ 116 ∷ 32 ∷ 99 ∷ 101 ∷ 114 ∷ 116 ∷ 105 ∷ 102 ∷ 105 ∷ 101 ∷ 100 ∷ []

-- `text || other`
abbrev pub or_text : Text → Text → Text
or_text [] other = other
or_text (c ∷ text) other = c ∷ text

-- Whether a request may be answered, with its certificate if there is a certifier.
pub data Judged : Type 0 where
  cleared : Option Certificate → Judged
  refused : Text → Judged

abbrev pub judge_verdict : Verdict → Judged
judge_verdict (certificate c reason) =
    if c.is_ok then cleared (some c) else refused (or_text reason not_certified)
judge_verdict nothing = refused not_certified
judge_verdict (raised reason) = refused (or_text reason not_certified)

abbrev pub judge_by : Option (ℕ → Deal → Verdict) → ℕ → Deal → Judged
judge_by none slot deal = cleared none
judge_by (some certify) slot deal = judge_verdict (certify slot deal)

unfoldable pub judge : Maker → ℕ → Deal → Judged
judge m slot deal = judge_by m.certify slot deal

-- What the maker makes of one slot.
pub data Visit : Type 0 where
  lost skipped junk : Visit
  refusal : Text → Visit
  chosen : Request → Option Certificate → Visit

abbrev pub judged_visit : Request → Judged → Visit
judged_visit r (cleared c) = chosen r c
judged_visit r (refused reason) = refusal reason

abbrev pub checked_visit : Maker → ℕ → Request → Result DealError (Unit {0}) → Visit
checked_visit m slot r (ok u) = judged_visit r (judge m slot r.deal)
checked_visit m slot r (err e) = junk

abbrev pub parsed_visit : Maker → ℕ → Option Request → Visit
parsed_visit m slot none = junk
parsed_visit m slot (some r) = checked_visit m slot r (maker_validate_deal r.deal m.intent m.limit)

abbrev pub fetched_visit : Platform → Maker → ℕ → Fetched → Visit
fetched_visit p m slot unreachable = lost
fetched_visit p m slot vacant = skipped
fetched_visit p m slot (blob bytes) = parsed_visit m slot (p.parse_request bytes)

unfoldable pub visit : Platform → Relay → Maker → ℕ → Visit
unfolding judge
visit p relay m slot = fetched_visit p m slot (relay.fetch slot (rv_box m.offer_hash) slot)
