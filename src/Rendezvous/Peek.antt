-- ===== src/Rendezvous/Peek.antt =====
-- peekTakes of web/two_party.js. The text of an invalid row's reason is left out.
pub mod Listing
use near_instant.Common.{
  ℕ, zero, suc, ◌+◌, Bool, true, false, ◌&&◌, List, [], ◌∷◌, Option, none, some, Result, ok, err,
  leb, ltb, take, if◌then◌else◌,
}
use near_instant.Common.Int.{ℤ, pos, negsuc}
use near_instant.Deal.{Deal, Intent, DealError, maker_validate_deal}
use near_instant.Certify.{Certificate}
use near_instant.Mailbox.{Wire, derive, new_wire, hex}
use near_instant.Rendezvous.{auth_bytes}
use near_instant.Rendezvous.Hex.{hb}
use near_instant.Rendezvous.Types.{
  Text, rv_slots, rv_box, rv_resp_box, Request, Reply, accept, decline, KeyPair, Platform, Fetched,
  unreachable, vacant, blob, Relay, Posting, Verdict, certificate, nothing, raised,
}
use near_instant.Rendezvous.Visiting.{
  Maker, not_certified, or_text, Judged, judge_verdict, judge_by, judge, Visit, judged_visit,
  checked_visit, parsed_visit, fetched_visit, visit, cleared, refused, lost, skipped, junk, refusal,
  chosen,
}

-- A row of `peekTakes`: whether the slot is answered, the deal if it is valid, and its verdict.
pub record Row : Type 0 where
  pub slot : ℕ
  pub answered : Bool
  pub deal : Option Deal
  pub verdict : Option Verdict

abbrev pub has_blob : Fetched → Bool
has_blob (blob bytes) = true
has_blob unreachable = false
has_blob vacant = false

abbrev pub peek_by : Option (ℕ → Deal → Verdict) → ℕ → Deal → Option Verdict
peek_by none slot deal = none
peek_by (some certify) slot deal = some (certify slot deal)

abbrev pub checked_row : Maker → ℕ → Bool → Deal → Result DealError (Unit {0}) → Row
checked_row m slot answered deal (ok u) = record {
  slot = slot;
  answered = answered;
  deal = some deal;
  verdict = peek_by m.certify slot deal;
}
checked_row m slot answered deal (err e) = record {
  slot = slot;
  answered = answered;
  deal = none;
  verdict = none;
}

abbrev pub parsed_row : Maker → ℕ → Bool → Option Request → Row
parsed_row m slot answered none = record {
  slot = slot;
  answered = answered;
  deal = none;
  verdict = none;
}
parsed_row m slot answered (some r) =
    checked_row m slot answered r.deal (maker_validate_deal r.deal m.intent m.limit)

abbrev pub fetched_row : Platform → Relay → Maker → ℕ → Fetched → List Row → List Row
fetched_row p relay m slot unreachable rows = rows
fetched_row p relay m slot vacant rows = rows
fetched_row p relay m slot (blob bytes) rows =
    parsed_row m slot (has_blob (relay.fetch slot (rv_resp_box m.offer_hash) slot))
      (p.parse_request bytes)
    ∷ rows

unfoldable pub peek_from : Platform → Relay → Maker → ℕ → ℕ → List Row
peek_from p relay m zero slot = []
peek_from p relay m (suc left) slot =
    fetched_row p relay m slot (relay.fetch slot (rv_box m.offer_hash) slot)
      (peek_from p relay m left (slot + 1))

unfoldable pub peek_takes : Platform → Relay → Maker → List Row
unfolding peek_from
peek_takes p relay m = peek_from p relay m rv_slots 0
