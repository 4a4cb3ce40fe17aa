-- ===== src/Tests/Meetings.antt =====
-- A rendezvous at concrete inputs, with a toy cipher, key agreement and signature: junk stands in the
-- first slot, and a request in the second.
use near_instant.Common.{
  ℕ, ◌+◌, ◌%◌, ◌<◌, ◌≡◌, refl, true, List, [], ◌∷◌, ◌++◌, Option, none, some, ok, arith, sum, ◌==◌,
  if◌then◌else◌, ltb, zero, suc,
}
use near_instant.Common.Int.{pos, scale, ◌*ℤ◌, quot}
use near_instant.Deal.{maker_validate_deal}
use near_instant.Mailbox.{hex, derive, new_wire, u64le}
use near_instant.Rendezvous.{auth_bytes, extra}
use near_instant.Rendezvous.Hex.{hb}
use near_instant.Rendezvous.Types.{
  Text, Request, Reply, accept, decline, claims, RawReply, Platform, Fetched, vacant, blob, Relay,
  Posting, certificate,
}
use near_instant.Rendezvous.Maker.Serving.{maker_poll_take-bad_key}
use near_instant.Rendezvous.Taker.{Taker, Handshake, request_posting, taker_handshake, handle_reply}
use near_instant.Rendezvous.Meeting.{IsMet, IsSigned, Crossed, handle_reply-meets}
use near_instant.Tests.Deals.{offer, deal, size, accept as certificate_ok}
use near_instant.Tests.Wires.{toy}
use near_instant.Rendezvous.Visiting.{Maker, visit}
use near_instant.Rendezvous.Maker.{
  maker_poll_take, Accepted, acceptance, failed, secret_with, reply_to, offered_confs, attested_mid,
}
use near_instant.Rendezvous.Visiting.Worthy.{IsPassed, IsWorthy}
use near_instant.Rendezvous.Maker.Picking.{reply_posting}
use near_instant.Rendezvous.Taker.Verified.{IsPrice}
use near_instant.Rendezvous.Taker.Settled.{IsSettled, taker_handshake-IsSettled}

abbrev agree_toy : List ℕ → List ℕ → Option (List ℕ)
agree_toy secret [] = none
agree_toy secret (x ∷ xs) = some ((sum secret + x + sum xs) ∷ [])

abbrev request : Option Text → Request
request key = record { deal = deal; key_text = key; iok = true; mok = true }

abbrev parse_toy : List ℕ → Option Request
parse_toy [] = none
parse_toy (x ∷ xs) =
    if x == 1
    then some (request (some (hex (4 ∷ []))))
    else if x == 2
    then some (request none)
    else none

abbrev print_toy : Reply → List ℕ
print_toy (accept key_text confs mid sig) = 5 ∷ key_text
print_toy (decline reason) = 6 ∷ reason

abbrev expected : RawReply
expected = record {
  decline_text = none;
  key_text = some (hex (9 ∷ []));
  instant = claims (some (pos 3));
  mid = some (some (pos 1_900_000));
  sig = some (hex (148 ∷ []));
}

abbrev platform : Platform
platform = record {
  crypto = toy;
  agree = agree_toy;
  parse_request = parse_toy;
  parse_reply = λ bytes. some expected;
  print_request = λ d key. 1 ∷ key;
  print_reply = print_toy;
}

abbrev maker : Maker
maker = record {
  offer_hash = 97 ∷ 98 ∷ [];
  intent = offer.intent;
  limit = size;
  certify = some (λ slot d. certificate certificate_ok []);
  sign = some (λ slot hash. some (sum hash % 256 ∷ []));
  instant_offer = some (pos 3);
  mid_e9 = some (pos 1_900_000);
  keys = λ slot. record { public = 9 ∷ []; secret = 9 ∷ [] };
}

abbrev taker : Taker
taker = record {
  offer_hash = 97 ∷ 98 ∷ [];
  deal = deal;
  keys = record { public = 4 ∷ []; secret = 4 ∷ [] };
  verify = some (λ hash sig. (sum hash % 256) == sum sig);
  polls = 3;
}

-- A request in slot 1, behind junk in slot 0.
abbrev boxes : ℕ → ℕ → Fetched
boxes kind slot =
    if slot == 0 then blob (0 ∷ []) else if slot == 1 then blob (kind ∷ []) else vacant

abbrev relay : ℕ → Relay
relay kind = record { fetch = λ moment box slot. boxes kind slot; post_returns = λ box slot. true }

abbrev good_request : Request
good_request = request (some (hex (4 ∷ [])))

abbrev secret : List ℕ
secret = 13 ∷ []

abbrev taken_up : Accepted
taken_up = acceptance platform maker 1 good_request (some certificate_ok) secret

validated : maker_validate_deal deal maker.intent maker.limit ≡ ok tt
unfolding maker_validate_deal quot scale ◌*ℤ◌
validated = refl

no_secret_there : secret_with platform (maker.keys 1) none ≡ none
unfolding secret_with
no_secret_there = refl

price_fits : IsPrice (attested_mid maker good_request)
unfolding attested_mid
price_fits = omega arith

first-IsPassed : (kind i : ℕ) → i < 1 → IsPassed (visit platform (relay kind) maker i)
unfolding visit
first-IsPassed kind zero h = tt
first-IsPassed kind (suc i) h = absurd (omega arith)

worthy :
    (kind : ℕ) (r : Request)
    → r.deal ≡ deal
    → parse_toy (kind ∷ []) ≡ some r
    → IsWorthy platform (relay kind) maker 1 r (some certificate_ok)
worthy kind r same e = record {
  bytes = kind ∷ [];
  given = refl;
  parsed = e;
  valid = rw same validated;
  certified = (certificate_ok, [], refl, refl, refl);
}

maker_poll_take-bad_key_example :
    (earlier : List Posting) × (maker_poll_take platform (relay 2) maker
      ≡ (earlier ++ reply_posting platform maker 1 (request none) ∷ [], failed))
maker_poll_take-bad_key_example =
    maker_poll_take-bad_key platform (relay 2) maker 1 (request none) (some certificate_ok)
      (omega arith) (first-IsPassed 2) (worthy 2 (request none) refl refl) refl no_secret_there

-- The taker stands behind two others, and its reply is there at the second poll.
abbrev taker_relay : Relay
taker_relay = record {
  fetch = λ moment box slot.
      if ltb moment 8
      then (if ltb slot 2 then blob (0 ∷ []) else vacant)
      else (if moment == 9 then blob (5 ∷ []) else vacant);
  post_returns = λ box slot. true;
}

abbrev shaken : Handshake
shaken = record {
  wire = new_wire (derive toy secret true);
  maker_key = hex (9 ∷ []);
  shared = secret;
  slot = 2;
  instant = some 3;
  agreed_mid = some 1_900_000;
}

handshake_run :
    taker_handshake platform taker_relay taker ≡ (request_posting platform taker 2 ∷ [], ok shaken)
unfolding taker_handshake auth_bytes hb hex extra u64le
handshake_run = refl

taker_handshake-IsSettled_example :
    IsSettled platform taker_relay taker (request_posting platform taker 2 ∷ []) shaken
taker_handshake-IsSettled_example =
    taker_handshake-IsSettled platform taker_relay taker (request_posting platform taker 2 ∷ [])
      shaken handshake_run

met : IsMet platform maker taker 1 good_request secret
unfolding reply_to auth_bytes hb extra u64le
met = record { one_offer = refl; survives = refl; key_bytes = omega arith; agreed = refl }

signs :
    IsSigned platform maker taker 1 good_request
      (λ slot hash. some (sum hash % 256 ∷ []))
      (λ hash sig. (sum hash % 256) == sum sig)
unfolding auth_bytes attested_mid hb extra offered_confs u64le
signs = record {
  signer = refl;
  verifier = refl;
  first = 148;
  others = [];
  signature_bytes = omega arith;
  signs = refl;
  accepts = refl;
}

handle_reply-meets_example :
    (h : Handshake) × (handle_reply platform taker 1
        (print_toy (reply_to platform maker 1 good_request))
      ≡ ok h)
    × (h.shared ≡ secret)
    × (h.instant ≡ taken_up.instant)
    × (h.agreed_mid ≡ attested_mid maker good_request)
    × Crossed h.wire taken_up.wire
handle_reply-meets_example =
    handle_reply-meets platform maker taker 1 good_request (λ slot hash. some (sum hash % 256 ∷ []))
      (λ hash sig. (sum hash % 256) == sum sig) secret (some certificate_ok) met signs price_fits
