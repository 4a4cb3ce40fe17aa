-- ===== src/Rendezvous/Taker.antt =====
-- takerHandshake of web/two_party.js: a taker posts its request in the first free slot and waits for
-- the maker's reply. The moments at which the relay is asked are the slots, and then the polls.
pub mod Verified
pub mod Settled
use near_instant.Common.{
  ℕ, zero, suc, ◌+◌, ◌^◌, Bool, true, false, ◌&&◌, List, [], ◌∷◌, Option, none, some, Result, ok,
  err, ◌>>=◌, ◌>>◌, throw_if, not, leb, take, if◌then◌else◌,
}
use near_instant.Common.Int.{ℤ, pos, negsuc}
use near_instant.Deal.{Deal}
use near_instant.Mailbox.{Wire, derive, new_wire, hex}
use near_instant.Rendezvous.{auth_bytes}
use near_instant.Rendezvous.Hex.{hb}
use near_instant.Rendezvous.Types.{
  Text, rv_slots, rv_box, rv_resp_box, Instant, absent, claims, RawReply, KeyPair, Platform,
  Fetched, unreachable, vacant, blob, Relay, Posting,
}
use near_instant.Rendezvous.Maker.{sane_confs}

-- The arguments; `verify` says whether a signature over a hash is the maker's (an exception counts as
-- no), and `polls` is the number of polls before the deadline.
pub record Taker : Type 0 where
  pub offer_hash : Text
  pub deal : Deal
  pub keys : KeyPair
  pub verify : Option (List ℕ → List ℕ → Bool)
  pub polls : ℕ

pub data TakeError : Type 0 where
  full relay_failed no_maker malformed bad_instant bad_price unverified no_secret : TakeError
  maker_declined : Text → TakeError

abbrev pub Take : Type 0 → Type 0
Take A = Result TakeError A

pub record Handshake : Type 0 where
  pub wire : Wire
  pub maker_key : Text
  pub shared : List ℕ
  pub slot : ℕ
  pub instant : Option ℕ
  pub agreed_mid : Option ℕ

abbrev pub first_or : Fetched → ℕ → Take ℕ → Take ℕ
first_or unreachable slot later = err relay_failed
first_or vacant slot later = ok slot
first_or (blob bytes) slot later = later

-- The first slot, of those from `slot` on, where nobody stands.
unfoldable pub free_slot : Relay → Text → ℕ → ℕ → Take ℕ
free_slot relay hash zero slot = err full
free_slot relay hash (suc left) slot =
    first_or (relay.fetch slot (rv_box hash) slot) slot (free_slot relay hash left (slot + 1))

abbrev pub poll_or : Fetched → Take (List ℕ) → Take (List ℕ)
poll_or unreachable later = err relay_failed
poll_or vacant later = later
poll_or (blob bytes) later = ok bytes

-- The first reply, in so many polls.
unfoldable pub wait_reply : Relay → Text → ℕ → ℕ → ℕ → Take (List ℕ)
wait_reply relay hash slot zero now = err no_maker
wait_reply relay hash slot (suc left) now =
    poll_or (relay.fetch now (rv_resp_box hash) slot) (wait_reply relay hash slot left (now + 1))

abbrev pub or_err : {A : Type 0} → Option A → TakeError → Take A
or_err none e = err e
or_err (some a) e = ok a

abbrev pub sane_tier : Option ℕ → Take (Option ℕ)
sane_tier none = err bad_instant
sane_tier (some confs) = ok (some confs)

-- The tier of a reply: none where it makes no claim, and an error where the claim makes no sense.
abbrev pub read_instant : Instant → Take (Option ℕ)
read_instant absent = ok none
read_instant (claims z) = sane_tier (sane_confs z)

abbrev pub read_mid : Option (Option ℤ) → Take (Option ℕ)
read_mid none = ok none
read_mid (some none) = err bad_price
read_mid (some (some (negsuc n))) = err bad_price
read_mid (some (some (pos n))) = if leb 100 n && leb n (10 ^ 12) then ok (some n) else err bad_price

abbrev pub verified :
    Platform → Taker → Text → Option ℕ → Option ℕ → (List ℕ → List ℕ → Bool) → Option Text → Bool
verified p t key_text confs mid verify none = false
verified p t key_text confs mid verify (some sig) =
    verify (p.crypto.sha256 (auth_bytes (hb t.offer_hash) (hb key_text) confs mid)) (hb sig)

-- What the maker is taken at its word for; without a verifier, nothing.
unfoldable pub authenticate :
    Platform
    → Taker
    → RawReply
    → Text
    → Option (List ℕ → List ℕ → Bool)
    → Take (Option ℕ × Option ℕ)
unfolding sane_confs
authenticate p t reply key_text none = ok (none, none)
authenticate p t reply key_text (some verify) = do
  confs ← read_instant reply.instant
  mid ← read_mid reply.mid
  throw_if (not (verified p t key_text confs mid verify reply.sig)) unverified
  ok (confs, mid)

abbrev pub no_decline : Option Text → Take (Unit {0})
no_decline none = ok tt
no_decline (some reason) = err (maker_declined (take 200 reason))

-- What a reply in the taker's slot comes to.
unfoldable pub handle_reply : Platform → Taker → ℕ → List ℕ → Take Handshake
unfolding authenticate
handle_reply p t slot bytes = do
  reply ← or_err (p.parse_reply bytes) malformed
  no_decline reply.decline_text
  key_text ← or_err reply.key_text malformed
  terms ← authenticate p t reply key_text t.verify
  shared ← or_err (p.agree t.keys.secret (hb key_text)) no_secret
  ok (record {
    wire = new_wire (derive p.crypto shared true);
    maker_key = key_text;
    shared = shared;
    slot = slot;
    instant = terms.0;
    agreed_mid = terms.1;
  })

abbrev pub request_posting : Platform → Taker → ℕ → Posting
request_posting p t slot = record {
  box = rv_box t.offer_hash;
  slot = slot;
  bytes = p.print_request t.deal (hex t.keys.public);
}

-- Once the request is posted.
unfoldable pub after_request : Platform → Relay → Taker → ℕ → Take Handshake
unfolding wait_reply handle_reply
after_request p relay t slot = do
  throw_if (not (relay.post_returns (rv_box t.offer_hash) slot)) relay_failed
  bytes ← wait_reply relay t.offer_hash slot t.polls rv_slots
  handle_reply p t slot bytes

abbrev pub with_slot : Platform → Relay → Taker → Take ℕ → List Posting × Take Handshake
with_slot p relay t (err e) = ([], err e)
with_slot p relay t (ok slot) = (request_posting p t slot ∷ [], after_request p relay t slot)

unfoldable pub taker_handshake : Platform → Relay → Taker → List Posting × Take Handshake
unfolding free_slot after_request
taker_handshake p relay t = with_slot p relay t (free_slot relay t.offer_hash rv_slots 0)
