-- ===== src/Rendezvous/Meeting.antt =====
-- The two sides of one rendezvous: what takerHandshake makes of the reply of makerPollTake.
use near_instant.Common.{
  ℕ, ◌<◌, ◌≡◌, refl, ap, sym, ◌∙◌, Bool, true, false, List, ◌∷◌, Option, none, some, ok,
  if◌then◌else◌, arith, All,
}
use near_instant.Common.Int.{ℤ, pos}
use near_instant.Certify.{Certificate}
use near_instant.Mailbox.{Crypto, Wire, derive, new_wire, hex}
use near_instant.Mailbox.Slots.{derive_mirror}
use near_instant.Rendezvous.{auth_bytes}
use near_instant.Rendezvous.Hex.{hb, hb-hex}
use near_instant.Rendezvous.Types.{
  Request, Reply, accept, decline, Instant, absent, claims, RawReply, Platform,
}
use near_instant.Rendezvous.Taker.{
  Taker, Handshake, read_instant, read_mid, verified, authenticate, handle_reply,
}
use near_instant.Rendezvous.Visiting.{Maker}
use near_instant.Rendezvous.Maker.{
  sane_confs, offered_confs, attested_mid, signature, sign_by, unless_empty, reply_to, acceptance,
}
use near_instant.Rendezvous.Taker.Verified.{IsTier, IsPrice, sane_confs-IsTier}

abbrev pub instant_of : Option ℕ → Instant
instant_of none = absent
instant_of (some confs) = claims (some (pos confs))

abbrev pub mid_of : Option ℕ → Option (Option ℤ)
mid_of none = none
mid_of (some mid) = some (some (pos mid))

-- A reply as it should parse.
abbrev pub raw_of : Reply → RawReply
raw_of (accept key_text confs mid sig) = record {
  decline_text = none;
  key_text = some key_text;
  instant = instant_of confs;
  mid = mid_of mid;
  sig = sig;
}
raw_of (decline reason) = record {
  decline_text = some reason;
  key_text = none;
  instant = absent;
  mid = none;
  sig = none;
}

read_instant-instant_of : (o : Option ℕ) → IsTier o → read_instant (instant_of o) ≡ ok o
unfolding sane_confs
read_instant-instant_of none h = refl
read_instant-instant_of (some n) h = ground arith

read_mid-mid_of : (o : Option ℕ) → IsPrice o → read_mid (mid_of o) ≡ ok o
read_mid-mid_of none h = refl
read_mid-mid_of (some n) h = ground arith

any-IsTier : (z : Option ℤ) (o : Option ℕ) → sane_confs z ≡ o → IsTier o
any-IsTier z none e = tt
any-IsTier z (some n) e = sane_confs-IsTier z n e

IsTier-if : (b : Bool) (o : Option ℕ) → IsTier o → IsTier (if b then o else none)
IsTier-if true o h = h
IsTier-if false o h = tt

offered_confs-IsTier : (m : Maker) (r : Request) → IsTier (offered_confs m r)
unfolding offered_confs
offered_confs-IsTier m r = IsTier-if r.iok _ (any-IsTier m.instant_offer _ refl)

-- What one wire sends the other receives, under one key.
pub record Crossed (a b : Wire) : Type 0 where
  pub out : a.send_box ≡ b.recv_box
  pub back : b.send_box ≡ a.recv_box
  pub same_key : a.key ≡ b.key

Crossed-derive :
    (c : Crypto) (shared : List ℕ)
    → Crossed (new_wire (derive c shared true)) (new_wire (derive c shared false))
Crossed-derive c shared =
    let h = derive_mirror c shared true in record { out = h.0; back = sym h.1; same_key = h.2 }

module _ (p : Platform) (m : Maker) (t : Taker) (slot : ℕ) (r : Request) where
  -- The message that the maker signs for a request.
  abbrev pub signed_hash : List ℕ
  signed_hash =
      p.crypto.sha256
        (auth_bytes (hb m.offer_hash) (m.keys slot).public (offered_confs m r) (attested_mid m r))

  -- Both sides are at one offer, the reply survives JSON, the request carries the taker's key, the
  -- keys are bytes, and WebCrypto's agreement gives both the same secret.
  pub record IsMet (shared : List ℕ) : Type 0 where
    pub one_offer : t.offer_hash ≡ m.offer_hash
    pub survives :
        p.parse_reply (p.print_reply (reply_to p m slot r)) ≡ some (raw_of (reply_to p m slot r))
    pub key_bytes : All (λ b. b < 256) (m.keys slot).public
    pub agreed : p.agree t.keys.secret (m.keys slot).public ≡ some shared

  -- The maker's signer signs, and the taker's verifier accepts what it signs.
  pub record IsSigned (sign : ℕ → List ℕ → Option (List ℕ)) (verify : List ℕ → List ℕ → Bool)
      : Type 0 where
    pub signer : m.sign ≡ some sign
    pub verifier : t.verify ≡ some verify
    pub first : ℕ
    pub others : List ℕ
    pub signature_bytes : All (λ b. b < 256) (first ∷ others)
    pub signs : sign slot signed_hash ≡ some (first ∷ others)
    pub accepts : verify signed_hash (first ∷ others) ≡ true

  signature-signs :
      (sign : ℕ → List ℕ → Option (List ℕ)) (verify : List ℕ → List ℕ → Bool)
      (s : IsSigned sign verify)
      → signature p m slot r ≡ some (hex (s.first ∷ s.others))
  unfolding signature
  signature-signs sign verify s =
      ap (λ o. sign_by o slot signed_hash) s.signer ∙ ap unless_empty s.signs

  verified-true :
      (sign : ℕ → List ℕ → Option (List ℕ)) (verify : List ℕ → List ℕ → Bool) (shared : List ℕ)
      → IsMet shared
      → IsSigned sign verify
      → verified p t
          (hex (m.keys slot).public)
          (offered_confs m r)
          (attested_mid m r)
          verify
          (signature p m slot r)
        ≡ true
  verified-true sign verify shared met s =
      rw
        (
          signature-signs sign verify s,
          met.one_offer,
          hb-hex (m.keys slot).public met.key_bytes,
          hb-hex (s.first ∷ s.others) s.signature_bytes,
        )
        s.accepts

  authenticate-reply_to :
      (sign : ℕ → List ℕ → Option (List ℕ)) (verify : List ℕ → List ℕ → Bool) (shared : List ℕ)
      → IsMet shared
      → IsSigned sign verify
      → IsPrice (attested_mid m r)
      → authenticate p t (raw_of (reply_to p m slot r)) (hex (m.keys slot).public) t.verify
        ≡ ok (offered_confs m r, attested_mid m r)
  unfolding authenticate reply_to
  authenticate-reply_to sign verify shared met s price = simp (
    s.verifier,
    read_instant-instant_of (offered_confs m r) (offered_confs-IsTier m r),
    read_mid-mid_of (attested_mid m r) price,
    verified-true sign verify shared met s,
  )

  -- A maker's reply that its account signed is taken as it was meant. If both sides are at one offer,
  -- the reply survives JSON, the keys and the signature are bytes, the taker's verifier accepts what
  -- the maker's signer signs, the price that the reply attests, if any, is from 100 to 10^12, and key
  -- agreement gives the taker the maker's secret, then the taker's handshake returns; both sides have
  -- the same secret and the same confirmations, the taker has the attested price, and what each one's
  -- wire sends the other's receives under the same key.
  pub handle_reply-meets :
      (sign : ℕ → List ℕ → Option (List ℕ)) (verify : List ℕ → List ℕ → Bool) (shared : List ℕ)
      (c : Option Certificate)
      → IsMet shared
      → IsSigned sign verify
      → IsPrice (attested_mid m r)
      → (h : Handshake) × (handle_reply p t slot (p.print_reply (reply_to p m slot r)) ≡ ok h)
        × (h.shared ≡ (acceptance p m slot r c shared).shared)
        × (h.instant ≡ (acceptance p m slot r c shared).instant)
        × (h.agreed_mid ≡ attested_mid m r)
        × Crossed h.wire (acceptance p m slot r c shared).wire
  unfolding handle_reply reply_to
  handle_reply-meets sign verify shared c met s price = (
    record {
      wire = new_wire (derive p.crypto shared true);
      maker_key = hex (m.keys slot).public;
      shared = shared;
      slot = slot;
      instant = offered_confs m r;
      agreed_mid = attested_mid m r;
    },
    rw
        (
          met.survives,
          authenticate-reply_to sign verify shared met s price,
          hb-hex (m.keys slot).public met.key_bytes,
          met.agreed,
        )
        refl,
    refl,
    refl,
    refl,
    Crossed-derive p.crypto shared,
  )
