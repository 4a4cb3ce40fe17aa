-- ===== src/Rendezvous/Taker/Verified.antt =====
-- What a taker knows of a reply that it takes: takerHandshake of web/two_party.js.
use mathlib.Core.Path.{subst}
use near_instant.Common.{
  ℕ, ◌^◌, ◌≤◌, ◌≡◌, refl, ap, sym, ◌∙◌, Bool, true, false, not, List, Option, none, some, ok,
  throw_if, arith, chain-returned, throw_if-eq-ok,
}
use near_instant.Common.Int.{ℤ, pos, negsuc}
use near_instant.Mailbox.{derive, new_wire}
use near_instant.Rendezvous.{auth_bytes}
use near_instant.Rendezvous.Hex.{hb}
use near_instant.Rendezvous.Types.{Text, Instant, absent, claims, RawReply, Platform}
use near_instant.Rendezvous.Taker.{
  Taker, TakeError, Handshake, sane_tier, unverified, malformed, no_secret, or_err, read_instant,
  read_mid, verified, authenticate, no_decline, handle_reply,
}
use near_instant.Rendezvous.Maker.{sane_confs}

or_err-eq-ok : {A : Type 0} (o : Option A) (e : TakeError) {a : A} → or_err o e ≡ ok a → o ≡ some a
or_err-eq-ok none e h = absurd (ground arith)
or_err-eq-ok (some a) e h = ground arith

-- From 1 to 9 confirmations, if any.
abbrev pub IsTier : Option ℕ → Type 0
IsTier none = Unit {0}
IsTier (some confs) = (1 ≤ confs) × (confs ≤ 9)

-- A price of 100 to 10^12 billionths, if any.
abbrev pub IsPrice : Option ℕ → Type 0
IsPrice none = Unit {0}
IsPrice (some mid) = (100 ≤ mid) × (mid ≤ 10 ^ 12)

pub sane_confs-IsTier : (z : Option ℤ) (n : ℕ) → sane_confs z ≡ some n → IsTier (some n)
unfolding sane_confs
sane_confs-IsTier none n e = absurd (ground arith)
sane_confs-IsTier (some (pos k)) n e = ground arith
sane_confs-IsTier (some (negsuc k)) n e = absurd (ground arith)

sane_tier-IsTier :
    (z : Option ℤ) (r : Option ℕ) (confs : Option ℕ)
    → sane_confs z ≡ r
    → sane_tier r ≡ ok confs
    → IsTier confs
sane_tier-IsTier z none confs s e = absurd (ground arith)
sane_tier-IsTier z (some n) none s e = tt
sane_tier-IsTier z (some n) (some k) s e = sane_confs-IsTier z k (s ∙ ground arith)

read_instant-IsTier : (i : Instant) (confs : Option ℕ) → read_instant i ≡ ok confs → IsTier confs
read_instant-IsTier absent none e = tt
read_instant-IsTier absent (some n) e = absurd (ground arith)
read_instant-IsTier (claims z) confs e = sane_tier-IsTier z (sane_confs z) confs refl e

read_mid-IsPrice : (m : Option (Option ℤ)) (mid : Option ℕ) → read_mid m ≡ ok mid → IsPrice mid
read_mid-IsPrice none none e = tt
read_mid-IsPrice none (some k) e = absurd (ground arith)
read_mid-IsPrice (some none) mid e = absurd (ground arith)
read_mid-IsPrice (some (some (negsuc n))) mid e = absurd (ground arith)
read_mid-IsPrice (some (some (pos n))) none e = tt
read_mid-IsPrice (some (some (pos n))) (some k) e = ground arith

module _ (p : Platform) (t : Taker) where
  -- The maker's account signed the key and the terms of a handshake, and the terms make sense.
  pub record IsAuthentic (verify : List ℕ → List ℕ → Bool) (key_text : Text) (confs mid : Option ℕ)
      (sig : Option Text) : Type 0 where
    pub signed :
        (s : Text) × (sig ≡ some s)
        × (verify (p.crypto.sha256 (auth_bytes (hb t.offer_hash) (hb key_text) confs mid)) (hb s)
            ≡ true)
    pub tier : IsTier confs
    pub price : IsPrice mid

  verified-signed :
      (key_text : Text) (confs mid : Option ℕ) (verify : List ℕ → List ℕ → Bool) (sig : Option Text)
      → not (verified p t key_text confs mid verify sig) ≡ false
      → (s : Text) × (sig ≡ some s)
        × (verify (p.crypto.sha256 (auth_bytes (hb t.offer_hash) (hb key_text) confs mid)) (hb s)
            ≡ true)
  verified-signed key_text confs mid verify none e = absurd (ground arith)
  verified-signed key_text confs mid verify (some s) e = (s, refl, ground arith)

  authenticate-IsAuthentic :
      (reply : RawReply) (key_text : Text) (verify : List ℕ → List ℕ → Bool)
      (terms : Option ℕ × Option ℕ)
      → authenticate p t reply key_text (some verify) ≡ ok terms
      → IsAuthentic verify key_text terms.0 terms.1 reply.sig
  unfolding authenticate
  authenticate-IsAuthentic reply key_text verify terms e =
      let (confs, tier, e1) = chain-returned (read_instant reply.instant) _ e in
      let (mid, price, e2) = chain-returned (read_mid reply.mid) _ e1 in
      let (u, sure, e3) =
        chain-returned
          (throw_if (not (verified p t key_text confs mid verify reply.sig)) unverified) _ e2 in
      let same : ◌≡◌ {A = Option ℕ × Option ℕ} (confs, mid) terms = ground arith in
      subst (λ (x : Option ℕ × Option ℕ). IsAuthentic verify key_text x.0 x.1 reply.sig) same
        (record {
          signed = verified-signed key_text confs mid verify reply.sig (throw_if-eq-ok _ _ sure);
          tier = read_instant-IsTier reply.instant confs tier;
          price = read_mid-IsPrice reply.mid mid price;
        })

  -- What is known of a handshake that was read from a reply in a slot.
  pub record IsRead (slot : ℕ) (bytes : List ℕ) (h : Handshake) : Type 0 where
    pub reply : RawReply
    pub parsed : p.parse_reply bytes ≡ some reply
    pub welcome : reply.decline_text ≡ none
    pub authentic :
        (verify : List ℕ → List ℕ → Bool)
        → t.verify ≡ some verify
        → IsAuthentic verify h.maker_key h.instant h.agreed_mid reply.sig
    pub agreed : p.agree t.keys.secret (hb h.maker_key) ≡ some h.shared
    pub own_wire : h.wire ≡ new_wire (derive p.crypto h.shared true)
    pub own_slot : h.slot ≡ slot

  no_decline-none : (o : Option Text) {u : Unit {0}} → no_decline o ≡ ok u → o ≡ none
  no_decline-none none e = refl
  no_decline-none (some reason) e = absurd (ground arith)

  pub handle_reply-IsRead :
      (slot : ℕ) (bytes : List ℕ) (h : Handshake)
      → handle_reply p t slot bytes ≡ ok h
      → IsRead slot bytes h
  unfolding handle_reply
  handle_reply-IsRead slot bytes h e =
      let (reply, parsed, e1) = chain-returned (or_err (p.parse_reply bytes) malformed) _ e in
      let (u, welcome, e2) = chain-returned (no_decline reply.decline_text) _ e1 in
      let (key_text, key, e3) = chain-returned (or_err reply.key_text malformed) _ e2 in
      let (terms, sure, e4) = chain-returned (authenticate p t reply key_text t.verify) _ e3 in
      let (shared, secret, e5) =
        chain-returned (or_err (p.agree t.keys.secret (hb key_text)) no_secret) _ e4 in
      let made : Handshake = record {
        wire = new_wire (derive p.crypto shared true);
        maker_key = key_text;
        shared = shared;
        slot = slot;
        instant = terms.0;
        agreed_mid = terms.1;
      } in
      let same : made ≡ h = ground arith in
      subst (IsRead slot bytes) same (record {
        reply = reply;
        parsed = or_err-eq-ok _ _ parsed;
        welcome = no_decline-none reply.decline_text welcome;
        authentic = λ verify has.
            authenticate-IsAuthentic reply key_text verify terms
              (ap (authenticate p t reply key_text) (sym has) ∙ sure);
        agreed = or_err-eq-ok _ _ secret;
        own_wire = refl;
        own_slot = refl;
      })
