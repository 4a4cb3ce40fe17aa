-- ===== src/Rendezvous/Visiting/Worthy.antt =====
-- What a slot's visit tells: makerPollTake of web/two_party.js.
use near_instant.Common.{
  ℕ, ◌≡◌, refl, ap, sym, ◌∙◌, true, List, Option, none, some, Result, ok, err, if◌then◌else◌, arith,
}
use mathlib.Core.Path.{subst}
use near_instant.Deal.{Deal, DealError, maker_validate_deal}
use near_instant.Certify.{Certificate}
use near_instant.Rendezvous.Types.{
  Text, rv_box, Request, Platform, Fetched, unreachable, vacant, blob, Relay, Verdict, certificate,
  nothing, raised,
}
use near_instant.Rendezvous.Visiting.{
  Maker, Judged, cleared, refused, Visit, lost, skipped, junk, refusal, chosen, visit, judge,
  or_text, not_certified, judge_verdict, judge_by, checked_visit, parsed_visit, fetched_visit,
  judged_visit,
}

-- A slot that a poll leaves behind.
abbrev pub IsPassed : Visit → Type 0
IsPassed lost = ⊥
IsPassed skipped = Unit {0}
IsPassed junk = Unit {0}
IsPassed (refusal reason) = Unit {0}
IsPassed (chosen r c) = ⊥

-- Where there is a certifier, it gave a certificate that is ok.
abbrev pub Certified : Option (ℕ → Deal → Verdict) → ℕ → Deal → Option Certificate → Type 0
Certified none slot deal c = c ≡ none
Certified (some certify) slot deal c =
    (k : Certificate) × (reason : Text) × (certify slot deal ≡ certificate k reason)
    × (k.is_ok ≡ true)
    × (c ≡ some k)

granted :
    (v : Verdict) (c : Option Certificate)
    → judge_verdict v ≡ cleared c
    → (k : Certificate) × (reason : Text) × (v ≡ certificate k reason)
      × (k.is_ok ≡ true)
      × (c ≡ some k)
granted (certificate k reason) c e = (k, reason, refl, ground arith, ground arith)
granted nothing c e = absurd (ground arith)
granted (raised reason) c e = absurd (ground arith)

judge_by-Certified :
    (o : Option (ℕ → Deal → Verdict)) (slot : ℕ) (deal : Deal) (c : Option Certificate)
    → judge_by o slot deal ≡ cleared c
    → Certified o slot deal c
judge_by-Certified none slot deal c e = ground arith
judge_by-Certified (some certify) slot deal c e = granted (certify slot deal) c e

Certified-judge_by :
    (o : Option (ℕ → Deal → Verdict)) (slot : ℕ) (deal : Deal) (c : Option Certificate)
    → Certified o slot deal c
    → judge_by o slot deal ≡ cleared c
Certified-judge_by none slot deal c e = ap cleared (sym e)
Certified-judge_by (some certify) slot deal c (k, reason, given, fine, e) =
    ap judge_verdict given
    ∙ ap (λ b. if b then cleared (some k) else refused (or_text reason not_certified)) fine
    ∙ ap cleared (sym e)

module _ (p : Platform) (relay : Relay) (m : Maker) where
  -- What a request that is chosen in a slot has shown: it is what the relay gave, its deal passes the
  -- maker's validation, and where there is a certifier its certificate is ok.
  pub record IsWorthy (slot : ℕ) (r : Request) (c : Option Certificate) : Type 0 where
    pub bytes : List ℕ
    pub given : relay.fetch slot (rv_box m.offer_hash) slot ≡ blob bytes
    pub parsed : p.parse_request bytes ≡ some r
    pub valid : maker_validate_deal r.deal m.intent m.limit ≡ ok tt
    pub certified : Certified m.certify slot r.deal c

  judged_visit-chosen :
      (r r' : Request) (c : Option Certificate) (v : Judged)
      → judged_visit r v ≡ chosen r' c
      → (r ≡ r') × (v ≡ cleared c)
  judged_visit-chosen r r' c (cleared k) e = (ground arith, ground arith)
  judged_visit-chosen r r' c (refused reason) e = absurd (ground arith)

  checked_visit-chosen :
      (slot : ℕ) (r r' : Request) (c : Option Certificate) (v : Result DealError (Unit {0}))
      → checked_visit m slot r v ≡ chosen r' c
      → (r ≡ r') × (v ≡ ok tt) × (judge m slot r.deal ≡ cleared c)
  checked_visit-chosen slot r r' c (ok u) e =
      let h = judged_visit-chosen r r' c (judge m slot r.deal) e in (h.0, refl, h.1)
  checked_visit-chosen slot r r' c (err x) e = absurd (ground arith)

  parsed_visit-chosen :
      (slot : ℕ) (o : Option Request) (r : Request) (c : Option Certificate)
      → parsed_visit m slot o ≡ chosen r c
      → (o ≡ some r)
        × (maker_validate_deal r.deal m.intent m.limit ≡ ok tt)
        × (judge m slot r.deal ≡ cleared c)
  parsed_visit-chosen slot none r c e = absurd (ground arith)
  parsed_visit-chosen slot (some x) r c e =
      let h = checked_visit-chosen slot x r c (maker_validate_deal x.deal m.intent m.limit) e in
      (
        ap some h.0,
        subst (λ (y : Request). maker_validate_deal y.deal m.intent m.limit ≡ ok tt) h.0 h.1,
        subst (λ (y : Request). judge m slot y.deal ≡ cleared c) h.0 h.2,
      )

  fetched_visit-chosen :
      (slot : ℕ) (f : Fetched) (r : Request) (c : Option Certificate)
      → relay.fetch slot (rv_box m.offer_hash) slot ≡ f
      → fetched_visit p m slot f ≡ chosen r c
      → IsWorthy slot r c
  unfolding judge
  fetched_visit-chosen slot unreachable r c g e = absurd (ground arith)
  fetched_visit-chosen slot vacant r c g e = absurd (ground arith)
  fetched_visit-chosen slot (blob bytes) r c g e =
      let h = parsed_visit-chosen slot (p.parse_request bytes) r c e in
      record {
        bytes = bytes;
        given = g;
        parsed = h.0;
        valid = h.1;
        certified = judge_by-Certified m.certify slot r.deal c h.2;
      }

  pub visit-IsWorthy :
      (slot : ℕ) (r : Request) (c : Option Certificate)
      → visit p relay m slot ≡ chosen r c
      → IsWorthy slot r c
  unfolding visit
  visit-IsWorthy slot r c e =
      fetched_visit-chosen slot (relay.fetch slot (rv_box m.offer_hash) slot) r c refl e

  pub IsWorthy-visit :
      (slot : ℕ) (r : Request) (c : Option Certificate)
      → IsWorthy slot r c
      → visit p relay m slot ≡ chosen r c
  unfolding visit judge
  IsWorthy-visit slot r c w =
      rw (w.given, w.parsed, w.valid, Certified-judge_by m.certify slot r.deal c w.certified)
