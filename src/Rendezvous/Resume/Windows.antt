-- ===== src/Rendezvous/Resume/Windows.antt =====
-- A party's fresh channels send under different keys, and two sides whose counters are close find each other: stepSalt
-- and stepWire of web/two_party.js.
use mathlib.Core.Path.{subst}
use near_instant.Common.{
  ℕ, zero, suc, Bool, true, false, ◌+◌, ◌-◌, ◌≤◌, ◌<◌, ◌≡◌, ◌≢◌, refl, ap, sym, ◌∙◌, not, List, [],
  ◌∷◌, some, map, max, get_elem?, All, arith,
}
use mathlib.Core.List.{append-nil}
use near_instant.Mailbox.{Crypto, Wire, derive, key_tag}
use near_instant.Mailbox.Slots.{append-cancel, derive_mirror}
use near_instant.Rendezvous.Types.{Text}
use near_instant.Rendezvous.Resume.{
  step_salt, Counters, set_counter, Resume, attempt_wire, my_attempt, attempts_from, window,
  step_channel, step_wire, Channel,
}
use near_instant.Rendezvous.Resume.Numbers.{
  IsPlain, numbers, with_store, SaltsDiffer, AreDistinct, numbers-AreDistinct,
}

-- The channels that a party opens, step by step.
unfoldable pub openings : Crypto → Resume → List Text → List Channel
openings c r [] = []
openings c r (step ∷ steps) = let (r', ch) = step_wire c r step in ch ∷ openings c r' steps

-- The hash has no collisions.
abbrev pub HasNoCollision : Crypto → Type 0
HasNoCollision c = (x y : List ℕ) → c.sha256 x ≡ c.sha256 y → x ≡ y

-- What the two channels send is sealed under different keys.
abbrev pub KeysDiffer : Channel → Channel → Type 0
KeysDiffer ch ch' = ch.send_wire.key ≢ ch'.send_wire.key

abbrev pub IsFresh : List Channel → Type 0
IsFresh [] = Unit {0}
IsFresh (ch ∷ chs) = All (KeysDiffer ch) chs × IsFresh chs

-- Equal keys come from equal secrets of channels.
derive-key :
    (c : Crypto) (salt salt' : List ℕ) (init : Bool)
    → HasNoCollision c
    → (derive c salt init).key ≡ (derive c salt' init).key
    → salt ≡ salt'
unfolding derive
derive-key c salt salt' true h e =
    sym (append-nil salt) ∙ append-cancel key_tag _ _ (h _ _ e) ∙ append-nil salt'
derive-key c salt salt' false h e =
    sym (append-nil salt) ∙ append-cancel key_tag _ _ (h _ _ e) ∙ append-nil salt'

module _ (c : Crypto) (r : Resume) (h : HasNoCollision c) where
  abbrev channel_at : Text × ℕ → Channel
  channel_at o = step_channel c r o.0 o.1

  openings-numbers :
      (steps : List Text) (counters : Counters)
      → openings c (with_store c r counters) steps
        ≡ map channel_at (numbers c (with_store c r counters) steps)
  unfolding openings numbers step_wire step_channel attempt_wire my_attempt
  openings-numbers [] counters = refl
  openings-numbers (step ∷ steps) counters =
      ap (λ l. channel_at (step, counters step + 1) ∷ l)
        (openings-numbers steps (set_counter counters step (counters step + 1)))

  differ-KeysDiffer :
      (o o' : Text × ℕ) → SaltsDiffer c r o o' → KeysDiffer (channel_at o) (channel_at o')
  unfolding step_channel attempt_wire step_salt
  differ-KeysDiffer o o' d e = d (h _ _ (derive-key c _ _ r.init h e))

  all-KeysDiffer :
      (o : Text × ℕ) (l : List (Text × ℕ))
      → All (SaltsDiffer c r o) l
      → All (KeysDiffer (channel_at o)) (map channel_at l)
  all-KeysDiffer o [] d = tt
  all-KeysDiffer o (o' ∷ l) d = (differ-KeysDiffer o o' d.0, all-KeysDiffer o l d.1)

  map-IsFresh : (l : List (Text × ℕ)) → AreDistinct c r l → IsFresh (map channel_at l)
  map-IsFresh [] d = tt
  map-IsFresh (o ∷ l) d = (all-KeysDiffer o l d.0, map-IsFresh l d.1)

-- No two channels that a party with a store opens send under the same key, whichever steps, without a
-- colon in their names, it opens them for and however often, if the hash has no collisions.
pub openings-IsFresh :
    (c : Crypto) (r : Resume) (steps : List Text) (counters : Counters)
    → HasNoCollision c
    → r.store ≡ some counters
    → All IsPlain steps
    → IsFresh (openings c r steps)
openings-IsFresh c r steps counters h e plain =
    subst (λ o. IsFresh (openings c (record r { store = o }) steps)) (sym e)
      (subst IsFresh (sym (openings-numbers c r h steps counters)) (
        map-IsFresh c r h (numbers c (with_store c r counters) steps)
          (numbers-AreDistinct c r steps counters plain)))

attempts_from-get : (n a k : ℕ) → k < n → get_elem? (attempts_from n a) k ≡ some (a + k)
unfolding attempts_from
attempts_from-get zero a k h = absurd (omega arith)
attempts_from-get (suc n) a zero h = ap some (omega arith)
attempts_from-get (suc n) a (suc k) h =
    attempts_from-get n (a + 1) k (omega arith) ∙ ap some (omega arith)

get_elem?-map :
    {A B : Type 0} (f : A → B) (xs : List A) (k : ℕ) {x : A}
    → get_elem? xs k ≡ some x
    → get_elem? (map f xs) k ≡ some (f x)
get_elem?-map f [] k e = absurd (ground arith)
get_elem?-map f (x ∷ xs) zero e = ground arith
get_elem?-map f (x ∷ xs) (suc k) e = get_elem?-map f xs k e

-- Two sides of one handshake find each other. If the number of the peer's attempt is at least 1 and
-- differs from mine by at most 2, one of my candidates receives, under the same key, what the peer's
-- channel for the step sends.
pub step_channel-meets :
    (c : Crypto) (mine peer : Resume) (step : Text) (my attempt : ℕ)
    → peer.shared ≡ mine.shared
    → mine.init ≡ not peer.init
    → 1 ≤ attempt
    → attempt ≤ my + 2
    → my ≤ attempt + 2
    → (k : ℕ) × (w : Wire) × (get_elem? (step_channel c mine step my).candidates k ≡ some w)
      × (w.recv_box ≡ (step_channel c peer step attempt).send_wire.send_box)
      × (w.key ≡ (step_channel c peer step attempt).send_wire.key)
unfolding step_channel window attempt_wire step_salt
step_channel-meets c mine peer step my attempt one side lo hi near =
    let first : ℕ = max 1 (my - 2) in
    let k : ℕ = attempt - first in
    let at : first + k ≡ attempt = omega arith in
    let salt = step_salt c peer.shared step attempt in
    let mirror = derive_mirror c salt peer.init in
    (
      k,
      attempt_wire c mine step attempt,
      get_elem?-map (attempt_wire c mine step) (window my) k
          (attempts_from-get (my + 2 + 1 - first) first k (omega arith) ∙ ap some at),
      rw (← one, side) (sym mirror.0),
      rw (← one, side) (sym mirror.2),
    )
