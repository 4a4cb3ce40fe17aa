-- ===== src/Mailbox.antt =====
-- web/mailbox.js: the mailbox wire, which seals the messages of a swap into numbered slots of relays
-- that neither side trusts. The primitives of WebCrypto and the answers of the relays are parameters.
pub mod Slots
pub mod Sending
pub mod Receiving
pub mod Session
use near_instant.Common.{
  ℕ, zero, suc, ◌+◌, ◌*◌, ◌/◌, ◌%◌, Bool, true, false, List, [], ◌∷◌, ◌++◌, Option, none, some, ltb,
  take, concat, if◌then◌else◌,
}

-- The calls of `crypto.subtle` that the wire makes; `decrypt` has none where WebCrypto rejects.
pub record Crypto : Type 0 where
  pub sha256 : List ℕ → List ℕ
  pub encrypt : List ℕ → List ℕ → List ℕ → List ℕ → List ℕ
  pub decrypt : List ℕ → List ℕ → List ℕ → List ℕ → Option (List ℕ)

-- The lowest bytes of a number, the lowest first.
pub le_bytes : ℕ → ℕ → List ℕ
le_bytes zero v = []
le_bytes (suc n) v = v % 256 ∷ le_bytes n (v / 256)

unfoldable pub u64le : ℕ → List ℕ
unfolding le_bytes
u64le n = le_bytes 8 n

-- The two hexadecimal digits of a byte, in ASCII.
abbrev pub hex_digit : ℕ → ℕ
hex_digit d = if ltb d 10 then 48 + d else 87 + d

unfoldable pub hex : List ℕ → List ℕ
hex [] = []
hex (b ∷ bs) = hex_digit (b / 16) ∷ hex_digit (b % 16) ∷ hex bs

-- "xnoxmr-mailbox-id-v1"
abbrev pub id_tag : List ℕ
id_tag =
    120 ∷ 110 ∷ 111 ∷ 120 ∷ 109 ∷ 114 ∷ 45 ∷ 109 ∷ 97 ∷ 105 ∷ 108 ∷ 98 ∷ 111 ∷ 120 ∷ 45 ∷ 105 ∷ 100
    ∷ 45 ∷ 118 ∷ 49 ∷ []

-- "xnoxmr-mailbox-key-v1"
abbrev pub key_tag : List ℕ
key_tag =
    120 ∷ 110 ∷ 111 ∷ 120 ∷ 109 ∷ 114 ∷ 45 ∷ 109 ∷ 97 ∷ 105 ∷ 108 ∷ 98 ∷ 111 ∷ 120 ∷ 45 ∷ 107 ∷ 101
    ∷ 121 ∷ 45 ∷ 118 ∷ 49 ∷ []

-- "xnoxmr-mailbox-nonce-v1"
abbrev pub nonce_tag : List ℕ
nonce_tag =
    120 ∷ 110 ∷ 111 ∷ 120 ∷ 109 ∷ 114 ∷ 45 ∷ 109 ∷ 97 ∷ 105 ∷ 108 ∷ 98 ∷ 111 ∷ 120 ∷ 45 ∷ 110 ∷ 111
    ∷ 110 ∷ 99 ∷ 101 ∷ 45 ∷ 118 ∷ 49 ∷ []

pub record Boxes : Type 0 where
  pub send : List ℕ
  pub recv : List ℕ
  pub key : List ℕ

-- The box of a side: "A" for the initiator's messages, "B" for the other's.
abbrev pub box_id : Crypto → List ℕ → ℕ → List ℕ
box_id c shared side = hex (c.sha256 (concat (id_tag ∷ (side ∷ []) ∷ shared ∷ [])))

unfoldable pub derive : Crypto → List ℕ → Bool → Boxes
derive c shared initiator =
    let id_a = box_id c shared 65 in
    let id_b = box_id c shared 66 in
    let key = c.sha256 (concat (key_tag ∷ shared ∷ [])) in
    if initiator
    then record { send = id_a; recv = id_b; key = key }
    else record { send = id_b; recv = id_a; key = key }

unfoldable pub slot_nonce : Crypto → List ℕ → ℕ → List ℕ
unfolding u64le
slot_nonce c mailbox seq = take 12 (c.sha256 (concat (nonce_tag ∷ mailbox ∷ u64le seq ∷ [])))

unfoldable pub aad : List ℕ → ℕ → List ℕ
unfolding u64le
aad mailbox seq = mailbox ++ u64le seq

-- What sealing and opening a slot's message come to.
unfoldable pub seal : Crypto → List ℕ → List ℕ → ℕ → List ℕ → List ℕ
unfolding slot_nonce aad
seal c key box seq msg = c.encrypt key (slot_nonce c box seq) (aad box seq) msg

unfoldable pub open_slot : Crypto → List ℕ → List ℕ → ℕ → List ℕ → Option (List ℕ)
unfolding slot_nonce aad
open_slot c key box seq blob = c.decrypt key (slot_nonce c box seq) (aad box seq) blob

pub record Wire : Type 0 where
  pub send_box : List ℕ
  pub recv_box : List ℕ
  pub key : List ℕ
  pub sseq : ℕ
  pub rseq : ℕ

abbrev pub new_wire : Boxes → Wire
new_wire b = record { send_box = b.send; recv_box = b.recv; key = b.key; sseq = 0; rseq = 0 }

-- A relay's answer to a post: true, false, or an exception.
pub data PostAnswer : Type 0 where
  taken refused failed : PostAnswer

-- A post that was tried.
pub record Post : Type 0 where
  pub relay : ℕ
  pub box : List ℕ
  pub seq : ℕ
  pub blob : List ℕ

-- One round over the relays, up to the first that takes the blob.
unfoldable pub post_round : List ℕ → ℕ → List ℕ → (ℕ → PostAnswer) → ℕ → ℕ → List Post × Bool
post_round box seq blob answers relay zero = ([], false)
post_round box seq blob answers relay (suc left) =
    let post : Post = record { relay = relay; box = box; seq = seq; blob = blob } in
    let (posts, delivered) = post_round box seq blob answers (relay + 1) left in
    elim (answers relay) [
      | taken ↦ (post ∷ [], true)
      | refused ↦ (post ∷ posts, delivered)
      | failed ↦ (post ∷ posts, delivered)
    ]

-- Rounds until one delivers; the answers may differ from round to round.
unfoldable pub post_rounds :
    List ℕ → ℕ → List ℕ → ℕ → (ℕ → ℕ → PostAnswer) → ℕ → ℕ → List Post × Bool
unfolding post_round
post_rounds box seq blob relays answers round zero = ([], false)
post_rounds box seq blob relays answers round (suc left) =
    let (posts, delivered) = post_round box seq blob (answers round) 0 relays in
    let (later, in_later) = post_rounds box seq blob relays answers (round + 1) left in
    if delivered then (posts, true) else (posts ++ later, in_later)

-- `send`: the wire after it, the posts tried, and whether it returned (else it threw).
unfoldable pub send : Crypto → ℕ → (ℕ → ℕ → PostAnswer) → Wire → List ℕ → Wire × List Post × Bool
unfolding seal post_rounds
send c relays answers w msg =
    let ct = seal c w.key w.send_box w.sseq msg in
    let (posts, delivered) = post_rounds w.send_box w.sseq ct relays answers 0 4 in
    (if delivered then record w { sseq = w.sseq + 1 } else w, posts, delivered)

-- How a call of `recv` ends.
pub data Received : Type 0 where
  message : List ℕ → Received
  bad_blob timeout : Received

-- The first blob that the relays give in one poll; an exception counts as none.
unfoldable pub first_blob : List (Option (List ℕ)) → Option (List ℕ)
first_blob [] = none
first_blob (none ∷ answers) = first_blob answers
first_blob (some blob ∷ answers) = some blob

-- `recv`, over the polls that are made before the deadline.
unfoldable pub recv : Crypto → List (List (Option (List ℕ))) → Wire → Wire × Received
unfolding first_blob open_slot
recv c [] w = (w, timeout)
recv c (poll ∷ polls) w =
    let later = recv c polls w in
    elim (first_blob poll) [
      | none ↦ later
      | some blob ↦ elim (open_slot c w.key w.recv_box w.rseq blob) [
        | none ↦ (w, bad_blob)
        | some msg ↦ (record w { rseq = w.rseq + 1 }, message msg)
      ]
    ]
