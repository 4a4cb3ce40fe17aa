-- ===== src/Tests/Wires.antt =====
-- Runs of web/mailbox.js with a toy cipher, and two relays of which the first refuses at first.
use near_instant.Common.{
  ℕ, zero, suc, ◌+◌, ◌%◌, ◌≡◌, refl, true, false, List, [], ◌∷◌, Option, none, some, arith, sum,
  ◌==◌, if◌then◌else◌,
}
use near_instant.Rendezvous.{auth_bytes, extra}
use near_instant.Rendezvous.Binding.{agreed, auth_bytes-binds}
use near_instant.Mailbox.{
  Crypto, u64le, hex, slot_nonce, aad, seal, open_slot, derive, new_wire, Wire, PostAnswer, taken,
  refused, failed, post_round, post_rounds, send, recv, first_blob, message,
}
use near_instant.Mailbox.Slots.{IsCipher}
use near_instant.Mailbox.Receiving.{Passage, Delivers, receive_all}
use near_instant.Mailbox.Session.{derive-in_order}

-- The message with a check sum of the authenticated data and the key in front.
abbrev pub open_toy : ℕ → List ℕ → Option (List ℕ)
open_toy tag [] = none
open_toy tag (x ∷ xs) = if x == tag then some xs else none

abbrev pub toy : Crypto
toy = record {
  sha256 = λ bytes. sum bytes % 251 ∷ 7 ∷ [];
  encrypt = λ key nonce ad msg. (sum key + sum ad) ∷ msg;
  decrypt = λ key nonce ad ct. open_toy (sum key + sum ad) ct;
}

open_toy-tag : (tag : ℕ) (msg : List ℕ) → open_toy tag (tag ∷ msg) ≡ some msg
open_toy-tag tag msg = ground arith

open_toy-eq : (tag : ℕ) (ct msg : List ℕ) → open_toy tag ct ≡ some msg → tag ∷ msg ≡ ct
open_toy-eq tag [] msg e = absurd (ground arith)
open_toy-eq tag (x ∷ xs) msg e = ground arith

toy-IsCipher : IsCipher toy
toy-IsCipher = record {
  opens = λ key nonce ad msg. open_toy-tag (sum key + sum ad) msg;
  sealed = λ key nonce ad ct msg e. open_toy-eq (sum key + sum ad) ct msg e;
}

abbrev secret : List ℕ
secret = 1 ∷ 2 ∷ 3 ∷ []

abbrev sender : Wire
sender = new_wire (derive toy secret true)

abbrev receiver : Wire
receiver = new_wire (derive toy secret false)

-- The first relay never takes anything in the first round.
abbrev answers : ℕ → ℕ → PostAnswer
answers zero relay = refused
answers (suc round) zero = failed
answers (suc round) (suc relay) = taken

abbrev sealed_at : ℕ → List ℕ → List ℕ
sealed_at seq msg = seal toy sender.key sender.send_box seq msg

-- Two messages; the second is seen in the second poll.
abbrev passages : List Passage
passages =
    (65 ∷ [], answers, ((none ∷ some (sealed_at 0 (65 ∷ [])) ∷ []) ∷ []))
    ∷ (66 ∷ [], answers, ((none ∷ none ∷ []) ∷ (some (sealed_at 1 (66 ∷ [])) ∷ none ∷ []) ∷ []))
    ∷ []

delivered : Delivers toy 2 sender receiver passages
unfolding send recv derive seal open_slot slot_nonce aad u64le hex post_rounds post_round first_blob
delivered = (
  refl,
  (
    record { relay = 1; box = sender.send_box; seq = 0; blob = sealed_at 0 (65 ∷ []) },
    (3, refl),
    refl,
  ),
  (
    refl,
    (
      record { relay = 1; box = sender.send_box; seq = 1; blob = sealed_at 1 (66 ∷ []) },
      (3, refl),
      refl,
    ),
    tt,
  ),
)

derive-in_order_example :
    receive_all toy receiver passages ≡ message (65 ∷ []) ∷ message (66 ∷ []) ∷ []
derive-in_order_example = derive-in_order toy toy-IsCipher 2 secret true passages delivered

abbrev polls : List (List (Option (List ℕ)))
polls = (none ∷ some (seal toy receiver.key receiver.recv_box receiver.rseq (65 ∷ [])) ∷ []) ∷ []

-- An offer's hash and a key of two bytes each, at the standard tier with a price.
abbrev offer_bytes : List ℕ
offer_bytes = 1 ∷ 2 ∷ []

abbrev key_bytes : List ℕ
key_bytes = 3 ∷ 4 ∷ []

same_bytes :
    auth_bytes offer_bytes key_bytes none (some 1_880_000)
    ≡ auth_bytes offer_bytes key_bytes (some 0) (some 1_880_000)
unfolding auth_bytes extra
same_bytes = refl

auth_bytes-binds_example :
    (offer_bytes ≡ offer_bytes)
    × ((key_bytes ≡ key_bytes) × (agreed none (some 1_880_000) ≡ agreed (some 0) (some 1_880_000)))
auth_bytes-binds_example =
    auth_bytes-binds offer_bytes offer_bytes key_bytes key_bytes none (some 0) (some 1_880_000)
      (some 1_880_000) refl refl (record { byte = omega arith; price = omega arith })
      (record { byte = omega arith; price = omega arith }) same_bytes
