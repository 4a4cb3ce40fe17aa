-- ===== src/Mailbox/Session.antt =====
-- A whole session of the mailbox wire.
use near_instant.Common.{ℕ, ◌≡◌, refl, Bool, not, List, map}
use near_instant.Mailbox.{Crypto, derive, new_wire, message}
use near_instant.Mailbox.Slots.{IsCipher, derive_mirror}
use near_instant.Mailbox.Receiving.{Passage, Delivers, receive_all, receive_all-send}

-- Two sides that derive their wires from the same secret, one as the initiator and one not: what the
-- one sends, the other receives, every message once and in order, whichever relay took a message and
-- in whichever round, if every message is posted and the first blob that arrives for it is one that
-- was posted for it.
pub derive-in_order :
    (c : Crypto)
    → IsCipher c
    → (relays : ℕ) (shared : List ℕ) (initiator : Bool) → (passages : List Passage)
    → Delivers c relays
        (new_wire (derive c shared initiator))
        (new_wire (derive c shared (not initiator)))
        passages
    → receive_all c (new_wire (derive c shared (not initiator))) passages
      ≡ map (λ p. message p.0) passages
derive-in_order c law relays shared initiator passages delivered =
    let (box, _, key) = derive_mirror c shared initiator in
    receive_all-send c law relays _ _ passages box key refl delivered
