-- ===== src/Tests/Resumes.antt =====
-- Channels that are opened again, at concrete inputs: "claim", then "refund" twice.
use near_instant.Common.{◌≡◌, refl, true, false, [], ◌∷◌, map, none, some, arith}
use near_instant.Mailbox.{hex, Crypto}
use near_instant.Rendezvous.Hex.{hb, hb-hex}
use near_instant.Rendezvous.Types.{Text}
use near_instant.Rendezvous.Resume.{
  Counters, set_counter, Resume, Channel, attempt_wire, step_wire, step_channel, my_attempt,
}
use near_instant.Rendezvous.Resume.Windows.{openings, IsFresh, openings-IsFresh}
use near_instant.Tests.Wires.{toy}

abbrev claim : Text
claim = 99 ∷ 108 ∷ 97 ∷ 105 ∷ 109 ∷ []

abbrev refund : Text
refund = 114 ∷ 101 ∷ 102 ∷ 117 ∷ 110 ∷ 100 ∷ []

abbrev counters : Counters
counters = set_counter (λ step. 0) refund 4

abbrev party : Resume
party = record { shared = 1 ∷ 2 ∷ 3 ∷ []; init = true; store = some counters }

abbrev peer : Resume
peer = record { shared = 1 ∷ 2 ∷ 3 ∷ []; init = false; store = none }

-- A hash without collisions: the bytes themselves.
abbrev plain_hash : Crypto
plain_hash = record toy { sha256 = λ bytes. bytes }

-- The second channel for "refund" is for another attempt than the first.
opened :
    map (λ (ch : Channel). ch.send_wire) (openings plain_hash party (claim ∷ refund ∷ refund ∷ []))
    ≡ attempt_wire plain_hash party claim 1
      ∷ attempt_wire plain_hash party refund 5
      ∷ attempt_wire plain_hash party refund 6
      ∷ []
unfolding openings step_wire step_channel my_attempt
opened = refl

openings-IsFresh_example : IsFresh (openings plain_hash party (claim ∷ refund ∷ refund ∷ []))
openings-IsFresh_example =
    openings-IsFresh plain_hash party (claim ∷ refund ∷ refund ∷ []) counters (λ x y e. e) refl
      (omega arith)

hb-hex_example : hb (hex (7 ∷ 255 ∷ [])) ≡ 7 ∷ 255 ∷ []
hb-hex_example = hb-hex (7 ∷ 255 ∷ []) (omega arith)
