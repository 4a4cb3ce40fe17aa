-- ===== src/Rendezvous/Resume.antt =====
-- stepSalt, stepWire and attachResume of web/two_party.js: a fresh channel for each step of a swap and
-- each attempt at it, once the live wire is lost. A step's name is ASCII; the store's counters are a
-- function of the step, zero where it has none.
pub mod Numbers
pub mod Windows
use near_instant.Common.{
  ℕ, zero, suc, ◌+◌, ◌-◌, ◌≤◌, max, Bool, true, false, ◌&&◌, ◌==◌, List, [], ◌∷◌, ◌++◌, Option,
  none, some, map, with_default, if◌then◌else◌,
}
use near_instant.Common.Texts.{same_text}
use near_instant.Common.Decimal.{decimal}
use near_instant.Mailbox.{
  Crypto, Wire, derive, new_wire, Received, message, bad_blob, timeout, recv,
}
use near_instant.Rendezvous.Types.{Text}

-- "xnoxmr-resume-v1:"
abbrev pub resume_tag : Text
resume_tag =
    120 ∷ 110 ∷ 111 ∷ 120 ∷ 109 ∷ 114 ∷ 45 ∷ 114 ∷ 101 ∷ 115 ∷ 117 ∷ 109 ∷ 101 ∷ 45 ∷ 118 ∷ 49 ∷ 58
    ∷ []

unfoldable pub salt_bytes : List ℕ → Text → ℕ → List ℕ
salt_bytes shared step attempt = resume_tag ++ (step ++ 58 ∷ (decimal attempt ++ 58 ∷ shared))

unfoldable pub step_salt : Crypto → List ℕ → Text → ℕ → List ℕ
unfolding salt_bytes
step_salt c shared step attempt = c.sha256 (salt_bytes shared step attempt)

-- The attempt counters, as the session store has them.
abbrev pub Counters : Type 0
Counters = Text → ℕ

-- `S.set(key, n)`
abbrev pub set_counter : Counters → Text → ℕ → Counters
set_counter counters step n other = if same_text other step then n else counters other

-- What `attachResume` gives a restored party: the secret of the handshake, its flag, and the store if
-- there is one.
pub record Resume : Type 0 where
  pub shared : List ℕ
  pub init : Bool
  pub store : Option Counters

-- The wire of one attempt.
unfoldable pub attempt_wire : Crypto → Resume → Text → ℕ → Wire
unfolding step_salt
attempt_wire c r step attempt = new_wire (derive c (step_salt c r.shared step attempt) r.init)

abbrev pub counter : Option Counters → Text → ℕ
counter none step = 0
counter (some counters) step = counters step

-- `my`, the number of this attempt.
unfoldable pub my_attempt : Resume → Text → ℕ
my_attempt r step = counter r.store step + 1

-- The attempts of the peer that are listened to: from `my - 2`, but at least 1, to `my + 2`.
unfoldable pub attempts_from : ℕ → ℕ → List ℕ
attempts_from zero a = []
attempts_from (suc left) a = a ∷ attempts_from left (a + 1)

unfoldable pub window : ℕ → List ℕ
unfolding attempts_from
window my = attempts_from (my + 2 + 1 - max 1 (my - 2)) (max 1 (my - 2))

-- The channel of a step: where it sends, the candidates, and the candidate that answered.
pub record Channel : Type 0 where
  pub send_wire : Wire
  pub candidates : List Wire
  pub locked : Option Wire

unfoldable pub step_channel : Crypto → Resume → Text → ℕ → Channel
unfolding attempt_wire window
step_channel c r step my = record {
  send_wire = attempt_wire c r step my;
  candidates = map (attempt_wire c r step) (window my);
  locked = none;
}

abbrev pub stored : Option Counters → Text → ℕ → Option Counters
stored none step n = none
stored (some counters) step n = some (set_counter counters step n)

-- `stepWire`: the counter is stored before the channel is made.
unfoldable pub step_wire : Crypto → Resume → Text → Resume × Channel
unfolding my_attempt step_channel
step_wire c r step =
    let my = my_attempt r step in
    (record r { store = stored r.store step my }, step_channel c r step my)

-- The first candidate that gives a message, each with its own polls: the wire after it, and the
-- message. A candidate that gives nothing stays as it was.
unfoldable pub sweep :
    Crypto → List Wire → List (List (List (Option (List ℕ)))) → Option (Wire × List ℕ)
sweep c [] polls = none
sweep c (w ∷ ws) [] = none
sweep c (w ∷ ws) (polls ∷ others) =
    let (w', got) = recv c polls w in
    elim got [
      | message msg ↦ some (w', msg)
      | bad_blob ↦ sweep c ws others
      | timeout ↦ sweep c ws others
    ]

-- Sweeps until one gives a message, or the deadline.
unfoldable pub sweeps :
    Crypto → List Wire → List (List (List (List (Option (List ℕ))))) → Option (Wire × List ℕ)
unfolding sweep
sweeps c ws [] = none
sweeps c ws (round ∷ rounds) = elim (sweep c ws round) [
  | some found ↦ some found
  | none ↦ sweeps c ws rounds
]

-- `recv` of the channel: on the locked wire if there is one, else over the candidates.
unfoldable pub channel_recv :
    Crypto
    → List (List (List (List (Option (List ℕ)))))
    → List (List (Option (List ℕ)))
    → Channel
    → Channel × Option (List ℕ)
unfolding sweeps
channel_recv c rounds polls ch = elim ch.locked [
  | some w ↦
      let (w', got) = recv c polls w in
      (
        record ch { locked = some w' },
        elim got [ message msg ↦ some msg | bad_blob ↦ none | timeout ↦ none ],
      )
  | none ↦ elim (sweeps c ch.candidates rounds) [
    | some found ↦ (record ch { locked = some found.0 }, some found.1)
    | none ↦ (ch, none)
  ]
]
