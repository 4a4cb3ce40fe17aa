-- ===== src/Rendezvous.antt =====
-- The message that a maker signs to authenticate its reply to a take-request: `authMsg` of
-- web/two_party.js, before its hash.
pub mod Binding
pub mod Hex
pub mod Types
pub mod Visiting
pub mod Maker
pub mod Peek
pub mod Taker
pub mod Meeting
pub mod Resume
use near_instant.Common.{ℕ, ◌+◌, ◌%◌, List, [], ◌∷◌, ◌++◌, Option, none, some, with_default}
use near_instant.Mailbox.{u64le}

-- "xnoxmr-rv-auth-v"
abbrev pub tag_start : List ℕ
tag_start =
    120 ∷ 110 ∷ 111 ∷ 120 ∷ 109 ∷ 114 ∷ 45 ∷ 114 ∷ 118 ∷ 45 ∷ 97 ∷ 117 ∷ 116 ∷ 104 ∷ 45 ∷ 118 ∷ []

-- The digit of the version, and a colon.
abbrev pub version : Option ℕ → Option ℕ → ℕ
version none none = 49
version (some confs) none = 50
version confs (some mid) = 51

-- What follows the two keys: the confirmations, and the price.
unfoldable pub extra : Option ℕ → Option ℕ → List ℕ
extra none none = []
extra (some confs) none = confs % 256 ∷ []
extra confs (some mid) = with_default confs 0 % 256 ∷ u64le mid

unfoldable pub auth_bytes : List ℕ → List ℕ → Option ℕ → Option ℕ → List ℕ
auth_bytes offer_hash pub_bytes instant_confs mid_e9 =
    tag_start
    ++ version instant_confs mid_e9 ∷ 58 ∷ offer_hash
    ++ (pub_bytes ++ extra instant_confs mid_e9)
