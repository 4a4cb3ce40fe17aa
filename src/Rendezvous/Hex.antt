-- ===== src/Rendezvous/Hex.antt =====
-- hx and hb of web/two_party.js: bytes as hexadecimal text. `hx` is `hex` of Mailbox. `hb` reads two
-- code units at a time by `parseInt`, which takes what it can and leaves zero for the rest.
use near_instant.Common.{
  ℕ, ◌+◌, ◌-◌, ◌*◌, ◌/◌, ◌%◌, ◌<◌, ◌≡◌, refl, ◌&&◌, ◌||◌, List, [], ◌∷◌, Option, none, some, leb,
  ◌==◌, if◌then◌else◌, arith, All,
}
use near_instant.Common.Spaces.{is_space}
use near_instant.Mailbox.{hex, hex_digit}

-- The value of a hexadecimal digit.
unfoldable pub digit : ℕ → Option ℕ
digit c =
    if leb 48 c && leb c 57
    then some (c - 48)
    else if leb 97 c && leb c 102
    then some (c - 87)
    else if leb 65 c && leb c 70
    then some (c - 55)
    else none

-- One digit after a sign or a space.
after_mark : ℕ → ℕ → ℕ
unfolding is_space
after_mark c d = if c == 45 then (256 - d) % 256 else if (c == 43) || is_space c then d else 0

-- The byte that two code units give.
unfoldable pub parse_byte : ℕ → ℕ → ℕ
unfolding digit after_mark
parse_byte c d = elim (digit c) [
  | some high ↦ elim (digit d) [ some low ↦ high * 16 + low | none ↦ high ]
  | none ↦ elim (digit d) [ some low ↦ after_mark c low | none ↦ 0 ]
]

-- An odd code unit at the end is dropped.
unfoldable pub hb : List ℕ → List ℕ
unfolding parse_byte
hb [] = []
hb (c ∷ []) = []
hb (c ∷ d ∷ text) = parse_byte c d ∷ hb text

digit-hex_digit : (d : ℕ) → d < 16 → digit (hex_digit d) ≡ some d
unfolding digit
digit-hex_digit d h = ground arith

parse_byte-hex_digit : (b : ℕ) → b < 256 → parse_byte (hex_digit (b / 16)) (hex_digit (b % 16)) ≡ b
unfolding parse_byte
parse_byte-hex_digit b h =
    rw (parse_byte, digit-hex_digit (b / 16) (omega arith), digit-hex_digit (b % 16) (omega arith))
      (omega arith)

-- Reading the hexadecimal text of bytes gives the bytes.
pub hb-hex : (bytes : List ℕ) → All (λ b. b < 256) bytes → hb (hex bytes) ≡ bytes
unfolding hb hex
hb-hex [] h = refl
hb-hex (b ∷ bytes) (low, rest) = rw (parse_byte-hex_digit b low, hb-hex bytes rest)
