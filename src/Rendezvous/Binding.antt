-- ===== src/Rendezvous/Binding.antt =====
-- What the signed message of the rendezvous binds: authMsg of web/two_party.js.
use near_instant.Common.{
  ◌%◌, arith, ℕ, ◌^◌, ◌<◌, ◌≡◌, refl, ap, List, [], ◌∷◌, ◌++◌, Option, none, some, length,
  with_default,
}
use near_instant.Mailbox.{u64le}
use near_instant.Mailbox.Slots.{first_of, rest_of, le_bytes-inj, append-cancel}
use near_instant.Rendezvous.{tag_start, version, extra, auth_bytes}

-- Lists of one length at the front of equal lists are equal.
fronts :
    (xs ys us vs : List ℕ) → length xs ≡ length ys → xs ++ us ≡ ys ++ vs → (xs ≡ ys) × (us ≡ vs)
unfolding first_of rest_of
fronts [] [] us vs l e = (refl, e)
fronts [] (y ∷ ys) us vs l e = absurd (grind arith)
fronts (x ∷ xs) [] us vs l e = absurd (grind arith)
fronts (x ∷ xs) (y ∷ ys) us vs l e =
    let h = fronts xs ys us vs (omega arith) (ap rest_of e) in (cc (ap first_of e, h.0), h.1)

-- What a message says of the confirmations and the price: with a price, no confirmations are none.
abbrev pub agreed : Option ℕ → Option ℕ → Option ℕ × Option ℕ
agreed confs none = (confs, none)
agreed confs (some mid) = (some (with_default confs 0), some mid)

-- The confirmations fit a byte, and the price eight.
pub record Fits (confs mid : Option ℕ) : Type 0 where
  pub byte : with_default confs 0 < 256
  pub price : with_default mid 0 < 2 ^ 64

priced :
    (a b m n : ℕ)
    → a < 256
    → b < 256
    → m < 2 ^ 64
    → n < 2 ^ 64
    → a % 256 ∷ u64le m ≡ b % 256 ∷ u64le n
    → agreed (some a) (some m) ≡ agreed (some b) (some n)
unfolding first_of rest_of u64le
priced a b m n la lb lm ln e =
    let low : a % 256 ≡ b % 256 = ap first_of e in
    let same_byte : a ≡ b = omega arith in
    let same_price : m ≡ n = le_bytes-inj 8 m n (omega arith) (omega arith) (ap rest_of e) in cc

extras :
    (c c' m m' : Option ℕ)
    → Fits c m
    → Fits c' m'
    → version c m ≡ version c' m'
    → extra c m ≡ extra c' m'
    → agreed c m ≡ agreed c' m'
unfolding extra first_of
extras none none none none f f' v e = refl
extras (some a) (some b) none none f f' v e =
    let low : a % 256 ≡ b % 256 = ap first_of e in
    let same_byte : a ≡ b = omega (arith, f.byte, f'.byte) in cc
extras none none (some m) (some n) f f' v e = priced 0 0 m n f.byte f'.byte f.price f'.price e
extras none (some b) (some m) (some n) f f' v e = priced 0 b m n f.byte f'.byte f.price f'.price e
extras (some a) none (some m) (some n) f f' v e = priced a 0 m n f.byte f'.byte f.price f'.price e
extras (some a) (some b) (some m) (some n) f f' v e =
    priced a b m n f.byte f'.byte f.price f'.price e
extras none (some b) none none f f' v e = absurd (omega arith)
extras (some a) none none none f f' v e = absurd (omega arith)
extras none none none (some n) f f' v e = absurd (omega arith)
extras none (some b) none (some n) f f' v e = absurd (omega arith)
extras (some a) none none (some n) f f' v e = absurd (omega arith)
extras (some a) (some b) none (some n) f f' v e = absurd (omega arith)
extras none none (some m) none f f' v e = absurd (omega arith)
extras none (some b) (some m) none f f' v e = absurd (omega arith)
extras (some a) none (some m) none f f' v e = absurd (omega arith)
extras (some a) (some b) (some m) none f f' v e = absurd (omega arith)

-- Two messages for offers and keys of the same lengths are equal only if the offer, the key, and what is
-- said of the confirmations and the price are: a signature is good for nothing else.
pub auth_bytes-binds :
    (oh oh' key key' : List ℕ) (c c' m m' : Option ℕ)
    → length oh ≡ length oh'
    → length key ≡ length key'
    → Fits c m
    → Fits c' m'
    → auth_bytes oh key c m ≡ auth_bytes oh' key' c' m'
    → (oh ≡ oh') × ((key ≡ key') × (agreed c m ≡ agreed c' m'))
unfolding auth_bytes first_of rest_of
auth_bytes-binds oh oh' key key' c c' m m' l k f f' e =
    let tail =
      append-cancel tag_start (version c m ∷ 58 ∷ oh ++ (key ++ extra c m))
        (version c' m' ∷ 58 ∷ oh' ++ (key' ++ extra c' m')) e in
    let h =
      fronts oh oh' (key ++ extra c m) (key' ++ extra c' m') l (ap rest_of (ap rest_of tail)) in
    let g = fronts key key' (extra c m) (extra c' m') k h.1 in
    (h.0, (g.0, extras c c' m m' f f' (ap first_of tail) g.1))
