-- ===== src/Mailbox/Slots.antt =====
-- Slots: their names, and what ties a sealed message to its slot.
use near_instant.Common.{
  ℕ, zero, suc, ◌*◌, ◌/◌, ◌%◌, ◌^◌, ◌<◌, ◌≡◌, ◌≢◌, refl, ap, Bool, true, false, List, [], ◌∷◌, ◌++◌,
  some, not, arith,
}
use near_instant.Mailbox.{Crypto, le_bytes, u64le, aad, derive, seal, open_slot}

-- What WebCrypto documents of an authenticated cipher with a given nonce: decryption undoes
-- encryption, and accepts nothing that encryption does not produce.
pub record IsCipher (c : Crypto) : Type 0 where
  pub opens :
      (key nonce ad msg : List ℕ) → c.decrypt key nonce ad (c.encrypt key nonce ad msg) ≡ some msg
  pub sealed :
      (key nonce ad ct msg : List ℕ)
      → c.decrypt key nonce ad ct ≡ some msg
      → c.encrypt key nonce ad msg ≡ ct

-- The two sides of a swap derive the same key, and each one's outgoing box is the other's incoming
-- box.
pub derive_mirror :
    (c : Crypto) (shared : List ℕ) (initiator : Bool)
    → ((derive c shared initiator).send ≡ (derive c shared (not initiator)).recv)
      × ((derive c shared initiator).recv ≡ (derive c shared (not initiator)).send)
      × ((derive c shared initiator).key ≡ (derive c shared (not initiator)).key)
unfolding derive
derive_mirror c shared true = (refl, refl, refl)
derive_mirror c shared false = (refl, refl, refl)

unfoldable pub first_of : List ℕ → ℕ
first_of [] = 0
first_of (x ∷ xs) = x

unfoldable pub rest_of : List ℕ → List ℕ
rest_of [] = []
rest_of (x ∷ xs) = xs

pub le_bytes-inj : (n a b : ℕ) → a < 256 ^ n → b < 256 ^ n → le_bytes n a ≡ le_bytes n b → a ≡ b
unfolding le_bytes first_of rest_of
le_bytes-inj zero a b p q e = omega arith
le_bytes-inj (suc n) a b p q e =
    let split : 256 ^ suc n ≡ 256 * 256 ^ n = grind arith in
    let low : a % 256 ≡ b % 256 = ap first_of e in
    let high =
      le_bytes-inj n (a / 256) (b / 256) (omega (arith, split)) (omega (arith, split))
        (ap rest_of e) in
    omega arith

pub append-cancel : (xs ys zs : List ℕ) → xs ++ ys ≡ xs ++ zs → ys ≡ zs
unfolding rest_of
append-cancel [] ys zs e = e
append-cancel (x ∷ xs) ys zs e = append-cancel xs ys zs (ap rest_of e)

aad-inj : (box : List ℕ) (a b : ℕ) → a < 2 ^ 64 → b < 2 ^ 64 → aad box a ≡ aad box b → a ≡ b
unfolding aad u64le
aad-inj box a b p q e = le_bytes-inj 8 a b (omega arith) (omega arith) (append-cancel box _ _ e)

-- Different slots of a box, below 2 ^ 64, have different authenticated data.
pub aad-ne : (box : List ℕ) (a b : ℕ) → a < 2 ^ 64 → b < 2 ^ 64 → a ≢ b → aad box a ≢ aad box b
aad-ne box a b p q ne e = ne (aad-inj box a b p q e)

pub open_slot-seal :
    (c : Crypto)
    → IsCipher c
    → (key box : List ℕ) (seq : ℕ) (msg : List ℕ)
    → open_slot c key box seq (seal c key box seq msg) ≡ some msg
unfolding open_slot seal
open_slot-seal c law key box seq msg = law.opens key _ _ msg

pub seal-open_slot :
    (c : Crypto)
    → IsCipher c
    → (key box : List ℕ) (seq : ℕ) (blob msg : List ℕ) → open_slot c key box seq blob ≡ some msg
    → seal c key box seq msg ≡ blob
unfolding open_slot seal
seal-open_slot c law key box seq blob msg e = law.sealed key _ _ blob msg e
