-- ===== src/Custody/Blind.antt =====
-- Two workers side by side: web/custody_core.js and web/custody-worker.js.
use near_instant.Common.{
  ℕ, ◌≡◌, refl, ap, List, [], ◌∷◌, Option, none, some, with_default, arith, Bool, true, false, ◌==◌,
}
use near_instant.Custody.{
  Text, Block, Wasm, Vault, Message, unlock, account, sign, lock, other, Reply, empty_vault,
  keep_seed, keep_sized, try_seed, is_locked, block_reply, sign_with, handle, run,
}

module _ {S T : Type 0} (R : S → T → Type 0) where
  -- Both have none, or related values.
  abbrev pub Both : Option S → Option T → Type 0
  Both none none = Unit {0}
  Both none (some t) = ⊥
  Both (some s) none = ⊥
  Both (some s) (some t) = R s t

  -- Two modules look the same from outside: they derive seeds at the same inputs, and seeds that are
  -- related have the same account and the same signatures.
  pub record LooksAlike (w : Wasm S) (w' : Wasm T) : Type 0 where
    pub derives :
        (passphrase : Text) (salt : List ℕ) (mem : ℕ)
        → Both (w.derive passphrase salt mem) (w'.derive passphrase salt mem)
    pub same_size : (s : S) (t : T) → R s t → w.size s ≡ w'.size t
    pub same_account : (s : S) (t : T) → R s t → w.account_of s ≡ w'.account_of t
    pub same_block : (s : S) (t : T) → R s t → (b : Block) → w.sign_block s b ≡ w'.sign_block t b

  record Alike (v : Vault S) (v' : Vault T) : Type 0 where
    seeds : Both v.seed v'.seed
    accounts : v.account ≡ v'.account
    addresses : v.address ≡ v'.address

  abbrev SameStep : Vault S × Reply → Vault T × Reply → Type 0
  SameStep r r' = Alike r.0 r'.0 × (r.1 ≡ r'.1)

  module _ (w : Wasm S) (w' : Wasm T) (looks : LooksAlike w w') where
    keep_seed-SameStep :
        (v : Vault S) (v' : Vault T) (s : S) (t : T) (o o' : Option (Text × Text))
        → Alike v v'
        → R s t
        → o ≡ o'
        → SameStep (keep_seed v s o) (keep_seed v' t o')
    keep_seed-SameStep v v' s t none none a r e =
        (record { seeds = r; accounts = a.accounts; addresses = a.addresses }, refl)
    keep_seed-SameStep v v' s t none (some p) a r e = absurd (ground arith)
    keep_seed-SameStep v v' s t (some p) none a r e = absurd (ground arith)
    keep_seed-SameStep v v' s t (some (k, d)) (some (k', d')) a r e =
        (record { seeds = r; accounts = ground arith; addresses = ground arith }, ground arith)

    keep_sized-SameStep :
        (v : Vault S) (v' : Vault T) (s : S) (t : T) (c c' : Bool)
        → Alike v v'
        → R s t
        → c ≡ c'
        → SameStep (keep_sized w v s c) (keep_sized w' v' t c')
    keep_sized-SameStep v v' s t false false a b e = (a, refl)
    keep_sized-SameStep v v' s t false true a b e = absurd (ground arith)
    keep_sized-SameStep v v' s t true false a b e = absurd (ground arith)
    keep_sized-SameStep v v' s t true true a b e =
        keep_seed-SameStep v v' s t (w.account_of s) (w'.account_of t) a b
          (looks.same_account s t b)

    try_seed-SameStep :
        (v : Vault S) (v' : Vault T) (o : Option S) (o' : Option T)
        → Alike v v'
        → Both o o'
        → SameStep (try_seed w v o) (try_seed w' v' o')
    try_seed-SameStep v v' none none a b = (a, refl)
    try_seed-SameStep v v' none (some t) a b = absurd b
    try_seed-SameStep v v' (some s) none a b = absurd b
    try_seed-SameStep v v' (some s) (some t) a b =
        keep_sized-SameStep v v' s t (w.size s == 32) (w'.size t == 32) a b
          (ap (λ n. n == 32) (looks.same_size s t b))

    same_locked : (o : Option S) (o' : Option T) → Both o o' → is_locked o ≡ is_locked o'
    same_locked none none b = refl
    same_locked none (some t) b = absurd b
    same_locked (some s) none b = absurd b
    same_locked (some s) (some t) b = refl

    same_signing :
        (o : Option S) (o' : Option T) (b : Block) → Both o o' → sign_with w o b ≡ sign_with w' o' b
    same_signing none none b h = refl
    same_signing none (some t) b h = absurd h
    same_signing (some s) none b h = absurd h
    same_signing (some s) (some t) b h = ap block_reply (looks.same_block s t h b)

    handle-SameStep :
        (v : Vault S) (v' : Vault T) (m : Message)
        → Alike v v'
        → SameStep (handle w v m) (handle w' v' m)
    unfolding handle
    handle-SameStep v v' (unlock passphrase salt mem) a =
        try_seed-SameStep v v' _ _ a (looks.derives passphrase salt (with_default mem 0))
    handle-SameStep v v' account a = (a, cc (a.accounts, same_locked v.seed v'.seed a.seeds))
    handle-SameStep v v' (sign b) a = (a, same_signing v.seed v'.seed b a.seeds)
    handle-SameStep v v' lock a = (record { seeds = tt; accounts = refl; addresses = refl }, refl)
    handle-SameStep v v' (other type) a = (a, refl)

    run_same :
        (ms : List Message) (v : Vault S) (v' : Vault T) → Alike v v' → run w v ms ≡ run w' v' ms
    unfolding run
    run_same [] v v' a = refl
    run_same (m ∷ ms) v v' a =
        let (next, same) = handle-SameStep v v' m a in
        let rest = run_same ms (handle w v m).0 (handle w' v' m).0 next in cc

-- The seed never crosses to the page. Two workers whose wasm modules derive seeds at the same inputs,
-- and give related seeds the same account and the same signatures, answer every sequence of messages
-- with the same replies: what a page learns of a seed is its account and its signatures.
pub run-blind :
    {S T : Type 0} (R : S → T → Type 0) (w : Wasm S) (w' : Wasm T)
    → LooksAlike R w w'
    → (ms : List Message) → run w empty_vault ms ≡ run w' empty_vault ms
run-blind R w w' looks ms =
    run_same R w w' looks ms empty_vault empty_vault
      (record { seeds = tt; accounts = refl; addresses = refl })
