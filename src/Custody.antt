-- ===== src/Custody.antt =====
-- The vault of web/custody_core.js, and the worker of web/custody-worker.js that holds it. The type of
-- seeds is a parameter: the code only reads a seed's size and passes it to functions of the wasm
-- module. The messages come to a worker that has loaded the module.
pub mod Blind
pub mod Locked
pub mod Calls
use near_instant.Common.{
  ℕ, Bool, true, false, List, [], ◌∷◌, Option, none, some, with_default, ◌==◌,
}

abbrev pub Text : Type 0
Text = List ℕ

-- The fields of a block.
pub record Block : Type 0 where
  pub previous : Text
  pub representative : Text
  pub balance : Text
  pub link : Text
  pub subtype : Text

-- The wasm module: `derive` has none where it gives no bytes, `account_of` where it throws, and
-- `sign_block` where it refuses; `size` is a seed's number of bytes.
pub record Wasm (S : Type 0) : Type 0 where
  pub derive : Text → List ℕ → ℕ → Option S
  pub size : S → ℕ
  pub account_of : S → Option (Text × Text)
  pub sign_block : S → Block → Option Text

pub record Vault (S : Type 0) : Type 0 where
  pub seed : Option S
  pub account : Option Text
  pub address : Option Text

pub data VaultError : Type 0 where
  no_seed no_account vault_locked sign_refused unknown_type : VaultError

-- The messages of the page, and the worker's replies. A salt is bytes.
pub data Message : Type 0 where
  unlock : Text → List ℕ → Option ℕ → Message
  account : Message
  sign : Block → Message
  lock : Message
  other : Text → Message

pub data Reply : Type 0 where
  unlocked : Text → Reply
  status : Option Text → Bool → Reply
  signed : Text → Reply
  done : Reply
  failed : VaultError → Reply

abbrev pub block_reply : Option Text → Reply
block_reply none = failed sign_refused
block_reply (some out) = signed out

module _ {S : Type 0} where
  abbrev pub empty_vault : Vault S
  empty_vault = record { seed = none; account = none; address = none }

  -- The seed is kept before its account is read.
  abbrev pub keep_seed : Vault S → S → Option (Text × Text) → Vault S × Reply
  keep_seed v s none = (record v { seed = some s }, failed no_account)
  keep_seed v s (some (pubkey, address)) =
      (record { seed = some s; account = some pubkey; address = some address }, unlocked pubkey)

  abbrev pub keep_sized : Wasm S → Vault S → S → Bool → Vault S × Reply
  keep_sized w v s false = (v, failed no_seed)
  keep_sized w v s true = keep_seed v s (w.account_of s)

  abbrev pub try_seed : Wasm S → Vault S → Option S → Vault S × Reply
  try_seed w v none = (v, failed no_seed)
  try_seed w v (some s) = keep_sized w v s (w.size s == 32)

  -- `unlock`
  unfoldable pub unlock_vault : Wasm S → Vault S → Text → List ℕ → Option ℕ → Vault S × Reply
  unlock_vault w v passphrase salt mem_kib =
      try_seed w v (w.derive passphrase salt (with_default mem_kib 0))

  abbrev pub is_locked : Option S → Bool
  is_locked none = true
  is_locked (some s) = false

  -- `signBlock`
  abbrev pub sign_with : Wasm S → Option S → Block → Reply
  sign_with w none b = failed vault_locked
  sign_with w (some s) b = block_reply (w.sign_block s b)

  -- One message.
  unfoldable pub handle : Wasm S → Vault S → Message → Vault S × Reply
  unfolding unlock_vault
  handle w v (unlock passphrase salt mem_kib) = unlock_vault w v passphrase salt mem_kib
  handle w v account = (v, status v.account (is_locked v.seed))
  handle w v (sign b) = (v, sign_with w v.seed b)
  handle w v lock = (empty_vault, done)
  handle w v (other type) = (v, failed unknown_type)

  -- The messages in turn, with their replies.
  unfoldable pub run : Wasm S → Vault S → List Message → List Reply
  unfolding handle
  run w v [] = []
  run w v (m ∷ ms) = let (v', r) = handle w v m in r ∷ run w v' ms
