-- ===== src/Custody/Locked.antt =====
-- A locked vault signs nothing: web/custody_core.js and web/custody-worker.js.
use near_instant.Common.{◌≡◌, refl, List, [], ◌∷◌, none, All}
use near_instant.Custody.{
  Wasm, Vault, Message, unlock, account, sign, lock, other, Reply, unlocked, status, signed, done,
  failed, empty_vault, handle, run,
}

abbrev pub IsUnlock : Message → Type 0
IsUnlock (unlock passphrase salt mem) = Unit {0}
IsUnlock account = ⊥
IsUnlock (sign b) = ⊥
IsUnlock lock = ⊥
IsUnlock (other type) = ⊥

-- A locked vault's answer: a request to sign is refused, and no account is told.
abbrev pub TellsNothing : Reply → Type 0
TellsNothing (unlocked text) = ⊥
TellsNothing (status o locked) = o ≡ none
TellsNothing (signed text) = ⊥
TellsNothing done = Unit {0}
TellsNothing (failed e) = Unit {0}

module _ {S : Type 0} (w : Wasm S) where
  locked_silent :
      (ms : List Message) → All (λ m. ¬ IsUnlock m) ms → All TellsNothing (run w empty_vault ms)
  unfolding run handle
  locked_silent [] h = tt
  locked_silent (unlock passphrase salt mem ∷ ms) h = absurd (h.0 tt)
  locked_silent (account ∷ ms) h = (refl, locked_silent ms h.1)
  locked_silent (sign b ∷ ms) h = (tt, locked_silent ms h.1)
  locked_silent (lock ∷ ms) h = (tt, locked_silent ms h.1)
  locked_silent (other type ∷ ms) h = (tt, locked_silent ms h.1)

  -- Once it is locked, a vault signs nothing and tells no account, until it is unlocked again,
  -- whatever was unlocked before.
  pub lock-TellsNothing :
      (v : Vault S) (ms : List Message)
      → All (λ m. ¬ IsUnlock m) ms
      → All TellsNothing (run w v (lock ∷ ms))
  unfolding run handle
  lock-TellsNothing v ms h = (tt, locked_silent ms h)
