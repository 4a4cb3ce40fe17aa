-- ===== src/Tests/Custodies.antt =====
-- Custody at concrete inputs: two wasm modules with seeds of different types, and replies that cross.
use near_instant.Common.{
  ℕ, ◌≡◌, ◌+◌, refl, All, List, [], ◌∷◌, none, some, if◌then◌else◌, ltb, length, Bool-cases, inl,
  inr, true, false,
}
use near_instant.Custody.{
  Block, Wasm, Vault, unlock, account, sign, lock, other, unlocked, status, signed, done, failed,
  vault_locked, no_seed, unknown_type, empty_vault, run, unlock_vault, handle,
}
use near_instant.Custody.Blind.{LooksAlike, run-blind}
use near_instant.Custody.Locked.{TellsNothing, lock-TellsNothing}
use near_instant.Custody.Calls.{
  IsTidy, fresh_page, Step, calls, arrives, steps, steps-IsTidy, call, on_message, remove,
}

-- A seed is the length of the passphrase; a passphrase of fewer than eight letters gives none.
abbrev by_length : Wasm ℕ
by_length = record {
  derive =
      λ passphrase salt mem. if ltb (length passphrase) 8 then none else some (length passphrase);
  size = λ s. if ltb s 20 then 32 else 31;
  account_of = λ s. some (s ∷ [], (s + 1) ∷ []);
  sign_block = λ s b. some (s ∷ b.link);
}

-- The first letter, 0 where there is none.
abbrev first : List ℕ → ℕ
first [] = 0
first (n ∷ ns) = n

-- The same with the seed as a text of one letter.
abbrev by_text : Wasm (List ℕ)
by_text = record {
  derive = λ passphrase salt mem.
      if ltb (length passphrase) 8 then none else some (length passphrase ∷ []);
  size = λ s. if ltb (first s) 20 then 32 else 31;
  account_of = λ s. some (s, (first s + 1) ∷ []);
  sign_block = λ s b. some (first s ∷ b.link);
}

abbrev Spells : ℕ → List ℕ → Type 0
Spells s t = t ≡ s ∷ []

abbrev payment : Block
payment = record { previous = []; representative = []; balance = []; link = 5 ∷ []; subtype = [] }

abbrev passphrase : List ℕ
passphrase = 1 ∷ 2 ∷ 3 ∷ 4 ∷ 5 ∷ 6 ∷ 7 ∷ 8 ∷ 9 ∷ []

size_spelled : (s : ℕ) (t : List ℕ) → Spells s t → by_length.size s ≡ by_text.size t
size_spelled s t e = rw e refl

account_spelled : (s : ℕ) (t : List ℕ) → Spells s t → by_length.account_of s ≡ by_text.account_of t
account_spelled s t e = rw e refl

block_spelled :
    (s : ℕ) (t : List ℕ)
    → Spells s t
    → (b : Block) → by_length.sign_block s b ≡ by_text.sign_block t b
block_spelled s t e b = rw e refl

spelled : LooksAlike Spells by_length by_text
spelled = record {
  derives = λ passphrase salt mem. elim (Bool-cases (ltb (length passphrase) 8)) [
    | inl short ↦ rw short tt
    | inr long ↦ rw long refl
  ];
  same_size = size_spelled;
  same_account = account_spelled;
  same_block = block_spelled;
}

-- Unlocked, asked for the account, and for a signature before and after it is locked.
requests :
    run by_length empty_vault (
      sign payment
      ∷ unlock passphrase [] none
      ∷ account
      ∷ sign payment
      ∷ lock
      ∷ account
      ∷ other []
      ∷ [])
    ≡ failed vault_locked
      ∷ unlocked (9 ∷ [])
      ∷ status (some (9 ∷ [])) false
      ∷ signed (9 ∷ 5 ∷ [])
      ∷ done
      ∷ status none true
      ∷ failed unknown_type
      ∷ []
unfolding run handle unlock_vault
requests = refl

short_passphrase : run by_length empty_vault (unlock [] [] none ∷ []) ≡ failed no_seed ∷ []
unfolding run handle unlock_vault
short_passphrase = refl

-- Two calls, whose replies cross; the second reply is repeated, and one is to a call that was not made.
abbrev crossed : List Step
crossed =
    calls
    ∷ calls
    ∷ arrives 2 done
    ∷ arrives 1 (signed [])
    ∷ arrives 2 done
    ∷ arrives 7 done
    ∷ calls
    ∷ []

crossed_replies :
    steps fresh_page crossed
    ≡ record { seq = 3; pending = 3 ∷ []; settled = (1, signed []) ∷ (2, done) ∷ [] }
unfolding steps call on_message remove
crossed_replies = refl

steps-IsTidy_example : IsTidy (steps fresh_page crossed)
steps-IsTidy_example = steps-IsTidy crossed

-- What was asked of the vault while it was unlocked is no matter.
abbrev opened_vault : Vault ℕ
unfolding unlock_vault
opened_vault = (unlock_vault by_length empty_vault passphrase [] none).0

lock-TellsNothing_example :
    All TellsNothing (run by_length opened_vault (lock ∷ sign payment ∷ account ∷ []))
lock-TellsNothing_example =
    lock-TellsNothing by_length opened_vault (sign payment ∷ account ∷ [])
      ((λ h. h), ((λ h. h), tt))

-- While the vault is open, the same requests are answered.
opened_replies :
    run by_length opened_vault (sign payment ∷ account ∷ [])
    ≡ signed (9 ∷ 5 ∷ []) ∷ status (some (9 ∷ [])) false ∷ []
unfolding run handle unlock_vault
opened_replies = refl

same_replies :
    run by_length empty_vault (unlock passphrase [] none ∷ sign payment ∷ lock ∷ sign payment ∷ [])
    ≡ run by_text empty_vault (unlock passphrase [] none ∷ sign payment ∷ lock ∷ sign payment ∷ [])
same_replies =
    run-blind Spells by_length by_text spelled
      (unlock passphrase [] none ∷ sign payment ∷ lock ∷ sign payment ∷ [])
