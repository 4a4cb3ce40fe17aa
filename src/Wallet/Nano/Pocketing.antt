-- ===== src/Wallet/Nano/Pocketing.antt =====
-- The chain of blocks that pockets what was sent to the wallet: receive of web/wallet.js.
use mathlib.Core.Path.{subst}
use near_instant.Common.{
  ℕ, ◌+◌, ◌<◌, ◌≡◌, ◌↔◌, refl, ap, sym, ◌∙◌, Bool, true, false, List, [], ◌∷◌, Option, none, some,
  Result, ok, err, length, arith, Bool-cases, inl, inr,
}
use near_instant.Common.Texts.{same_text, same_text-eq, same_text_refl}
use near_instant.Wallet.Amounts.{Text}
use near_instant.Wallet.Nano.{
  opening, Block, Info, Chain, lower, no_frontier, representative_of, WalletError, broadcast,
  Standing, receive_block, after_receive, after_block, receive_rows, standing_of, receive_known,
  receive_with, receive,
}

-- The amounts of the rows.
abbrev pub total : List (Text × Option ℕ) → ℕ
total [] = 0
total ((h, none) ∷ rows) = total rows
total ((h, some a) ∷ rows) = a + total rows

-- Each block follows the one before, adds the amount of its row and links to it; only a block that
-- follows none opens the account.
abbrev pub Chained : Text → Text → ℕ → List (Block × Text) → List (Text × Option ℕ) → Type 0
Chained rep frontier balance [] rows = Unit {0}
Chained rep frontier balance (taken ∷ blocks) [] = ⊥
Chained rep frontier balance (taken ∷ blocks) ((h, none) ∷ rows) = ⊥
Chained rep frontier balance ((b, hash) ∷ blocks) ((h, some a) ∷ rows) =
    (b.previous ≡ frontier)
    × (b.balance ≡ balance + a)
    × (b.link ≡ lower h)
    × (b.representative ≡ rep)
    × ((b.subtype ≡ opening) ↔ (frontier ≡ no_frontier))
    × Chained rep (lower hash) (balance + a) blocks rows

-- Either every row is pocketed, and the totals are right, or some row is not.
abbrev pub Ends :
    Standing → List (Text × Option ℕ) → List (Block × Text) → Result WalletError Standing → Type 0
Ends s rows blocks (ok s') =
    (length blocks ≡ length rows)
    × (s'.balance ≡ s.balance + total rows)
    × (s'.pocketed ≡ s.pocketed + total rows)
Ends s rows blocks (err e) = length blocks < length rows

opens :
    (s : Standing) (rep h : Text) (a : ℕ)
    → ((receive_block rep s h a).subtype ≡ opening) ↔ (s.frontier ≡ no_frontier)
unfolding receive_block
opens s rep h a = elim (Bool-cases (same_text s.frontier no_frontier)) [
  | inl same ↦ (λ e. same_text-eq s.frontier no_frontier same, λ e. rw same refl)
  | inr other ↦ (
    λ e. absurd (ground arith),
    λ e. absurd (differs (ap (λ t. same_text t no_frontier) e ∙ same_text_refl no_frontier) other),
  )
]
  where
    differs : {b : Bool} → b ≡ true → b ≡ false → ⊥
    differs e f = cc

longer :
    (s : Standing) (h : Text) (a : ℕ) (hash : Text) (rows : List (Text × Option ℕ))
    (blocks : List (Block × Text)) (r : Result WalletError Standing) (b : Block × Text)
    → Ends (after_receive s a hash) rows blocks r
    → Ends s ((h, some a) ∷ rows) (b ∷ blocks) r
unfolding after_receive
longer s h a hash rows blocks (ok s') b e = omega arith
longer s h a hash rows blocks (err x) b e = omega arith

module _ (w : Chain) (rep : Text) where
  abbrev Pockets :
      Standing → List (Text × Option ℕ) → List (Block × Text) × Result WalletError Standing → Type 0
  Pockets s rows r = Chained rep s.frontier s.balance r.0 rows × Ends s rows r.0 r.1

  after_block-Pockets :
      (s : Standing) (h : Text) (a : ℕ) (rows : List (Text × Option ℕ))
      (rest : Text → List (Block × Text) × Result WalletError Standing)
      (o : Result WalletError Text)
      → ((hash : Text) → Pockets (after_receive s a hash) rows (rest hash))
      → Pockets s ((h, some a) ∷ rows) (after_block (receive_block rep s h a) rest o)
  unfolding receive_block after_receive
  after_block-Pockets s h a rows rest (err e) ih = (tt, omega arith)
  after_block-Pockets s h a rows rest (ok hash) ih = (
    (refl, refl, refl, refl, opens s rep h a, (ih hash).0),
    longer s h a hash rows (rest hash).0 (rest hash).1 (receive_block rep s h a, hash) (ih hash).1,
  )

  receive_rows-Pockets :
      (rows : List (Text × Option ℕ)) (s : Standing) → Pockets s rows (receive_rows w rep s rows)
  unfolding receive_rows
  receive_rows-Pockets [] s = (tt, (refl, omega arith, omega arith))
  receive_rows-Pockets ((h, none) ∷ rows) s = (tt, omega arith)
  receive_rows-Pockets ((h, some a) ∷ rows) s =
      after_block-Pockets s h a rows (λ hash. receive_rows w rep (after_receive s a hash) rows)
        (broadcast w (receive_block rep s h a))
        (λ hash. receive_rows-Pockets rows (after_receive s a hash))

-- Receiving pockets in order, and either everything or up to the first failure. Given the account and
-- the rows that the nodes answer, the blocks that were taken form a chain from the account's frontier,
-- or from the opening block of a new account: each follows the one before, adds its row's amount to
-- the balance, links to its row, and keeps the representative. When it returns, every row has its
-- block, and the balance and the pocketed sum are the totals; when it throws, a row is left.
pub receive-Pockets :
    (w : Chain) (info : Option Info) (rows : List (Text × Option ℕ))
    → w.account_info ≡ some info
    → w.receivable ≡ some rows
    → Chained
        (representative_of w info)
        (standing_of info).frontier
        (standing_of info).balance
        (receive w).0
        rows
      × Ends (standing_of info) rows (receive w).0 (receive w).1
unfolding receive
receive-Pockets w info rows known listed =
    subst (Pockets w (representative_of w info) (standing_of info) rows)
      (sym (ap (receive_with w) known ∙ ap (receive_known w info) listed))
      (receive_rows-Pockets w (representative_of w info) rows (standing_of info))
