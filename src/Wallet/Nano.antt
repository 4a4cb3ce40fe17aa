-- ===== src/Wallet/Nano.antt =====
-- receive and send of web/wallet.js: blocks of the Nano account, signed in the worker. The worker, the
-- nodes and the address decoder are parameters; an option is none where a call throws.
pub mod Pocketing
pub mod Spending
use near_instant.Common.{
  ℕ, ◌+◌, ◌-◌, Bool, true, false, not, ◌&&◌, List, [], ◌∷◌, Option, none, some, Result, ok, err,
  ◌>>=◌, ◌>>◌, throw_if, ltb, leb, ◌==◌, if◌then◌else◌, length, map, replicate,
}
use near_instant.Common.Texts.{same_text}
use near_instant.Mailbox.{hex}
use near_instant.Wallet.Amounts.{Text, trim_start, trim_end, parse_xno}

pub data Subtype : Type 0 where
  opening receiving sending : Subtype

pub record Block : Type 0 where
  pub previous : Text
  pub representative : Text
  pub balance : ℕ
  pub link : Text
  pub subtype : Subtype

-- What the worker gives for a block: the signed block as it is sent, and what its work is for.
pub record Signed : Type 0 where
  pub content : Text
  pub work_root : Text

pub record Info : Type 0 where
  pub frontier : Text
  pub balance : ℕ
  pub representative : Option Text

-- The account of the wallet in hexadecimal, and the calls of others. A row of `receivable` has the
-- hash of a send and its amount.
pub record Chain : Type 0 where
  pub account : Text
  pub account_info : Option (Option Info)
  pub receivable : Option (List (Text × Option ℕ))
  pub decode : Text → List ℕ
  pub sign : Block → Option Signed
  pub work : Text → Subtype → Option Text
  pub process : Signed → Text → Option Text

abbrev lower_code : ℕ → ℕ
lower_code c = if leb 65 c && leb c 90 then c + 32 else c

-- `toLowerCase()` of a hash.
abbrev pub lower : Text → Text
lower = map lower_code

abbrev pub no_frontier : Text
no_frontier = replicate 64 48

abbrev pub decoded_or : List ℕ → Text → Text
decoded_or pk other = if length pk == 32 then hex pk else other

-- The representative of the account, or else the account itself.
unfoldable pub representative_of : Chain → Option Info → Text
representative_of w none = w.account
representative_of w (some i) = elim i.representative [
  | none ↦ w.account
  | some r ↦ decoded_or (w.decode r) w.account
]

pub data WalletError : Type 0 where
  bad_address bad_number not_positive no_quorum no_funds too_little no_rows bad_row : WalletError
  not_signed no_work not_processed : WalletError

abbrev pub or_err : {A : Type 0} → Option A → WalletError → Result WalletError A
or_err none e = err e
or_err (some a) e = ok a

-- The block is signed and its work is made; `broadcast` is what is handed to the nodes.
unfoldable pub broadcast : Chain → Block → Result WalletError Text
broadcast w b = do
  signed ← or_err (w.sign b) not_signed
  work ← or_err (w.work signed.work_root b.subtype) no_work
  or_err (w.process signed work) not_processed

-- The account while `receive` goes on.
pub record Standing : Type 0 where
  pub frontier : Text
  pub balance : ℕ
  pub pocketed : ℕ

unfoldable pub receive_block : Text → Standing → Text → ℕ → Block
receive_block rep s send_hash amount = record {
  previous = s.frontier;
  representative = rep;
  balance = s.balance + amount;
  link = lower send_hash;
  subtype = if same_text s.frontier no_frontier then opening else receiving;
}

unfoldable pub after_receive : Standing → ℕ → Text → Standing
after_receive s amount hash = record {
  frontier = lower hash;
  balance = s.balance + amount;
  pocketed = s.pocketed + amount;
}

-- What follows the broadcast of a block; `rest` goes on behind its hash.
abbrev pub after_block :
    Block
    → (Text → List (Block × Text) × Result WalletError Standing)
    → Result WalletError Text
    → List (Block × Text) × Result WalletError Standing
after_block block rest (err e) = ([], err e)
after_block block rest (ok hash) = let r = rest hash in ((block, hash) ∷ r.0, r.1)

-- The rows one after another: the blocks that a node took with their hashes, and how it ends.
unfoldable pub receive_rows :
    Chain
    → Text
    → Standing
    → List (Text × Option ℕ)
    → List (Block × Text) × Result WalletError Standing
unfolding broadcast
receive_rows w rep s [] = ([], ok s)
receive_rows w rep s ((send_hash, none) ∷ rows) = ([], err bad_row)
receive_rows w rep s ((send_hash, some amount) ∷ rows) =
    let block = receive_block rep s send_hash amount in
    after_block block (λ hash. receive_rows w rep (after_receive s amount hash) rows)
      (broadcast w block)

abbrev pub standing_of : Option Info → Standing
standing_of none = record { frontier = no_frontier; balance = 0; pocketed = 0 }
standing_of (some i) = record { frontier = i.frontier; balance = i.balance; pocketed = 0 }

abbrev pub receive_known :
    Chain
    → Option Info
    → Option (List (Text × Option ℕ))
    → List (Block × Text) × Result WalletError Standing
receive_known w info none = ([], err no_rows)
receive_known w info (some rows) = receive_rows w (representative_of w info) (standing_of info) rows

abbrev pub receive_with :
    Chain → Option (Option Info) → List (Block × Text) × Result WalletError Standing
receive_with w none = ([], err no_quorum)
receive_with w (some info) = receive_known w info w.receivable

unfoldable pub receive : Chain → List (Block × Text) × Result WalletError Standing
unfolding receive_rows
receive w = receive_with w w.account_info

-- `send`, up to the block: the destination and the amount are checked, then the balance.
unfoldable pub send_block : Chain → Text → Text → Result WalletError Block
unfolding trim_start trim_end parse_xno representative_of
send_block w dest amount_text = do
  let dest_pk = w.decode (trim_end (trim_start dest))
  throw_if (not (length dest_pk == 32)) bad_address
  amount ← or_err (parse_xno amount_text) bad_number
  throw_if (amount == 0) not_positive
  answered ← or_err w.account_info no_quorum
  info ← or_err answered no_funds
  throw_if (ltb info.balance amount) too_little
  ok (record {
    previous = info.frontier;
    representative = representative_of w (some info);
    balance = info.balance - amount;
    link = hex dest_pk;
    subtype = sending;
  })

abbrev pub after_check : Chain → Result WalletError Block → Option Block × Result WalletError Text
after_check w (err e) = (none, err e)
after_check w (ok block) = (some block, broadcast w block)

-- What `send` signs and broadcasts, if anything, and how it ends.
unfoldable pub send : Chain → Text → Text → Option Block × Result WalletError Text
unfolding send_block broadcast
send w dest amount_text = after_check w (send_block w dest amount_text)
