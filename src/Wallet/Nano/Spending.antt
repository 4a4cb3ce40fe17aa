-- ===== src/Wallet/Nano/Spending.antt =====
-- What the wallet signs and broadcasts for a payment: send of web/wallet.js.
use near_instant.Common.{
  ℕ, ◌+◌, ◌<◌, ◌≡◌, ap, ◌∙◌, false, not, Option, none, some, Result, ok, err, throw_if, ltb, ◌==◌,
  length, arith, chain-returned, throw_if-eq-ok,
}
use near_instant.Mailbox.{hex}
use near_instant.Wallet.Amounts.{Text, trim_start, trim_end, parse_xno}
use near_instant.Wallet.Nano.{
  sending, Block, Info, Chain, representative_of, WalletError, bad_address, bad_number,
  not_positive, no_quorum, no_funds, too_little, or_err, broadcast, after_check, send_block, send,
}

or_err-some : {A : Type 0} (o : Option A) (e : WalletError) {a : A} → or_err o e ≡ ok a → o ≡ some a
or_err-some none e h = absurd (ground arith)
or_err-some (some a) e h = ground arith

-- A payment's block: the account that a quorum answered keeps what is left of its balance, and the
-- block follows its frontier and links to the destination.
pub record Pays (w : Chain) (dest amount_text : Text) (b : Block) : Type 0 where
  pub info : Info
  pub amount : ℕ
  pub known : w.account_info ≡ some (some info)
  pub parsed : parse_xno amount_text ≡ some amount
  pub positive : 0 < amount
  pub address : length (w.decode (trim_end (trim_start dest))) ≡ 32
  pub balance : b.balance + amount ≡ info.balance
  pub previous : b.previous ≡ info.frontier
  pub link : b.link ≡ hex (w.decode (trim_end (trim_start dest)))
  pub representative : b.representative ≡ representative_of w (some info)
  pub subtype : b.subtype ≡ sending

send_block-Pays :
    (w : Chain) (dest amount_text : Text) (b : Block)
    → send_block w dest amount_text ≡ ok b
    → Pays w dest amount_text b
unfolding send_block
send_block-Pays w dest amount_text b e =
    let pk = w.decode (trim_end (trim_start dest)) in
    let (u, valid, e1) = chain-returned (throw_if (not (length pk == 32)) bad_address) _ e in
    let (amount, parsed, e2) = chain-returned (or_err (parse_xno amount_text) bad_number) _ e1 in
    let (v, some_amount, e3) = chain-returned (throw_if (amount == 0) not_positive) _ e2 in
    let (answered, asked, e4) = chain-returned (or_err w.account_info no_quorum) _ e3 in
    let (info, there, e5) = chain-returned (or_err answered no_funds) _ e4 in
    let (x, enough, e6) = chain-returned (throw_if (ltb info.balance amount) too_little) _ e5 in
    let size : not (length pk == 32) ≡ false = throw_if-eq-ok _ _ valid in
    let more : (amount == 0) ≡ false = throw_if-eq-ok _ _ some_amount in
    let covers : ltb info.balance amount ≡ false = throw_if-eq-ok _ _ enough in
    record {
      info = info;
      amount = amount;
      known = or_err-some _ _ asked ∙ ap some (or_err-some answered _ there);
      parsed = or_err-some _ _ parsed;
      positive = ground arith;
      address = ground arith;
      balance = ground arith;
      previous = ground arith;
      link = ground arith;
      representative = ground arith;
      subtype = ground arith;
    }

after_check-ok :
    (w : Chain) (r : Result WalletError Block) (b : Block)
    → (after_check w r).0 ≡ some b
    → (r ≡ ok b) × ((after_check w r).1 ≡ broadcast w b)
after_check-ok w (err x) b e = absurd (ground arith)
after_check-ok w (ok c) b e = let same : c ≡ b = ground arith in (ap ok same, ap (broadcast w) same)

-- A payment that cannot be made signs nothing. Whatever `send` broadcasts is the block of a payment of
-- a positive amount, to an address that decodes to 32 bytes, that a quorum's balance covers; the
-- block's balance is what is left. It returns only the hash that a node gave for that block.
pub send-Pays :
    (w : Chain) (dest amount_text : Text) (b : Block)
    → (send w dest amount_text).0 ≡ some b
    → Pays w dest amount_text b × ((send w dest amount_text).1 ≡ broadcast w b)
unfolding send
send-Pays w dest amount_text b e =
    let (checked, made) = after_check-ok w (send_block w dest amount_text) b e in
    (send_block-Pays w dest amount_text b checked, made)
