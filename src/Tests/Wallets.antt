-- ===== src/Tests/Wallets.antt =====
-- The wallet at concrete inputs: amounts, two deposits of XNO, a payment of each coin.
use near_instant.Common.{
  ℕ, ◌+◌, ◌*◌, ◌^◌, ◌≤◌, ◌≡◌, refl, List, [], ◌∷◌, Option, none, some, ok, arith, All, length, ltb,
  ◌==◌, if◌then◌else◌, replicate, map,
}
use near_instant.Mailbox.{hex}
use near_instant.Wallet.Amounts.{Text, fmt_xno, parse_xno, fmt_xmr, parse_xmr}
use near_instant.Wallet.Amounts.Roundtrip.{parse_xno-fmt_xno, parse_xmr-fmt_xmr}
use near_instant.Wallet.Nano.{
  sending, Block, Info, Chain, no_frontier, representative_of, broadcast, standing_of, receive,
  send, receive_block, after_receive,
}
use near_instant.Wallet.Nano.Pocketing.{Chained, Ends, receive-Pockets}
use near_instant.Wallet.Nano.Spending.{Pays, send-Pays}
use near_instant.Wallet.Monero.Select.{Output, select, spendable_of, total_of}
use near_instant.Wallet.Monero.Select.Cover.{Selects, MaySpend, select-Selects}
use near_instant.Wallet.Monero.Scan.{Scanned, Scanner, balance, rescan_from}
use near_instant.Wallet.Monero.Scan.Keeping.{balance_lem}
use near_instant.Wallet.Monero.Spend.{
  Payer, Payment, pays, refreshes, rescans, Done, pay_done, refresh_done, rescan_done, xmr_send,
  xmr_calls,
}
use near_instant.Wallet.Monero.Spend.Phases.{IsOrderly, xmr_send-IsOrderly}
use near_instant.Common.Decimal.{decimal}
use near_instant.Wallet.Monero.Spend.Once.{IsOnce, inputs_of, xmr_calls-IsOnce}

-- 1.25 XNO and one raw.
abbrev raw : ℕ
raw = 1_250_000_000_000_000_000_000_000_000_001

-- "1.25"
printed : fmt_xno raw ≡ 49 ∷ 46 ∷ 50 ∷ 53 ∷ []
unfolding fmt_xno decimal
printed = refl

spaced : parse_xmr (32 ∷ 48 ∷ 46 ∷ 53 ∷ 32 ∷ []) ≡ some 500_000_000_000
unfolding parse_xmr
spaced = refl

-- "1."
no_fraction : parse_xmr (49 ∷ 46 ∷ []) ≡ none
unfolding parse_xmr
no_fraction = refl

parse_xno-fmt_xno_example : parse_xno (fmt_xno raw) ≡ some 1_250_000_000_000_000_000_000_000_000_000
parse_xno-fmt_xno_example = parse_xno-fmt_xno raw

parse_xmr-fmt_xmr_example : parse_xmr (fmt_xmr 1_234_567_891_234) ≡ some 1_234_567_890_000
parse_xmr-fmt_xmr_example = parse_xmr-fmt_xmr 1_234_567_891_234

-- Two sends wait; the destination decodes to 32 bytes.
abbrev rows : List (Text × Option ℕ)
rows = (65 ∷ [], some 5) ∷ (66 ∷ [], some (10 ^ 30)) ∷ []

abbrev account_now : Option Info
account_now = some (record { frontier = 70 ∷ []; balance = 3 * 10 ^ 30; representative = none })

abbrev chain : Option Info → Chain
chain info = record {
  account = 97 ∷ [];
  account_info = some info;
  receivable = some rows;
  decode = λ text. if ltb (length text) 2 then [] else replicate 32 7;
  sign = λ b. some (record { content = b.link; work_root = b.previous });
  work = λ root subtype. some root;
  process = λ signed work. some (83 ∷ signed.content);
}

pocketed :
    (receive (chain none)).1
    ≡ ok (record { frontier = 115 ∷ 98 ∷ []; balance = 10 ^ 30 + 5; pocketed = 10 ^ 30 + 5 })
unfolding receive after_receive receive_block
pocketed = refl

receive-Pockets_example :
    Chained (97 ∷ []) no_frontier 0 (receive (chain none)).0 rows
    × Ends (standing_of none) rows (receive (chain none)).0 (receive (chain none)).1
unfolding representative_of
receive-Pockets_example = receive-Pockets (chain none) none rows refl refl

-- "1.5" to an address.
abbrev paid : Block
paid = record {
  previous = 70 ∷ [];
  representative = 97 ∷ [];
  balance = 1_500_000_000_000_000_000_000_000_000_000;
  link = hex (replicate 32 7);
  subtype = sending;
}

sent_block : (send (chain account_now) (110 ∷ 97 ∷ []) (49 ∷ 46 ∷ 53 ∷ [])).0 ≡ some paid
unfolding send
sent_block = refl

send-Pays_example :
    Pays (chain account_now) (110 ∷ 97 ∷ []) (49 ∷ 46 ∷ 53 ∷ []) paid
    × ((send (chain account_now) (110 ∷ 97 ∷ []) (49 ∷ 46 ∷ 53 ∷ [])).1
        ≡ broadcast (chain account_now) paid)
send-Pays_example =
    send-Pays (chain account_now) (110 ∷ 97 ∷ []) (49 ∷ 46 ∷ 53 ∷ []) paid sent_block

abbrev output_of : ℕ → ℕ → ℕ → Output
output_of index amount block = record { index = index; amount = amount; block = block; output = [] }

abbrev outputs : List Output
outputs =
    output_of 1 (10 ^ 12) 100 ∷ output_of 2 (2 * 10 ^ 11) 90 ∷ output_of 3 (3 * 10 ^ 11) 195 ∷ []

-- The smallest that is deep enough comes first; one is too young.
chosen : select [] 200 outputs (10 ^ 11) ≡ ok (output_of 2 (2 * 10 ^ 11) 90 ∷ [])
unfolding select
chosen = refl

select-Selects_example :
    Selects (10 ^ 11) (spendable_of [] 200 outputs) (select [] 200 outputs (10 ^ 11))
    × ((c : List Output)
        → select [] 200 outputs (10 ^ 11) ≡ ok c
        → All (MaySpend (λ o. o.amount ≤ 10 ^ 12) [] 200) c)
select-Selects_example =
    select-Selects (λ o. o.amount ≤ 10 ^ 12) [] 200 outputs (10 ^ 11) (omega arith)

abbrev known : Scanned
known = record { restore = some 80; scanned_to = some 150; outputs = outputs; spent = 1 ∷ [] }

-- The first of two nodes never answers.
abbrev scanner : Scanner
scanner = record {
  nodes = 2;
  scan = λ moment node from.
      if node == 0
      then none
      else some (record {
        tip = 200;
        scanned_to = 200;
        outputs = output_of 2 7 7 ∷ output_of 4 9 180 ∷ [];
      });
}

balance_lem_example :
    ((balance (1 ∷ []) 200 outputs).1 ≡ total_of (spendable_of (1 ∷ []) 200 outputs))
    × ((balance (1 ∷ []) 200 outputs).1 ≤ (balance (1 ∷ []) 200 outputs).0)
balance_lem_example = balance_lem (1 ∷ []) 200 outputs

abbrev payer : Payer
payer = record {
  scanner = scanner;
  build = λ moment node inputs dest amount. if node == 0 then none else some (amount ∷ []);
  publish = λ moment node tx. if node == 0 then none else some (104 ∷ []);
}

abbrev dest : Text
dest = replicate 95 52

-- "0.1"
abbrev tenth : Text
tenth = 48 ∷ 46 ∷ 49 ∷ []

went_out : (xmr_send payer known dest tenth 0).result ≡ ok (104 ∷ [])
unfolding xmr_send
went_out = refl

xmr_send-IsOrderly_example : IsOrderly known tenth (xmr_send payer known dest tenth 0)
xmr_send-IsOrderly_example = xmr_send-IsOrderly payer known tenth dest 0 (refl, (refl, (refl, tt)))

abbrev payment : Payment
payment = record { payer = payer; dest = dest; amount_text = tenth }

-- A payment whose broadcasts all fail, and then, after a rescan, another.
abbrev unpublished : Payment
unpublished = record {
  payer = record payer { publish = λ moment node tx. none };
  dest = dest;
  amount_text = tenth;
}

xmr_calls-IsOnce_example :
    IsOnce (xmr_calls known (pays unpublished ∷ refreshes scanner ∷ pays payment ∷ []) 0)
xmr_calls-IsOnce_example =
    xmr_calls-IsOnce (pays unpublished ∷ refreshes scanner ∷ pays payment ∷ []) known 0
      (refl, (refl, (refl, tt)))

abbrev signed_by : Done → List ℕ
signed_by (pay_done s) = inputs_of s.signed
signed_by (refresh_done r) = []
signed_by (rescan_done r) = []

abbrev whole_scanner : Scanner
whole_scanner = record {
  nodes = 1;
  scan = λ moment node from. some (record { tip = 200; scanned_to = 200; outputs = outputs });
}

-- The rescan clears the marks: what the first payment signed away is signed again.
signed_again :
    map signed_by
      (xmr_calls known (pays unpublished ∷ rescans whole_scanner 80 ∷ pays unpublished ∷ []) 0)
    ≡ (4 ∷ 2 ∷ []) ∷ [] ∷ (4 ∷ 2 ∷ []) ∷ []
unfolding xmr_calls rescan_from xmr_send
signed_again = refl
