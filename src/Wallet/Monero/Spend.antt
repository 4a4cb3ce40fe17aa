-- ===== src/Wallet/Monero/Spend.antt =====
-- xmrSend of web/wallet.js: the checks, the refresh, the choice of inputs, and the three phases: build
-- and sign over the nodes twice, mark the inputs spent, broadcast.
pub mod Distinct
pub mod Phases
pub mod Once
use near_instant.Common.{
  ℕ, zero, suc, ◌+◌, Bool, true, false, not, ◌&&◌, ◌||◌, List, [], ◌∷◌, ◌++◌, Option, none, some,
  Result, ok, err, leb, ◌==◌, if◌then◌else◌, length,
}
use near_instant.Wallet.Amounts.{Text, trim_start, trim_end, parse_xmr}
use near_instant.Wallet.Monero.Select.{Output, SelectError, select}
use near_instant.Wallet.Monero.Scan.{
  Scanned, Scanner, Cursor, indices, Refreshed, refresh, rescan_from,
}

-- The calls of a payment. `build` gives the signed transaction's bytes.
pub record Payer : Type 0 where
  pub scanner : Scanner
  pub build : ℕ → ℕ → List Output → Text → ℕ → Option (List ℕ)
  pub publish : ℕ → ℕ → List ℕ → Option Text

-- What leaves the page: a save of the state, and a broadcast over a node.
pub data Event : Type 0 where
  stored : Scanned → Event
  sent : ℕ → List ℕ → Event

pub data SendError : Type 0 where
  bad_address bad_number not_positive not_scanned not_built not_published : SendError
  not_selected : SelectError → SendError

-- How a call of `xmrSend` ends: the stored state, the inputs and the bytes of the transaction that was
-- signed, if one was, the events from the marks on, and the result.
pub record Sent : Type 0 where
  pub state : Scanned
  pub signed : Option (List Output × List ℕ)
  pub events : List Event
  pub result : Result SendError Text
  pub moment : ℕ

-- [1-9A-HJ-NP-Za-km-z]
abbrev pub is_base58 : ℕ → Bool
is_base58 c =
    (leb 49 c && leb c 57)
    || (leb 65 c && leb c 72)
    || (leb 74 c && leb c 78)
    || (leb 80 c && leb c 90)
    || (leb 97 c && leb c 107)
    || (leb 109 c && leb c 122)

abbrev pub all_base58 : Text → Bool
all_base58 [] = true
all_base58 (c ∷ cs) = is_base58 c && all_base58 cs

unfoldable pub looks_valid : Text → Bool
looks_valid dest = leb 95 (length dest) && leb (length dest) 106 && all_base58 dest

-- The nodes in turn, until one builds the transaction.
unfoldable pub build_nodes : Payer → List Output → Text → ℕ → ℕ → ℕ → ℕ → Option (List ℕ) × ℕ
build_nodes w inputs dest amount zero node moment = (none, moment)
build_nodes w inputs dest amount (suc left) node moment =
    elim (w.build moment node inputs dest amount) [
      | some tx ↦ (some tx, moment + 1)
      | none ↦ build_nodes w inputs dest amount left (node + 1) (moment + 1)
    ]

abbrev pub again : (ℕ → Option (List ℕ) × ℕ) → Option (List ℕ) × ℕ → Option (List ℕ) × ℕ
again round (some tx, moment) = (some tx, moment)
again round (none, moment) = round moment

-- Two rounds over the nodes.
unfoldable pub build_twice : Payer → List Output → Text → ℕ → ℕ → Option (List ℕ) × ℕ
unfolding build_nodes
build_twice w inputs dest amount moment =
    again (build_nodes w inputs dest amount w.scanner.nodes 0)
      (build_nodes w inputs dest amount w.scanner.nodes 0 moment)

abbrev pub after_publish :
    ℕ → List ℕ → ℕ → List Event × Option Text × ℕ → Option Text → List Event × Option Text × ℕ
after_publish node tx moment later (some taken) = (sent node tx ∷ [], some taken, moment + 1)
after_publish node tx moment later none = (sent node tx ∷ later.0, later.1, later.2)

-- The same bytes to the nodes in turn, until one takes them.
unfoldable pub publish_nodes : Payer → List ℕ → ℕ → ℕ → ℕ → List Event × Option Text × ℕ
publish_nodes w tx zero node moment = ([], none, moment)
publish_nodes w tx (suc left) node moment =
    after_publish node tx moment (publish_nodes w tx left (node + 1) (moment + 1))
      (w.publish moment node tx)

unfoldable pub mark : Scanned → List Output → Scanned
mark st inputs = record st { spent = st.spent ++ indices inputs }

-- Nothing was signed.
abbrev pub gives_up : Scanned → SendError → ℕ → Sent
gives_up st e moment = record {
  state = st;
  signed = none;
  events = [];
  result = err e;
  moment = moment;
}

abbrev hash_or : Option Text → Result SendError Text
hash_or none = err not_published
hash_or (some hash) = ok hash

-- The phases two and three.
abbrev pub after_build : Payer → Scanned → List Output → Option (List ℕ) × ℕ → Sent
after_build w st inputs (none, moment) = gives_up st not_built moment
after_build w st inputs (some tx, moment) =
    let (events, hash, later) = publish_nodes w tx w.scanner.nodes 0 moment in
    record {
      state = mark st inputs;
      signed = some (inputs, tx);
      events = stored (mark st inputs) ∷ events;
      result = hash_or hash;
      moment = later;
    }

abbrev pub after_select : Payer → Scanned → Text → ℕ → ℕ → Result SelectError (List Output) → Sent
after_select w st dest amount moment (err e) = gives_up st (not_selected e) moment
after_select w st dest amount moment (ok inputs) =
    after_build w st inputs (build_twice w inputs dest amount moment)

abbrev pub after_refresh : Payer → Text → ℕ → Scanned → Cursor → Option ℕ → Sent
after_refresh w dest amount st c none = gives_up st not_scanned c.moment
after_refresh w dest amount st c (some tip) =
    after_select w st dest amount c.moment (select st.spent tip st.outputs amount)

-- The chunks that a refresh scans at most, where none are asked for.
abbrev pub max_chunks : ℕ
max_chunks = 5000

abbrev pub pay : Payer → Text → ℕ → Refreshed → Sent
pay w dest amount r = after_refresh w dest amount r.state r.cursor r.tip

abbrev pub after_parse : Payer → Scanned → Text → ℕ → Option ℕ → Sent
after_parse w st dest moment none = gives_up st bad_number moment
after_parse w st dest moment (some amount) =
    if amount == 0
    then gives_up st not_positive moment
    else pay w dest amount (refresh w.scanner max_chunks (some st) moment)

unfoldable pub xmr_send : Payer → Scanned → Text → Text → ℕ → Sent
unfolding trim_start trim_end looks_valid parse_xmr refresh select build_twice publish_nodes mark
xmr_send w st dest_text amount_text moment =
    let dest = trim_end (trim_start dest_text) in
    if looks_valid dest
    then after_parse w st dest moment (parse_xmr amount_text)
    else gives_up st bad_address moment

pub record Payment : Type 0 where
  pub payer : Payer
  pub dest : Text
  pub amount_text : Text

-- The calls of a wallet's Monero functions.
pub data XmrCall : Type 0 where
  pays : Payment → XmrCall
  refreshes : Scanner → XmrCall
  rescans : Scanner → ℕ → XmrCall

pub data Done : Type 0 where
  pay_done : Sent → Done
  refresh_done rescan_done : Refreshed → Done

-- One call on what is stored.
abbrev pub xmr_call : Scanned → XmrCall → ℕ → Done
xmr_call st (pays p) moment = pay_done (xmr_send p.payer st p.dest p.amount_text moment)
xmr_call st (refreshes w) moment = refresh_done (refresh w max_chunks (some st) moment)
xmr_call st (rescans w height) moment = rescan_done (rescan_from w max_chunks height moment)

-- What is stored after a call, and the moment.
abbrev pub state_after : Done → Scanned
state_after (pay_done s) = s.state
state_after (refresh_done r) = r.state
state_after (rescan_done r) = r.state

abbrev pub moment_after : Done → ℕ
moment_after (pay_done s) = s.moment
moment_after (refresh_done r) = r.cursor.moment
moment_after (rescan_done r) = r.cursor.moment

-- Calls one after another.
unfoldable pub xmr_calls : Scanned → List XmrCall → ℕ → List Done
unfolding xmr_send
xmr_calls st [] moment = []
xmr_calls st (call ∷ calls) moment =
    let d = xmr_call st call moment in d ∷ xmr_calls (state_after d) calls (moment_after d)
