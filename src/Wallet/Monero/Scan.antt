-- ===== src/Wallet/Monero/Scan.antt =====
-- The scan of xmrRefresh in web/wallet.js, with its fail-over between nodes, and xmrRescanFrom. Nodes
-- are numbers below the count of usable ones; every call of the worker is one moment later than the one
-- before. A save to the page's storage is taken to succeed.
pub mod Keeping
use near_instant.Common.{
  ℕ, zero, suc, ◌+◌, ◌-◌, ◌%◌, Bool, true, false, not, List, [], ◌∷◌, ◌++◌, Option, none, some, ltb,
  leb, ◌==◌, if◌then◌else◌, with_default,
}
use near_instant.Wallet.Amounts.{Text}
use near_instant.Wallet.Monero.Select.{Output, has_index, xmr_unlock}

-- What is stored for an address.
pub record Scanned : Type 0 where
  pub restore : Option ℕ
  pub scanned_to : Option ℕ
  pub outputs : List Output
  pub spent : List ℕ

abbrev pub unscanned : Scanned
unscanned = record { restore = none; scanned_to = none; outputs = []; spent = [] }

-- What a scan of the worker answers.
pub record Found : Type 0 where
  pub tip : ℕ
  pub scanned_to : ℕ
  pub outputs : List Output

pub record Scanner : Type 0 where
  pub nodes : ℕ
  pub scan : ℕ → ℕ → Option ℕ → Option Found

-- The node that is tried next (`ni`), and the moment.
pub record Cursor : Type 0 where
  pub node : ℕ
  pub moment : ℕ

-- `scan`: each node once, from the one that answered last.
unfoldable pub scan_nodes : Scanner → Option ℕ → ℕ → Cursor → Option Found × Cursor
scan_nodes w from zero c = (none, c)
scan_nodes w from (suc tries) c = elim (w.scan c.moment c.node from) [
  | some found ↦ (some found, record c { moment = c.moment + 1 })
  | none ↦ scan_nodes w from tries (record { node = (c.node + 1) % w.nodes; moment = c.moment + 1 })
]

abbrev pub indices : List Output → List ℕ
indices [] = []
indices (o ∷ os) = o.index ∷ indices os

-- The outputs that are new go to the end.
unfoldable pub add_outputs : List Output → List Output → List Output
add_outputs known [] = known
add_outputs known (o ∷ found) =
    add_outputs (if has_index o.index (indices known) then known else known ++ o ∷ []) found

unfoldable pub merge : Scanned → Found → Scanned
unfolding add_outputs
merge st found = record st {
  outputs = add_outputs st.outputs found.outputs;
  scanned_to = some found.scanned_to;
}

-- LOOKBACK
abbrev pub lookback : ℕ
lookback = 720

-- The stored state after it, the tip if the scan did not throw, and the moment.
pub record Refreshed : Type 0 where
  pub state : Scanned
  pub tip : Option ℕ
  pub cursor : Cursor

abbrev throws_at : Scanned → Cursor → Refreshed
throws_at st c = record { state = st; tip = none; cursor = c }

-- What follows a chunk; `more` goes on with the next one.
abbrev pub after_chunk :
    Scanned → (Scanned → ℕ → Cursor → Refreshed) → Option Found × Cursor → Refreshed
after_chunk st more (none, c) = throws_at st c
after_chunk st more (some found, c) =
    let st' = merge st found in
    if leb found.tip found.scanned_to
    then record { state = st'; tip = some found.tip; cursor = c }
    else more st' found.tip c

-- The chunks, at most so many.
unfoldable pub scan_chunks : Scanner → ℕ → Scanned → ℕ → Cursor → Refreshed
unfolding scan_nodes merge
scan_chunks w zero st tip c = record { state = st; tip = some tip; cursor = c }
scan_chunks w (suc left) st tip c =
    after_chunk st (scan_chunks w left) (scan_nodes w st.scanned_to w.nodes c)

-- The first scan of an address only asks for the tip.
abbrev pub start_at : Scanned → ℕ → Scanned
start_at st tip = record st { restore = some (tip - lookback); scanned_to = some (tip - lookback) }

abbrev pub after_first : Scanner → ℕ → Scanned → Option Found × Cursor → Refreshed
after_first w chunks st (none, c) = throws_at st c
after_first w chunks st (some found, c) =
    scan_chunks w chunks (start_at st found.tip) (found.tip - lookback) c

abbrev pub refresh_from : Scanner → ℕ → Scanned → Option ℕ → Cursor → Refreshed
refresh_from w chunks st none c = after_first w chunks st (scan_nodes w none w.nodes c)
refresh_from w chunks st (some height) c = scan_chunks w chunks st height c

-- `xmrRefresh`, up to the sums. Without a usable node it throws.
unfoldable pub refresh : Scanner → ℕ → Option Scanned → ℕ → Refreshed
unfolding scan_chunks
refresh w chunks stored moment =
    let st = with_default stored unscanned in
    let c : Cursor = record { node = 0; moment = moment } in
    if w.nodes == 0 then throws_at st c else refresh_from w chunks st st.scanned_to c

-- The sums over what is not marked spent: all of it, and what is ten blocks deep.
unfoldable pub balance : List ℕ → ℕ → List Output → ℕ × ℕ
balance spent tip [] = (0, 0)
balance spent tip (o ∷ os) =
    let (total, spendable) = balance spent tip os in
    if has_index o.index spent then (total, spendable) else (
      total + o.amount,
      if leb (o.block + xmr_unlock) tip then spendable + o.amount else spendable,
    )

-- `xmrRescanFrom` forgets what was found and what was marked spent.
unfoldable pub rescan_from : Scanner → ℕ → ℕ → ℕ → Refreshed
unfolding refresh
rescan_from w chunks height moment =
    refresh w chunks
      (some (record { restore = some height; scanned_to = some height; outputs = []; spent = [] }))
      moment
