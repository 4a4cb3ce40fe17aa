-- ===== src/Book.antt =====
-- web/beacon.js: the live offers of a market side, out of all the posts that the ledger keeps.
pub mod Newest
pub mod Live
use near_instant.Common.{
  ℕ, zero, suc, ◌+◌, ◌-◌, Bool, true, false, ◌&&◌, ◌||◌, not, List, [], ◌∷◌, ◌++◌, Option, none,
  some, ltb, leb, ◌==◌, if◌then◌else◌,
}

-- A post as `scan` returns it, with the height and the time that `blocks_info` gives for its block.
-- A maker that is null is `none`; the time 0 is a missing one.
pub record Offer : Type 0 where
  pub maker : Option ℕ
  pub price_e9 : ℕ
  pub block_hash : ℕ
  pub height : ℕ
  pub ts : ℕ

-- A cancel sentinel.
abbrev pub is_cancel : Offer → Bool
is_cancel r = r.price_e9 == 0

-- `newer`, against the offer that is kept for the maker.
unfoldable pub newer : Offer → Offer → Bool
newer r cur =
    ltb cur.height r.height || (r.height == cur.height && (is_cancel r && not (is_cancel cur)))

-- The map `byMaker`, in insertion order: an offer of a maker that is there takes the old one's place.
unfoldable pub put : ℕ → Offer → List (ℕ × Offer) → List (ℕ × Offer)
put maker r [] = (maker, r) ∷ []
put maker r ((m, cur) ∷ entries) =
    let later = put maker r entries in
    if m == maker
    then if newer r cur then (m, r) ∷ entries else (m, cur) ∷ entries
    else (m, cur) ∷ later

unfoldable pub by_maker : List Offer → List (ℕ × Offer) → List (ℕ × Offer)
by_maker [] entries = entries
by_maker (r ∷ raw) entries = elim r.maker [
  | none ↦ by_maker raw entries
  | some m ↦ by_maker raw (put m r entries)
]

-- Neither withdrawn nor expired; `now - ts` stops at 0 for a time to come, which is not above any `ttl`.
abbrev pub is_live : ℕ → ℕ → Offer → Bool
is_live ttl now r = not (is_cancel r) && (not (r.ts == 0) && leb (now - r.ts) ttl)

unfoldable pub live_of : ℕ → ℕ → List (ℕ × Offer) → List Offer
live_of ttl now [] = []
live_of ttl now ((m, r) ∷ entries) =
    let later = live_of ttl now entries in if is_live ttl now r then r ∷ later else later

-- The order that the taker sees: the comparison of the source is below or equal 0.
abbrev pub ranks : ℕ → Offer → Offer → Bool
ranks side a b = if side == 1 then leb b.price_e9 a.price_e9 else leb a.price_e9 b.price_e9

-- `Array.sort` is stable; so is an insertion before the first offer that does not rank before it.
unfoldable pub insert : ℕ → Offer → List Offer → List Offer
insert side r [] = r ∷ []
insert side r (x ∷ xs) =
    let later = insert side r xs in if ranks side r x then r ∷ x ∷ xs else x ∷ later

unfoldable pub sort : ℕ → List Offer → List Offer
sort side [] = []
sort side (r ∷ rs) = insert side r (sort side rs)

-- `a || b` on numbers.
abbrev pub or_else : ℕ → ℕ → ℕ
or_else a b = if a == 0 then b else a

-- `scanLive` from the raw posts on; `ttlSecs` and `now` are 0 where the caller leaves them out, and
-- `clock` is the time then.
unfoldable pub scan_live : ℕ → ℕ → ℕ → ℕ → List Offer → List Offer
scan_live side ttl_secs now clock raw =
    sort side (live_of (or_else ttl_secs 3600) (or_else now clock) (by_maker raw []))
