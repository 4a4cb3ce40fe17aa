-- ===== src/Tests/Books.antt =====
-- Runs of `scanLive`: two makers, one of which withdrew its offer and one of which changed its price.
use near_instant.Common.{ℕ, ◌≤◌, ◌≡◌, refl, inl, inr, true, false, List, [], ◌∷◌, some}
use near_instant.Book.{
  Offer, is_cancel, is_live, newer, put, by_maker, live_of, insert, sort, or_else, scan_live,
}
use near_instant.Book.Newest.{is_by, Among}
use near_instant.Book.Live.{scan_live-Supersedes}

abbrev post : ℕ → ℕ → ℕ → Offer
post maker price height = record {
  maker = some maker;
  price_e9 = price;
  block_hash = height;
  height = height;
  ts = 1000;
}

abbrev raw : List Offer
raw = post 1 7 4 ∷ post 2 9 3 ∷ post 1 0 5 ∷ post 2 8 6 ∷ post 3 5 1 ∷ []

shown : scan_live 0 600 1100 0 raw ≡ post 3 5 1 ∷ post 2 8 6 ∷ []
unfolding scan_live by_maker put newer live_of sort insert
shown = refl

listed : Among (post 2 8 6) (scan_live 0 600 1100 0 raw)
unfolding scan_live by_maker put newer live_of sort insert
listed = inr (inl refl)

scan_live-Supersedes_example :
    (m : ℕ) × (is_by m (post 2 8 6) ≡ true)
    × Among (post 2 8 6) raw
    × (is_live (or_else 600 3600) (or_else 1100 0) (post 2 8 6) ≡ true)
    × ((q : Offer)
        → Among q raw
        → is_by m q ≡ true
        → (q.height ≤ 6) × (q.height ≡ 6 → is_cancel q ≡ false))
scan_live-Supersedes_example = scan_live-Supersedes 0 600 1100 0 raw (post 2 8 6) listed
