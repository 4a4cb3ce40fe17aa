-- ===== src/Book/Live.antt =====
-- What `scanLive` shows.
use near_instant.Common.{
  ℕ, ◌≤◌, ◌≡◌, refl, ◌∙◌, sym, ◌⊎◌, inl, inr, true, false, List, [], ◌∷◌, none, some, arith, ◌==◌,
  Bool-cases,
}
use near_instant.Book.{
  Offer, is_cancel, by_maker, is_live, live_of, ranks, insert, sort, or_else, scan_live,
}
use near_instant.Book.Newest.{
  kept, newest, newest-Among, is_by, Among, IsKeyed, kept-by_maker, by_maker-IsKeyed, newest-all,
}

-- The offer is the one that the map keeps for a maker.
abbrev Shown : ℕ → ℕ → List (ℕ × Offer) → Offer → Type 0
Shown ttl now entries r = (m : ℕ) × (kept m entries ≡ some r) × (is_live ttl now r ≡ true)

-- What the map keeps is kept behind an entry of another maker.
lift :
    (ttl now m : ℕ) (x r : Offer) (entries : List (ℕ × Offer))
    → kept m entries ≡ none
    → Shown ttl now entries r
    → Shown ttl now ((m, x) ∷ entries) r
lift ttl now m x r entries fresh (n, e, live) = elim (Bool-cases (m == n)) [
  | inl p ↦ let same : m ≡ n = ground arith in let gone = rw same at fresh in absurd (ground arith)
  | inr p ↦ (n, rw p e, live)
]

live_of-Shown :
    (ttl now : ℕ) (entries : List (ℕ × Offer)) (r : Offer)
    → IsKeyed entries
    → Among r (live_of ttl now entries)
    → Shown ttl now entries r
unfolding live_of
live_of-Shown ttl now [] r k a = absurd a
live_of-Shown ttl now ((m, x) ∷ entries) r k a = elim (Bool-cases (is_live ttl now x)) [
  | inl p ↦ elim (rw (live_of, p) at a) [
    | inl same ↦ (m, ground arith, rw same p)
    | inr later ↦ lift ttl now m x r entries k.0 (live_of-Shown ttl now entries r k.1 later)
  ]
  | inr p ↦
      lift ttl now m x r entries k.0 (live_of-Shown ttl now entries r k.1 (rw (live_of, p) at a))
]

Shown-live_of :
    (ttl now : ℕ) (entries : List (ℕ × Offer)) (m : ℕ) (r : Offer)
    → kept m entries ≡ some r
    → is_live ttl now r ≡ true
    → Among r (live_of ttl now entries)
unfolding live_of
Shown-live_of ttl now [] m r e live = absurd (ground arith)
Shown-live_of ttl now ((n, x) ∷ entries) m r e live = elim (Bool-cases (n == m)) [
  | inl p ↦ let same : x ≡ r = ground arith in rw (live_of, same, live) (inl refl)
  | inr p ↦
      let later = Shown-live_of ttl now entries m r (ground arith) live in
      elim (Bool-cases (is_live ttl now x)) [
        | inl q ↦ rw (live_of, q) (inr later)
        | inr q ↦ rw (live_of, q) later
      ]
]

map_right : {A B C : Type 0} → (B → C) → A ⊎ B → A ⊎ C
map_right f (inl a) = inl a
map_right f (inr b) = inr (f b)

swap_out : {A B C D : Type 0} → (A → B ⊎ C) → D ⊎ A → B ⊎ (D ⊎ C)
swap_out f (inl d) = inr (inl d)
swap_out f (inr a) = map_right inr (f a)

swap_in : {A B C D : Type 0} → (B ⊎ C → A) → B ⊎ (D ⊎ C) → D ⊎ A
swap_in f (inl b) = inr (f (inl b))
swap_in f (inr (inl d)) = inl d
swap_in f (inr (inr c)) = inr (f (inr c))

insert-Among :
    (side : ℕ) (x : Offer) (xs : List Offer) (r : Offer)
    → (Among r (insert side x xs) → (r ≡ x) ⊎ Among r xs)
      × ((r ≡ x) ⊎ Among r xs → Among r (insert side x xs))
unfolding insert
insert-Among side x [] r = ((λ a. a), λ a. a)
insert-Among side x (y ∷ ys) r =
    let (out, into) = insert-Among side x ys r in
    elim (Bool-cases (ranks side x y)) [
      | inl p ↦ rw (insert, p) ((λ a. a), λ a. a)
      | inr p ↦ rw (insert, p) (swap_out out, swap_in into)
    ]

sort-Among :
    (side : ℕ) (xs : List Offer) (r : Offer)
    → (Among r (sort side xs) → Among r xs) × (Among r xs → Among r (sort side xs))
unfolding sort
sort-Among side [] r = ((λ a. a), λ a. a)
sort-Among side (x ∷ xs) r =
    let (out, into) = sort-Among side xs r in
    let (out_1, into_1) = insert-Among side x (sort side xs) r in
    ((λ a. map_right out (out_1 a)), λ a. into_1 (map_right into a))

-- Every offer ranks at least as high as the next.
abbrev pub IsRanked : ℕ → List Offer → Type 0
IsRanked side [] = Unit
IsRanked side (x ∷ []) = Unit
IsRanked side (x ∷ y ∷ ys) = (ranks side x y ≡ true) × IsRanked side (y ∷ ys)

insert-IsRanked :
    (side : ℕ) (r : Offer) (xs : List Offer) → IsRanked side xs → IsRanked side (insert side r xs)
unfolding insert
insert-IsRanked side r [] k = tt
insert-IsRanked side r (x ∷ []) k = elim (Bool-cases (ranks side r x)) [
  | inl p ↦ rw (insert, p) (p, tt)
  | inr p ↦ rw (insert, p) (ground arith, tt)
]
insert-IsRanked side r (x ∷ y ∷ ys) k =
    let later = insert-IsRanked side r (y ∷ ys) k.1 in
    elim (Bool-cases (ranks side r x)) [
      | inl p ↦ rw (insert, p) (p, k)
      | inr p ↦ elim (Bool-cases (ranks side r y)) [
        | inl q ↦ rw (insert, p, q) (ground arith, (q, k.1))
        | inr q ↦ rw (insert, p, q) (k.0, rw (insert, q) at later)
      ]
    ]

sort-IsRanked : (side : ℕ) (xs : List Offer) → IsRanked side (sort side xs)
unfolding sort
sort-IsRanked side [] = tt
sort-IsRanked side (x ∷ xs) = insert-IsRanked side x (sort side xs) (sort-IsRanked side xs)

-- The offers are shown in the taker's order: on side 1 the highest price first, on any other side the
-- lowest.
pub scan_live-IsRanked :
    (side ttl_secs now clock : ℕ) (raw : List Offer)
    → IsRanked side (scan_live side ttl_secs now clock raw)
unfolding scan_live
scan_live-IsRanked side ttl_secs now clock raw = sort-IsRanked side _

-- An offer is shown exactly if it is the one that counts for some maker, the newest of the maker's
-- posts, and is neither a cancel nor expired nor without a time.
pub scan_live-newest :
    (side ttl_secs now clock : ℕ) (raw : List Offer) (r : Offer)
    → (Among r (scan_live side ttl_secs now clock raw)
        → (m : ℕ) × (newest m raw none ≡ some r)
          × (is_live (or_else ttl_secs 3600) (or_else now clock) r ≡ true))
      × ((m : ℕ)
          → newest m raw none ≡ some r
          → is_live (or_else ttl_secs 3600) (or_else now clock) r ≡ true
          → Among r (scan_live side ttl_secs now clock raw))
unfolding scan_live
scan_live-newest side ttl_secs now clock raw r =
    let ttl = or_else ttl_secs 3600 in
    let at_now = or_else now clock in
    let (out, into) = sort-Among side (live_of ttl at_now (by_maker raw [])) r in
    (
      (λ a.
          let (m, e, live) =
            live_of-Shown ttl at_now (by_maker raw []) r (by_maker-IsKeyed raw [] tt) (out a) in
          (m, sym (kept-by_maker m raw []) ∙ e, live)),
      λ m e live.
          into (Shown-live_of ttl at_now (by_maker raw []) m r (kept-by_maker m raw [] ∙ e) live),
    )

-- A shown offer is one of the posts, has a maker, is neither a cancel nor expired, and no post of the
-- same maker is newer: none has a greater height, and none of the same height is a cancel. So an offer
-- that its maker withdrew or replaced is not shown.
pub scan_live-Supersedes :
    (side ttl_secs now clock : ℕ) (raw : List Offer) (r : Offer)
    → Among r (scan_live side ttl_secs now clock raw)
    → (m : ℕ) × (is_by m r ≡ true)
      × Among r raw
      × (is_live (or_else ttl_secs 3600) (or_else now clock) r ≡ true)
      × ((q : Offer)
          → Among q raw
          → is_by m q ≡ true
          → (q.height ≤ r.height) × (q.height ≡ r.height → is_cancel q ≡ false))
scan_live-Supersedes side ttl_secs now clock raw r a =
    let (m, e, live) = (scan_live-newest side ttl_secs now clock raw r).0 a in
    elim (newest-Among m raw none r e) [
      | inl (member, by) ↦ (
        m,
        by,
        member,
        live,
        λ q other by_q.
            let above = newest-all m raw none r q e other by_q in
            (
              above.0,
              λ same. elim (Bool-cases (is_cancel q)) [
                | inl c ↦ let d = above.1 same c in absurd (ground arith)
                | inr c ↦ c
              ],
            ),
      )
      | inr nothing ↦ absurd (ground arith)
    ]
