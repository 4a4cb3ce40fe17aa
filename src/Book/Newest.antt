-- ===== src/Book/Newest.antt =====
-- The map by maker keeps the newest post of each.
use near_instant.Common.{
  ℕ, ◌≤◌, ◌≡◌, ◌≢◌, refl, ap, ◌∙◌, sym, ◌⊎◌, inl, inr, Bool, true, false, List, [], ◌∷◌, Option,
  none, some, arith, ◌==◌, if◌then◌else◌, Bool-cases, Option-cases,
}
use near_instant.Book.{Offer, is_cancel, newer, put, by_maker}

-- What the map has for a maker.
abbrev pub kept : ℕ → List (ℕ × Offer) → Option Offer
kept maker [] = none
kept maker ((m, r) ∷ entries) =
    let later = kept maker entries in if m == maker then some r else later

-- The post is by this maker.
abbrev pub is_by : ℕ → Offer → Bool
is_by maker r = elim r.maker [ none ↦ false | some m ↦ m == maker ]

abbrev pub newer_of : Offer → Option Offer → Offer
newer_of r none = r
newer_of r (some cur) = if newer r cur then r else cur

-- The newest of the posts of a maker, from the one that is kept so far.
abbrev pub newest : ℕ → List Offer → Option Offer → Option Offer
newest maker [] cur = cur
newest maker (r ∷ raw) cur =
    if is_by maker r then newest maker raw (some (newer_of r cur)) else newest maker raw cur

kept-put_self :
    (maker : ℕ) (r : Offer) (entries : List (ℕ × Offer))
    → kept maker (put maker r entries) ≡ some (newer_of r (kept maker entries))
unfolding put
kept-put_self maker r [] = ground arith
kept-put_self maker r ((m, cur) ∷ entries) =
    let later = kept-put_self maker r entries in
    elim (Bool-cases (m == maker)) [
      | inl p ↦ elim (Bool-cases (newer r cur)) [
        | inl q ↦ rw (put, p, q) (ground arith)
        | inr q ↦ rw (put, p, q) (ground arith)
      ]
      | inr p ↦ rw (put, p) (ground arith)
    ]

kept-put_ne :
    (maker other : ℕ) (r : Offer) (entries : List (ℕ × Offer))
    → other ≢ maker
    → kept maker (put other r entries) ≡ kept maker entries
unfolding put
kept-put_ne maker other r [] ne = ground arith
kept-put_ne maker other r ((m, cur) ∷ entries) ne =
    let later = kept-put_ne maker other r entries ne in
    elim (Bool-cases (m == other)) [
      | inl p ↦ elim (Bool-cases (newer r cur)) [
        | inl q ↦ rw (put, p, q) (ground arith)
        | inr q ↦ rw (put, p, q) refl
      ]
      | inr p ↦ rw (put, p) (ground arith)
    ]

-- One round of the loop over the posts, by the maker of the post.
round : Offer → List Offer → List (ℕ × Offer) → Option ℕ → List (ℕ × Offer)
round r raw entries none = by_maker raw entries
round r raw entries (some m) = by_maker raw (put m r entries)

by_maker-none :
    (r : Offer) (raw : List Offer) (entries : List (ℕ × Offer))
    → r.maker ≡ none
    → by_maker (r ∷ raw) entries ≡ by_maker raw entries
unfolding by_maker round
by_maker-none r raw entries p = ap (round r raw entries) p

by_maker-some :
    (r : Offer) (raw : List Offer) (entries : List (ℕ × Offer)) (m : ℕ)
    → r.maker ≡ some m
    → by_maker (r ∷ raw) entries ≡ by_maker raw (put m r entries)
unfolding by_maker round
by_maker-some r raw entries m p = ap (round r raw entries) p

is_by-some : (maker : ℕ) (r : Offer) (m : ℕ) → r.maker ≡ some m → is_by maker r ≡ (m == maker)
is_by-some maker r m p = rw (is_by, p) refl

pub kept-by_maker :
    (maker : ℕ) (raw : List Offer) (entries : List (ℕ × Offer))
    → kept maker (by_maker raw entries) ≡ newest maker raw (kept maker entries)
unfolding by_maker
kept-by_maker maker [] entries = refl
kept-by_maker maker (r ∷ raw) entries = elim (Option-cases r.maker) [
  | inl p ↦
      let by : is_by maker r ≡ false = rw (is_by, p) refl in
      ap (kept maker) (by_maker-none r raw entries p)
      ∙ rw (newest, by) (kept-by_maker maker raw entries)
  | inr (m, p) ↦
      ap (kept maker) (by_maker-some r raw entries m p)
      ∙ kept-by_maker maker raw (put m r entries)
      ∙ elim (Bool-cases (m == maker)) [
        | inl q ↦
            let by : is_by maker r ≡ true = is_by-some maker r m p ∙ q in
            let same : m ≡ maker = ground arith in
            rw (newest, by, same) (ap (newest maker raw) (kept-put_self maker r entries))
        | inr q ↦
            let by : is_by maker r ≡ false = is_by-some maker r m p ∙ q in
            rw (newest, by)
              (ap (newest maker raw) (kept-put_ne maker m r entries (λ e. ground arith)))
      ]
]

-- Every maker stands in the map once.
abbrev pub IsKeyed : List (ℕ × Offer) → Type 0
IsKeyed [] = Unit
IsKeyed ((m, r) ∷ entries) = (kept m entries ≡ none) × IsKeyed entries

put-IsKeyed :
    (maker : ℕ) (r : Offer) (entries : List (ℕ × Offer))
    → IsKeyed entries
    → IsKeyed (put maker r entries)
unfolding put
put-IsKeyed maker r [] k = (refl, tt)
put-IsKeyed maker r ((m, cur) ∷ entries) k = elim (Bool-cases (m == maker)) [
  | inl p ↦ elim (Bool-cases (newer r cur)) [ inl q ↦ rw (put, p, q) k | inr q ↦ rw (put, p, q) k ]
  | inr p ↦
      rw (put, p)
        (kept-put_ne m maker r entries (λ e. ground arith) ∙ k.0, put-IsKeyed maker r entries k.1)
]

pub by_maker-IsKeyed :
    (raw : List Offer) (entries : List (ℕ × Offer))
    → IsKeyed entries
    → IsKeyed (by_maker raw entries)
unfolding by_maker
by_maker-IsKeyed [] entries k = k
by_maker-IsKeyed (r ∷ raw) entries k = elim (Option-cases r.maker) [
  | inl p ↦ rw (by_maker, p) (by_maker-IsKeyed raw entries k)
  | inr (m, p) ↦
      rw (by_maker, p) (by_maker-IsKeyed raw (put m r entries) (put-IsKeyed m r entries k))
]

-- At least as new: higher, or as high and a cancel if the other is.
abbrev pub Supersedes : Offer → Offer → Type 0
Supersedes r q =
    (q.height ≤ r.height) × (q.height ≡ r.height → is_cancel q ≡ true → is_cancel r ≡ true)

-- The post is one of these.
abbrev pub Among : Offer → List Offer → Type 0
Among r [] = ⊥
Among r (x ∷ xs) = (r ≡ x) ⊎ Among r xs

newer_of-Supersedes :
    (r cur : Offer) → Supersedes (newer_of r (some cur)) r × Supersedes (newer_of r (some cur)) cur
unfolding newer
newer_of-Supersedes r cur = elim (Bool-cases (newer r cur)) [
  | inl q ↦ rw q ((omega arith, λ e k. k), (ground arith, λ e k. ground arith))
  | inr q ↦ rw q ((ground arith, λ e k. ground arith), (omega arith, λ e k. k))
]

Supersedes-trans : (a b c : Offer) → Supersedes a b → Supersedes b c → Supersedes a c
Supersedes-trans a b c p q = (omega arith, λ e k. p.1 (omega arith) (q.1 (omega arith) k))

newest-Supersedes :
    (maker : ℕ) (raw : List Offer) (cur r : Offer)
    → newest maker raw (some cur) ≡ some r
    → Supersedes r cur
newest-Supersedes maker [] cur r e =
    let same : cur ≡ r = ground arith in rw same (omega arith, λ p k. k)
newest-Supersedes maker (x ∷ raw) cur r e = elim (Bool-cases (is_by maker x)) [
  | inl p ↦
      Supersedes-trans r (newer_of x (some cur)) cur
        (newest-Supersedes maker raw (newer_of x (some cur)) r (rw (newest, p) at e))
        (newer_of-Supersedes x cur).1
  | inr p ↦ newest-Supersedes maker raw cur r (rw (newest, p) at e)
]

newer_of_self : (r : Offer) (cur : Option Offer) → Supersedes (newer_of r cur) r
newer_of_self r none = (omega arith, λ p k. k)
newer_of_self r (some cur) = (newer_of-Supersedes r cur).0

-- The newest post of a maker is at least as new as every post of that maker.
pub newest-all :
    (maker : ℕ) (raw : List Offer) (cur : Option Offer) (r q : Offer)
    → newest maker raw cur ≡ some r
    → Among q raw
    → is_by maker q ≡ true
    → Supersedes r q
newest-all maker [] cur r q e member by = absurd member
newest-all maker (x ∷ raw) cur r q e (inl same) by =
    let p : is_by maker x ≡ true = rw same at by in
    rw same (
      Supersedes-trans r (newer_of x cur) x
        (newest-Supersedes maker raw (newer_of x cur) r (rw (newest, p) at e))
        (newer_of_self x cur))
newest-all maker (x ∷ raw) cur r q e (inr later) by = elim (Bool-cases (is_by maker x)) [
  | inl p ↦ newest-all maker raw (some (newer_of x cur)) r q (rw (newest, p) at e) later by
  | inr p ↦ newest-all maker raw cur r q (rw (newest, p) at e) later by
]

newer_of-cases :
    (maker : ℕ) (x : Offer) (raw : List Offer) (cur : Option Offer) (r : Offer)
    → is_by maker x ≡ true
    → newer_of x cur ≡ r
    → (Among r (x ∷ raw) × (is_by maker r ≡ true)) ⊎ (cur ≡ some r)
newer_of-cases maker x raw none r by e = inl (inl (sym e), rw e at by)
newer_of-cases maker x raw (some cur) r by e = elim (Bool-cases (newer x cur)) [
  | inl p ↦ let same : x ≡ r = rw p at e in inl (inl (sym same), rw same at by)
  | inr p ↦ let same : cur ≡ r = rw p at e in inr (ap some same)
]

pub newest-Among :
    (maker : ℕ) (raw : List Offer) (cur : Option Offer) (r : Offer)
    → newest maker raw cur ≡ some r
    → (Among r raw × (is_by maker r ≡ true)) ⊎ (cur ≡ some r)
newest-Among maker [] cur r e = inr e
newest-Among maker (x ∷ raw) cur r e = elim (Bool-cases (is_by maker x)) [
  | inl p ↦ elim (newest-Among maker raw (some (newer_of x cur)) r (rw (newest, p) at e)) [
    | inl (later, by) ↦ inl (inr later, by)
    | inr now ↦ newer_of-cases maker x raw cur r p (ground arith)
  ]
  | inr p ↦ elim (newest-Among maker raw cur r (rw (newest, p) at e)) [
    | inl (later, by) ↦ inl (inr later, by)
    | inr before ↦ inr before
  ]
]
