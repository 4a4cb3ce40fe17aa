-- ===== src/Beacon/Votes.antt =====
-- What `twoAgree` finds among votes.
use near_instant.Common.{
  ℕ, zero, suc, ◌+◌, ◌≤◌, ◌<◌, ◌≡◌, refl, ap, ◌∙◌, sym, inl, inr, true, false, List, [], ◌∷◌, ◌++◌,
  none, some, arith, length, get_elem?, ◌==◌, Bool-cases, Option-cases,
}
use mathlib.Core.List.{append_assoc, append-nil}
use near_instant.Beacon.{Vote, same_key, find_key, agree_from}

-- The vote is among these, and a later one has its key.
abbrev pub Agreed : Vote → List Vote → Type 0
Agreed v votes =
    (i j : ℕ) × (w : Vote) × (i < j)
    × (get_elem? votes i ≡ some v)
    × (get_elem? votes j ≡ some w)
    × (same_key v w ≡ true)

pub get_elem?-append :
    (xs ys : List Vote) (i : ℕ) {v : Vote}
    → get_elem? xs i ≡ some v
    → get_elem? (xs ++ ys) i ≡ some v
get_elem?-append [] ys i e = absurd (ground arith)
get_elem?-append (x ∷ xs) ys zero e = e
get_elem?-append (x ∷ xs) ys (suc i) e = get_elem?-append xs ys i e

get_elem?-append_low :
    (xs ys : List Vote) (i : ℕ) → i < length xs → get_elem? (xs ++ ys) i ≡ get_elem? xs i
get_elem?-append_low [] ys i lt = absurd (omega arith)
get_elem?-append_low (x ∷ xs) ys zero lt = refl
get_elem?-append_low (x ∷ xs) ys (suc i) lt = get_elem?-append_low xs ys i (omega arith)

length-snoc : (xs : List Vote) (v : Vote) → length (xs ++ v ∷ []) ≡ length xs + 1
length-snoc [] v = omega arith
length-snoc (x ∷ xs) v = omega (arith, length-snoc xs v)

pub get_elem?-lt : (xs : List Vote) (i : ℕ) {v : Vote} → get_elem? xs i ≡ some v → i < length xs
get_elem?-lt [] i e = absurd (ground arith)
get_elem?-lt (x ∷ xs) zero e = omega arith
get_elem?-lt (x ∷ xs) (suc i) e = omega (arith, get_elem?-lt xs i e)

get_elem?-length : (xs ys : List Vote) (v : Vote) → get_elem? (xs ++ v ∷ ys) (length xs) ≡ some v
get_elem?-length [] ys v = refl
get_elem?-length (x ∷ xs) ys v = get_elem?-length xs ys v

find_key-some :
    (v u : Vote) (us : List Vote)
    → find_key v us ≡ some u
    → (i : ℕ) × (get_elem? us i ≡ some u) × (same_key u v ≡ true)
unfolding find_key
find_key-some v u [] e = absurd (ground arith)
find_key-some v u (x ∷ us) e = elim (Bool-cases (same_key x v)) [
  | inl p ↦ let same : x ≡ u = ground arith in (0, ap some same, rw same at p)
  | inr p ↦ let (i, at_i, key) = find_key-some v u us (ground arith) in (suc i, at_i, key)
]

find_key-none :
    (v : Vote) (us : List Vote) (i : ℕ) (u : Vote)
    → find_key v us ≡ none
    → get_elem? us i ≡ some u
    → same_key u v ≡ false
unfolding find_key
find_key-none v [] i u e g = absurd (ground arith)
find_key-none v (x ∷ us) zero u e g = let same : x ≡ u = ground arith in rw (← same) (ground arith)
find_key-none v (x ∷ us) (suc i) u e g = find_key-none v us i u (ground arith) g

pub agree_from-Agreed :
    (seen vs : List Vote) (v : Vote) → agree_from seen vs ≡ some v → Agreed v (seen ++ vs)
unfolding agree_from
agree_from-Agreed seen [] v e = absurd (ground arith)
agree_from-Agreed seen (x ∷ vs) v e = elim (Option-cases (find_key x seen)) [
  | inl p ↦
      rw (append_assoc seen (x ∷ []) vs) at
        (agree_from-Agreed (seen ++ x ∷ []) vs v (rw (agree_from, p) at e))
  | inr (u, p) ↦
      let (i, at_i, key) = find_key-some x u seen p in
      let same : u ≡ v = ground arith in
      (
        i,
        length seen,
        x,
        get_elem?-lt seen i at_i,
        get_elem?-append seen (x ∷ vs) i at_i ∙ ap some same,
        get_elem?-length seen vs x,
        rw same at key,
      )
]

pub agree_from-none :
    (seen vs : List Vote) (i j : ℕ) (v w : Vote)
    → agree_from seen vs ≡ none
    → i < j
    → length seen ≤ j
    → get_elem? (seen ++ vs) i ≡ some v
    → get_elem? (seen ++ vs) j ≡ some w
    → same_key v w ≡ false
unfolding agree_from
agree_from-none seen [] i j v w e lt le gv gw =
    absurd (let below = get_elem?-lt seen j (rw (append-nil seen) at gw) in omega arith)
agree_from-none seen (x ∷ vs) i j v w e lt le gv gw = elim (Option-cases (find_key x seen)) [
  | inr (u, p) ↦ absurd (ground arith)
  | inl p ↦
      let longer : length (seen ++ x ∷ []) ≡ length seen + 1 = length-snoc seen x in
      let parts = sym (append_assoc seen (x ∷ []) vs) in
      elim (Bool-cases (length seen == j)) [
        | inl q ↦
            let here : length seen ≡ j = ground arith in
            let w_x : some x ≡ some w =
              sym (get_elem?-length seen vs x) ∙ ap (get_elem? (seen ++ x ∷ vs)) here ∙ gw in
            let low = sym (get_elem?-append_low seen (x ∷ vs) i (omega arith)) ∙ gv in
            let x_w : x ≡ w = ground arith in rw (← x_w) (find_key-none x seen i v p low)
        | inr q ↦
            agree_from-none (seen ++ x ∷ []) vs i j v w (rw (agree_from, p) at e) lt (ground arith)
              (rw parts at gv) (rw parts at gw)
      ]
]
