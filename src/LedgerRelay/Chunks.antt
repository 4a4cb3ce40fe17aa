-- ===== src/LedgerRelay/Chunks.antt =====
-- The rows of 32 bytes in which a message travels.
use near_instant.Common.{
  ℕ, zero, suc, ◌+◌, ◌-◌, ◌*◌, ◌≤◌, ◌<◌, ◌≡◌, refl, ap, ◌∙◌, sym, inl, inr, List, [], ◌∷◌, ◌++◌,
  some, arith, length, take, drop, get_elem?, replicate, concat, length-replicate, length-drop,
  Bool-cases, leb,
}
use mathlib.Core.List.{append_assoc, append-nil}
use near_instant.LedgerRelay.{pad, chunk_at}

unfoldable pub rows_from : List ℕ → ℕ → ℕ → List (List ℕ)
rows_from blob idx zero = []
rows_from blob idx (suc n) = chunk_at blob idx ∷ rows_from blob (idx + 1) n

length-append : (xs ys : List ℕ) → length (xs ++ ys) ≡ length xs + length ys
length-append [] ys = omega arith
length-append (x ∷ xs) ys = omega (arith, length-append xs ys)

length-take_le : (n : ℕ) (xs : List ℕ) → n ≤ length xs → length (take n xs) ≡ n
length-take_le zero xs le = refl
length-take_le (suc n) [] le = absurd (omega arith)
length-take_le (suc n) (x ∷ xs) le = omega (arith, length-take_le n xs (omega arith))

take_all : (n : ℕ) (xs : List ℕ) → length xs ≤ n → take n xs ≡ xs
take_all zero [] le = refl
take_all zero (x ∷ xs) le = absurd (omega arith)
take_all (suc n) [] le = refl
take_all (suc n) (x ∷ xs) le = ap (λ r. x ∷ r) (take_all n xs (omega arith))

append-take-drop : (n : ℕ) (xs : List ℕ) → take n xs ++ drop n xs ≡ xs
append-take-drop zero xs = refl
append-take-drop (suc n) [] = refl
append-take-drop (suc n) (x ∷ xs) = ap (λ r. x ∷ r) (append-take-drop n xs)

drop-nil : (n : ℕ) → drop {A = ℕ} n [] ≡ []
drop-nil zero = refl
drop-nil (suc n) = refl

drop-drop : (m n : ℕ) (xs : List ℕ) → drop n (drop m xs) ≡ drop (m + n) xs
drop-drop zero n xs = let e : 0 + n ≡ n = omega arith in rw e refl
drop-drop (suc m) n [] = drop-nil n ∙ sym (drop-nil (suc m + n))
drop-drop (suc m) n (x ∷ xs) =
    let e : suc m + n ≡ suc (m + n) = omega arith in rw e (drop-drop m n xs)

-- Taking the whole of the left list and `n` more.
take-append : (xs ys : List ℕ) (n : ℕ) → take (length xs + n) (xs ++ ys) ≡ xs ++ take n ys
take-append [] ys n = let e : 0 + n ≡ n = omega arith in rw e refl
take-append (x ∷ xs) ys n =
    let e : suc (length xs) + n ≡ suc (length xs + n) = omega arith in
    rw e (ap (λ r. x ∷ r) (take-append xs ys n))

length-take_short : (n : ℕ) (xs : List ℕ) → length (take n xs) ≤ n
length-take_short zero xs = omega arith
length-take_short (suc n) [] = omega arith
length-take_short (suc n) (x ∷ xs) = omega (arith, length-take_short n xs)

pub length-chunk_at : (blob : List ℕ) (idx : ℕ) → length (chunk_at blob idx) ≡ 32
length-chunk_at blob idx =
    let part = take 32 (drop (idx * 32) blob) in
    omega (
      arith,
      length-append part (replicate (32 - length part) 0),
      length-replicate {A = ℕ} (32 - length part) 0,
      length-take_short 32 (drop (idx * 32) blob),
    )

-- The last row, and any row before it.
take-pad_short : (xs ys : List ℕ) → length xs ≤ 32 → take (length xs) (pad (take 32 xs) ++ ys) ≡ xs
take-pad_short xs ys le =
    let all = take_all 32 xs le in
    let zeros : List ℕ = replicate (32 - length xs) 0 in
    let e : length xs ≡ length xs + 0 = omega arith in
    rw (all, append_assoc xs zeros ys)
      (ap (λ n. take n (xs ++ (zeros ++ ys))) e ∙ take-append xs (zeros ++ ys) 0 ∙ append-nil xs)

take-pad_long :
    (xs ys : List ℕ)
    → 32 ≤ length xs
    → take (length xs) (pad (take 32 xs) ++ ys) ≡ take 32 xs ++ take (length xs - 32) ys
take-pad_long xs ys le =
    let row = take 32 xs in
    let full = length-take_le 32 xs le in
    let zeros : replicate {A = ℕ} (32 - length row) 0 ≡ [] = rw full refl in
    let e : length xs ≡ length row + (length xs - 32) = omega arith in
    rw (zeros, append-nil row)
      (ap (λ n. take n (row ++ ys)) e ∙ take-append row ys (length xs - 32))

take-nil : (n : ℕ) → take {A = ℕ} n [] ≡ []
take-nil zero = refl
take-nil (suc n) = refl

empty : (xs : List ℕ) → length xs ≡ 0 → xs ≡ []
empty [] e = refl
empty (x ∷ xs) e = absurd (ground arith)

-- From some row on, the rows hold the rest of the blob, followed by zeros.
pub take-concat-rows_from :
    (blob : List ℕ) (n idx : ℕ)
    → length blob ≤ (idx + n) * 32
    → take (length (drop (idx * 32) blob)) (concat (rows_from blob idx n)) ≡ drop (idx * 32) blob
unfolding rows_from
take-concat-rows_from blob zero idx le =
    let e = length-drop (idx * 32) blob in
    let none_left : length (drop (idx * 32) blob) ≡ 0 = omega arith in
    take-nil _ ∙ sym (empty (drop (idx * 32) blob) none_left)
take-concat-rows_from blob (suc n) idx le =
    let left = drop (idx * 32) blob in
    let later = concat (rows_from blob (idx + 1) n) in
    let size = length-drop (idx * 32) blob in
    elim (Bool-cases (leb (length left) 32)) [
      | inl short ↦ take-pad_short left later (ground arith)
      | inr long ↦
          let e : (idx + 1) * 32 ≡ idx * 32 + 32 = omega arith in
          let rest : drop ((idx + 1) * 32) blob ≡ drop 32 left =
            rw e (sym (drop-drop (idx * 32) 32 blob)) in
          let size_rest : length left - 32 ≡ length (drop ((idx + 1) * 32) blob) =
            omega (arith, length-drop ((idx + 1) * 32) blob) in
          take-pad_long left later (ground arith)
          ∙ ap (λ k. take 32 left ++ take k later) size_rest
          ∙ ap (λ r. take 32 left ++ r)
              (take-concat-rows_from blob n (idx + 1) (omega arith) ∙ rest)
          ∙ append-take-drop 32 left
    ]

pub length-rows_from : (blob : List ℕ) (idx n : ℕ) → length (rows_from blob idx n) ≡ n
unfolding rows_from
length-rows_from blob idx zero = refl
length-rows_from blob idx (suc n) = omega (arith, length-rows_from blob (idx + 1) n)

pub get_elem?-rows_from :
    (blob : List ℕ) (idx n i : ℕ)
    → i < n
    → get_elem? (rows_from blob idx n) i ≡ some (chunk_at blob (idx + i))
unfolding rows_from
get_elem?-rows_from blob idx zero i lt = absurd (omega arith)
get_elem?-rows_from blob idx (suc n) zero lt = let e : idx + 0 ≡ idx = omega arith in rw e refl
get_elem?-rows_from blob idx (suc n) (suc i) lt =
    let e : idx + suc i ≡ idx + 1 + i = omega arith in
    rw e (get_elem?-rows_from blob (idx + 1) n i (omega arith))
