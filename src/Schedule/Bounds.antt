-- ===== src/Schedule/Bounds.antt =====
-- What a built schedule promises: it adds up, every chunk is bounded, it has as few chunks as the
-- bound allows, and building always ends.
use near_instant.Common.{
  ℕ, zero, suc, ◌+◌, ◌-◌, ◌*◌, ◌/◌, ◌≤◌, ◌<◌, ◌≡◌, ◌≢◌, ◌↔◌, ◌∙◌, refl, ap, List, [], ◌∷◌, ◌++◌,
  Option, none, some, Result, ok, err, arith, length, All, All-append, sum, sum-append,
  length-append,
}
use near_instant.Schedule.{ScheduleError, build_loop, build_schedule, too_many_chunks}

build_loop-ne-none :
    (fuel lo hi n : ℕ) (chunks : List ℕ) (remaining : ℕ)
    → n + 2 ≤ length chunks + fuel
    → 0 < fuel
    → (0 < remaining → 1 < fuel)
    → build_loop fuel lo hi n chunks remaining ≢ none
unfolding build_loop
build_loop-ne-none zero lo hi n chunks remaining h p q = absurd (omega arith)
build_loop-ne-none (suc fuel) lo hi n chunks remaining h p q = ground (
  arith,
  build_loop-ne-none fuel lo hi n (chunks ++ remaining ∷ []) 0,
  build_loop-ne-none fuel lo hi n (chunks ++ (remaining / 2) ∷ (remaining - remaining / 2) ∷ []) 0,
  build_loop-ne-none fuel lo hi n (chunks ++ hi ∷ []) (remaining - hi),
  length-append {0} chunks (remaining ∷ []),
  length-append {0} chunks ((remaining / 2) ∷ (remaining - remaining / 2) ∷ []),
  length-append {0} chunks (hi ∷ []),
)

build_loop-sum :
    (fuel lo hi n : ℕ) (chunks : List ℕ) (remaining : ℕ) {out : List ℕ}
    → build_loop fuel lo hi n chunks remaining ≡ some (ok out)
    → sum out ≡ sum chunks + remaining
unfolding build_loop
build_loop-sum zero lo hi n chunks remaining h = ground arith
build_loop-sum (suc fuel) lo hi n chunks remaining {out} h = ground (
  arith,
  build_loop-sum fuel lo hi n (chunks ++ remaining ∷ []) 0 {out = out},
  build_loop-sum fuel lo hi n (chunks ++ (remaining / 2) ∷ (remaining - remaining / 2) ∷ []) 0
      {out = out},
  build_loop-sum fuel lo hi n (chunks ++ hi ∷ []) (remaining - hi) {out = out},
  sum-append chunks (remaining ∷ []),
  sum-append chunks ((remaining / 2) ∷ (remaining - remaining / 2) ∷ []),
  sum-append chunks (hi ∷ []),
)

build_loop-length :
    (fuel lo hi n : ℕ) (chunks : List ℕ) (remaining : ℕ) {out : List ℕ}
    → length chunks ≤ n
    → build_loop fuel lo hi n chunks remaining ≡ some (ok out)
    → length out ≤ n
unfolding build_loop
build_loop-length zero lo hi n chunks remaining g h = ground arith
build_loop-length (suc fuel) lo hi n chunks remaining {out} g h = ground (
  arith,
  build_loop-length fuel lo hi n (chunks ++ remaining ∷ []) 0 {out = out},
  build_loop-length fuel lo hi n (chunks ++ (remaining / 2) ∷ (remaining - remaining / 2) ∷ []) 0
      {out = out},
  build_loop-length fuel lo hi n (chunks ++ hi ∷ []) (remaining - hi) {out = out},
  length-append {0} chunks (remaining ∷ []),
  length-append {0} chunks ((remaining / 2) ∷ (remaining - remaining / 2) ∷ []),
  length-append {0} chunks (hi ∷ []),
)

-- No chunk is empty or above the bound.
abbrev pub IsBounded : ℕ → ℕ → Type 0
IsBounded hi c = (0 < c) × (c ≤ hi)

build_loop-IsBounded :
    (fuel lo hi n : ℕ) (chunks : List ℕ) (remaining : ℕ) {out : List ℕ}
    → 0 < hi
    → lo ≤ hi
    → All (IsBounded hi) chunks
    → build_loop fuel lo hi n chunks remaining ≡ some (ok out)
    → All (IsBounded hi) out
unfolding build_loop
build_loop-IsBounded zero lo hi n chunks remaining p q g h = ground arith
build_loop-IsBounded (suc fuel) lo hi n chunks remaining {out} p q g h = ground (
  arith,
  build_loop-IsBounded fuel lo hi n (chunks ++ remaining ∷ []) 0 {out = out},
  build_loop-IsBounded fuel lo hi n (chunks ++ (remaining / 2) ∷ (remaining - remaining / 2) ∷ []) 0
      {out = out},
  build_loop-IsBounded fuel lo hi n (chunks ++ hi ∷ []) (remaining - hi) {out = out},
  All-append (IsBounded hi) chunks (remaining ∷ []),
  All-append (IsBounded hi) chunks ((remaining / 2) ∷ (remaining - remaining / 2) ∷ []),
  All-append (IsBounded hi) chunks (hi ∷ []),
)

-- With nothing left the loop returns what was pushed.
build_loop-zero :
    (fuel lo hi n : ℕ) (chunks : List ℕ) {out : List ℕ}
    → build_loop fuel lo hi n chunks 0 ≡ some (ok out)
    → out ≡ chunks
unfolding build_loop
build_loop-zero zero lo hi n chunks h = ground arith
build_loop-zero (suc fuel) lo hi n chunks h = ground arith

build_loop-zero_err :
    (fuel lo hi n : ℕ) (chunks : List ℕ) {e : ScheduleError}
    → build_loop fuel lo hi n chunks 0 ≢ some (err e)
unfolding build_loop
build_loop-zero_err zero lo hi n chunks h = ground arith
build_loop-zero_err (suc fuel) lo hi n chunks h = ground arith

length-push : (xs ys : List ℕ) (k : ℕ) → length (xs ++ ys) * k ≡ length xs * k + length ys * k
length-push xs ys k = rw (length-append xs ys) (omega arith)

scale_le : (a b k : ℕ) → a ≤ b → a * k ≤ b * k
scale_le a b k h = grind arith

build_loop-fewest :
    (fuel lo hi n : ℕ) (chunks : List ℕ) (remaining : ℕ) {out : List ℕ}
    → 0 < remaining
    → build_loop fuel lo hi n chunks remaining ≡ some (ok out)
    → length out * hi < length chunks * hi + remaining + hi
unfolding build_loop
build_loop-fewest zero lo hi n chunks remaining p h = ground arith
build_loop-fewest (suc fuel) lo hi n chunks remaining {out} p h = ground (
  arith,
  build_loop-zero fuel lo hi n (chunks ++ remaining ∷ []) {out = out},
  build_loop-zero fuel lo hi n (chunks ++ (remaining / 2) ∷ (remaining - remaining / 2) ∷ [])
      {out = out},
  build_loop-fewest fuel lo hi n (chunks ++ hi ∷ []) (remaining - hi) {out = out},
  length-push chunks (remaining ∷ []) hi,
  length-push chunks ((remaining / 2) ∷ (remaining - remaining / 2) ∷ []) hi,
  length-push chunks (hi ∷ []) hi,
)

build_loop-err :
    (fuel lo hi n : ℕ) (chunks : List ℕ) (remaining : ℕ) {e : ScheduleError}
    → build_loop fuel lo hi n chunks remaining ≡ some (err e)
    → (e ≡ too_many_chunks) × (n * hi < length chunks * hi + remaining)
unfolding build_loop
build_loop-err zero lo hi n chunks remaining h = ground arith
build_loop-err (suc fuel) lo hi n chunks remaining {e} h = ground (
  arith,
  build_loop-zero_err fuel lo hi n (chunks ++ remaining ∷ []) {e = e},
  build_loop-zero_err fuel lo hi n (chunks ++ (remaining / 2) ∷ (remaining - remaining / 2) ∷ [])
      {e = e},
  build_loop-err fuel lo hi n (chunks ++ hi ∷ []) (remaining - hi) {e = e},
  length-push chunks (hi ∷ []) hi,
  scale_le n (length chunks) hi,
  scale_le n (suc (length chunks)) hi,
)

-- A nonempty list of bounded chunks adds up to no more than its length allows.
sum-le-length : (hi : ℕ) (xs : List ℕ) → All (IsBounded hi) xs → sum xs ≤ length xs * hi
sum-le-length hi [] h = omega arith
sum-le-length hi (x ∷ xs) h = omega (arith, sum-le-length hi xs h.1)

-- Building a schedule always ends: the fuel suffices for every input.
pub build_schedule-ne-none : (total lo hi n : ℕ) → build_schedule total lo hi n ≢ none
unfolding build_schedule
build_schedule-ne-none total lo hi n =
    ground (arith, build_loop-ne-none (suc (suc n)) lo hi n [] total)

-- A schedule that is built adds up to the total, has at most `n` chunks, every one of them positive
-- and at most `hi`, and no list of that many chunks less one could hold the total.
pub build_schedule_lem :
    (total lo hi n : ℕ) {out : List ℕ}
    → build_schedule total lo hi n ≡ some (ok out)
    → (sum out ≡ total) × All (IsBounded hi) out × (length out ≤ n) × (length out * hi < total + hi)
unfolding build_schedule
build_schedule_lem total lo hi n {out} h = (
  ground (arith, build_loop-sum (suc (suc n)) lo hi n [] total {out = out}),
  ground (arith, build_loop-IsBounded (suc (suc n)) lo hi n [] total {out = out}),
  ground (arith, build_loop-length (suc (suc n)) lo hi n [] total {out = out}),
  ground (arith, build_loop-fewest (suc (suc n)) lo hi n [] total {out = out}),
)

build_schedule-err :
    (total lo hi n : ℕ) {e : ScheduleError}
    → 0 < total
    → 0 < hi
    → lo ≤ hi
    → build_schedule total lo hi n ≡ some (err e)
    → (e ≡ too_many_chunks) × (n * hi < total)
unfolding build_schedule
build_schedule-err total lo hi n {e} p q r h =
    ground (arith, build_loop-err (suc (suc n)) lo hi n [] total {e = e})

-- With sound bounds and a positive total, a schedule is refused exactly when `n` chunks of the
-- largest size cannot hold the total, and the error is then `too_many_chunks`.
pub build_schedule-too_many :
    (total lo hi n : ℕ)
    → 0 < total
    → 0 < hi
    → lo ≤ hi
    → (build_schedule total lo hi n ≡ some (err too_many_chunks)) ↔ (n * hi < total)
build_schedule-too_many total lo hi n p q r = (
  λ h. (build_schedule-err total lo hi n p q r h).1,
  λ h. refuse h (build_schedule total lo hi n) refl,
)
  where
    refuse :
        n * hi < total
        → (res : Option (Result ScheduleError (List ℕ))) → build_schedule total lo hi n ≡ res
        → build_schedule total lo hi n ≡ some (err too_many_chunks)
    refuse h none e = absurd (build_schedule-ne-none total lo hi n e)
    refuse h (some (ok out)) e =
        let (total_eq, bounded, few, _) = build_schedule_lem total lo hi n e in
        absurd (omega (arith, sum-le-length hi out bounded, scale_le (length out) n hi few))
    refuse h (some (err x)) e =
        e ∙ ap (λ y. some (err y)) (build_schedule-err total lo hi n p q r e).0
