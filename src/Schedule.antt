-- ===== src/Schedule.antt =====
-- buildSchedule, scheduleTotal and maxAtRisk of web/swap_machine.js. The BigInt values are natural
-- numbers here (the source states u128 semantics for them).
pub mod Bounds
use near_instant.Common.{
  ℕ, zero, suc, ◌+◌, ◌-◌, ◌/◌, max, List, [], ◌∷◌, ◌++◌, Option, none, some, Result, ok, err,
  length, ltb, leb, ◌==◌, if◌then◌else◌,
}
use mathlib.Core.Bool.{◌||◌}
use mathlib.Core.List.{foldl}

pub data ScheduleError : Type 0 where
  zero_total bad_bounds too_many_chunks : ScheduleError

-- The `while` loop, on fuel: `none` means that the fuel ran out. `chunks` is what has been pushed.
unfoldable pub build_loop : ℕ → ℕ → ℕ → ℕ → List ℕ → ℕ → Option (Result ScheduleError (List ℕ))
build_loop zero min_chunk max_chunk max_chunks chunks remaining = none
build_loop (suc fuel) min_chunk max_chunk max_chunks chunks remaining =
    let whole = build_loop fuel min_chunk max_chunk max_chunks (chunks ++ remaining ∷ []) 0 in
    let half = remaining / 2 in
    let halves =
      build_loop fuel min_chunk max_chunk max_chunks (chunks ++ half ∷ (remaining - half) ∷ []) 0 in
    let full =
      build_loop fuel min_chunk max_chunk max_chunks (chunks ++ max_chunk ∷ [])
        (remaining - max_chunk) in
    if remaining == 0
    then some (ok chunks)
    else if leb max_chunks (length chunks)
    then some (err too_many_chunks)
    else if leb remaining max_chunk
    then whole
    else if ltb (remaining - max_chunk) min_chunk
    then if ltb max_chunks (length chunks + 2) then some (err too_many_chunks) else halves
    else full

-- The loop runs at most once for each chunk that `max_chunks` allows, and once more to stop.
unfoldable pub build_schedule : ℕ → ℕ → ℕ → ℕ → Option (Result ScheduleError (List ℕ))
unfolding build_loop
build_schedule total min_chunk max_chunk max_chunks =
    if total == 0
    then some (err zero_total)
    else if max_chunk == 0 || ltb max_chunk min_chunk
    then some (err bad_bounds)
    else build_loop (suc (suc max_chunks)) min_chunk max_chunk max_chunks [] total

unfoldable pub schedule_total : List ℕ → ℕ
schedule_total chunks = foldl (λ a c. a + c) 0 chunks

unfoldable pub max_at_risk : List ℕ → ℕ
max_at_risk chunks = foldl (λ m c. if ltb m c then c else m) 0 chunks
