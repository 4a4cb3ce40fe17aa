-- ===== src/Settlement/Scanning.antt =====
-- The scan of waitJointXmrLock by chunks of ten blocks, beside one scan of all the blocks.
use near_instant.Common.{
  Bool-cases, ltb→lt, inl, inr, ◌⊎◌, arith, ℕ, zero, suc, ◌+◌, ◌-◌, ◌≤◌, ◌<◌, ◌≡◌, refl, sym, ◌∙◌,
  ap, true, false, List, [], ◌∷◌, ◌++◌, Option, none, some, min, leb, ltb,
}
use mathlib.Core.List.{append_assoc}
use near_instant.Settlement.Types.{World, got, Hit, Run}
use near_instant.Settlement.Exec.{
  Exec, returns, continue, outcome, caught, pure, call, attempt, on_option, ◌>>=◌,
}
use near_instant.Settlement.Lock.{first_hit, scan_chunk, scan_window}

-- The outputs of `n` blocks from block `a` on.
unfoldable pub span : (ℕ → List Hit) → ℕ → ℕ → List Hit
span outs a zero = []
span outs a (suc n) = outs a ++ span outs (a + 1) n

-- The node answers every scan with the outputs of the blocks, both ends included.
pub record Scans (w : World) (outs : ℕ → List Hit) : Type 0 where
  pub at : (t from to : ℕ) → w.scan_all t from to ≡ got (span outs from (to + 1 - from))

or_else : Option Hit → Option Hit → Option Hit
or_else none o = o
or_else (some h) o = some h

first_hit_append :
    (least : ℕ) (xs ys : List Hit)
    → first_hit least (xs ++ ys) ≡ or_else (first_hit least xs) (first_hit least ys)
unfolding first_hit or_else
first_hit_append least [] ys = refl
first_hit_append least (x ∷ xs) ys = ground (arith, first_hit_append least xs ys)

span_add :
    (outs : ℕ → List Hit) (m n a : ℕ) → span outs a (m + n) ≡ span outs a m ++ span outs (a + m) n
unfolding span
span_add outs zero n a =
    ap (λ k. span outs a k) {x = 0 + n} {y = n} (omega arith)
    ∙ ap (λ b. span outs b n) {x = a} {y = a + 0} (omega arith)
span_add outs (suc m) n a =
    ap (λ k. span outs a k) {x = suc m + n} {y = suc (m + n)} (omega arith)
    ∙ ap (λ xs. outs a ++ xs)
        (span_add outs m n (a + 1)
          ∙ ap (λ b. span outs (a + 1) m ++ span outs b n) {x = a + 1 + m} {y = a + suc m}
              (omega arith))
    ∙ sym (append_assoc (outs a) _ _)

-- One chunk, when its first scan answers.
scan_chunk-got :
    (w : World) (outs : ℕ → List Hit) (from to : ℕ) (s : Run)
    → Scans w outs
    → scan_chunk 3 from to w s
      ≡ (returns (span outs from (to + 1 - from)), record s { tick = s.tick + 1 })
unfolding scan_chunk ◌>>=◌ continue attempt call outcome caught on_option pure
scan_chunk-got w outs from to s scans = rw (scans.at s.tick from to)

-- The blocks of the first chunk are those up to ten, or up to the tip.
chunk_size : (from tip : ℕ) → from < tip → min (from + 9) (tip - 1) + 1 - from ≡ min 10 (tip - from)
chunk_size from tip h = omega arith

-- The part of the blocks after a chunk; at the tip there is none.
rest_span : (outs : ℕ → List Hit) (a b n : ℕ) → (a ≡ b) ⊎ (n ≡ 0) → span outs a n ≡ span outs b n
unfolding span
rest_span outs a b n (inl e) = ap (λ k. span outs k n) e
rest_span outs a b n (inr e) = ap (λ k. span outs a k) e ∙ sym (ap (λ k. span outs b k) e)

full_or_last :
    (from tip : ℕ)
    → from < tip
    → (from + (min (from + 9) (tip - 1) + 1 - from) ≡ from + 10) ⊎ (tip - (from + 10) ≡ 0)
full_or_last from tip h = elim (Bool-cases (leb (from + 10) tip)) [
  | inl e ↦ inl (grind arith)
  | inr e ↦ inr (grind arith)
]

window_split :
    (outs : ℕ → List Hit) (least from tip : ℕ)
    → from < tip
    → first_hit least (span outs from (tip - from))
      ≡ or_else
          (first_hit least (span outs from (min (from + 9) (tip - 1) + 1 - from)))
          (first_hit least (span outs (from + 10) (tip - (from + 10))))
window_split outs least from tip h =
    let m : ℕ = min (from + 9) (tip - 1) + 1 - from in
    let n : ℕ = tip - (from + 10) in
    ap (λ k. first_hit least (span outs from k)) {x = tip - from} {y = m + n} (omega arith)
    ∙ ap (first_hit least) (span_add outs m n from)
    ∙ first_hit_append least (span outs from m) (span outs (from + m) n)
    ∙ ap (λ xs. or_else (first_hit least (span outs from m)) (first_hit least xs))
        (rest_span outs (from + m) (from + 10) n (full_or_last from tip h))

module _ (w : World) (outs : ℕ → List Hit) (scans : Scans w outs) (least tip : ℕ) where
  -- Over the tip, the scan ends.
  past_tip :
      (fuel from : ℕ) (s : Run)
      → ltb from tip ≡ false
      → scan_window (suc fuel) least from tip w s ≡ (returns none, s)
  unfolding scan_window pure
  past_tip fuel from s e = rw e

  -- One chunk, and the rest of the scan if it has no output that is large enough.
  one_chunk :
      (fuel from : ℕ) (s : Run)
      → ltb from tip ≡ true
      → scan_window (suc fuel) least from tip w s
        ≡ on_option
            (first_hit least (span outs from (min (from + 9) (tip - 1) + 1 - from)))
            (scan_window fuel least (from + 10) tip)
            (λ hit. pure (some hit))
            w
            (record s { tick = s.tick + 1 })
  unfolding scan_window ◌>>=◌ continue
  one_chunk fuel from s e = rw (e, scan_chunk-got w outs from (min (from + 9) (tip - 1)) s scans)

whichever :
    (w : World) (o : Option Hit) (rest : Exec (Option Hit)) (s : Run) (later : Option Hit)
    → (rest w s).0 ≡ returns later
    → (on_option o rest (λ hit. pure (some hit)) w s).0 ≡ returns (or_else o later)
unfolding on_option or_else pure
whichever w none rest s later h = h
whichever w (some hit) rest s later h = refl

nothing_left :
    (outs : ℕ → List Hit) (least from tip : ℕ)
    → tip ≤ from
    → returns (first_hit least (span outs from (tip - from))) ≡ returns none
unfolding span first_hit
nothing_left outs least from tip h =
    ap (λ k. returns (first_hit least (span outs from k))) {x = tip - from} {y = 0} (omega arith)

-- When the node answers its scans with what the blocks hold, the chunked scan returns the first large
-- enough output of all the blocks from the first to the tip, given fuel for a chunk in every ten blocks.
pub scan_window_lem :
    (fuel least from tip : ℕ) (w : World) (outs : ℕ → List Hit) (s : Run)
    → tip < from + fuel
    → Scans w outs
    → (scan_window fuel least from tip w s).0
      ≡ returns (first_hit least (span outs from (tip - from)))
unfolding scan_window pure
scan_window_lem zero least from tip w outs s enough scans =
    sym (nothing_left outs least from tip (omega arith))
scan_window_lem (suc fuel) least from tip w outs s enough scans = elim (Bool-cases (ltb from tip)) [
  | inl before ↦
      ap (λ r. r.0) (one_chunk w outs scans least tip fuel from s before)
      ∙ whichever w (first_hit least (span outs from (min (from + 9) (tip - 1) + 1 - from)))
          (scan_window fuel least (from + 10) tip) (record s { tick = s.tick + 1 }) _
          (scan_window_lem fuel least (from + 10) tip w outs (record s { tick = s.tick + 1 })
            (omega arith) scans)
      ∙ sym (ap returns (window_split outs least from tip (ltb→lt from tip before)))
  | inr over ↦
      ap (λ r. r.0) (past_tip w outs scans least tip fuel from s over)
      ∙ sym (nothing_left outs least from tip (grind arith))
]
