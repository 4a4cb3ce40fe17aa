-- ===== src/Common/Texts.antt =====
-- Equality of texts, `===`, as lists of code units.
use Prim.Native.Nat.{ℕ}
use mathlib.Core.Path.{◌≡◌, refl}
use mathlib.Core.Bool.{Bool, true, false, ◌&&◌}
use mathlib.Core.List.{List, [], ◌∷◌}
use native.Mathlib.Omega.{arith}
use near_instant.Common.Tests.{◌==◌}

abbrev pub same_text : List ℕ → List ℕ → Bool
same_text [] [] = true
same_text [] (d ∷ ds) = false
same_text (c ∷ cs) [] = false
same_text (c ∷ cs) (d ∷ ds) = (c == d) && same_text cs ds

pub same_text-eq : (a b : List ℕ) → same_text a b ≡ true → a ≡ b
same_text-eq [] [] e = refl
same_text-eq [] (d ∷ ds) e = absurd (ground arith)
same_text-eq (c ∷ cs) [] e = absurd (ground arith)
same_text-eq (c ∷ cs) (d ∷ ds) e =
    let first : c ≡ d = ground arith in let rest : cs ≡ ds = same_text-eq cs ds (ground arith) in cc

pub same_text_refl : (t : List ℕ) → same_text t t ≡ true
same_text_refl [] = refl
same_text_refl (c ∷ cs) = ground (arith, same_text_refl cs)
