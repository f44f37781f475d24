-- ===== src/Base/Compare.antt =====
-- `==` on bytes, and `str::contains`.
use Prim.Native.Nat.{ℕ}
use Prim.Native.String.{String}
use mathlib.Core.Bool.{Bool, true, false, ◌&&◌, ◌||◌}
use mathlib.Core.List.{List, [], ◌∷◌}
use teeproxyd.Base.Tests.{◌==◌}
use teeproxyd.Base.Text.{codes}

abbrev pub bytes_eq : List ℕ → List ℕ → Bool
bytes_eq [] [] = true
bytes_eq [] (c ∷ s) = false
bytes_eq (b ∷ r) [] = false
bytes_eq (b ∷ r) (c ∷ s) = b == c && bytes_eq r s

abbrev starts_with : List ℕ → List ℕ → Bool
starts_with s [] = true
starts_with [] (b ∷ part) = false
starts_with (c ∷ s) (b ∷ part) = c == b && starts_with s part

abbrev occurs_in : List ℕ → List ℕ → Bool
occurs_in part [] = starts_with [] part
occurs_in part (c ∷ s) = starts_with (c ∷ s) part || occurs_in part s

abbrev pub text_contains : String → String → Bool
text_contains s part = occurs_in (codes part) (codes s)
