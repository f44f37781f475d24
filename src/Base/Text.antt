-- ===== src/Base/Text.antt =====
-- Texts: the decimal print of a number (`to_string`), the bytes of a literal, file names and UTF-8.
pub mod Decimal
use Prim.Native.Nat.{ℕ, zero, suc, ◌/◌, ◌%◌}
use Prim.Native.Char.{code}
use Prim.Native.String.{String, ◌++◌}
use mathlib.Core.Path.{◌≡◌, refl}
use mathlib.Core.Bool.{Bool, true, false, ◌&&◌}
use mathlib.Core.Option.{Option, none, some}
use mathlib.Core.List.{List, [], ◌∷◌}
use teeproxyd.Base.Tests.{ltb, leb, ◌==◌, if◌then◌else◌}

-- The code points of a text: its bytes, if it is ASCII.
abbrev pub codes : String → List ℕ
codes String.[] = []
codes (String.◌∷◌ c s) = code c ∷ codes s

infixr 65 ◌<>◌
abbrev pub ◌<>◌ : String → String → String
s <> t = s ++ t

digit : ℕ → String
digit zero = "0"
digit (suc zero) = "1"
digit (suc (suc zero)) = "2"
digit (suc (suc (suc zero))) = "3"
digit (suc (suc (suc (suc zero)))) = "4"
digit (suc (suc (suc (suc (suc zero))))) = "5"
digit (suc (suc (suc (suc (suc (suc zero)))))) = "6"
digit (suc (suc (suc (suc (suc (suc (suc zero))))))) = "7"
digit (suc (suc (suc (suc (suc (suc (suc (suc zero)))))))) = "8"
digit (suc (suc (suc (suc (suc (suc (suc (suc (suc n))))))))) = "9"

-- A number has at most as many digits as its value plus one, so the fuel of `to_string` suffices.
to_string_from : ℕ → ℕ → String → String
to_string_from zero n acc = acc
to_string_from (suc fuel) n acc =
    let rest = to_string_from fuel (n / 10) (digit (n % 10) ++ acc) in
    if ltb n 10 then digit n ++ acc else rest

unfoldable pub to_string : ℕ → String
unfolding to_string_from digit
to_string n = to_string_from (suc n) n ""

-- What stands before the last dot of a file name.
before_last_dot : String → Option String
before_last_dot String.[] = none
before_last_dot (String.◌∷◌ c s) = elim (before_last_dot s) [
  | some stem ↦ some (String.◌∷◌ c stem)
  | none ↦ if code c == b'.' then some "" else none
]

-- `Path::file_stem`: a leading dot does not count.
unfoldable pub file_stem : String → String
unfolding before_last_dot
file_stem name = elim (before_last_dot name) [
  | none ↦ name
  | some String.[] ↦ name
  | some (String.◌∷◌ c s) ↦ String.◌∷◌ c s
]

abbrev between : ℕ → ℕ → ℕ → Bool
between lo hi b = leb lo b && leb b hi

-- Between two characters, or inside one: the next byte lies in a range, and `more` follow it.
pub data Utf8 : Type 0 where
  boundary : Utf8
  inside : ℕ → ℕ → ℕ → Utf8

-- One byte, by the table of well-formed sequences; `none` is an ill-formed one.
utf8_step : Utf8 → ℕ → Option Utf8
utf8_step boundary b =
    if ltb b 0x80
    then some boundary
    else if between 0xC2 0xDF b
    then some (inside 0x80 0xBF 0)
    else if b == 0xE0
    then some (inside 0xA0 0xBF 1)
    else if b == 0xED
    then some (inside 0x80 0x9F 1)
    else if between 0xE1 0xEF b
    then some (inside 0x80 0xBF 1)
    else if b == 0xF0
    then some (inside 0x90 0xBF 2)
    else if between 0xF1 0xF3 b
    then some (inside 0x80 0xBF 2)
    else if b == 0xF4
    then some (inside 0x80 0x8F 2)
    else none
utf8_step (inside lo hi more) b = if between lo hi b then some (after more) else none
  where
    after : ℕ → Utf8
    after zero = boundary
    after (suc m) = inside 0x80 0xBF m

utf8_run : Utf8 → List ℕ → Bool
utf8_run boundary [] = true
utf8_run (inside lo hi more) [] = false
utf8_run s (b ∷ bytes) = elim (utf8_step s b) [ none ↦ false | some s' ↦ utf8_run s' bytes ]

-- `str::from_utf8(bytes).is_ok()`
unfoldable pub is_utf8 : List ℕ → Bool
unfolding utf8_run utf8_step
is_utf8 bytes = utf8_run boundary bytes

to_string_runs : ◌≡◌ {A = String} (to_string 19030) "19030"
unfolding to_string
to_string_runs = refl

file_stem_runs : ◌≡◌ {A = String} (file_stem "pvm.log") "pvm"
unfolding file_stem
file_stem_runs = refl

is_utf8_accepts : is_utf8 (0x41 ∷ 0xE2 ∷ 0x82 ∷ 0xAC ∷ []) ≡ true
unfolding is_utf8
is_utf8_accepts = refl

is_utf8_rejects : is_utf8 (0x41 ∷ 0xE2 ∷ 0x82 ∷ []) ≡ false
unfolding is_utf8
is_utf8_rejects = refl
