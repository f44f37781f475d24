-- ===== src/Base/Text/Decimal.antt =====
-- Decimal texts: `str::parse::<i32>()`, and that it reads what `to_string` prints.
use Prim.Native.Nat.{ℕ, zero, suc, ◌+◌, ◌-◌, ◌*◌, ◌/◌, ◌%◌, ◌^◌, ◌<◌, ◌≤◌}
use Prim.Native.String.{String, ◌++◌}
use mathlib.Core.Path.{◌≡◌, refl, ap, ◌∙◌}
use mathlib.Core.Bool.{false, ◌&&◌}
use mathlib.Core.Logic.{inl, inr}
use mathlib.Core.Option.{Option, none, some}
use mathlib.Core.List.{List, [], ◌∷◌, ◌++◌ as ◌++ₗ◌}
use native.Mathlib.Omega.{arith}
use text.Mathlib.TextLemmas.{nil-append, cons-append}
use Prim.Native.Char.{code}
use teeproxyd.Base.Tests.{ltb, leb, ◌==◌, if◌then◌else◌, Bool-cases, ltb→lt}
use teeproxyd.Base.Text.{codes, digit, to_string_from, to_string}

-- Integers, with the constructors of the library's.
pub data ℤ : Type 0 where
  pos : ℕ → ℤ
  negsuc : ℕ → ℤ  -- −1 − n

-- The value of some digits, behind those whose value is `n`.
unfoldable pub parse_digits : ℕ → List ℕ → Option ℕ
parse_digits n [] = some n
parse_digits n (c ∷ s) =
    let rest = parse_digits (n * 10 + (c - 48)) s in if leb 48 c && leb c 57 then rest else none

-- One digit at least.
unfoldable pub parse_magnitude : List ℕ → Option ℕ
parse_magnitude [] = none
parse_magnitude (c ∷ s) = parse_digits 0 (c ∷ s)

abbrev to_negative : ℕ → ℤ
to_negative zero = pos 0
to_negative (suc n) = negsuc n

abbrev positive : Option ℕ → Option ℤ
positive none = none
positive (some n) = if ltb n (2 ^ 31) then some (pos n) else none

abbrev negative : Option ℕ → Option ℤ
negative none = none
negative (some n) = if leb n (2 ^ 31) then some (to_negative n) else none

-- A sign may stand before the digits; what does not fit an i32 is an error.
unfoldable pub parse_i32 : List ℕ → Option ℤ
unfolding parse_magnitude
parse_i32 [] = none
parse_i32 (c ∷ s) =
    if c == 43
    then positive (parse_magnitude s)
    else if c == 45
    then negative (parse_magnitude s)
    else positive (parse_magnitude (c ∷ s))

ltb_false→le : (a b : ℕ) → ltb a b ≡ false → b ≤ a
ltb_false→le a b h = ground arith

codes-append : (s t : String) → codes (s ++ t) ≡ codes s ++ₗ codes t
codes-append String.[] t = rw (nil-append t) refl
codes-append (String.◌∷◌ c s) t = rw (cons-append c s t) (ap (◌∷◌ (code c)) (codes-append s t))

codes-digit : (d : ℕ) (acc : String) → d < 10 → codes (digit d ++ acc) ≡ (48 + d) ∷ codes acc
unfolding digit
codes-digit zero acc h = codes-append "0" acc
codes-digit (suc zero) acc h = codes-append "1" acc
codes-digit (suc (suc zero)) acc h = codes-append "2" acc
codes-digit (suc (suc (suc zero))) acc h = codes-append "3" acc
codes-digit (suc (suc (suc (suc zero)))) acc h = codes-append "4" acc
codes-digit (suc (suc (suc (suc (suc zero))))) acc h = codes-append "5" acc
codes-digit (suc (suc (suc (suc (suc (suc zero)))))) acc h = codes-append "6" acc
codes-digit (suc (suc (suc (suc (suc (suc (suc zero))))))) acc h = codes-append "7" acc
codes-digit (suc (suc (suc (suc (suc (suc (suc (suc zero)))))))) acc h = codes-append "8" acc
codes-digit (suc (suc (suc (suc (suc (suc (suc (suc (suc zero))))))))) acc h = codes-append "9" acc
codes-digit (suc (suc (suc (suc (suc (suc (suc (suc (suc (suc n)))))))))) acc h =
    absurd (omega arith)

parse_digits-digit :
    (a d value : ℕ) (s : List ℕ)
    → d < 10
    → value ≡ a * 10 + d
    → parse_digits a ((48 + d) ∷ s) ≡ parse_digits value s
unfolding parse_digits
parse_digits-digit a d value s h e = ground (arith, ap (λ v. parse_digits v s) e)

-- The text begins with a digit.
abbrev HasDigit : List ℕ → Type 0
HasDigit [] = ⊥
HasDigit (c ∷ s) = (48 ≤ c) × (c ≤ 57)

to_string_from-HasDigit :
    (fuel n : ℕ) (acc : String) → n < fuel → HasDigit (codes (to_string_from fuel n acc))
unfolding to_string_from
to_string_from-HasDigit zero n acc h = absurd (omega arith)
to_string_from-HasDigit (suc fuel) n acc h = elim (Bool-cases (ltb n 10)) [
  | inl one ↦
      rw (one, codes-digit n acc (ltb→lt n 10 one)) (omega arith, omega (arith, ltb→lt n 10 one))
  | inr more ↦ rw more (
      to_string_from-HasDigit fuel (n / 10) (digit (n % 10) ++ acc)
        (omega (arith, ltb_false→le n 10 more)))
]

parse_digits-to_string_from :
    (fuel n : ℕ) (acc : String)
    → n < fuel
    → parse_digits 0 (codes (to_string_from fuel n acc)) ≡ parse_digits n (codes acc)
unfolding to_string_from
parse_digits-to_string_from zero n acc h = absurd (omega arith)
parse_digits-to_string_from (suc fuel) n acc h = elim (Bool-cases (ltb n 10)) [
  | inl one ↦
      rw (one, codes-digit n acc (ltb→lt n 10 one))
        (parse_digits-digit 0 n n (codes acc) (ltb→lt n 10 one) (omega arith))
  | inr more ↦
      let small : n % 10 < 10 = omega arith in
      rw more (
        parse_digits-to_string_from fuel (n / 10) (digit (n % 10) ++ acc)
          (omega (arith, ltb_false→le n 10 more))
        ∙ ap (parse_digits (n / 10)) (codes-digit (n % 10) acc small)
        ∙ parse_digits-digit (n / 10) (n % 10) n (codes acc) small (omega arith))
]

-- A text that begins with a digit has no sign.
parse_i32-eq :
    (s : List ℕ) (n : ℕ)
    → HasDigit s
    → parse_digits 0 s ≡ some n
    → n < 2 ^ 31
    → parse_i32 s ≡ some (pos n)
unfolding parse_i32
parse_i32-eq [] n d h small = absurd d
parse_i32-eq (c ∷ s) n d h small = ground arith

-- What `to_string` prints is read back, if it fits.
pub parse_i32-to_string : (n : ℕ) → n < 2 ^ 31 → parse_i32 (codes (to_string n)) ≡ some (pos n)
unfolding to_string parse_digits
parse_i32-to_string n small =
    parse_i32-eq (codes (to_string n)) n (to_string_from-HasDigit (suc n) n "" (omega arith))
      (parse_digits-to_string_from (suc n) n "" (omega arith)) small

parse_i32_runs : parse_i32 (codes "-12") ≡ some (negsuc 11)
unfolding parse_i32 parse_digits
parse_i32_runs = refl

parse_i32_too_large : parse_i32 (codes "2147483648") ≡ none
unfolding parse_i32 parse_digits
parse_i32_too_large = refl
