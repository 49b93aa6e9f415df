-- ===== src/Base/Decimal.antt =====
-- Decimal text: `int(s)` on a run of digits, `str(n)`, and the format `f"{n:0{w}d}"`.
use self_healing_kafka_syste.Base.Lists.{length, length-append, all}
use self_healing_kafka_syste.Base.Tests.{ltb, leb, if◌then◌else◌}
use self_healing_kafka_syste.Base.Text.{Text}
use Prim.Native.Nat.{ℕ, zero, suc, ◌+◌, ◌-◌, ◌*◌, ◌/◌, ◌%◌, ◌≤◌, ◌<◌}
use mathlib.Core.Path.{◌≡◌, refl, ◌∙◌}
use mathlib.Core.Bool.{Bool, true, ◌&&◌}
use mathlib.Core.List.{[], ◌∷◌, ◌++◌}
use native.Mathlib.Omega.{arith}

-- `\d`, for the ASCII digits.
unfoldable pub is_digit : ℕ → Bool
is_digit c = leb 48 c && leb c 57

-- The number that the digits continue.
unfoldable pub read_from : ℕ → Text → ℕ
read_from n [] = n
read_from n (c ∷ s) = read_from (n * 10 + (c - 48)) s

-- `int(s)`.
abbrev pub read_decimal : Text → ℕ
read_decimal s = read_from 0 s

print_onto : ℕ → ℕ → Text → Text
print_onto zero n acc = acc
print_onto (suc f) n acc =
    let rest = print_onto f (n / 10) ((48 + n % 10) ∷ acc) in
    if ltb n 10 then (48 + n) ∷ acc else rest

-- `str(n)`: one round for each digit, so `n + 1` rounds are enough.
unfoldable pub print_decimal : ℕ → Text
unfolding print_onto
print_decimal n = print_onto (suc n) n []

unfoldable pub zeros : ℕ → Text
zeros zero = []
zeros (suc n) = 48 ∷ zeros n

-- `f"{n:0{w}d}"`.
unfoldable pub print_padded : ℕ → ℕ → Text
unfolding zeros
print_padded w n = let s = print_decimal n in zeros (w - length s) ++ s

read_from-print_onto :
    (f n : ℕ) (acc : Text) → n < f → read_from 0 (print_onto f n acc) ≡ read_from n acc
unfolding print_onto read_from
read_from-print_onto zero n acc h = elim h [ ]
read_from-print_onto (suc f) n acc h =
    ground (arith, read_from-print_onto f (n / 10) ((48 + n % 10) ∷ acc))

-- `int(str(n)) == n`.
pub read_decimal-print_decimal : (n : ℕ) → read_decimal (print_decimal n) ≡ n
unfolding print_decimal read_from
read_decimal-print_decimal n = read_from-print_onto (suc n) n [] (omega arith)

read_from-zeros : (k : ℕ) (s : Text) → read_from 0 (zeros k ++ s) ≡ read_from 0 s
unfolding zeros read_from
read_from-zeros zero s = refl
read_from-zeros (suc k) s = read_from-zeros k s

pub read_decimal-print_padded : (w n : ℕ) → read_decimal (print_padded w n) ≡ n
unfolding print_padded
read_decimal-print_padded w n =
    read_from-zeros (w - length (print_decimal n)) (print_decimal n) ∙ read_decimal-print_decimal n

length-zeros : (k : ℕ) → length (zeros k) ≡ k
unfolding zeros
length-zeros zero = refl
length-zeros (suc k) = omega (arith, length-zeros k)

-- The padded text has at least the width.
pub le-length-print_padded : (w n : ℕ) → w ≤ length (print_padded w n)
unfolding print_padded
le-length-print_padded w n = omega (
  arith,
  length-append (zeros (w - length (print_decimal n))) (print_decimal n),
  length-zeros (w - length (print_decimal n)),
)

print_onto-digits :
    (f n : ℕ) (acc : Text)
    → n < f
    → all is_digit acc ≡ true
    → all is_digit (print_onto f n acc) ≡ true
unfolding print_onto is_digit
print_onto-digits zero n acc h d = elim h [ ]
print_onto-digits (suc f) n acc h d =
    ground (arith, print_onto-digits f (n / 10) ((48 + n % 10) ∷ acc))

pub print_decimal-digits : (n : ℕ) → all is_digit (print_decimal n) ≡ true
unfolding print_decimal
print_decimal-digits n = print_onto-digits (suc n) n [] (omega arith) refl

zeros-digits : (k : ℕ) (s : Text) → all is_digit s ≡ true → all is_digit (zeros k ++ s) ≡ true
unfolding zeros is_digit
zeros-digits zero s h = h
zeros-digits (suc k) s h = zeros-digits k s h

pub print_padded-digits : (w n : ℕ) → all is_digit (print_padded w n) ≡ true
unfolding print_padded
print_padded-digits w n = zeros-digits _ _ (print_decimal-digits n)
