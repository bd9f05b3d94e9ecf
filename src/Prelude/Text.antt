-- ===== src/Prelude/Text.antt =====
-- Text as the list of its bytes, and what the program uses of the C library's formatting: `%d` and `%u`
-- of a number that is not negative, `%02d`, and the truncation of `snprintf`.
use Prim.Native.Char.{code}
use Prim.Native.String.{String}
use Prim.Native.Nat.{ℕ, zero, suc, ◌+◌, ◌-◌, ◌*◌, ◌/◌, ◌%◌, ◌≤◌, ◌<◌}
use mathlib.Core.Path.{◌≡◌, refl, sym, ap, ◌∙◌}
use mathlib.Core.Logic.{◌↔◌}
use mathlib.Core.Bool.{Bool, true, false, ◌&&◌}
use mathlib.Core.List.{List, [], ◌∷◌, ◌++◌}
use native.Mathlib.Omega.{arith}
use moony.Prelude.Tests.{ltb, ◌==◌, if◌then◌else◌}
use moony.Prelude.Lists.{length, take, length-append, length-take, take_of_length-le}
use moony.Prelude.Maps.{Eq}

abbrev pub Text : Type 0
Text = List ℕ

-- The bytes of an ASCII literal.
abbrev pub codes : String → Text
codes String.[] = []
codes (String.◌∷◌ c s) = code c ∷ codes s

unfoldable pub text_beq : Text → Text → Bool
text_beq [] [] = true
text_beq [] (y ∷ ys) = false
text_beq (x ∷ xs) [] = false
text_beq (x ∷ xs) (y ∷ ys) = x == y && text_beq xs ys

pub text_beq_iff : (s t : Text) → (text_beq s t ≡ true) ↔ (s ≡ t)
unfolding text_beq
text_beq_iff [] [] = ((λ h. refl), (λ h. refl))
text_beq_iff [] (y ∷ ys) = ((λ h. cc), (λ h. cc))
text_beq_iff (x ∷ xs) [] = ((λ h. cc), (λ h. cc))
text_beq_iff (x ∷ xs) (y ∷ ys) = ground (arith, text_beq_iff xs ys)

instance abbrev pub text_eq : Eq Text
text_eq = record { beq = text_beq; beq_iff = text_beq_iff }

-- The digits of `n`, with one round of fuel for each.
digits : ℕ → ℕ → Text
digits zero n = []
digits (suc fuel) n =
    let front = digits fuel (n / 10) in
    if ltb n 10 then (b'0' + n) ∷ [] else front ++ (b'0' + n % 10) ∷ []

-- `%d` and `%u`.
unfoldable pub decimal : ℕ → Text
unfolding digits
decimal n = digits (suc n) n

-- `%02d`
unfoldable pub decimal_02 : ℕ → Text
unfolding decimal
decimal_02 n = if ltb n 10 then b'0' ∷ decimal n else decimal n

-- What `snprintf(buf, size, ...)` leaves of a text.
unfoldable pub snprintf : ℕ → Text → Text
snprintf size s = take (size - 1) s

-- The number that digits spell behind `n`.
value : ℕ → Text → ℕ
value n [] = n
value n (c ∷ s) = value (n * 10 + (c - b'0')) s

value-append : (n : ℕ) (s : Text) (c : ℕ) → value n (s ++ c ∷ []) ≡ value n s * 10 + (c - b'0')
unfolding value
value-append n [] c = refl
value-append n (d ∷ s) c = value-append (n * 10 + (d - b'0')) s c

value-digits : (fuel n : ℕ) → n < fuel → value 0 (digits fuel n) ≡ n
unfolding digits value
value-digits zero n h = absurd (omega arith)
value-digits (suc fuel) n h =
    ground
      (arith, value-append 0 (digits fuel (n / 10)) (b'0' + n % 10), value-digits fuel (n / 10))

pub decimal-inj : (m n : ℕ) → decimal m ≡ decimal n → m ≡ n
unfolding decimal
decimal-inj m n e =
    sym (value-digits (suc m) m (omega arith))
    ∙ ap (value 0) e
    ∙ value-digits (suc n) n (omega arith)

-- A number below ten times `bound` has at most one digit more than one below `bound`.
abbrev tens : ℕ → ℕ
tens zero = 1
tens (suc k) = 10 * tens k

length-digits : (k fuel n : ℕ) → n < tens (suc k) → length (digits fuel n) ≤ suc k
unfolding digits
length-digits k zero n h = omega arith
length-digits zero (suc fuel) n h = ground arith
length-digits (suc k) (suc fuel) n h = ground (
  arith,
  length-digits k fuel (n / 10),
  length-append (digits fuel (n / 10)) ((b'0' + n % 10) ∷ []),
)

-- Five digits for a port, ten for an `int`.
pub length-decimal_port : (n : ℕ) → n < 65536 → length (decimal n) ≤ 5
unfolding decimal
length-decimal_port n h = length-digits 4 (suc n) n (omega arith)

pub length-decimal_int : (n : ℕ) → n < 2147483648 → length (decimal n) ≤ 10
unfolding decimal
length-decimal_int n h = length-digits 9 (suc n) n (omega arith)

pub append-inj : (s t u : Text) → s ++ t ≡ s ++ u → t ≡ u
append-inj [] t u e = e
append-inj (x ∷ s) t u e = append-inj s t u (cc)

-- A text that fits is not truncated.
pub snprintf_fits : (size : ℕ) (s : Text) → length s < size → snprintf size s ≡ s
unfolding snprintf
snprintf_fits size s h = take_of_length-le (size - 1) s (omega arith)

pub length-snprintf : (size : ℕ) (s : Text) → 0 < size → length (snprintf size s) < size
unfolding snprintf
length-snprintf size s h = omega (arith, length-take (size - 1) s)

pub length-decimal_byte : (n : ℕ) → n < 256 → length (decimal n) ≤ 3
unfolding decimal
length-decimal_byte n h = length-digits 2 (suc n) n (omega arith)

pub length-decimal_100 : (n : ℕ) → n < 100 → length (decimal n) ≤ 2
unfolding decimal
length-decimal_100 n h = length-digits 1 (suc n) n (omega arith)

pub length-decimal_10 : (n : ℕ) → n < 10 → length (decimal n) ≤ 1
unfolding decimal
length-decimal_10 n h = length-digits 0 (suc n) n (omega arith)
