-- ===== src/Prelude/Decimal.antt =====
-- The verb %d of package fmt: the digits, last to first, as the loop of `strconv.FormatInt` finds
-- them.
use Prim.Native.Nat.{ℕ, zero, suc, ◌+◌, ◌-◌, ◌/◌, ◌%◌, ◌*◌, ◌<◌, ◌≤◌}
use mathlib.Core.Path.{◌≡◌, refl, sym, ap, ◌∙◌}
use mathlib.Core.Logic.{◌≢◌}
use mathlib.Core.List.{[], ◌∷◌, reverse, reverse-reverse, reverse_aux}
use native.Mathlib.Omega.{arith}
use vmgather.Prelude.Checks.{ltb, if◌then◌else◌}
use vmgather.Prelude.Int.{ℤ, pos, negsuc}
use vmgather.Prelude.Lists.{All}
use vmgather.Prelude.Strings.{Text}

-- The digits of `n` from the last to the first, with fuel above `n`.
unfoldable pub digits_rev : ℕ → ℕ → Text
digits_rev zero n = []
digits_rev (suc fuel) n =
    let rest = digits_rev fuel (n / 10) in
    if ltb n 10 then (b'0' + n) ∷ [] else (b'0' + n % 10) ∷ rest

unfoldable pub format : ℕ → Text
unfolding digits_rev
format n = reverse (digits_rev (suc n) n)

-- The verb %d on a signed integer.
unfoldable pub format_int : ℤ → Text
format_int (pos n) = format n
format_int (negsuc n) = b'-' ∷ format (suc n)

abbrev pub IsDigit : ℕ → Type 0
IsDigit c = (b'0' ≤ c) × (c ≤ b'9')

-- The number that such digits spell.
value : Text → ℕ
value [] = 0
value (c ∷ s) = c - b'0' + 10 * value s

value-digits_rev : (fuel n : ℕ) → n < fuel → value (digits_rev fuel n) ≡ n
unfolding value digits_rev
value-digits_rev zero n h = absurd (omega arith)
value-digits_rev (suc fuel) n h = ground (arith, value-digits_rev fuel (n / 10))

All-IsDigit-digits_rev : (fuel n : ℕ) → All IsDigit (digits_rev fuel n)
unfolding digits_rev
All-IsDigit-digits_rev zero n = tt
All-IsDigit-digits_rev (suc fuel) n = ground (arith, All-IsDigit-digits_rev fuel (n / 10))

pub digits : ℕ → Text
digits n = digits_rev (suc n) n

pub reverse-format : (n : ℕ) → reverse (format n) ≡ digits n
unfolding format digits
reverse-format n = reverse-reverse _

pub digits-IsDigit : (n : ℕ) → All IsDigit (digits n)
unfolding digits
digits-IsDigit n = All-IsDigit-digits_rev (suc n) n

pub digits-injective : (m n : ℕ) → digits m ≡ digits n → m ≡ n
unfolding digits
digits-injective m n e = omega (
  arith,
  value-digits_rev (suc m) m (omega arith),
  value-digits_rev (suc n) n (omega arith),
  ap value e,
)

-- Two numbers that print alike are equal.
pub format-injective : (m n : ℕ) → format m ≡ format n → m ≡ n
format-injective m n e =
    digits-injective m n (rw (← reverse-format m, ← reverse-format n) (ap reverse e))

reverse_aux-IsDigit : (s t : Text) → All IsDigit s → All IsDigit t → All IsDigit (reverse_aux s t)
reverse_aux-IsDigit [] t h k = k
reverse_aux-IsDigit (c ∷ s) t h k = reverse_aux-IsDigit s (c ∷ t) h.1 (h.0, k)

pub format-IsDigit : (n : ℕ) → All IsDigit (format n)
unfolding format
format-IsDigit n =
    reverse_aux-IsDigit (digits_rev (suc n) n) [] (All-IsDigit-digits_rev (suc n) n) tt

-- The number that digits spell, from the first to the last, as `strconv.Atoi` reads it.
unfoldable pub digits_value : ℕ → Text → ℕ
digits_value acc [] = acc
digits_value acc (c ∷ s) = digits_value (acc * 10 + (c - b'0')) s

digits_value-reverse_aux :
    (s t : Text) → digits_value 0 (reverse_aux s t) ≡ digits_value (value s) t
unfolding digits_value value
digits_value-reverse_aux [] t = refl
digits_value-reverse_aux (c ∷ s) t =
    digits_value-reverse_aux s (c ∷ t) ∙ ap (λ k. digits_value k t) (omega arith)

pub digits_value-format : (n : ℕ) → digits_value 0 (format n) ≡ n
unfolding format digits_value
digits_value-format n =
    digits_value-reverse_aux (digits_rev (suc n) n) [] ∙ value-digits_rev (suc n) n (omega arith)

digits-cons : (n : ℕ) → digits n ≢ []
unfolding digits digits_rev
digits-cons n e = ground arith

-- A number has a digit.
pub format-cons : (n : ℕ) → format n ≢ []
format-cons n e = digits-cons n (sym (reverse-format n) ∙ ap reverse e)
