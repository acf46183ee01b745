-- ===== src/Importer/Retention/Durations.antt =====
-- server.go of the importer: `parseRetentionDuration` reads back what a duration is written as.
use vmgather.Prelude.{
  ℕ, zero, suc, ◌+◌, ◌*◌, ◌^◌, ◌<◌, ◌≡◌, refl, sym, ap, subst, ◌∙◌, true, false, List, [], ◌∷◌,
  ◌++◌, some, Text, ℤ, pos, mul_int64, arith, append_assoc, append-nil, All,
}
use vmgather.Prelude.Decimal.{format, format-IsDigit, IsDigit, digits_value-format, format-cons}
use vmgather.Importer.Timestamps.{add_int64}
use vmgather.Importer.Endpoints.{done}
use vmgather.Importer.Retention.{
  is_digit, atoi_digits, unit_ns, flush, read_duration, parse_retention_duration,
}

pub data Unit6 : Type 0 where
  years weeks days hours minutes seconds : Unit6

abbrev pub letter : Unit6 → ℕ
letter years = b'y'
letter weeks = b'w'
letter days = b'd'
letter hours = b'h'
letter minutes = b'm'
letter seconds = b's'

abbrev pub seconds_of : Unit6 → ℕ
seconds_of years = 365 * 24 * 3600
seconds_of weeks = 7 * 24 * 3600
seconds_of days = 24 * 3600
seconds_of hours = 3600
seconds_of minutes = 60
seconds_of seconds = 1

-- A duration as it is written: numbers with their units.
unfoldable pub written : List (ℕ × Unit6) → Text
written [] = []
written ((n, u) ∷ parts) = format n ++ (letter u ∷ written parts)

unfoldable pub duration_ns : List (ℕ × Unit6) → ℕ
duration_ns [] = 0
duration_ns ((n, u) ∷ parts) = n * (seconds_of u * 10 ^ 9) + duration_ns parts

unit_ns-letter : (u : Unit6) → unit_ns (letter u) ≡ some (seconds_of u * 10 ^ 9)
unit_ns-letter years = refl
unit_ns-letter weeks = refl
unit_ns-letter days = refl
unit_ns-letter hours = refl
unit_ns-letter minutes = refl
unit_ns-letter seconds = refl

letter_no_digit : (u : Unit6) → is_digit (letter u) ≡ false
letter_no_digit years = refl
letter_no_digit weeks = refl
letter_no_digit days = refl
letter_no_digit hours = refl
letter_no_digit minutes = refl
letter_no_digit seconds = refl

seconds_of_pos : (u : Unit6) → 0 < seconds_of u
seconds_of_pos years = omega arith
seconds_of_pos weeks = omega arith
seconds_of_pos days = omega arith
seconds_of_pos hours = omega arith
seconds_of_pos minutes = omega arith
seconds_of_pos seconds = omega arith

product_wraps : (n k : ℕ) → n * k < 2 ^ 63 → mul_int64 (pos n) k ≡ pos (n * k)
unfolding mul_int64
product_wraps n k h = ground arith

sum_wraps : (a b : ℕ) → a + b < 2 ^ 63 → add_int64 (pos a) (pos b) ≡ pos (a + b)
unfolding add_int64
sum_wraps a b h = ground arith

atoi_digits-format : (n : ℕ) → n < 2 ^ 63 → atoi_digits (format n) ≡ some n
unfolding atoi_digits
atoi_digits-format n h = rw (digits_value-format n) (ground arith)

module _ (raw : Text) where
  read_digits :
      (total : ℤ) (num ds s : Text)
      → All IsDigit ds
      → read_duration raw total num (ds ++ s) ≡ read_duration raw total (num ++ ds) s
  unfolding read_duration
  read_digits total num [] s h = rw (append-nil num) refl
  read_digits total num (c ∷ ds) s h =
      rw
        (
          is_digit-IsDigit c h.0,
          read_digits total (num ++ (c ∷ [])) ds s h.1,
          append_assoc num (c ∷ []) ds,
        )
        refl
    where
      is_digit-IsDigit : (c : ℕ) → IsDigit c → is_digit c ≡ true
      is_digit-IsDigit c k = ground arith

  flush_written :
      (t n : ℕ) (u : Unit6) (num : Text)
      → num ≡ format n
      → n < 2 ^ 63
      → t + n * (seconds_of u * 10 ^ 9) < 2 ^ 63
      → flush raw (letter u) (pos t) num ≡ done (pos (t + n * (seconds_of u * 10 ^ 9)))
  unfolding flush
  flush_written t n u [] e hn h = absurd (format-cons n (sym e))
  flush_written t n u (c ∷ num) e hn h =
      rw (subst (λ s. atoi_digits s ≡ some n) (sym e) (atoi_digits-format n hn), unit_ns-letter u)
        (ap done (
          ap (add_int64 (pos t)) (product_wraps n (seconds_of u * 10 ^ 9) (omega (arith, h)))
          ∙ sum_wraps t (n * (seconds_of u * 10 ^ 9)) h))

  read_letter :
      (t n : ℕ) (u : Unit6) (s : Text)
      → n < 2 ^ 63
      → t + n * (seconds_of u * 10 ^ 9) < 2 ^ 63
      → read_duration raw (pos t) (format n) (letter u ∷ s)
        ≡ read_duration raw (pos (t + n * (seconds_of u * 10 ^ 9))) [] s
  unfolding read_duration
  read_letter t n u s hn h = rw (letter_no_digit u, flush_written t n u (format n) refl hn h) refl

  read_written :
      (t : ℕ) (parts : List (ℕ × Unit6))
      → 0 < t + duration_ns parts
      → t + duration_ns parts < 2 ^ 63
      → read_duration raw (pos t) [] (written parts) ≡ done (pos (t + duration_ns parts))
  unfolding written duration_ns read_duration
  read_written t [] p h = ground arith
  read_written t ((n, u) ∷ parts) p h =
      read_digits (pos t) [] (format n) (letter u ∷ written parts) (format-IsDigit n)
      ∙ read_letter t n u (written parts)
          (small n (seconds_of u) (seconds_of_pos u) (omega (arith, h))) (omega (arith, h))
      ∙ read_written (t + n * (seconds_of u * 10 ^ 9)) parts (omega (arith, p)) (omega (arith, h))
      ∙ ap (λ k. done (pos k)) (omega arith)
    where
      small : (n k : ℕ) → 0 < k → n * (k * 10 ^ 9) < 2 ^ 63 → n < 2 ^ 63
      small n zero a b = elim a [ ]
      small n (suc k) a b = grind arith

-- A duration that is written as numbers with units, as in 1y2w, is read back as its nanoseconds, where
-- these are not 0 and fit an int64.
pub parse_retention_duration-written :
    (parts : List (ℕ × Unit6))
    → 0 < duration_ns parts
    → duration_ns parts < 2 ^ 63
    → parse_retention_duration (written parts) ≡ done (pos (duration_ns parts))
unfolding parse_retention_duration
parse_retention_duration-written parts p h =
    read_written (written parts) 0 parts (omega (arith, p)) (omega (arith, h))
    ∙ ap (λ k. done (pos k)) (omega arith)
