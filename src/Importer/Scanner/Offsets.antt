-- ===== src/Importer/Scanner/Offsets.antt =====
-- server.go of the importer: the offsets that `streamImport` counts are those of the lines in the file.
use vmgather.Prelude.{
  head_or, subst, ◌⊎◌, if-both, ℕ, zero, suc, ◌+◌, ◌≡◌, refl, sym, ap, ◌∙◌, true, false, List, [],
  ◌∷◌, ◌++◌, Text, ◌==◌, length, drop, arith, All, inl, inr, Bool-cases,
}
use vmgather.Importer.Scanner.{
  newline, carriage_return, push_byte, raw_lines, drop_return, drop_returns, scan_lines,
}

-- The bytes that lines take with their newlines, as the code counts them.
unfoldable pub span : List Text → ℕ
span [] = 0
span (l ∷ ls) = length l + 1 + span ls

pub span-append : (xs ys : List Text) → span (xs ++ ys) ≡ span xs + span ys
unfolding span
span-append [] ys = omega arith
span-append (x ∷ xs) ys = omega (arith, span-append xs ys)

-- No byte of a text is a carriage return.
abbrev pub NoReturn : Text → Type 0
NoReturn file = All (λ c. (c == carriage_return) ≡ false) file

pushed_line :
    (c : ℕ) (s : Text) (ls : List Text)
    → raw_lines (drop (suc (length (head_or [] ls))) s) ≡ drop 1 ls
    → raw_lines (drop (suc (length (head_or [] (push_byte c ls)))) (c ∷ s))
      ≡ drop 1 (push_byte c ls)
unfolding raw_lines
pushed_line c s [] h = h
pushed_line c s (l ∷ ls) h = h

-- A line of the file, and the bytes behind it.
after_line :
    (file : Text)
    → raw_lines (drop (suc (length (head_or [] (raw_lines file)))) file) ≡ drop 1 (raw_lines file)
unfolding raw_lines
after_line [] = refl
after_line (c ∷ s) =
    cases (Bool-cases (c == newline)) (pushed_line c s (raw_lines s) (after_line s))
  where
    cases :
        ((c == newline) ≡ true) ⊎ ((c == newline) ≡ false)
        → raw_lines (drop (suc (length (head_or [] (push_byte c (raw_lines s))))) (c ∷ s))
          ≡ drop 1 (push_byte c (raw_lines s))
        → raw_lines (drop (suc (length (head_or [] (raw_lines (c ∷ s))))) (c ∷ s))
          ≡ drop 1 (raw_lines (c ∷ s))
    cases (inl e) k = rw (e) refl
    cases (inr e) k = rw (e) k

drop-sum : (m n : ℕ) (s : Text) → drop (m + n) s ≡ drop n (drop m s)
drop-sum zero n s = ap (λ k. drop k s) (omega arith)
drop-sum (suc m) n (c ∷ s) = ap (λ k. drop k (c ∷ s)) (suc_out m n) ∙ drop-sum m n s
  where
    suc_out : (m n : ℕ) → suc m + n ≡ suc (m + n)
    suc_out m n = omega arith
drop-sum (suc m) n [] = empty (suc m + n) ∙ sym (empty n)
  where
    empty : (k : ℕ) → drop {A = ℕ} k [] ≡ []
    empty zero = refl
    empty (suc k) = refl

pub raw_lines-drop :
    (file : Text) (done rest : List Text)
    → raw_lines file ≡ done ++ rest
    → raw_lines (drop (span done) file) ≡ rest
unfolding span
raw_lines-drop file [] rest h = h
raw_lines-drop file (l ∷ ds) rest h =
    ap (λ k. raw_lines (drop k file)) (sum_out (length l) (span ds))
    ∙ ap raw_lines (drop-sum (suc (length l)) (span ds) file)
    ∙ raw_lines-drop (drop (suc (length l)) file) ds rest (
        subst (λ ls. raw_lines (drop (suc (length (head_or [] ls))) file) ≡ drop 1 ls) h
          (after_line file))
  where
    sum_out : (m n : ℕ) → m + 1 + n ≡ suc m + n
    sum_out m n = omega arith

drop-NoReturn : (n : ℕ) (file : Text) → NoReturn file → NoReturn (drop n file)
drop-NoReturn zero file h = h
drop-NoReturn (suc n) [] h = tt
drop-NoReturn (suc n) (c ∷ s) h = drop-NoReturn n s h.1

raw_lines-NoReturn : (file : Text) → NoReturn file → All NoReturn (raw_lines file)
unfolding raw_lines
raw_lines-NoReturn [] h = tt
raw_lines-NoReturn (c ∷ s) h =
    let ih = raw_lines-NoReturn s h.1 in
    if-both (All NoReturn) (c == newline) ([] ∷ raw_lines s) (push_byte c (raw_lines s)) (tt, ih)
      (pushed (raw_lines s) ih)
  where
    pushed : (ls : List Text) → All NoReturn ls → All NoReturn (push_byte c ls)
    pushed [] k = ((h.0, tt), tt)
    pushed (l ∷ ls) k = ((h.0, k.0), k.1)

drop_return-NoReturn : (l : Text) → NoReturn l → drop_return l ≡ l
unfolding drop_return
drop_return-NoReturn [] h = refl
drop_return-NoReturn (c ∷ []) h = rw (h.0) refl
drop_return-NoReturn (c ∷ d ∷ s) h = ap (λ t. c ∷ t) (drop_return-NoReturn (d ∷ s) h.1)

drop_returns-NoReturn : (ls : List Text) → All NoReturn ls → drop_returns ls ≡ ls
unfolding drop_returns
drop_returns-NoReturn [] h = refl
drop_returns-NoReturn (l ∷ ls) h =
    rw (drop_return-NoReturn l h.0, drop_returns-NoReturn ls h.1) refl

scan_lines-raw_lines : (file : Text) → NoReturn file → scan_lines file ≡ raw_lines file
unfolding scan_lines
scan_lines-raw_lines file h = drop_returns-NoReturn (raw_lines file) (raw_lines-NoReturn file h)

-- Scanning a file from behind some of its lines gives the lines that follow.
pub scan_lines-drop :
    (file : Text) (done rest : List Text)
    → NoReturn file
    → scan_lines file ≡ done ++ rest
    → scan_lines (drop (span done) file) ≡ rest
scan_lines-drop file done rest h e =
    scan_lines-raw_lines (drop (span done) file) (drop-NoReturn (span done) file h)
    ∙ raw_lines-drop file done rest (sym (scan_lines-raw_lines file h) ∙ e)
