-- ===== src/Importer/Scanner.antt =====
-- bufio.Scanner over a file, as `streamImport` and `analyzeBundle` of the importer use it.
pub mod Offsets
use vmgather.Prelude.{ℕ, ◌*◌, List, [], ◌∷◌, Text, ◌==◌, if◌then◌else◌}

abbrev pub newline : ℕ
newline = 10

abbrev pub carriage_return : ℕ
carriage_return = 13

abbrev pub push_byte : ℕ → List Text → List Text
push_byte c [] = (c ∷ []) ∷ []
push_byte c (l ∷ ls) = (c ∷ l) ∷ ls

-- What stands between the newlines; there is no line after the last newline.
unfoldable pub raw_lines : Text → List Text
raw_lines [] = []
raw_lines (c ∷ s) =
    let started = [] ∷ raw_lines s in
    let continued = push_byte c (raw_lines s) in if c == newline then started else continued

-- bufio.ScanLines takes a carriage return from the end of a line.
unfoldable pub drop_return : Text → Text
drop_return [] = []
drop_return (c ∷ []) = if c == carriage_return then [] else c ∷ []
drop_return (c ∷ d ∷ s) = c ∷ drop_return (d ∷ s)

unfoldable pub drop_returns : List Text → List Text
unfolding drop_return
drop_returns [] = []
drop_returns (l ∷ ls) = drop_return l ∷ drop_returns ls

unfoldable pub scan_lines : Text → List Text
unfolding raw_lines drop_returns
scan_lines file = drop_returns (raw_lines file)

-- The buffer of the scanner: a longer line ends the scan with an error. The test of the loops counts a
-- line without its carriage return.
abbrev pub max_token_bytes : ℕ
max_token_bytes = 16 * 1024 * 1024
