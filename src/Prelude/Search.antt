-- ===== src/Prelude/Search.antt =====
-- Functions of package strings that look for a text inside another.
use Prim.Native.Nat.{ℕ, ◌-◌}
use mathlib.Core.Bool.{Bool, ◌&&◌}
use mathlib.Core.List.{List, [], ◌∷◌, ◌++◌, reverse}
use mathlib.Core.Option.{Option, none, some}
use vmgather.Prelude.Checks.{leb, ◌==◌, if◌then◌else◌}
use vmgather.Prelude.Lists.{length, drop, take}
use vmgather.Prelude.Strings.{Text, text_eq, has_prefix}

-- strings.HasSuffix
unfoldable pub has_suffix : Text → Text → Bool
unfolding text_eq
has_suffix s p = leb (length p) (length s) && text_eq (drop (length s - length p) s) p

-- strings.TrimPrefix and strings.TrimSuffix
abbrev pub trim_prefix : Text → Text → Text
trim_prefix s p = if has_prefix s p then drop (length p) s else s

abbrev pub trim_suffix : Text → Text → Text
trim_suffix s p = if has_suffix s p then take (length s - length p) s else s

-- strings.TrimRight with one byte
unfoldable pub without_leading : ℕ → Text → Text
without_leading b [] = []
without_leading b (c ∷ s) = let rest = without_leading b s in if c == b then rest else c ∷ s

unfoldable pub trim_right_byte : ℕ → Text → Text
unfolding without_leading
trim_right_byte b s = reverse (without_leading b (reverse s))

abbrev pub before : ℕ → Option (Text × Text) → Option (Text × Text)
before c none = none
before c (some (a, b)) = some (c ∷ a, b)

-- The parts before and behind the first occurrence of a text (strings.Index).
unfoldable pub cut : Text → Text → Option (Text × Text)
unfolding has_prefix
cut [] p = if has_prefix [] p then some ([], []) else none
cut (c ∷ s) p =
    let found = some ([], drop (length p) (c ∷ s)) in
    let later = before c (cut s p) in if has_prefix (c ∷ s) p then found else later

abbrev pub replaced : Text → Text → Option (Text × Text) → Text
replaced s new none = s
replaced s new (some (a, b)) = a ++ (new ++ b)

-- strings.Replace, at most once.
unfoldable pub replace_first : Text → Text → Text → Text
unfolding cut
replace_first s old new = replaced s new (cut s old)

-- strings.Join
unfoldable pub join : Text → List Text → Text
join separator [] = []
join separator (t ∷ []) = t
join separator (t ∷ u ∷ ts) = t ++ (separator ++ join separator (u ∷ ts))
