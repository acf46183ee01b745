-- ===== src/Prelude/Maps.antt =====
-- Predicates on the entries of a Go map, and on its pairs of entries.
use mathlib.Core.Path.{◌≡◌, sym, ◌∙◌, subst}
use mathlib.Core.Logic.{◌⊎◌, inl, inr}
use mathlib.Core.Bool.{true}
use mathlib.Core.List.{List, [], ◌∷◌}
use mathlib.Core.Option.{none, some}
use native.Mathlib.Omega.{arith}
use vmgather.Prelude.Checks.{Bool-cases}
use vmgather.Prelude.Lists.{All}
use vmgather.Prelude.Strings.{Text, text_eq, text_eq→eq}
use vmgather.Prelude.Assoc.{lookup, insert}

module _ {V : Type 0} (P : Text × V → Type 0) where
  pub All-insert :
      (k : Text) (v : V) (m : List (Text × V)) → P (k, v) → All P m → All P (insert k v m)
  unfolding insert
  All-insert k v [] p h = (p, tt)
  All-insert k v ((j, w) ∷ m) p h = elim (Bool-cases (text_eq j k)) [
    | inl e ↦ rw e (p, h.1)
    | inr e ↦ rw e (h.0, All-insert k v m p h.1)
  ]

  pub All-lookup :
      (k : Text) (v : V) (m : List (Text × V)) → All P m → lookup k m ≡ some v → P (k, v)
  unfolding lookup
  All-lookup k v [] h e = cc
  All-lookup k v ((j, w) ∷ m) h e = elim (Bool-cases (text_eq j k)) [
    | inl t ↦ subst P (pair (text_eq→eq j k t) (ground arith)) h.0
    | inr t ↦ All-lookup k v m h.1 (ground arith)
  ]
    where
      pair : j ≡ k → w ≡ v → ◌≡◌ {A = Text × V} (j, w) (k, v)
      pair p q = cc

module _ {V : Type 0} (R : Text × V → Text × V → Type 0) where
  -- Any two entries are related, the earlier one first.
  abbrev pub Separated : List (Text × V) → Type 0
  Separated [] = Unit {0}
  Separated (e ∷ m) = All (λ f. R e f) m × Separated m

  pub insert-Separated :
      (k : Text) (v : V) (m : List (Text × V))
      → lookup k m ≡ none
      → All (λ e. R e (k, v)) m
      → Separated m
      → Separated (insert k v m)
  unfolding insert lookup
  insert-Separated k v [] n h s = (tt, tt)
  insert-Separated k v ((j, w) ∷ m) n h s = elim (Bool-cases (text_eq j k)) [
    | inl t ↦ absurd (stop t)
    | inr t ↦
        rw t (
          All-insert (λ f. R (j, w) f) k v m h.0 s.0,
          insert-Separated k v m (ground arith) h.1 s.1,
        )
  ]
    where
      stop : text_eq j k ≡ true → ⊥
      stop t = ground arith

  pub lookup-Separated :
      (j k : Text) (v w : V) (m : List (Text × V))
      → ((a b : Text × V) → R a b → R b a)
      → Separated m
      → lookup j m ≡ some v
      → lookup k m ≡ some w
      → (j ≡ k) ⊎ R (j, v) (k, w)
  unfolding lookup
  lookup-Separated j k v w [] symm s e f = cc
  lookup-Separated j k v w ((i, u) ∷ m) symm s e f = elim (Bool-cases (text_eq i j)) [
    | inl p ↦ elim (Bool-cases (text_eq i k)) [
      | inl q ↦ inl (sym (text_eq→eq i j p) ∙ text_eq→eq i k q)
      | inr q ↦ inr (
          subst (λ a. R a (k, w)) (pair i j u v (text_eq→eq i j p) (ground arith))
            (All-lookup (λ b. R (i, u) b) k w m s.0 (ground arith)))
    ]
    | inr p ↦ elim (Bool-cases (text_eq i k)) [
      | inl q ↦ inr (
          symm (k, w) (j, v)
            (subst (λ a. R a (j, v)) (pair i k u w (text_eq→eq i k q) (ground arith))
              (All-lookup (λ b. R (i, u) b) j v m s.0 (ground arith))))
      | inr q ↦ lookup-Separated j k v w m symm s.1 (ground arith) (ground arith)
    ]
  ]
    where
      pair : (a b : Text) (x y : V) → a ≡ b → x ≡ y → ◌≡◌ {A = Text × V} (a, x) (b, y)
      pair a b x y p q = cc
