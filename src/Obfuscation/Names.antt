-- ===== src/Obfuscation/Names.antt =====
-- obfuscator.go: reading the replacement texts back.
use mathlib.Core.List.{reverse, reverse-append, reverse-cons, reverse-reverse}
use vmgather.Prelude.{
  ℕ, ◌<◌, ◌≡◌, ◌≢◌, refl, sym, ap, ◌∙◌, ◌⊎◌, take, All-append, false, [], ◌∷◌, ◌++◌, append_assoc,
  Text, codes, All, All-map, arith, subst,
}
use vmgather.Prelude.Decimal.{
  format, digits, reverse-format, digits-IsDigit, digits-injective, IsDigit, format-injective,
  format-IsDigit,
}
use vmgather.Obfuscation.{
  third_octet, fourth_octet, fake_ip, job_name, custom_name, join_host_port, has_byte, hex,
  hash_string,
}

abbrev pub Lacks : ℕ → Text → Type 0
Lacks c = All (λ z. z ≢ c)

-- Two texts agree up to the first occurrence of a byte that neither has before.
pub split_at_byte :
    (c : ℕ) (xs ys s t : Text)
    → Lacks c xs
    → Lacks c ys
    → xs ++ (c ∷ s) ≡ ys ++ (c ∷ t)
    → (xs ≡ ys) × (s ≡ t)
split_at_byte c [] [] s t h k e = (refl, cc)
split_at_byte c [] (y ∷ ys) s t h k e = absurd (k.0 (cc))
split_at_byte c (x ∷ xs) [] s t h k e = absurd (h.0 (cc))
split_at_byte c (x ∷ xs) (y ∷ ys) s t h k e =
    let r = split_at_byte c xs ys s t h.1 k.1 (cc) in (cc (r.0), r.1)

IsDigit-ne : (c : ℕ) → (c < b'0') ⊎ (b'9' < c) → (z : ℕ) → IsDigit z → z ≢ c
IsDigit-ne c h z d = omega arith

digits-Lacks : (c n : ℕ) → (c < b'0') ⊎ (b'9' < c) → Lacks c (digits n)
digits-Lacks c n h = All-map IsDigit (λ z. z ≢ c) (digits n) (IsDigit-ne c h) (digits-IsDigit n)

format-Lacks : (c n : ℕ) → (c < b'0') ⊎ (b'9' < c) → Lacks c (format n)
format-Lacks c n h = All-map IsDigit (λ z. z ≢ c) (format n) (IsDigit-ne c h) (format-IsDigit n)

reverse_suffix :
    (c : ℕ) (xs : Text) (n : ℕ) → reverse (xs ++ (c ∷ format n)) ≡ digits n ++ (c ∷ reverse xs)
reverse_suffix c xs n =
    reverse-append xs (c ∷ format n)
    ∙ ap (λ (l : Text). l ++ reverse xs)
        (reverse-cons c (format n) ∙ ap (λ (l : Text). l ++ (c ∷ [])) (reverse-format n))
    ∙ append_assoc (digits n) (c ∷ []) (reverse xs)

-- A text, a byte that is no digit and a number: all three are fixed by what they spell together.
pub suffix_number :
    (c : ℕ) (xs ys : Text) (m n : ℕ)
    → (c < b'0') ⊎ (b'9' < c)
    → xs ++ (c ∷ format m) ≡ ys ++ (c ∷ format n)
    → (xs ≡ ys) × (m ≡ n)
suffix_number c xs ys m n h e =
    let r =
      split_at_byte c (digits m) (digits n) (reverse xs) (reverse ys) (digits-Lacks c m h)
        (digits-Lacks c n h) (sym (reverse_suffix c xs m) ∙ ap reverse e ∙ reverse_suffix c ys n) in
    (sym (reverse-reverse xs) ∙ ap reverse r.1 ∙ reverse-reverse ys, digits-injective m n r.0)

pub job_name-injective : (c d : Text) (m n : ℕ) → job_name c m ≡ job_name d n → (c ≡ d) × (m ≡ n)
unfolding job_name
job_name-injective c d m n e = suffix_number b'_' c d m n (omega arith) (cc)

pub custom_name-injective : (c : Text) (m n : ℕ) → custom_name c m ≡ custom_name c n → m ≡ n
unfolding custom_name
custom_name-injective c m n e = (suffix_number b'-' c c m n (omega arith) e).1

octets-injective :
    (m n : ℕ)
    → 0 < m
    → 0 < n
    → third_octet m ≡ third_octet n
    → fourth_octet m ≡ fourth_octet n
    → m ≡ n
octets-injective m n p q e f = omega arith

has_byte-Lacks : (b : ℕ) (s : Text) → Lacks b s → has_byte b s ≡ false
unfolding has_byte
has_byte-Lacks b [] h = refl
has_byte-Lacks b (x ∷ s) h = let p = h.0 in ground (arith, has_byte-Lacks b s h.1)

fake_ip-Lacks : (b n : ℕ) → b ≢ b'7' → b ≢ b'.' → (b < b'0') ⊎ (b'9' < b) → Lacks b (fake_ip n)
unfolding fake_ip
fake_ip-Lacks b n s d h =
    let prefix : Lacks b (codes "777.777.") = omega arith in
    All-append (λ z. z ≢ b) (codes "777.777.") _ prefix
      (All-append (λ z. z ≢ b) (format (third_octet n)) _ (format-Lacks b (third_octet n) h)
        ((λ e. d (sym e)), format-Lacks b (fourth_octet n) h))

pub fake_ip-injective : (m n : ℕ) → 0 < m → 0 < n → fake_ip m ≡ fake_ip n → m ≡ n
unfolding fake_ip
fake_ip-injective m n p q e =
    let r =
      split_at_byte b'.' (format (third_octet m)) (format (third_octet n)) (format (fourth_octet m))
        (format (fourth_octet n)) (format-Lacks b'.' (third_octet m) (omega arith))
        (format-Lacks b'.' (third_octet n) (omega arith)) (cc) in
    octets-injective m n p q (format-injective _ _ r.0) (format-injective _ _ r.1)

-- The invented addresses have no colon and no percent sign, so they are joined without brackets.
pub join_host_port-fake_ip :
    (n : ℕ) (port : Text) → join_host_port (fake_ip n) port ≡ fake_ip n ++ (b':' ∷ port)
unfolding join_host_port
join_host_port-fake_ip n port = rw (
  has_byte-Lacks b':' (fake_ip n) (fake_ip-Lacks b':' n (omega arith) (omega arith) (omega arith)),
  has_byte-Lacks b'%' (fake_ip n) (fake_ip-Lacks b'%' n (omega arith) (omega arith) (omega arith)),
)

pub join_host_port-injective :
    (m n : ℕ) (p q : Text)
    → 0 < m
    → 0 < n
    → join_host_port (fake_ip m) p ≡ join_host_port (fake_ip n) q
    → (m ≡ n) × (p ≡ q)
join_host_port-injective m n p q a b e =
    let lacks = λ (k : ℕ). fake_ip-Lacks b':' k (omega arith) (omega arith) (omega arith) in
    let r =
      split_at_byte b':' (fake_ip m) (fake_ip n) p q (lacks m) (lacks n)
        (sym (join_host_port-fake_ip m p) ∙ e ∙ join_host_port-fake_ip n q) in
    (fake_ip-injective m n a b r.0, r.1)

hex-Lacks : (s : Text) → Lacks b':' (hex s)
unfolding hex
hex-Lacks [] = tt
hex-Lacks (b ∷ s) = (ground arith, (ground arith, hex-Lacks s))

append-has_byte : (b : ℕ) (s t : Text) → Lacks b (s ++ (b ∷ t)) → ⊥
append-has_byte b [] t h = h.0 refl
append-has_byte b (x ∷ s) t h = append-has_byte b s t h.1

-- A digest is never taken for an invented address.
pub hash_string-ne-join_host_port :
    (sha256 : Text → Text) (s : Text) (n : ℕ) (port : Text)
    → hash_string sha256 s ≢ join_host_port (fake_ip n) port
unfolding hash_string
hash_string-ne-join_host_port sha256 s n port e =
    append-has_byte b':' (fake_ip n) port
      (subst (Lacks b':') (e ∙ join_host_port-fake_ip n port) (hex-Lacks (take 8 (sha256 s))))
