-- ===== src/Obfuscation.antt =====
-- internal/infrastructure/obfuscation/obfuscator.go: consistent replacement of label values. A
-- method returns the new state and the replacement. The mutex makes each method one step. The digest
-- is a parameter; `net.SplitHostPort` and `net.JoinHostPort` are written out.
pub mod Names
pub mod Distinct
pub mod Addresses
pub mod History
pub mod Stable
mod Examples
use vmgather.Prelude.{
  ℕ, suc, ◌+◌, ◌-◌, ◌/◌, ◌%◌, Bool, true, false, not, ◌&&◌, ◌||◌, List, [], ◌∷◌, ◌++◌, Option, none,
  some, Text, codes, ◌==◌, leb, if◌then◌else◌, lookup, insert, take,
}
use vmgather.Prelude.Decimal.{format}

pub record Obfuscator : Type 0 where
  pub instance_map : List (Text × Text)
  pub job_map : List (Text × Text)
  pub custom_labels : List (Text × List (Text × Text))
  pub instance_counter : ℕ
  pub job_counter : List (Text × ℕ)
  pub custom_counters : List (Text × ℕ)

unfoldable pub new_obfuscator : Obfuscator
new_obfuscator = record {
  instance_map = [];
  job_map = [];
  custom_labels = [];
  instance_counter = 0;
  job_counter = [];
  custom_counters = [];
}

-- A read of a Go map gives the zero value for a missing key.
abbrev pub count_or_zero : Option ℕ → ℕ
count_or_zero none = 0
count_or_zero (some n) = n

abbrev pub map_or_empty : Option (List (Text × Text)) → List (Text × Text)
map_or_empty none = []
map_or_empty (some m) = m

unfoldable pub has_byte : ℕ → Text → Bool
has_byte b [] = false
has_byte b (c ∷ s) = c == b || has_byte b s

-- The text behind the first occurrence of a byte, if there is one.
unfoldable pub after_byte : ℕ → Text → Option Text
after_byte b [] = none
after_byte b (c ∷ s) = if c == b then some s else after_byte b s

-- `net.SplitHostPort` where the host is in brackets: `s` is what follows the opening one.
abbrev bracketed_port : Text → Option Text → Option Text
bracketed_port s none = none
bracketed_port s (some []) = none
bracketed_port s (some (c ∷ port)) =
    if c == b':' && not (has_byte b':' port) && not (has_byte b'[' s) && not (has_byte b']' port)
    then some port
    else none

-- The port that `net.SplitHostPort` finds; `none` is its error.
unfoldable pub split_host_port : Text → Option Text
unfolding has_byte after_byte
split_host_port [] = none
split_host_port (c ∷ s) =
    if c == b'['
    then bracketed_port s (after_byte b']' s)
    else if has_byte b'[' (c ∷ s) || has_byte b']' (c ∷ s)
    then none
    else elim (after_byte b':' (c ∷ s)) [
      | none ↦ none
      | some port ↦ if has_byte b':' port then none else some port
    ]

-- `net.JoinHostPort`: a host with a colon or a percent sign is put in brackets.
unfoldable pub join_host_port : Text → Text → Text
unfolding has_byte
join_host_port host port =
    if has_byte b':' host || has_byte b'%' host
    then codes "[" ++ (host ++ (codes "]:" ++ port))
    else host ++ (b':' ∷ port)

abbrev pub third_octet : ℕ → ℕ
third_octet counter = (counter - 1) / 255 + 1

abbrev pub fourth_octet : ℕ → ℕ
fourth_octet counter = (counter - 1) % 255 + 1

-- fmt.Sprintf("777.777.%d.%d", thirdOctet, fourthOctet)
unfoldable pub fake_ip : ℕ → Text
fake_ip counter =
    codes "777.777." ++ (format (third_octet counter) ++ (b'.' ∷ format (fourth_octet counter)))

-- fmt.Sprintf("vm_component_%s_%d", component, counter)
unfoldable pub job_name : Text → ℕ → Text
job_name component counter = codes "vm_component_" ++ (component ++ (b'_' ∷ format counter))

-- fmt.Sprintf("%s-%d", labelName, counter)
unfoldable pub custom_name : Text → ℕ → Text
custom_name label counter = label ++ (b'-' ∷ format counter)

-- One digit of `hex.EncodeToString`.
abbrev pub hex_digit : ℕ → ℕ
hex_digit n = if leb n 9 then b'0' + n else b'a' + (n - 10)

unfoldable pub hex : Text → Text
hex [] = []
hex (b ∷ s) = hex_digit (b / 16 % 16) ∷ hex_digit (b % 16) ∷ hex s

unfoldable pub obfuscate_job : Obfuscator → Text → Text → Obfuscator × Text
obfuscate_job o job component = elim (lookup job o.job_map) [
  | some found ↦ (o, found)
  | none ↦
      let counter = count_or_zero (lookup component o.job_counter) + 1 in
      let name = job_name component counter in
      (
        record o {
          job_counter = insert component counter o.job_counter;
          job_map = insert job name o.job_map;
        },
        name,
      )
]

unfoldable pub obfuscate_custom_label : Obfuscator → Text → Text → Obfuscator × Text
obfuscate_custom_label o label value =
    let values = map_or_empty (lookup label o.custom_labels) in
    elim (lookup value values) [
      | some found ↦ (record o { custom_labels = insert label values o.custom_labels }, found)
      | none ↦
          let counter = count_or_zero (lookup label o.custom_counters) + 1 in
          let name = custom_name label counter in
          (
            record o {
              custom_counters = insert label counter o.custom_counters;
              custom_labels = insert label (insert value name values) o.custom_labels;
            },
            name,
          )
    ]

-- `GetMappings` copies the two maps.
abbrev pub get_mappings : Obfuscator → List (Text × Text) × List (Text × Text)
get_mappings o = (o.instance_map, o.job_map)

-- The digest of crypto/sha256.
module _ (sha256 : Text → Text) where
  unfoldable pub hash_string : Text → Text
  hash_string s = hex (take 8 (sha256 s))

  unfoldable pub obfuscate_instance : Obfuscator → Text → Obfuscator × Text
  obfuscate_instance o address = elim (lookup address o.instance_map) [
    | some found ↦ (o, found)
    | none ↦ elim (split_host_port address) [
      | none ↦
          let name = hash_string address in
          (record o { instance_map = insert address name o.instance_map }, name)
      | some port ↦
          let counter = o.instance_counter + 1 in
          let name = join_host_port (fake_ip counter) port in
          (
            record o {
              instance_counter = counter;
              instance_map = insert address name o.instance_map;
            },
            name,
          )
    ]
  ]
