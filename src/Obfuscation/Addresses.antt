-- ===== src/Obfuscation/Addresses.antt =====
-- obfuscator.go: the invented addresses of instances.
use vmgather.Prelude.{
  ℕ, ◌+◌, ◌≤◌, ◌<◌, ◌≡◌, ◌≢◌, refl, sym, ◌∙◌, ◌⊎◌, inl, inr, none, Text, All, All-map, lookup,
  Option-cases, arith,
}
use vmgather.Obfuscation.{
  Obfuscator, split_host_port, join_host_port, fake_ip, hash_string, obfuscate_instance,
}
use vmgather.Obfuscation.Names.{join_host_port-injective, hash_string-ne-join_host_port}
use vmgather.Prelude.Maps.{All-insert, Separated, insert-Separated}

-- Both addresses have no port that can be split off, so that both are replaced by digests.
abbrev pub BothHashed : Text → Text → Type 0
BothHashed a b = (split_host_port a ≡ none) × (split_host_port b ≡ none)

abbrev pub Apart : Text × Text → Text × Text → Type 0
Apart a b = (a.1 ≢ b.1) ⊎ BothHashed a.0 b.0

pub Apart-symm : (a b : Text × Text) → Apart a b → Apart b a
Apart-symm a b (inl h) = inl (λ e. h (sym e))
Apart-symm a b (inr h) = inr (h.1, h.0)

module _ (sha256 : Text → Text) where
  -- A digest, or an address whose number is up to the counter.
  pub data IsInstanceEntry (counter : ℕ) (e : Text × Text) : Type 0 where
    hashed : split_host_port e.0 ≡ none → e.1 ≡ hash_string sha256 e.0 → IsInstanceEntry counter e
    numbered :
        (n : ℕ) (port : Text)
        → e.1 ≡ join_host_port (fake_ip n) port
        → 0 < n
        → n ≤ counter
        → IsInstanceEntry counter e

  pub record IsInstancesDistinct (o : Obfuscator) : Type 0 where
    pub named : All (IsInstanceEntry o.instance_counter) o.instance_map
    pub distinct : Separated Apart o.instance_map

  IsInstanceEntry-suc :
      (counter : ℕ) (e : Text × Text) → IsInstanceEntry counter e → IsInstanceEntry (counter + 1) e
  IsInstanceEntry-suc counter e (hashed s h) = hashed s h
  IsInstanceEntry-suc counter e (numbered n port h p q) = numbered n port h p (omega arith)

  hash_is_new :
      (counter : ℕ) (address : Text) (e : Text × Text)
      → split_host_port address ≡ none
      → IsInstanceEntry counter e
      → Apart e (address, hash_string sha256 address)
  hash_is_new counter address e s (hashed t h) = inr (t, s)
  hash_is_new counter address e s (numbered n port h p q) =
      inl (λ same. hash_string-ne-join_host_port sha256 address n port (sym same ∙ h))

  number_is_new :
      (counter : ℕ) (address port : Text) (e : Text × Text)
      → IsInstanceEntry counter e
      → Apart e (address, join_host_port (fake_ip (counter + 1)) port)
  number_is_new counter address port e (hashed t h) =
      inl (λ same. hash_string-ne-join_host_port sha256 e.0 (counter + 1) port (sym h ∙ same))
  number_is_new counter address port e (numbered n port' h p q) = inl (λ same.
      let r = join_host_port-injective n (counter + 1) port' port p (omega arith) (sym h ∙ same) in
      omega (arith, r.0))

  pub obfuscate_instance-IsInstancesDistinct :
      (o : Obfuscator) (address : Text)
      → IsInstancesDistinct o
      → IsInstancesDistinct (obfuscate_instance sha256 o address).0
  unfolding obfuscate_instance
  obfuscate_instance-IsInstancesDistinct o address v =
      let k = o.instance_counter in
      let m = o.instance_map in
      elim (Option-cases (lookup address m)) [
        | inr (found, e) ↦ rw (e, obfuscate_instance) v
        | inl e ↦ elim (Option-cases (split_host_port address)) [
          | inl s ↦
              rw (e, obfuscate_instance)
                (rw (s, obfuscate_instance)
                  (record {
                    named =
                        All-insert (IsInstanceEntry k) address (hash_string sha256 address) m
                          (hashed s refl) v.named;
                    distinct =
                        insert-Separated Apart address (hash_string sha256 address) m e
                          (All-map (IsInstanceEntry k)
                            (λ a. Apart a (address, hash_string sha256 address)) m
                            (λ a p. hash_is_new k address a s p) v.named)
                          v.distinct;
                  }))
          | inr (port, s) ↦
              let name = join_host_port (fake_ip (k + 1)) port in
              rw (e, obfuscate_instance)
                (rw (s, obfuscate_instance)
                  (record {
                    named =
                        All-insert (IsInstanceEntry (k + 1)) address name m
                          (numbered (k + 1) port refl (omega arith) (omega arith))
                          (All-map (IsInstanceEntry k) (IsInstanceEntry (k + 1)) m
                            (IsInstanceEntry-suc k) v.named);
                    distinct =
                        insert-Separated Apart address name m e
                          (All-map (IsInstanceEntry k) (λ a. Apart a (address, name)) m
                            (λ a p. number_is_new k address port a p) v.named)
                          v.distinct;
                  }))
        ]
      ]
