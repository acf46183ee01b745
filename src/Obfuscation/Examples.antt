-- ===== src/Obfuscation/Examples.antt =====
-- The theorems on the obfuscator at concrete calls.
use vmgather.Prelude.{◌≡◌, ◌⊎◌, refl, List, [], ◌∷◌, Text, codes, lookup, insert, text_eq}
use vmgather.Obfuscation.{
  new_obfuscator, job_name, custom_name, split_host_port, hash_string, obfuscate_job,
  obfuscate_instance, obfuscate_custom_label,
}
use vmgather.Obfuscation.Addresses.{BothHashed}
use vmgather.Obfuscation.History.{
  Call, instance_call, job_call, custom_call, after, run, job_replacement-injective,
  instance_replacement-injective, custom_replacement-injective,
}
use vmgather.Obfuscation.Stable.{obfuscate_job_stable}

-- A digest for the runs: the text itself.
abbrev digest : Text → Text
digest s = s

abbrev app : Text
app = codes "app"

abbrev pod : Text
pod = codes "pod"

abbrev calls : List Call
calls = job_call app (codes "vmagent") ∷ custom_call pod (codes "p") ∷ instance_call app ∷ []

job_replacement-injective_example : app ≡ app
unfolding run after new_obfuscator obfuscate_job obfuscate_instance obfuscate_custom_label lookup
    insert text_eq split_host_port
job_replacement-injective_example =
    job_replacement-injective digest calls app app (job_name (codes "vmagent") 1) refl refl

custom_replacement-injective_example : codes "p" ≡ codes "p"
unfolding run after new_obfuscator obfuscate_job obfuscate_instance obfuscate_custom_label lookup
    insert text_eq split_host_port
custom_replacement-injective_example =
    custom_replacement-injective digest calls pod (codes "p") (codes "p") (custom_name pod 1) refl
      refl

instance_replacement-injective_example : (app ≡ app) ⊎ BothHashed app app
unfolding run after new_obfuscator obfuscate_job obfuscate_instance obfuscate_custom_label lookup
    insert text_eq split_host_port
instance_replacement-injective_example =
    instance_replacement-injective digest calls app app (hash_string digest app) refl refl

obfuscate_job_stable_example :
    (obfuscate_job
      (run digest (obfuscate_job new_obfuscator app (codes "vmagent")).0 calls)
      app
      (codes "vmalert")).1
    ≡ (obfuscate_job new_obfuscator app (codes "vmagent")).1
obfuscate_job_stable_example =
    obfuscate_job_stable digest new_obfuscator app (codes "vmagent") (codes "vmalert") calls
