-- ===== src/Importer/Bundles.antt =====
-- internal/importer/server/server.go: the metrics file and the metadata of an uploaded bundle.
use vmgather.Prelude.{
  ℕ, ◌+◌, ◌*◌, Bool, true, false, ◌||◌, List, [], ◌∷◌, ◌++◌, Option, none, some, Text, codes, ℤ,
  text_eq, to_lower, trim_space, if◌then◌else◌, leb, length,
}
use vmgather.Prelude.Search.{has_suffix}
use vmgather.Vm.Errors.{GoError, plain, wrap}
use vmgather.Importer.Defs.{BundleInfo}
use vmgather.Importer.Scanner.{scan_lines}
use vmgather.Importer.Endpoints.{Outcome, done, failed}

-- The time range of a bundle's metadata.
abbrev pub Metadata : Type 0
Metadata = Option ℤ × Option ℤ

-- An entry of a zip file: its content, or what opening or reading it fails with.
pub record ZipEntry : Type 0 where
  pub name : Text
  pub open_error : Option GoError
  pub read_error : Option GoError
  pub content : Text

-- Packages zip and os, and encoding/json on the metadata and on the keys of an object. `stage` keeps a
-- text in a temporary file and gives its path.
pub record Files : Type 0 where
  pub ext : Text → Text
  pub open_zip : Text → Outcome (List ZipEntry)
  pub decode_metadata : Text → Outcome Metadata
  pub object_keys : Text → Option (List Text)
  pub stage : Text → Outcome Text
  pub size : Text → Outcome ℕ

unfoldable pub parse_metadata_file : Files → ZipEntry → Outcome Metadata
parse_metadata_file files f = elim f.open_error [
  | some e ↦ failed (wrap (codes "failed to open metadata.json") e)
  | none ↦ elim (files.decode_metadata f.content) [
    | failed e ↦ failed (wrap (codes "failed to parse metadata.json") e)
    | done meta ↦ done meta
  ]
]

unfoldable pub has_key : Text → List Text → Bool
unfolding text_eq
has_key k [] = false
has_key k (j ∷ js) = text_eq j k || has_key k js

abbrev pub has_metric_key : Option (List Text) → Bool
has_metric_key none = false
has_metric_key (some keys) =
    has_key (codes "metric") keys
    || has_key (codes "labels") keys
    || has_key (codes "__name__") keys

-- Whether one of the first twenty lines that are not blank is a metric; none for a line that is too
-- long.
unfoldable pub likely_lines : Files → ℕ → List Text → Option Bool
unfolding trim_space has_key
likely_lines files checked [] = some false
likely_lines files checked (line ∷ lines) =
    let skipped = likely_lines files checked lines in
    let next = likely_lines files (checked + 1) lines in
    if leb (1024 * 1024) (length line)
    then none
    else if leb 20 checked
    then some false
    else if text_eq (trim_space line) []
    then skipped
    else if has_metric_key (files.object_keys (trim_space line))
    then some true
    else next

-- That the reading of a candidate fails half way is left out.
unfoldable pub is_likely_metrics_file : Files → ZipEntry → Outcome Bool
unfolding likely_lines scan_lines
is_likely_metrics_file files f = elim f.open_error [
  | some e ↦ failed (wrap (codes "failed to open " ++ f.name) e)
  | none ↦ elim (likely_lines files 0 (scan_lines f.content)) [
    | none ↦
        failed
          (wrap (codes "failed to scan " ++ f.name) (plain (codes "bufio.Scanner: token too long")))
    | some likely ↦ done likely
  ]
]

-- What the loop over the entries has found.
pub record Found : Type 0 where
  pub metrics_file : Option ZipEntry
  pub jsonl_candidates : List ZipEntry
  pub metadata : Option Metadata

abbrev pub with_metadata : Found → Outcome Metadata → Outcome Found
with_metadata found (failed e) = failed e
with_metadata found (done meta) = done (record found { metadata = some meta })

unfoldable pub find_entry : Files → Found → ZipEntry → Outcome Found
unfolding parse_metadata_file to_lower has_suffix
find_entry files found f =
    let name_lower = to_lower f.name in
    if text_eq name_lower (codes "metrics.jsonl")
    then done (record found { metrics_file = some f })
    else if text_eq name_lower (codes "metadata.json")
    then with_metadata found (parse_metadata_file files f)
    else if has_suffix name_lower (codes ".jsonl")
    then done (record found { jsonl_candidates = found.jsonl_candidates ++ (f ∷ []) })
    else done found

abbrev pub then_found : (Found → Outcome Found) → Outcome Found → Outcome Found
then_found k (failed e) = failed e
then_found k (done found) = k found

unfoldable pub find_entries : Files → Found → List ZipEntry → Outcome Found
unfolding find_entry
find_entries files found [] = done found
find_entries files found (f ∷ fs) =
    then_found (λ next. find_entries files next fs) (find_entry files found f)

abbrev pub missing_metrics : Option GoError → Outcome ZipEntry
missing_metrics none = failed (plain (codes "bundle is missing metrics data (.jsonl)"))
missing_metrics (some e) = failed e

abbrev pub judged :
    ZipEntry
    → (Option GoError → Outcome ZipEntry)
    → Option GoError
    → Outcome Bool
    → Outcome ZipEntry
judged f rest validation_error (failed e) = rest (some e)
judged f rest validation_error (done true) = done f
judged f rest validation_error (done false) = rest validation_error

-- The first candidate that is likely, or the last error of a check.
unfoldable pub pick_candidate : Files → List ZipEntry → Option GoError → Outcome ZipEntry
unfolding is_likely_metrics_file
pick_candidate files [] validation_error = missing_metrics validation_error
pick_candidate files (f ∷ fs) validation_error =
    judged f (pick_candidate files fs) validation_error (is_likely_metrics_file files f)

abbrev pub choose_metrics : Files → Found → Outcome ZipEntry
choose_metrics files found = elim found.metrics_file [
  | some f ↦ done f
  | none ↦ pick_candidate files found.jsonl_candidates none
]

abbrev pub start_of : Option Metadata → Option ℤ
start_of none = none
start_of (some (start, end)) = start

abbrev pub end_of : Option Metadata → Option ℤ
end_of none = none
end_of (some (start, end)) = end

-- The entry is copied to a temporary file.
abbrev pub extract : Files → ℕ → Option Metadata → ZipEntry → Outcome BundleInfo
extract files uploaded meta f = elim f.open_error [
  | some e ↦ failed (wrap (codes "failed to open metrics entry") e)
  | none ↦ elim f.read_error [
    | some e ↦ failed (wrap (codes "failed to extract metrics.jsonl") e)
    | none ↦ elim (files.stage f.content) [
      | failed e ↦ failed (wrap (codes "failed to prepare staging metrics file") e)
      | done path ↦ done (record {
        metrics_path = path;
        metadata_start = start_of meta;
        metadata_end = end_of meta;
        original_bytes = uploaded;
        extracted_bytes = length f.content;
        is_staged = true;
      })
    ]
  ]
]

abbrev pub chosen : Files → ℕ → Option Metadata → Outcome ZipEntry → Outcome BundleInfo
chosen files uploaded meta (failed e) = failed e
chosen files uploaded meta (done f) = extract files uploaded meta f

abbrev pub nothing_found : Found
nothing_found = record { metrics_file = none; jsonl_candidates = []; metadata = none }

abbrev pub found_bundle : Files → ℕ → Outcome Found → Outcome BundleInfo
found_bundle files uploaded (failed e) = failed e
found_bundle files uploaded (done found) =
    chosen files uploaded found.metadata (choose_metrics files found)

abbrev pub opened_bundle : Files → ℕ → Outcome (List ZipEntry) → Outcome BundleInfo
opened_bundle files uploaded (failed e) = failed (wrap (codes "cannot open zip bundle") e)
opened_bundle files uploaded (done entries) =
    found_bundle files uploaded (find_entries files nothing_found entries)

unfoldable pub prepare_zip_bundle : Files → Text → ℕ → Outcome BundleInfo
unfolding find_entries pick_candidate
prepare_zip_bundle files path uploaded = opened_bundle files uploaded (files.open_zip path)

-- A file that is no archive is the metrics file itself.
abbrev pub sized_bundle : Text → ℕ → Outcome ℕ → Outcome BundleInfo
sized_bundle path uploaded (failed e) = failed (wrap (codes "failed to stat bundle") e)
sized_bundle path uploaded (done size) = done (record {
  metrics_path = path;
  metadata_start = none;
  metadata_end = none;
  original_bytes = uploaded;
  extracted_bytes = size;
  is_staged = false;
})

abbrev pub plain_bundle : Files → Text → ℕ → Outcome BundleInfo
plain_bundle files path uploaded = sized_bundle path uploaded (files.size path)

unfoldable pub prepare_bundle : Files → Text → Text → ℕ → Outcome BundleInfo
unfolding prepare_zip_bundle to_lower has_suffix
prepare_bundle files path original_name uploaded =
    let extension = to_lower (files.ext original_name) in
    if text_eq extension (codes ".zip")
    then prepare_zip_bundle files path uploaded
    else if text_eq extension (codes ".jsonl") || text_eq extension (codes ".json")
    then plain_bundle files path uploaded
    else if has_suffix (to_lower path) (codes ".zip")
    then prepare_zip_bundle files path uploaded
    else plain_bundle files path uploaded
