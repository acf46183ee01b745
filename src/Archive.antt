-- ===== src/Archive.antt =====
-- internal/infrastructure/archive/writer.go: the archive of an export. What the file of an archive holds after a
-- failure is left out.
pub mod Imported
mod Examples
use vmgather.Prelude.{
  ℕ, Bool, true, false, ◌||◌, List, [], ◌∷◌, ◌++◌, Option, none, some, Text, codes, ℤ, ltb, ◌==◌,
  if◌then◌else◌, text_eq, trim_space, map,
}
use vmgather.Prelude.Decimal.{format}
use vmgather.Domain.{TimeRange}
use vmgather.Vm.Errors.{GoError, plain, wrap}
use vmgather.Export.Backend.{Result, ok, fail}
use vmgather.Export.Process.{Decision}
use vmgather.Export.Service.{ArchiveMetadata}

-- strings.ContainsAny
unfoldable pub contains_any : Text → Text → Bool
contains_any [] chars = false
contains_any (c ∷ s) chars = has_byte c chars || contains_any s chars
  where
    has_byte : ℕ → Text → Bool
    has_byte c [] = false
    has_byte c (d ∷ ds) = c == d || has_byte c ds

unfoldable pub has_control : Text → Bool
has_control [] = false
has_control (c ∷ s) = ltb c 32 || c == 127 || has_control s

abbrev pub separators : Text
separators = b'/' ∷ 92 ∷ []

abbrev pub forbidden : Text
forbidden = codes "<>:\"|?*"

unfoldable pub validate_export_id : Text → Option GoError
unfolding trim_space text_eq contains_any has_control
validate_export_id export_id =
    if text_eq (trim_space export_id) []
    then some (plain (codes "export ID cannot be empty"))
    else if contains_any export_id separators
    then some (plain (codes "export ID must not contain path separators"))
    else if contains_any export_id forbidden
    then some (plain (codes "export ID contains invalid filename characters"))
    else if has_control export_id
    then some (plain (codes "export ID contains control characters"))
    else none

-- What of the metadata goes into the archive.
pub record ArchiveMetadataPublic : Type 0 where
  pub export_id : Text
  pub export_date : ℕ
  pub time_range : TimeRange
  pub components : List Text
  pub jobs : List Text
  pub metrics_count : ℕ
  pub obfuscated : Bool
  pub adaptive_mode : Text
  pub metric_step_seconds : ℤ
  pub max_metric_step_seconds : ℤ
  pub sampled : Bool
  pub adaptive_decisions : List Decision
  pub vmgather_version : Text

abbrev pub public_metadata : ArchiveMetadata → ArchiveMetadataPublic
public_metadata md = record {
  export_id = md.export_id;
  export_date = md.export_date;
  time_range = md.time_range;
  components = md.components;
  jobs = md.jobs;
  metrics_count = md.metrics_count;
  obfuscated = md.obfuscated;
  adaptive_mode = md.adaptive_mode;
  metric_step_seconds = md.metric_step_seconds;
  max_metric_step_seconds = md.max_metric_step_seconds;
  sampled = md.sampled;
  adaptive_decisions = md.adaptive_decisions;
  vmgather_version = md.vmgather_version;
}

-- Packages os, filepath, zip and sha256, each with what it fails with; encoding/json on the metadata, and
-- the texts of times.
pub record Device : Type 0 where
  pub timestamp : Text
  pub rfc3339 : ℕ → Text
  pub join_path : Text → Text → Text
  pub encode_metadata : ArchiveMetadataPublic → Text
  pub mkdir_all : Text → Option GoError
  pub create_file : Text → Option GoError
  pub write_entry : Text → Option GoError
  pub close_zip : Option GoError
  pub calculate_sha256 : Text → Result Text

unfoldable pub component_lines : List Text → Text
component_lines [] = []
component_lines (c ∷ cs) = codes "  - " ++ (c ++ (codes "\n" ++ component_lines cs))

unfoldable pub generate_readme : Device → ArchiveMetadata → Text
unfolding component_lines
generate_readme device md =
    let warning =
      codes "\n[WARN] OBFUSCATION APPLIED\n"
      ++ codes "Instance IPs and job names have been obfuscated for privacy.\n" in
    codes "VictoriaMetrics Metrics Export\n================================\n\nExport ID: "
    ++ (md.export_id
        ++ (codes "\nExport Date: "
            ++ (device.rfc3339 md.export_date
                ++ (codes "\nTime Range: "
                    ++ (device.rfc3339 md.time_range.start
                        ++ (codes " to "
                            ++ (device.rfc3339 md.time_range.end
                                ++ (codes "\n\nComponents Exported:\n"
                                    ++ (component_lines md.components
                                        ++ (codes "\nTotal Metrics: "
                                            ++ (format md.metrics_count
                                                ++ (codes "\n"
                                                    ++ ((if md.obfuscated then warning else [])
                                                        ++ (codes "\nFiles in this archive:\n"
                                                            ++ (codes
                                                            "  - metrics.jsonl: Exported metrics in JSONL format\n"
                                                            ++ (codes
                                                            "  - metadata.json: Export metadata\n"
                                                            ++ (codes "  - README.txt: This file\n"
                                                            ++ (codes
                                                            "\nFor support inquiries, send this archive to VictoriaMetrics Support Team.\n"
                                                            ++ (codes "Generated by vmgather v"
                                                            ++ (md.vmgather_version
                                                            ++ codes "\n"))))))))))))))))))))

-- The names and contents of the entries, in their order.
abbrev pub archive_entries : Device → Text → ArchiveMetadata → List (Text × Text)
archive_entries device metrics md =
    (codes "metrics.jsonl", metrics)
    ∷ (codes "metadata.json", device.encode_metadata (public_metadata md))
    ∷ (codes "README.txt", generate_readme device md)
    ∷ []

abbrev pub named : Text → Option GoError → Option GoError
named prefix none = none
named prefix (some e) = some (wrap prefix e)

unfoldable pub first_error : List (Option GoError) → Option GoError
first_error [] = none
first_error (none ∷ es) = first_error es
first_error (some e ∷ es) = some e

abbrev pub read_error : Result Text → Option GoError
read_error (ok s) = none
read_error (fail e) = some e

abbrev pub text_of : Result Text → Text
text_of (ok s) = s
text_of (fail e) = []

-- The archive that was made.
pub record Created : Type 0 where
  pub path : Text
  pub sha256 : Text
  pub entries : List (Text × Text)

abbrev pub archive_name : Device → Text → Text
archive_name device export_id =
    codes "vmexport_" ++ (export_id ++ (codes "_" ++ (device.timestamp ++ codes ".zip")))

abbrev pub summed : Text → List (Text × Text) → Result Text → Result Created
summed path entries (fail e) = fail (wrap (codes "failed to calculate SHA256") e)
summed path entries (ok sum) = ok (record { path = path; sha256 = sum; entries = entries })

abbrev pub unless_failed : Option GoError → Result Created → Result Created
unless_failed (some e) r = fail e
unless_failed none r = r

-- The steps in their order; the first error is returned. `metrics` is what reading the metrics gives.
unfoldable pub create_archive :
    Device → Text → Text → Result Text → ArchiveMetadata → Result Created
unfolding validate_export_id generate_readme first_error
create_archive device output_dir export_id metrics md =
    let path = device.join_path output_dir (archive_name device export_id) in
    unless_failed
      (first_error (
        validate_export_id export_id
        ∷ named (codes "failed to create output directory") (device.mkdir_all output_dir)
        ∷ named (codes "failed to create archive file") (device.create_file path)
        ∷ named (codes "failed to add metrics") (device.write_entry (codes "metrics.jsonl"))
        ∷ named (codes "failed to add metrics") (read_error metrics)
        ∷ named (codes "failed to add metadata") (device.write_entry (codes "metadata.json"))
        ∷ named (codes "failed to add README") (device.write_entry (codes "README.txt"))
        ∷ named (codes "failed to close zip writer") device.close_zip
        ∷ []))
      (summed path (archive_entries device (text_of metrics) md) (device.calculate_sha256 path))
