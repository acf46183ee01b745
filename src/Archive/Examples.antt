-- ===== src/Archive/Examples.antt =====
-- The theorems on archives at a concrete export.
use vmgather.Prelude.{
  ◌≡◌, refl, true, false, [], ◌∷◌, none, Text, codes, pos, length, text_eq, trim_space,
}
use vmgather.Export.Backend.{ok}
use vmgather.Export.Service.{ArchiveMetadata}
use vmgather.Importer.Endpoints.{done}
use vmgather.Importer.Bundles.{Files, prepare_zip_bundle}
use vmgather.Archive.{Device, Created, archive_entries, create_archive}
use vmgather.Archive.Imported.{zip_entries, prepare_zip_bundle-create_archive}

abbrev device : Device
device = record {
  timestamp = codes "20240102_030405";
  rfc3339 = λ t. codes "2024-01-02T03:04:05Z";
  join_path = λ dir name. name;
  encode_metadata = λ md. md.export_id;
  mkdir_all = λ dir. none;
  create_file = λ path. none;
  write_entry = λ name. none;
  close_zip = none;
  calculate_sha256 = λ path. ok (codes "00");
}

abbrev metadata : ArchiveMetadata
metadata = record {
  export_id = codes "e1";
  export_date = 0;
  time_range = record { start = 0; end = 1 };
  components = codes "vmagent" ∷ [];
  jobs = [];
  metrics_count = 1;
  obfuscated = true;
  instance_map = (codes "10.0.0.1", codes "777.777.1.1") ∷ [];
  job_map = [];
  adaptive_mode = [];
  metric_step_seconds = pos 0;
  max_metric_step_seconds = pos 0;
  sampled = false;
  adaptive_decisions = [];
  vmgather_version = codes "1.0";
}

abbrev metrics : Text
metrics = codes "{}"

abbrev archive : Created
archive = record {
  path = codes "vmexport_e1_20240102_030405.zip";
  sha256 = codes "00";
  entries = archive_entries device metrics metadata;
}

abbrev files : Files
files = record {
  ext = λ path. codes ".zip";
  open_zip = λ path. done (zip_entries archive.entries);
  decode_metadata = λ s. done (none, none);
  object_keys = λ s. none;
  stage = λ s. done (codes "/tmp/m.jsonl");
  size = λ path. done 2;
}

prepare_zip_bundle-create_archive_example :
    prepare_zip_bundle files (codes "up.zip") 7
    ≡ done (record {
      metrics_path = codes "/tmp/m.jsonl";
      metadata_start = none;
      metadata_end = none;
      original_bytes = 7;
      extracted_bytes = length metrics;
      is_staged = true;
    })
unfolding create_archive text_eq trim_space
prepare_zip_bundle-create_archive_example =
    prepare_zip_bundle-create_archive device files (codes "out") (codes "e1") metrics
      (codes "up.zip") (codes "/tmp/m.jsonl") metadata archive 7 none none refl refl refl refl
