-- ===== src/Archive/Imported.antt =====
-- writer.go: an archive as the importer reads it.
use vmgather.Prelude.{
  ℕ, ◌≡◌, refl, sym, ap, ◌∙◌, true, List, [], ◌∷◌, Option, none, some, Text, codes, ℤ, length,
  text_eq, to_lower,
}
use vmgather.Prelude.Search.{has_suffix}
use vmgather.Vm.Errors.{GoError}
use vmgather.Export.Backend.{Result, ok, fail}
use vmgather.Export.Service.{ArchiveMetadata}
use vmgather.Importer.Endpoints.{Outcome, done}
use vmgather.Importer.Bundles.{
  ZipEntry, Files, Metadata, Found, then_found, with_metadata, nothing_found, extract, found_bundle,
  opened_bundle, find_entries, find_entry, parse_metadata_file, prepare_zip_bundle,
}
use vmgather.Archive.{
  Device, generate_readme, public_metadata, archive_entries, Created, summed, unless_failed,
  create_archive,
}

-- The entries as the importer finds them.
unfoldable pub zip_entries : List (Text × Text) → List ZipEntry
zip_entries [] = []
zip_entries ((name, content) ∷ es) =
    record { name = name; open_error = none; read_error = none; content = content } ∷ zip_entries es

ok_injective : {A : Type 0} (a b : A) → ok a ≡ ok b → a ≡ b
ok_injective a b e = cc

created_entries :
    (path : Text) (entries : List (Text × Text)) (o : Option GoError) (r : Result Text)
    (a : Created)
    → unless_failed o (summed path entries r) ≡ ok a
    → a.entries ≡ entries
created_entries path entries (some e) r a h = cc
created_entries path entries none (fail e) a h = cc
created_entries path entries none (ok sum) a h =
    ap (λ (c : Created). c.entries)
      (sym (ok_injective (record { path = path; sha256 = sum; entries = entries }) a h))

abbrev entry : Text → Text → ZipEntry
entry name content = record { name = name; open_error = none; read_error = none; content = content }

module _ (device : Device) (files : Files) (metrics staged : Text) (md : ArchiveMetadata)
    (start end : Option ℤ)
    (decoded : files.decode_metadata (device.encode_metadata (public_metadata md))
      ≡ done (start, end))
    (kept : files.stage metrics ≡ done staged) where
  abbrev metadata_entry : ZipEntry
  metadata_entry = entry (codes "metadata.json") (device.encode_metadata (public_metadata md))

  abbrev found_of : Option Metadata → Found
  found_of meta = record {
    metrics_file = some (entry (codes "metrics.jsonl") metrics);
    jsonl_candidates = [];
    metadata = meta;
  }

  parsed : parse_metadata_file files metadata_entry ≡ done (start, end)
  unfolding parse_metadata_file
  parsed = rw (decoded) refl

  found_entries :
      find_entries files nothing_found (zip_entries (archive_entries device metrics md))
      ≡ done (found_of (some (start, end)))
  unfolding find_entries find_entry zip_entries text_eq to_lower has_suffix
  found_entries =
      ap
        (λ (r : Outcome Metadata).
          then_found
            (λ next.
              find_entries files next (entry (codes "README.txt") (generate_readme device md) ∷ []))
            (with_metadata (found_of none) r))
        parsed

  staged_bundle :
      (uploaded : ℕ)
      → extract files uploaded (some (start, end)) (entry (codes "metrics.jsonl") metrics)
        ≡ done (record {
          metrics_path = staged;
          metadata_start = start;
          metadata_end = end;
          original_bytes = uploaded;
          extracted_bytes = length metrics;
          is_staged = true;
        })
  staged_bundle uploaded = rw (kept) refl

-- An archive that was made of an export, and that can be opened, is prepared by the importer as a bundle
-- with the metrics of the export: its metadata can be decoded as `range`, and the metrics are staged.
pub prepare_zip_bundle-create_archive :
    (device : Device) (files : Files) (output_dir export_id metrics path staged : Text)
    (md : ArchiveMetadata) (a : Created) (uploaded : ℕ) (start end : Option ℤ)
    → create_archive device output_dir export_id (ok metrics) md ≡ ok a
    → files.open_zip path ≡ done (zip_entries a.entries)
    → files.decode_metadata (device.encode_metadata (public_metadata md)) ≡ done (start, end)
    → files.stage metrics ≡ done staged
    → prepare_zip_bundle files path uploaded
      ≡ done (record {
        metrics_path = staged;
        metadata_start = start;
        metadata_end = end;
        original_bytes = uploaded;
        extracted_bytes = length metrics;
        is_staged = true;
      })
unfolding create_archive prepare_zip_bundle
prepare_zip_bundle-create_archive device files output_dir export_id metrics path staged md a
      uploaded start end created opened decoded kept =
    ap (opened_bundle files uploaded) (
      opened
      ∙ ap (λ es. done (zip_entries es))
          (created_entries _ (archive_entries device metrics md) _ (device.calculate_sha256 _) a
            created))
    ∙ ap (found_bundle files uploaded)
        (found_entries device files metrics staged md start end decoded kept)
    ∙ staged_bundle device files metrics staged md start end decoded kept uploaded
