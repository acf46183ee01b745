-- ===== src/Lib.antt =====
-- A model of vmgather, which exports metrics of VictoriaMetrics into an archive.
-- An export request is completed by the defaults (`Defaults`), its time range is cut into windows
-- (`Batching`), and the export service (`Export`) fetches window by window, obfuscates the labels
-- (`Obfuscation`), appends the lines to a staging file and makes an archive of it. When the server
-- refuses a window, the kind of the error (`Vm`) decides whether the export falls back to query_range,
-- splits by job or by time, or raises the step. The web server runs exports as jobs (`Jobs`), which
-- can be canceled and resumed and which get the progress reports; before an export it looks for the
-- components of the server (`Discovery`). A second server (`Importer`) takes such an archive
-- (`Archive`), looks at its lines, and streams them in chunks into another database; an import that
-- failed can be resumed where it stopped.
--   * Prelude: Boolean tests, lists, integers, texts, maps and decimal numbers that the parts share.
--   * Domain: internal/domain/types.go. Times are nanoseconds, `int` and `time.Duration` are integers
--     (products of durations wrap at 64 bits), a string is the list of its bytes.
--   * Batching: internal/application/services/batching.go (`CalculateBatchWindows`,
--     `RecommendedMetricStepSeconds`). The loop takes fuel, one round for each nanosecond of the range;
--     that is enough since each round moves the start.
--   * Defaults: internal/application/services/export_defaults.go (`ApplyExportDefaults`,
--     `normalizeStepLadder`), with `applyExportServiceDefaults` and `nextAutopilotStep` of
--     export_service.go.
--   * Obfuscation: internal/infrastructure/obfuscation/obfuscator.go; `Obfuscation.History` runs any list
--     of calls. The digest of SHA-256 is a parameter.
--   * Vm: internal/infrastructure/vm/errors.go, with `classifyResponseError` and `HintForError` of
--     client.go. An error is a tree of wrappings.
--   * Jobs: internal/server/export_jobs.go and internal/application/services/progress.go. A method that
--     holds the lock is one step; `Jobs.World` has the goroutines of the jobs, so that a list of
--     actions is an interleaving of the requests with the goroutines.
--   * Export: internal/application/services/export_service.go and `buildJobFilterSelector` of
--     vm_service.go. `Export.Backend` and the record `Host` of `Export.Service` hold what the code asks of
--     the server, of the file system, of its context and of the archive writer (writer.go); the answers
--     may differ from call to call. The staging file is the list of its lines. The recursion of
--     `exportWindowAdaptive` takes fuel; `Export.Rounds` counts the rounds that an attempt has left: a
--     split by job, the fall back, the raises of the step, and after each raise all splits by time.
--     `query_chunks` has fuel for each nanosecond, which is enough since each chunk moves the start.
--   * Archive: internal/infrastructure/archive/writer.go; `Archive.Imported` reads the archive with the
--     importer.
--   * Discovery: internal/application/services/vm_service.go: the components and jobs of a server, samples and
--     estimates. The answers to the queries of the client are parameters; queries are numbered.
--   * Importer: internal/importer/server/server.go. `Timestamps` and `DropLabels` have what is done to a
--     line, `Scanner` has bufio.Scanner, `Lines`, `Stream` and `Import` are `streamImport`, `Analyze` and
--     `Analysis` are `analyzeBundle`; `Endpoints`, `Retention`, `Bundles` and `Verify` have what a job
--     asks of its target and of its files, `Jobs` is `runImportJob` with the requests about jobs,
--     `Profiles` are the recent profiles, and `Requests` has the other handlers. A file is its bytes and a
--     `float64` the text that it is parsed from. A run of a job holds all states of the job that a
--     request may see; the requests that it sends are numbered, and the answers may differ from one
--     number to the next. JSON, URLs, zip files and the file system are parameters (`Codec`, `Urls`,
--     `Files`, `Client`, `Formats`). Reading a file may fail between two lines of an import, not in a line
--     and not in an analysis.
-- Not modelled: the HTTP clients and the decoding of JSON and of requests, the
-- commands (input and output), the pages of the importer, the logging, the build tool and the tools of the test environment.
pub mod Prelude
pub mod Domain
pub mod Batching
pub mod Defaults
pub mod Obfuscation
pub mod Jobs
pub mod Vm
pub mod Export
pub mod Importer
pub mod Discovery
pub mod Archive
