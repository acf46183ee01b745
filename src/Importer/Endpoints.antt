-- ===== src/Importer/Endpoints.antt =====
-- internal/importer/server/server.go: the addresses of the import and of the queries, and the headers of a
-- request.
use vmgather.Prelude.{
  ℕ, not, ◌&&◌, List, [], ◌∷◌, ◌++◌, Option, none, some, Text, codes, contains, text_eq, to_lower,
  trim_space, if◌then◌else◌, insert, leb,
}
use vmgather.Prelude.Search.{has_suffix, replace_first, trim_right_byte}
use vmgather.Vm.Errors.{GoError, plain, wrap}
use vmgather.Importer.Defs.{UploadConfig}

-- What the code looks at in a `url.URL`.
pub record Url : Type 0 where
  pub scheme : Text
  pub user : Option Text
  pub host : Text
  pub path : Text
  pub raw_query : Text
  pub fragment : Text

-- `url.Parse` and `(*URL).String`.
pub record Urls : Type 0 where
  pub parse_url : Text → Option Url
  pub url_text : Url → Text
  pub parse_error : Text → GoError

-- The paths of the import and of the queries.
unfoldable pub compute_paths : Text → Text → Text × Text
unfolding contains has_suffix replace_first
compute_paths path tenant =
    let import_path =
      if has_suffix path (codes "/api/v1/import") then path else path ++ codes "/api/v1/import" in
    let query_path =
      if has_suffix path (codes "/api/v1/query") then path else path ++ codes "/api/v1/query" in
    if contains path (codes "/insert/")
    then (
      import_path,
      replace_first (replace_first import_path (codes "/insert/") (codes "/select/"))
          (codes "/api/v1/import") (codes "/api/v1/query"),
    )
    else if contains path (codes "/select/")
    then (
      replace_first (replace_first query_path (codes "/select/") (codes "/insert/"))
          (codes "/api/v1/query") (codes "/api/v1/import"),
      query_path,
    )
    else if not (text_eq tenant [])
    then (
      codes "/insert/" ++ (tenant ++ codes "/prometheus/api/v1/import"),
      codes "/select/" ++ (tenant ++ codes "/prometheus/api/v1/query"),
    )
    else (path ++ codes "/api/v1/import", path ++ codes "/api/v1/query")

-- A value or an error.
pub data Outcome {ℓ} (A : Type ℓ) : Type ℓ where
  done : A → Outcome A
  failed : GoError → Outcome A

abbrev pub parsed_endpoint : Urls → UploadConfig → Text → Option Url → Outcome (Text × Text)
parsed_endpoint urls cfg endpoint none =
    failed (wrap (codes "invalid endpoint") (urls.parse_error endpoint))
parsed_endpoint urls cfg endpoint (some parsed) =
    let bare = record parsed { raw_query = []; fragment = [] } in
    let (import_path, query_path) =
      compute_paths (trim_right_byte b'/' parsed.path) cfg.tenant_id in
    if not (text_eq parsed.scheme (codes "http")) && not (text_eq parsed.scheme (codes "https"))
    then failed (plain (codes "unsupported scheme " ++ (b'"' ∷ (parsed.scheme ++ (b'"' ∷ [])))))
    else done (
      urls.url_text (record bare { path = import_path }),
      urls.url_text (record bare { path = query_path }),
    )

-- The URLs of the import and of the queries.
unfoldable pub resolve_endpoints : Urls → UploadConfig → Outcome (Text × Text)
unfolding trim_space contains compute_paths trim_right_byte
resolve_endpoints urls cfg =
    let trimmed = trim_space cfg.endpoint in
    let endpoint = if contains trimmed (codes "://") then trimmed else codes "http://" ++ trimmed in
    if text_eq trimmed []
    then failed (plain (codes "endpoint is required"))
    else parsed_endpoint urls cfg endpoint (urls.parse_url endpoint)

pub data Method : Type 0 where
  get head post : Method

-- A request as the code builds it; `basic_auth` is what `SetBasicAuth` was given.
pub record Request : Type 0 where
  pub method : Method
  pub url : Text
  pub headers : List (Text × Text)
  pub basic_auth : Option (Text × Text)
  pub body : Text

unfoldable pub apply_tenant_headers : UploadConfig → Request → Request
unfolding insert
apply_tenant_headers cfg req = if text_eq cfg.tenant_id [] then req else record req {
  headers =
      insert (codes "X-Vm-TenantID") cfg.tenant_id
        (insert (codes "X-Vm-AccountID") cfg.tenant_id req.headers);
}

unfoldable pub apply_auth_headers : UploadConfig → Request → Request
unfolding insert to_lower
apply_auth_headers cfg req =
    let kind = to_lower cfg.auth_type in
    if text_eq kind (codes "bearer")
    then (if text_eq cfg.password [] then req else record req {
      headers = insert (codes "Authorization") (codes "Bearer " ++ cfg.password) req.headers;
    })
    else if text_eq kind (codes "header")
    then (if text_eq cfg.custom_header_name [] then req else record req {
      headers = insert cfg.custom_header_name cfg.custom_header_value req.headers;
    })
    else if text_eq cfg.username []
    then req
    else record req { basic_auth = some (cfg.username, cfg.password) }

-- A request with the headers of the configuration.
abbrev pub request : UploadConfig → Method → Text → List (Text × Text) → Text → Request
request cfg method url headers body = apply_auth_headers cfg (
    apply_tenant_headers cfg
      (record { method = method; url = url; headers = headers; basic_auth = none; body = body }))

-- An answer to a request: a status and as much of the body as is read; the texts are of the status line.
pub record Response : Type 0 where
  pub code : ℕ
  pub status : Text
  pub body : Text

-- `http.NewRequestWithContext` with `client.Do`; `sent` counts the requests before.
pub record Client : Type 0 where
  pub send : ℕ → Request → Outcome Response

-- `postImportChunk`
unfoldable pub post_import_chunk : Client → UploadConfig → Text → ℕ → Text → Outcome (ℕ × Text)
unfolding apply_auth_headers apply_tenant_headers trim_space
post_import_chunk client cfg import_url sent body =
    elim (client.send sent
      (request cfg post import_url ((codes "Content-Type", codes "application/jsonl") ∷ []) body)) [
        | failed e ↦ failed (wrap (codes "remote import failed") e)
        | done resp ↦
            if leb 300 resp.code
            then failed (
                plain (
                  codes "remote responded "
                  ++ (resp.status ++ (codes ": " ++ trim_space resp.body))))
            else done (resp.code, trim_space resp.body)
      ]

unfoldable pub ping_endpoint : Urls → Client → UploadConfig → ℕ → Option GoError
unfolding resolve_endpoints apply_auth_headers apply_tenant_headers trim_space
ping_endpoint urls client cfg sent = elim (resolve_endpoints urls cfg) [
  | failed e ↦ some e
  | done (import_url, query_url) ↦ elim (client.send sent (request cfg head import_url [] [])) [
    | failed e ↦ some (wrap (codes "dial failed") e)
    | done resp ↦
        if leb 400 resp.code
        then some (
            plain
              (codes "remote responded " ++ (resp.status ++ (codes ": " ++ trim_space resp.body))))
        else none
  ]
]
