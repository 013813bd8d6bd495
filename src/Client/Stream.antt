-- ===== src/Client/Stream.antt =====
-- app/infrastructure/external_api/catalog_client.py: the download of an archive by way of a
-- temporary file, `download_files_stream` and `_request_download_stream`.
use file_extractor.Base.{
  ℕ, zero, suc, String, ◌<>◌, Option, none, some, List, [], ◌∷◌, length, take, drop, is_empty,
  if◌then◌else◌,
}
use file_extractor.Base.Int.{ℤ}
use file_extractor.Base.Errors.{Error}
use file_extractor.Base.Exec.{
  Exec, Result, ok, raised, pure, raise, finally, lift, attempt, ◌>>=◌, ◌>>◌,
}
use file_extractor.Client.Limiter.{Floats}
use file_extractor.Client.Requests.{
  Http, Response, CatalogClient, client_retry, success, wait, on_net, handle_errors, client_outside,
}
use file_extractor.Retry.{Tried, done, going_on, execute}

-- What iterating over `response.aiter_bytes()` yields: chunks, and perhaps an exception behind them.
pub record Body : Type 0 where
  pub chunks : List (List ℕ)
  pub failure : Option Error

-- Files of the operating system, by their paths, and the streamed request.
pub record Streaming {f : Floats} (h : Http f) : Type 0 where
  -- `tempfile.NamedTemporaryFile(delete=False)`, and leaving its block
  pub new_file : Exec h.Net String
  pub open_write : String → Exec h.Net (Unit {0})
  pub write : String → List ℕ → Exec h.Net (Unit {0})
  pub flush : String → Exec h.Net (Unit {0})
  pub unlink : String → Exec h.Net (Unit {0})
  -- the bytes that reading a file to its end gives
  pub read : String → Exec h.Net (List ℕ)
  pub stream : String → List String → List (String × String) → Exec h.Net (Response × Body)
  -- leaving the block of the request, and that of the file
  pub leave : Exec h.Net (Unit {0})
  pub close : String → Exec h.Net (Unit {0})

-- The size of a read.
abbrev pub read_size : ℕ
read_size = 65536

-- `while True: chunk = await f.read(size)`, until a chunk is empty; a read for each unit of fuel.
unfoldable pub read_chunks : ℕ → ℕ → List ℕ → List (List ℕ)
read_chunks zero size bytes = []
read_chunks (suc fuel) size bytes =
    let chunk = take size bytes in
    let rest = read_chunks fuel size (drop size bytes) in
    if is_empty chunk then [] else chunk ∷ rest

module _ {f : Floats} {h : Http f} (io : Streaming h) where
  -- `async for chunk in response.aiter_bytes(): await f.write(chunk)`
  unfoldable pub write_chunks : String → List (List ℕ) → Exec (CatalogClient h) (Unit {0})
  write_chunks name [] = pure tt
  write_chunks name (c ∷ cs) = do on_net (io.write name c); write_chunks name cs

  abbrev pub raise_some : Option Error → Exec (CatalogClient h) (Unit {0})
  raise_some none = pure tt
  raise_some (some e) = raise e

  -- The block of the request: the body as it was streamed, for a response without an error.
  unfoldable pub receive : String → Response × Body → Exec (CatalogClient h) (Unit {0})
  receive name (response, body) = do
    handle_errors response
    write_chunks name body.chunks
    raise_some body.failure

  -- The block of the file.
  unfoldable pub download_to :
      String → List String → List (String × String) → Exec (CatalogClient h) (Unit {0})
  download_to name file_names headers = do
    found ← on_net (io.stream (h.base_url <> "/api/files/download") file_names headers)
    finally (on_net io.leave) (receive name found)
    on_net (io.flush name)

  -- Both within `try:`.
  unfoldable pub fill :
      String → List String → List (String × String) → Exec (CatalogClient h) (Unit {0})
  fill name file_names headers = do
    on_net (io.open_write name)
    finally (on_net (io.close name)) (download_to name file_names headers)

  -- The end of `try:`, and `except Exception:`.
  unfoldable pub filled : String → Result (Unit {0}) → Exec (CatalogClient h) String
  filled name (ok u) = success >> pure name
  filled name (raised e) = on_net (io.unlink name) >> raise e

  -- `_request_download_stream`
  unfoldable pub request_download_stream :
      List String → List (String × String) → Exec (CatalogClient h) String
  request_download_stream file_names headers = do
    wait
    name ← on_net io.new_file
    r ← attempt (fill name file_names headers)
    filled name r

  -- `try:` with the reads, and `finally:`; an exception of `unlink` takes the place of another.
  unfoldable pub consume : String → Exec (CatalogClient h) (List ℕ)
  consume path = do r ← attempt (on_net (io.read path)); on_net (io.unlink path); lift r

  -- `download_files_stream`, once the executor has its outcome.
  unfoldable pub streamed : Tried String × CatalogClient h → Tried (List (List ℕ)) × CatalogClient h
  streamed (going_on, c) = (going_on, c)
  streamed (done (raised e), c) = (done (raised e), c)
  streamed (done (ok path), c) =
      let (r, d) = consume path c in
      (
        done (elim r [
          | ok bytes ↦ ok (read_chunks (suc (length bytes)) read_size bytes)
          | raised e ↦ raised e
        ]),
        d,
      )

  -- `download_files_stream`, read to its end.
  unfoldable pub download_files_stream :
      ℤ → ℤ → ℕ → List String → CatalogClient h → Tried (List (List ℕ)) × CatalogClient h
  download_files_stream max_retries rate_limit_retries fuel file_names c = streamed (
      execute client_outside (client_retry max_retries rate_limit_retries)
        (request_download_stream file_names (("Content-Type", "application/json") ∷ [])) fuel c)
