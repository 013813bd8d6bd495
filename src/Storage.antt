-- ===== src/Storage.antt =====
-- app/infrastructure/storage/s3_storage.py: the object storage over a client of S3, which is a
-- parameter.
pub mod Last
pub mod Examples
use file_extractor.Base.{ℕ, String, Option, none, some, List, concat}
use file_extractor.Base.Int.{ℤ}
use file_extractor.Base.Exec.{Exec, Result, ok, raised, pure, lift, attempt, within, ◌>>=◌, ◌>>◌}

-- The session, its client and the setting that is read. `create_client` and `leave_client` are the
-- ends of `async with self._session.create_client(...)`.
pub record S3 : Type 1 where
  pub State : Type 0
  pub Body : Type 0
  pub bucket_name : String
  pub create_client : Exec State (Unit {0})
  pub leave_client : Exec State (Unit {0})
  pub put_object : String → String → List ℕ → Exec State (Unit {0})
  pub delete_object : String → String → Exec State (Unit {0})
  pub presigned_url : String → String → ℤ → Exec State String
  -- `response["Body"]` of `get_object`, and `read` on it
  pub get_object : String → String → Exec State Body
  pub read_body : Body → Exec State (List ℕ)
  -- `bytes.decode("utf-8")`
  pub decode : List ℕ → Result String

-- `except Exception: return None`
abbrev pub or_no_text : Result String → Option String
or_no_text (ok text) = some text
or_no_text (raised e) = none

module _ (c : S3) where
  abbrev pub with_client : {A : Type 0} → Exec c.State A → Exec c.State A
  with_client = within c.create_client c.leave_client

  -- The stream is what iterating over it does: its chunks, or an exception. The length is only
  -- logged.
  unfoldable pub upload_stream : Exec c.State (List (List ℕ)) → String → ℕ → Exec c.State String
  upload_stream stream key length =
      with_client do chunks ← stream; c.put_object c.bucket_name key (concat chunks); pure key

  unfoldable pub delete : String → Exec c.State (Unit {0})
  delete key = with_client (c.delete_object c.bucket_name key)

  unfoldable pub get_download_url : String → ℤ → Exec c.State String
  get_download_url key expires_in = with_client (c.presigned_url c.bucket_name key expires_in)

  -- The body of `try:` in `download`.
  unfoldable pub get_text : String → Exec c.State String
  get_text key = do
    body ← c.get_object c.bucket_name key
    content ← c.read_body body
    lift (c.decode content)

  unfoldable pub download : String → Exec c.State (Option String)
  download key = with_client (do r ← attempt (get_text key); pure (or_no_text r))
