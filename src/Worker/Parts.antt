-- ===== src/Worker/Parts.antt =====
-- app/worker/celery_tasks.py: the handler is given `CatalogClient`, `ZipProcessor` and `S3Storage`.
use file_extractor.Base.{ℕ, suc, ◌+◌, ◌<◌, [], ◌∷◌, arith}
use file_extractor.Base.Int.{pos}
use file_extractor.Base.Exec.{Exec, Result, ok}
use file_extractor.Archive.{Zip, extract_stream}
use file_extractor.Client.Limiter.{Floats}
use file_extractor.Client.Requests.{Http, CatalogClient, get_file_names, mark_downloaded}
use file_extractor.Client.Stream.{Streaming, download_files_stream}
use file_extractor.Client.Outcomes.{get_file_names-IsDone}
use file_extractor.Client.Clean.{mark_downloaded-IsDone, download_files_stream-IsDone}
use file_extractor.Download.Ports.{World}
use file_extractor.Retry.{Tried, done, going_on}
use file_extractor.Retry.Bounds.{IsDone}
use file_extractor.Storage.{S3}
use file_extractor.Storage
use file_extractor.Worker.{Host}

-- The three objects, with their libraries: the state of the client and that of the storage are
-- parts of the world. The limits of the retries are those of the settings, neither negative.
pub record Parts (w : World) : Type 1 where
  pub floats : Floats
  pub http : Http floats
  pub io : Streaming http
  pub zip : Zip
  pub s3 : S3
  pub client : w.State → CatalogClient http
  pub with_client : CatalogClient http → w.State → w.State
  pub bucket : w.State → s3.State
  pub with_bucket : s3.State → w.State → w.State
  pub max_retries : ℕ
  pub rate_limit_retries : ℕ

-- What a call has come to.
abbrev pub outcome : {A : Type 0} (x : Tried A) → IsDone x → Result A
outcome (done r) p = r
outcome going_on p = absurd p

module _ (w : World) (p : Parts w) where
  -- One call more than all retries.
  abbrev pub calls : ℕ
  calls = suc (p.max_retries + p.rate_limit_retries)

  pub enough : p.max_retries + p.rate_limit_retries < calls
  enough = omega arith

  abbrev pub on_client :
      {A : Type 0} (m : CatalogClient p.http → Tried A × CatalogClient p.http)
      → ((c : CatalogClient p.http) → IsDone (m c).0)
      → Exec w.State A
  on_client m ends s = let c = p.client s in (outcome (m c).0 (ends c), p.with_client (m c).1 s)

  abbrev pub on_bucket : {A : Type 0} → Exec p.s3.State A → Exec w.State A
  on_bucket m s = let (r, b) = m (p.bucket s) in (r, p.with_bucket b s)

  -- The ports with the three objects put in. `content_stream` yields the content at once.
  abbrev pub with_parts : World
  with_parts = record w {
    get_file_names = λ candidate_id.
        on_client (get_file_names (pos p.max_retries) (pos p.rate_limit_retries) calls candidate_id)
          (λ c.
            get_file_names-IsDone p.http p.max_retries p.rate_limit_retries calls candidate_id c
              enough);
    extract = λ batch s.
        let (r, t) =
          on_client
            (download_files_stream p.io (pos p.max_retries) (pos p.rate_limit_retries) calls batch)
            (download_files_stream-IsDone p.max_retries p.rate_limit_retries calls enough p.io
              batch)
            s in
        (extract_stream p.zip r, t);
    mark_downloaded = λ batch candidate_id.
        on_client
          (mark_downloaded (pos p.max_retries) (pos p.rate_limit_retries) calls batch candidate_id)
          (mark_downloaded-IsDone p.max_retries p.rate_limit_retries calls enough batch
            candidate_id);
    upload_stream = λ content key length.
        on_bucket (Storage.upload_stream p.s3 (λ b. (ok (content ∷ []), b)) key length);
    delete_object = λ key. on_bucket (Storage.delete p.s3 key);
    download = λ key. on_bucket (Storage.download p.s3 key);
  }

-- The worker, whose handler is given the three objects.
abbrev pub assembled : (h : Host) → Parts h.ports → Host
assembled h p = record {
  ports = with_parts h.ports p;
  session = h.session;
  db = h.db;
  with_db = h.with_db;
  open_session = h.open_session;
  close_session = h.close_session;
  dispose = h.dispose;
  open_client = h.open_client;
  close_client = h.close_client;
}
