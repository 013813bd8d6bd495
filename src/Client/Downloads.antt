-- ===== src/Client/Downloads.antt =====
-- The download at a file system that is a stack of temporary files, and at two answers.
use file_extractor.Base.{String, ◌≡◌, refl, none, List, [], ◌∷◌}
use file_extractor.Base.Int.{pos}
use file_extractor.Base.Errors.{key_error, rate_limited}
use file_extractor.Base.Exec.{finally, Exec, ok, raised, ◌>>=◌}
use file_extractor.Base.Exec.Ensures.{Post}
use file_extractor.Client.Requests.{Http, Response, CatalogClient, handle_errors, handle_rate_limit}
use file_extractor.Client.Stream.{
  Streaming, read_chunks, write_chunks, fill, download_to, receive, filled, request_download_stream,
  consume, streamed, download_files_stream,
}
use file_extractor.Client.Temporary.{Temporaries}
use file_extractor.Client.Examples.{milliseconds, limiter, found, too_many}
use file_extractor.Retry.{
  done, execute, try_again, caught, retry_exhausted, sleep_rate_limit, calculate_retry_delay,
}

-- The state is the temporary files.
abbrev pub disk : Http milliseconds
disk = record {
  Net = List String;
  sleep = λ d n. n;
  get = λ url headers n. (ok found, n);
  post = λ url names headers n. (ok found, n);
  pause = λ t n. n;
  uniform = λ b n. (b, n);
  int_of = λ t. ok (pos 1);
  base_url = "http://localhost:8080";
  candidate_id = none;
}

abbrev pub unlinked : Exec (List String) (Unit {0})
unlinked [] = (raised (key_error "no file"), [])
unlinked (x ∷ xs) = (ok tt, xs)

abbrev pub drive : Response → Streaming disk
drive r = record {
  new_file = λ n. (ok "/tmp/a", "/tmp/a" ∷ n);
  open_write = λ p n. (ok tt, n);
  write = λ p bytes n. (ok tt, n);
  flush = λ p n. (ok tt, n);
  unlink = λ p. unlinked;
  read = λ p n. (ok (1 ∷ 2 ∷ 3 ∷ []), n);
  stream = λ url names headers n.
      (ok (r, record { chunks = (1 ∷ 2 ∷ []) ∷ (3 ∷ []) ∷ []; failure = none }), n);
  leave = λ n. (ok tt, n);
  close = λ p n. (ok tt, n);
}

drive_unlinks :
    (p : String) (rest : List String) (n : List String)
    → n ≡ p ∷ rest
    → Post (λ _ t. t ≡ rest) (λ t. ⊥) (unlinked n)
drive_unlinks p rest [] e = cc
drive_unlinks p rest (x ∷ xs) e = cc

pub drive-Temporaries : (r : Response) → Temporaries (drive r) (λ n. n)
drive-Temporaries r = record {
  sleeps = λ t n. refl;
  pauses = λ t n. refl;
  gets = λ url headers n. refl;
  posts = λ url names headers n. refl;
  draws = λ b n. refl;
  opens = λ p n. refl;
  writes = λ p bytes n. refl;
  flushes = λ p n. refl;
  reads = λ p n. refl;
  streams = λ url names headers n. refl;
  leaves = λ n. refl;
  closes = λ p n. refl;
  creates = λ n. refl;
  unlinks = drive_unlinks;
}

abbrev pub client : CatalogClient disk
client = record { rate_limiter = limiter; net = "/tmp/z" ∷ [] }

-- Two reads give the three bytes of the file; a server that limits the rate for ever is asked
-- twice, for a limit of one.
downloaded :
    (download_files_stream (drive found) (pos 1) (pos 1) 3 ("a" ∷ []) client).0
    ≡ done (ok ((1 ∷ 2 ∷ 3 ∷ []) ∷ []))
unfolding download_files_stream streamed consume request_download_stream fill download_to receive
    finally filled write_chunks handle_errors read_chunks execute try_again ◌>>=◌
downloaded = refl

refused :
    (download_files_stream (drive too_many) (pos 1) (pos 1) 3 ("a" ∷ []) client).0
    ≡ done (raised (rate_limited (pos 1)))
unfolding download_files_stream streamed consume request_download_stream fill download_to receive
    finally filled write_chunks handle_errors handle_rate_limit read_chunks execute try_again caught
    retry_exhausted sleep_rate_limit calculate_retry_delay ◌>>=◌
refused = refl
