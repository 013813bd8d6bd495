-- ===== src/Client/Clean.antt =====
-- What every operation of `CatalogClient` leaves as it was: the temporary files, and the bounds of
-- the limiter's delay.
use file_extractor.Base.{ℕ, ◌+◌, ◌<◌, ◌≡◌, refl, ◌∙◌, String, Option, none, some, List, [], ◌∷◌}
use file_extractor.Base.Int.{ℤ, pos}
use file_extractor.Base.Errors.{Error}
use file_extractor.Base.Exec.{Exec, Result, ok, raised, attempt}
use file_extractor.Base.Exec.Ensures.{Keeps, Keeps-bind, Keeps-finally}
use file_extractor.Client.Limiter.{Floats, FloatLaws}
use file_extractor.Client.Handling.{
  pure-Keeps, lift-Keeps, raise-Keeps, keep_rules, handle_errors-Keeps,
}
use file_extractor.Client.Outcomes.{
  HasBounds, success-Keeps, wait-Keeps, on_net-Keeps, errors-Keeps,
}
use file_extractor.Client.Requests.{Response}
use file_extractor.Client.Requests.{
  Http, CatalogClient, client_retry, failure, on_net, safe_json, build_headers, client_outside,
  request_get_file_names, request_mark_downloaded, get_file_names, mark_downloaded,
}
use file_extractor.Client.Stream.{
  Streaming, write_chunks, raise_some, receive, download_to, Body, fill, filled,
  request_download_stream, consume, streamed, download_files_stream,
}
use file_extractor.Client.Temporary
use file_extractor.Client.Temporary.{Temporaries, Has}
use file_extractor.Retry.{Tried, done, going_on, execute}
use file_extractor.Retry.Bounds.{IsDone, execute-IsDone}
use file_extractor.Retry.Keeps.{execute_keeps}

module _ {f : Floats} {h : Http f} (io : Streaming h) (files : h.Net → List String)
    (laws : Temporaries io files) (base : List String) where
  abbrev Clean : CatalogClient h → Type 0
  Clean = Has io files laws base

  net-Keeps :
      {A : Type 0} (m : Exec h.Net A)
      → ((n : h.Net) → files (m n).1 ≡ files n)
      → Keeps Clean (on_net m)
  net-Keeps = Temporary.net-Keeps io files laws base

  failure-Clean : Keeps Clean failure
  failure-Clean = Temporary.failure-Keeps io files laws base

  names-Clean : (headers : List (String × String)) → Keeps Clean (request_get_file_names headers)
  unfolding request_get_file_names
  names-Clean headers = Keeps-bind _ _ (Temporary.wait-Keeps io files laws base) λ _.
      Keeps-bind _ _ (net-Keeps (h.get _ headers) (laws.gets _ headers)) λ r.
        Keeps-bind _ _ (handle_errors-Keeps Clean failure-Clean r) λ _.
          Keeps-bind _ _ (lift-Keeps Clean (safe_json r "get_file_names")) λ found.
            Keeps-bind _ _ (Temporary.success-Keeps io files laws base) λ _. pure-Keeps Clean _

  mark-Clean :
      (headers : List (String × String)) (names : List String)
      → Keeps Clean (request_mark_downloaded headers names)
  unfolding request_mark_downloaded
  mark-Clean headers names = Keeps-bind _ _ (Temporary.wait-Keeps io files laws base) λ _.
      Keeps-bind _ _ (net-Keeps (h.post _ names headers) (laws.posts _ names headers)) λ r.
        Keeps-bind _ _ (handle_errors-Keeps Clean failure-Clean r) λ _.
          Keeps-bind _ _ (lift-Keeps Clean (safe_json r "mark_downloaded")) λ found.
            Keeps-bind _ _ (Temporary.success-Keeps io files laws base) λ _. pure-Keeps Clean _

  pub get_file_names_cleans :
      (m l : ℤ) (fuel : ℕ) (candidate_id : Option String) (c : CatalogClient h)
      → Clean c
      → Clean (get_file_names m l fuel candidate_id c).1
  unfolding get_file_names
  get_file_names_cleans m l fuel candidate_id c p =
      execute_keeps {P = Clean} client_outside (client_retry m l)
        (request_get_file_names (build_headers h.candidate_id candidate_id))
        (names-Clean (build_headers h.candidate_id candidate_id)) (λ t d e. laws.pauses t d.net ∙ e)
        (λ b d e. laws.draws b d.net ∙ e) fuel c p

  pub mark_downloaded_cleans :
      (m l : ℤ) (fuel : ℕ) (names : List String) (candidate_id : Option String)
      (c : CatalogClient h)
      → Clean c
      → Clean (mark_downloaded m l fuel names candidate_id c).1
  unfolding mark_downloaded
  mark_downloaded_cleans m l fuel names candidate_id c p =
      execute_keeps {P = Clean} client_outside (client_retry m l)
        (request_mark_downloaded (build_headers h.candidate_id candidate_id) names)
        (mark-Clean (build_headers h.candidate_id candidate_id) names)
        (λ t d e. laws.pauses t d.net ∙ e) (λ b d e. laws.draws b d.net ∙ e) fuel c p

module _ {f : Floats} {Le : f.Float → f.Float → Type 0} (laws : FloatLaws f Le) {h : Http f}
    (io : Streaming h) where
  raise_some-Keeps : (o : Option Error) → Keeps (HasBounds laws) (raise_some io o)
  raise_some-Keeps none = pure-Keeps (HasBounds laws) tt
  raise_some-Keeps (some e) = raise-Keeps (HasBounds laws) e

  attempt-Keeps :
      {A : Type 0} (m : Exec (CatalogClient h) A)
      → Keeps (HasBounds laws) m
      → Keeps (HasBounds laws) (attempt m)
  attempt-Keeps m k = record { at = λ c p. k.at c p }

  ruleset io_rules = (
    keep_rules, success-Keeps, wait-Keeps, on_net-Keeps, errors-Keeps, raise_some-Keeps,
    attempt-Keeps, Keeps-finally,
  )

  write-Keeps : (p : String) (cs : List (List ℕ)) → Keeps (HasBounds laws) (write_chunks io p cs)
  unfolding write_chunks
  write-Keeps p [] = pure-Keeps (HasBounds laws) tt
  write-Keeps p (c ∷ cs) = Keeps-bind _ _ (on_net-Keeps laws (io.write p c)) (λ _. write-Keeps p cs)

  receive-Keeps : (p : String) (r : Response × Body) → Keeps (HasBounds laws) (receive io p r)
  unfolding receive
  receive-Keeps p (response, body) = search (io_rules, write-Keeps) depth 9

  download_to-Keeps :
      (p : String) (names : List String) (headers : List (String × String))
      → Keeps (HasBounds laws) (download_to io p names headers)
  unfolding download_to
  download_to-Keeps p names headers = search (io_rules, receive-Keeps) depth 12

  fill-Keeps :
      (p : String) (names : List String) (headers : List (String × String))
      → Keeps (HasBounds laws) (fill io p names headers)
  unfolding fill
  fill-Keeps p names headers = search (io_rules, download_to-Keeps) depth 9

  filled-Keeps : (p : String) (r : Result (Unit {0})) → Keeps (HasBounds laws) (filled io p r)
  unfolding filled
  filled-Keeps p (ok u) = search io_rules depth 9
  filled-Keeps p (raised e) = search io_rules depth 9

  request-Keeps :
      (names : List String) (headers : List (String × String))
      → Keeps (HasBounds laws) (request_download_stream io names headers)
  unfolding request_download_stream
  request-Keeps names headers = search (io_rules, fill-Keeps, filled-Keeps) depth 12

  consume-Keeps : (p : String) → Keeps (HasBounds laws) (consume io p)
  unfolding consume
  consume-Keeps p = search io_rules depth 9

  streamed_keeps :
      (x : Tried String × CatalogClient h) → HasBounds laws x.1 → HasBounds laws (streamed io x).1
  unfolding streamed
  streamed_keeps (going_on, c) p = p
  streamed_keeps (done (raised e), c) p = p
  streamed_keeps (done (ok path), c) p = (consume-Keeps path).at c p

  pub download_files_stream_keeps :
      (m l : ℤ) (fuel : ℕ) (names : List String) (c : CatalogClient h)
      → HasBounds laws c
      → HasBounds laws (download_files_stream io m l fuel names c).1
  unfolding download_files_stream
  download_files_stream_keeps m l fuel names c p =
      let headers = ("Content-Type", "application/json") ∷ [] in
      streamed_keeps
        (execute client_outside (client_retry m l) (request_download_stream io names headers) fuel
          c)
        (execute_keeps {P = HasBounds laws} client_outside (client_retry m l)
          (request_download_stream io names headers) (request-Keeps names headers) (λ t s q. q)
          (λ b s q. q) fuel c p)

module _ {f : Floats} {h : Http f} (m l fuel : ℕ) (enough : m + l < fuel) where
  pub mark_downloaded-IsDone :
      (names : List String) (candidate_id : Option String) (c : CatalogClient h)
      → IsDone (mark_downloaded (pos m) (pos l) fuel names candidate_id c).0
  unfolding mark_downloaded
  mark_downloaded-IsDone names candidate_id c =
      execute-IsDone client_outside (client_retry (pos m) (pos l))
        (request_mark_downloaded (build_headers h.candidate_id candidate_id) names) m l refl refl
        fuel c enough

  streamed-IsDone :
      (io : Streaming h) (x : Tried String × CatalogClient h)
      → IsDone x.0
      → IsDone (streamed io x).0
  unfolding streamed
  streamed-IsDone io (going_on, c) p = p
  streamed-IsDone io (done (raised e), c) p = tt
  streamed-IsDone io (done (ok path), c) p = tt

  pub download_files_stream-IsDone :
      (io : Streaming h) (names : List String) (c : CatalogClient h)
      → IsDone (download_files_stream io (pos m) (pos l) fuel names c).0
  unfolding download_files_stream
  download_files_stream-IsDone io names c =
      let headers = ("Content-Type", "application/json") ∷ [] in
      streamed-IsDone io _ (
        execute-IsDone client_outside (client_retry (pos m) (pos l))
          (request_download_stream io names headers) m l refl refl fuel c enough)
