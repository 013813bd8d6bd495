-- ===== src/Client/Outcomes.antt =====
-- What `CatalogClient` makes of a response: the exception, and the change of the limiter.
use file_extractor.Base.{ℕ, ◌+◌, ◌<◌, String, ◌≡◌, ◌≢◌, refl, Option, none, some, List, arith}
use file_extractor.Base.Int.{ℤ, pos}
use file_extractor.Base.Errors.{Error, rate_limited, blocked, not_found}
use file_extractor.Base.Exec.{Exec, Result, ok, raised, raise, lift, ◌>>=◌}
use file_extractor.Base.Exec.Ensures.{Keeps}
use file_extractor.Client.Limiter.{
  Floats, on_failure, FloatLaws, IsBounded, on_success-IsBounded, on_failure-IsBounded,
}
use file_extractor.Client.Handling.{keep_rules, handle_errors-Keeps}
use file_extractor.Client.Requests.{
  Http, Response, CatalogClient, client_retry, get_or, success, failure, wait, on_net, safe_json,
  handle_forbidden, handle_not_found, handle_rate_limit, handle_errors, build_headers,
  request_get_file_names, request_mark_downloaded, client_outside, get_file_names, mark_downloaded,
}
use file_extractor.Retry.Bounds.{IsDone, execute-IsDone}
use file_extractor.Retry.Keeps.{execute_keeps}

module _ {f : Floats} {h : Http f} where
  raise_after :
      {A : Type 0} (x : Result A) (g : A → Error) (c d : CatalogClient h)
      → (lift x >>= λ a. raise (g a)) c ≢ (ok tt, d)
  unfolding ◌>>=◌
  raise_after (ok a) g c d p = cc
  raise_after (raised e) g c d p = cc

  forbidden_raises : (o : Option String) (c d : CatalogClient h) → handle_forbidden o c ≢ (ok tt, d)
  unfolding handle_forbidden ◌>>=◌
  forbidden_raises none c d p = cc
  forbidden_raises (some t) c d p =
      raise_after (h.int_of t) blocked (record c { rate_limiter = on_failure c.rate_limiter }) d p

  not_found_raises : (r : Response) (c d : CatalogClient h) → handle_not_found r c ≢ (ok tt, d)
  unfolding handle_not_found
  not_found_raises r c d p =
      raise_after (safe_json r "handle_errors")
        (λ x. not_found (get_or x.detail "Resource not found")) c d p

  rate_limit_raises : (r : Response) (c d : CatalogClient h) → handle_rate_limit r c ≢ (ok tt, d)
  unfolding handle_rate_limit ◌>>=◌
  rate_limit_raises r c d p =
      raise_after (h.int_of (get_or r.retry_after "60")) rate_limited
        (record c { rate_limiter = on_failure c.rate_limiter }) d p

  -- A response passes only if its status is none of 429, 403 and 404, is below 500, and
  -- `raise_for_status` raises nothing; the client is then as it was.
  pub handle_errors_passes :
      (r : Response) (c d : CatalogClient h)
      → handle_errors r c ≡ (ok tt, d)
      → (r.status_code ≢ 429)
        × (r.status_code ≢ 403)
        × (r.status_code ≢ 404)
        × (r.status_code < 500)
        × (r.raise_for_status ≡ ok tt)
        × (d ≡ c)
  unfolding handle_errors
  handle_errors_passes r c d p =
      ground
        (arith, forbidden_raises r.retry_after c d, not_found_raises r c d, rate_limit_raises r c d)

  -- A 429 whose `Retry-After` reads as a number, 60 if there is none, raises the rate limit with it
  -- and slows the limiter down; where `int` raises, so does the client, with the limiter slowed.
  handle_errors_rate_limit :
      (r : Response) (c : CatalogClient h) (n : ℤ)
      → r.status_code ≡ 429
      → h.int_of (get_or r.retry_after "60") ≡ ok n
      → handle_errors r c
        ≡ (raised (rate_limited n), record c { rate_limiter = on_failure c.rate_limiter })
  unfolding handle_errors handle_rate_limit ◌>>=◌
  handle_errors_rate_limit r c n p q = rw (p, q)

module _ {f : Floats} {Le : f.Float → f.Float → Type 0} (laws : FloatLaws f Le) {h : Http f} where
  abbrev pub HasBounds : CatalogClient h → Type 0
  HasBounds c = IsBounded laws c.rate_limiter

  pub success-Keeps : Keeps HasBounds success
  success-Keeps = record { at = λ c p. on_success-IsBounded laws c.rate_limiter p }

  pub failure-Keeps : Keeps HasBounds failure
  failure-Keeps = record { at = λ c p. on_failure-IsBounded laws c.rate_limiter p }

  pub wait-Keeps : Keeps HasBounds wait
  wait-Keeps = record { at = λ c p. p }

  pub on_net-Keeps : {A : Type 0} (m : Exec h.Net A) → Keeps HasBounds (on_net m)
  on_net-Keeps m = record { at = λ c p. p }

  pub errors-Keeps : (r : Response) → Keeps HasBounds (handle_errors r)
  errors-Keeps = handle_errors-Keeps HasBounds failure-Keeps

  ruleset request_rules = (success-Keeps, wait-Keeps, on_net-Keeps, errors-Keeps, keep_rules)

  names_keep : (headers : List (String × String)) → Keeps HasBounds (request_get_file_names headers)
  unfolding request_get_file_names
  names_keep headers = search request_rules depth 12

  mark-Keeps :
      (headers : List (String × String)) (names : List String)
      → Keeps HasBounds (request_mark_downloaded headers names)
  unfolding request_mark_downloaded
  mark-Keeps headers names = search request_rules depth 12

  -- Through all its retries and whatever the API answers, `get_file_names` keeps the delay of the
  -- limiter within its bounds, if it was there and the floats are ordered as the laws say.
  pub get_file_names_keeps :
      (m l : ℤ) (fuel : ℕ) (candidate_id : Option String) (c : CatalogClient h)
      → HasBounds c
      → HasBounds (get_file_names m l fuel candidate_id c).1
  unfolding get_file_names
  get_file_names_keeps m l fuel candidate_id c p =
      execute_keeps {P = HasBounds} client_outside (client_retry m l)
        (request_get_file_names (build_headers h.candidate_id candidate_id))
        (names_keep (build_headers h.candidate_id candidate_id)) (λ t s q. q) (λ b s q. q) fuel c p

  -- So does `mark_downloaded`.
  pub mark_downloaded_keeps :
      (m l : ℤ) (fuel : ℕ) (names : List String) (candidate_id : Option String)
      (c : CatalogClient h)
      → HasBounds c
      → HasBounds (mark_downloaded m l fuel names candidate_id c).1
  unfolding mark_downloaded
  mark_downloaded_keeps m l fuel names candidate_id c p =
      execute_keeps {P = HasBounds} client_outside (client_retry m l)
        (request_mark_downloaded (build_headers h.candidate_id candidate_id) names)
        (mark-Keeps (build_headers h.candidate_id candidate_id) names) (λ t s q. q) (λ b s q. q)
        fuel c p

-- With limits of `m` and `l` retries, `get_file_names` returns or raises after at most m + l + 1
-- requests.
pub get_file_names-IsDone :
    {f : Floats} (h : Http f) (m l fuel : ℕ) (candidate_id : Option String) (c : CatalogClient h)
    → m + l < fuel
    → IsDone (get_file_names (pos m) (pos l) fuel candidate_id c).0
unfolding get_file_names
get_file_names-IsDone h m l fuel candidate_id c p =
    execute-IsDone client_outside (client_retry (pos m) (pos l))
      (request_get_file_names (build_headers h.candidate_id candidate_id)) m l refl refl fuel c p
