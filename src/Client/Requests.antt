-- ===== src/Client/Requests.antt =====
-- app/infrastructure/external_api/catalog_client.py: the requests of `CatalogClient`, and what it
-- makes of their responses. The state is the limiter and the world outside.
use file_extractor.Base.{
  ℕ, String, ◌<>◌, Bool, true, false, Option, none, some, List, [], ◌∷◌, leb, ◌==◌, if◌then◌else◌,
}
use text.Mathlib.Text.{◌==◌ as str_eq}
use file_extractor.Base.Int.{ℤ, pos}
use file_extractor.Base.Text.{decimal}
use file_extractor.Base.Errors.{
  Error, rate_limited, blocked, forbidden, not_found, server_error, parse_error, timeout,
  http_error,
}
use file_extractor.Base.Exec.{Exec, Result, ok, raised, pure, raise, lift, modify, ◌>>=◌, ◌>>◌}
use file_extractor.Client.Limiter.{Floats, AdaptiveRateLimiter, on_success, on_failure}
use file_extractor.Retry.{AsyncRetryExecutor, Outside, Tried, execute}

-- The keys that the client reads from a JSON object, each if it is there. A body that is JSON of
-- another shape is left out.
pub record Payload : Type 0 where
  pub file_names : Option (List String)
  pub marked_now : Option ℤ
  pub already_marked : Option ℤ
  pub detail : Option String

-- What `response.json()` does: the body is an object, or no JSON, which raises one of
-- `json.JSONDecodeError`, `ValueError` and `TypeError` with a text, or another exception is raised,
-- such as `httpx.ResponseNotRead` for a response that is streamed.
pub data Json : Type 0 where
  read_as : Payload → Json
  invalid : String → Json
  unread : Error → Json

-- `httpx.Response`: its status, the header `Retry-After`, what reading it as JSON does, and what
-- `raise_for_status` raises.
pub record Response : Type 0 where
  pub status_code : ℕ
  pub retry_after : Option String
  pub json : Json
  pub raise_for_status : Result (Unit {0})

-- The HTTP client, the sleep of `wait`, Python's `int` on a text, and the settings that are read.
pub record Http (f : Floats) : Type 1 where
  pub Net : Type 0
  pub sleep : f.Float → Net → Net
  pub get : String → List (String × String) → Exec Net Response
  pub post : String → List String → List (String × String) → Exec Net Response
  -- `asyncio.sleep` and `random.uniform(0, b)` of the retries, in hundredths of a second
  pub pause : ℤ → Net → Net
  pub uniform : ℤ → Net → ℤ × Net
  pub int_of : String → Result ℤ
  pub base_url : String
  pub candidate_id : Option String

pub record CatalogClient {f : Floats} (h : Http f) : Type 0 where
  pub rate_limiter : AdaptiveRateLimiter f
  pub net : h.Net

-- The options of the executor in `__init__`: `TimeoutError` and `httpx.HTTPError` are retried.
abbrev pub is_retryable : Error → Bool
is_retryable (timeout m) = true
is_retryable (http_error m) = true
is_retryable e = false

abbrev pub client_retry : ℤ → ℤ → AsyncRetryExecutor
client_retry max_retries rate_limit_retries = record {
  max_retries = max_retries;
  rate_limit_retries = rate_limit_retries;
  retryable = is_retryable;
}

-- `data.get(key, default)`
abbrev pub get_or : {A : Type 0} → Option A → A → A
get_or none d = d
get_or (some a) d = a

-- `_safe_json`
unfoldable pub safe_json : Response → String → Result Payload
safe_json r context = elim r.json [
  | read_as p ↦ ok p
  | invalid m ↦ raised (parse_error ("Invalid JSON in " <> context <> ": " <> m))
  | unread e ↦ raised e
]

-- A candidate id that is there and not empty.
abbrev truthy : Option String → Option String
truthy none = none
truthy (some s) = if str_eq s "" then none else some s

abbrev or_else : Option String → Option String → Option String
or_else none b = b
or_else (some a) b = some a

abbrev header : Option String → List (String × String)
header none = []
header (some cid) = ("X-Candidate-Id", cid) ∷ []

-- `_build_headers`; the first argument is `settings.candidate_id`.
unfoldable pub build_headers : Option String → Option String → List (String × String)
build_headers default_id candidate_id = header (truthy (or_else (truthy candidate_id) default_id))

module _ {f : Floats} {h : Http f} where
  abbrev pub success : Exec (CatalogClient h) (Unit {0})
  success = modify (λ c. record c { rate_limiter = on_success c.rate_limiter })

  abbrev pub failure : Exec (CatalogClient h) (Unit {0})
  failure = modify (λ c. record c { rate_limiter = on_failure c.rate_limiter })

  -- `self._rate_limiter.wait()`
  abbrev pub wait : Exec (CatalogClient h) (Unit {0})
  wait c = (ok tt, record c { net = h.sleep c.rate_limiter.delay c.net })

  -- A call into the network or the file system.
  abbrev pub on_net : {A : Type 0} → Exec h.Net A → Exec (CatalogClient h) A
  on_net m c = let (r, n) = m c.net in (r, record c { net = n })

  -- The second `if` of `_handle_errors`, by the header of a 403.
  unfoldable pub handle_forbidden : Option String → Exec (CatalogClient h) (Unit {0})
  handle_forbidden none = raise forbidden
  handle_forbidden (some text) = do failure; n ← lift (h.int_of text); raise (blocked n)

  unfoldable pub handle_not_found : Response → Exec (CatalogClient h) (Unit {0})
  handle_not_found r = do
    found ← lift (safe_json r "handle_errors")
    raise (not_found (get_or found.detail "Resource not found"))

  unfoldable pub handle_rate_limit : Response → Exec (CatalogClient h) (Unit {0})
  handle_rate_limit r = do
    failure
    n ← lift (h.int_of (get_or r.retry_after "60"))
    raise (rate_limited n)

  -- `_handle_errors`
  unfoldable pub handle_errors : Response → Exec (CatalogClient h) (Unit {0})
  handle_errors r =
      if r.status_code == 429
      then handle_rate_limit r
      else if r.status_code == 403
      then handle_forbidden r.retry_after
      else if r.status_code == 404
      then handle_not_found r
      else if leb 500 r.status_code
      then raise (server_error ("Server error: " <> decimal r.status_code))
      else lift r.raise_for_status

  -- `_request_get_file_names`
  unfoldable pub request_get_file_names :
      List (String × String) → Exec (CatalogClient h) (List String)
  request_get_file_names headers = do
    wait
    response ← on_net (h.get (h.base_url <> "/api/files/names") headers)
    handle_errors response
    found ← lift (safe_json response "get_file_names")
    success
    pure (get_or found.file_names [])

  -- `_request_mark_downloaded`
  unfoldable pub request_mark_downloaded :
      List (String × String) → List String → Exec (CatalogClient h) (ℤ × ℤ)
  request_mark_downloaded headers file_names = do
    wait
    response ← on_net (h.post (h.base_url <> "/api/files/downloaded") file_names headers)
    handle_errors response
    found ← lift (safe_json response "mark_downloaded")
    success
    pure (get_or found.marked_now (pos 0), get_or found.already_marked (pos 0))

  -- What the executor of the client sleeps by.
  abbrev pub client_outside : Outside (CatalogClient h)
  client_outside = record {
    sleep = λ t c. record c { net = h.pause t c.net };
    uniform = λ b c. let (x, n) = h.uniform b c.net in (x, record c { net = n });
  }

  -- `get_file_names` and `mark_downloaded` under `@with_retry()`; the executor has the limits of the
  -- settings, and `fuel` bounds the requests.
  unfoldable pub get_file_names :
      ℤ → ℤ → ℕ → Option String → CatalogClient h → Tried (List String) × CatalogClient h
  get_file_names max_retries rate_limit_retries fuel candidate_id =
      execute client_outside (client_retry max_retries rate_limit_retries)
        (request_get_file_names (build_headers h.candidate_id candidate_id)) fuel

  unfoldable pub mark_downloaded :
      ℤ → ℤ → ℕ → List String → Option String → CatalogClient h → Tried (ℤ × ℤ) × CatalogClient h
  mark_downloaded max_retries rate_limit_retries fuel file_names candidate_id =
      execute client_outside (client_retry max_retries rate_limit_retries)
        (request_mark_downloaded (build_headers h.candidate_id candidate_id) file_names) fuel
