-- ===== src/Client/Examples.antt =====
-- The limiter in milliseconds, and the client against a server that answers everything alike.
use Prim.Native.Nat.{max, min}
use native.Mathlib.Nat.{le_trans}
use file_extractor.Base.{
  ℕ, ◌*◌, ◌/◌, ◌≤◌, ◌<◌, ◌≡◌, ◌≢◌, refl, true, false, none, some, [], ◌∷◌, arith,
}
use file_extractor.Base.Int.{pos}
use file_extractor.Base.Errors.{http_error}
use file_extractor.Base.Exec.{ok, raised}
use file_extractor.Client.Limiter.{
  Floats, AdaptiveRateLimiter, on_success, on_failure, FloatLaws, IsBounded, after_outcomes,
  after_outcomes-IsBounded,
}
use file_extractor.Client.Requests.{Http, Response, read_as, CatalogClient, handle_errors}
use file_extractor.Client.Outcomes.{handle_errors_passes}

abbrev pub milliseconds : Floats
milliseconds = record {
  Float = ℕ;
  max = max;
  min = min;
  times_0_9 = λ d. d * 9 / 10;
  times_2_5 = λ d. d * 5 / 2;
}

abbrev pub AtMost : ℕ → ℕ → Type 0
AtMost a b = a ≤ b

pub laws : FloatLaws milliseconds AtMost
laws = record {
  trans = λ a b c h k. le_trans h k;
  max_left = λ a b. omega arith;
  max_lub = λ a b c h k. omega arith;
  min_left = λ a b. omega arith;
  min_glb = λ a b c h k. omega arith;
  shrinks = λ a. omega arith;
  grows = λ a. omega arith;
}

-- The defaults: 1.5, 0.6 and 10 seconds.
abbrev pub limiter : AdaptiveRateLimiter milliseconds
limiter = record { delay = 1500; min_delay = 600; max_delay = 10000 }

pub limiter-IsBounded : IsBounded laws limiter
limiter-IsBounded = record { bounds = omega arith; above = omega arith; below = omega arith }

three_failures : (after_outcomes (false ∷ false ∷ false ∷ true ∷ []) limiter).delay ≡ 9000
unfolding after_outcomes on_success on_failure
three_failures = refl

after_outcomes-IsBounded_example :
    IsBounded laws (after_outcomes (true ∷ false ∷ false ∷ []) limiter)
after_outcomes-IsBounded_example =
    after_outcomes-IsBounded laws (true ∷ false ∷ false ∷ []) limiter limiter-IsBounded

abbrev pub found : Response
found = record {
  status_code = 200;
  retry_after = none;
  json = read_as (record {
    file_names = some ("a" ∷ []);
    marked_now = none;
    already_marked = none;
    detail = none;
  });
  raise_for_status = ok tt;
}

abbrev pub too_many : Response
too_many = record found { status_code = 429; raise_for_status = raised (http_error "429") }

-- A server with one answer, on which `int` reads 60 from every text.
abbrev server : Response → Http milliseconds
server r = record {
  Net = ℕ;
  sleep = λ d n. n;
  get = λ url headers n. (ok r, n);
  post = λ url names headers n. (ok r, n);
  pause = λ t n. n;
  uniform = λ b n. (b, n);
  int_of = λ t. ok (pos 60);
  base_url = "http://localhost:8080";
  candidate_id = none;
}

abbrev client : (r : Response) → CatalogClient (server r)
client r = record { rate_limiter = limiter; net = 0 }

handle_errors_passes_example :
    (found.status_code ≢ 429)
    × (found.status_code ≢ 403)
    × (found.status_code ≢ 404)
    × (found.status_code < 500)
    × (found.raise_for_status ≡ ok tt)
    × (client found ≡ client found)
unfolding handle_errors
handle_errors_passes_example = handle_errors_passes found (client found) (client found) refl
