-- ===== src/Client/Handling.antt =====
-- What is kept by the handling of error responses: all that the limiter's `on_failure` keeps.
use file_extractor.Base.{String, Option, none, some}
use file_extractor.Base.Errors.{Error, blocked, rate_limited}
use file_extractor.Base.Exec.{Result, pure, raise, lift}
use file_extractor.Base.Exec.Ensures.{Keeps, Keeps-if, Keeps-bind}
use file_extractor.Client.Limiter.{Floats}
use file_extractor.Client.Requests.{
  Http, Response, CatalogClient, failure, handle_forbidden, handle_not_found, handle_rate_limit,
  handle_errors,
}

module _ {f : Floats} {h : Http f} (P : CatalogClient h → Type 0) where
  pub pure-Keeps : {A : Type 0} (a : A) → Keeps P (pure a)
  pure-Keeps a = record { at = λ c p. p }

  pub raise-Keeps : {A : Type 0} (e : Error) → Keeps P (raise {A = A} e)
  raise-Keeps {A} e = record { at = λ c p. p }

  pub lift-Keeps : {A : Type 0} (x : Result A) → Keeps P (lift x)
  lift-Keeps x = record { at = λ c p. p }

  pub ruleset keep_rules = (pure-Keeps, raise-Keeps, lift-Keeps, Keeps-if, Keeps-bind)

  module _ (failure-Keeps : Keeps P failure) where
    forbidden-Keeps : (o : Option String) → Keeps P (handle_forbidden o)
    unfolding handle_forbidden
    forbidden-Keeps none = search keep_rules
    forbidden-Keeps (some t) =
        Keeps-bind failure _ failure-Keeps
          λ _. Keeps-bind (lift (h.int_of t)) _ (lift-Keeps _) (λ n. raise-Keeps (blocked n))

    rate_limit-Keeps : (r : Response) → Keeps P (handle_rate_limit r)
    unfolding handle_rate_limit
    rate_limit-Keeps r =
        Keeps-bind failure _ failure-Keeps
          λ _. Keeps-bind (lift (h.int_of _)) _ (lift-Keeps _) (λ n. raise-Keeps (rate_limited n))

    not_found-Keeps : (r : Response) → Keeps P (handle_not_found r)
    unfolding handle_not_found
    not_found-Keeps r = search keep_rules

    pub handle_errors-Keeps : (r : Response) → Keeps P (handle_errors r)
    unfolding handle_errors
    handle_errors-Keeps r =
        search (keep_rules, forbidden-Keeps, rate_limit-Keeps, not_found-Keeps) depth 9
