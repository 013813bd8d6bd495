-- ===== src/Client/Temporary.antt =====
-- The temporary files of a download, and the chunks that are read of them.
use file_extractor.Base.{
  ℕ, zero, suc, ◌<◌, ◌≡◌, refl, sym, ap, ◌∙◌, String, true, false, Bool-cases, inl, inr, Option,
  none, some, List, [], ◌∷◌, length, take, concat, drop, take-append-drop, length-drop, is_empty,
  arith,
}
use file_extractor.Base.Int.{ℤ}
use file_extractor.Base.Errors.{Error}
use file_extractor.Base.Exec.{Exec, Result, ok, raised, lift, attempt, ◌>>=◌}
use file_extractor.Base.Exec.Ensures.{
  Post, Post_state, Ensures, Keeps, Ensures-Keeps, Keeps-bind, Keeps-finally, Ensures-raise,
  Ensures-attempt_Keeps, Ensures-bind,
}
use file_extractor.Client.Limiter.{Floats}
use file_extractor.Client.Handling.{pure-Keeps, raise-Keeps, lift-Keeps, handle_errors-Keeps}
use file_extractor.Client.Requests.{Response}
use file_extractor.Client.Requests.{
  Http, CatalogClient, client_retry, success, failure, wait, on_net, client_outside,
}
use file_extractor.Client.Stream.{
  Streaming, read_chunks, write_chunks, raise_some, receive, download_to, Body, fill, filled,
  request_download_stream, consume, streamed, download_files_stream,
}
use file_extractor.Retry.{Tried, done, going_on, execute}
use file_extractor.Retry.Keeps.{Outcome, execute-Outcome}

take-is_empty : (n : ℕ) (xs : List ℕ) → 0 < n → is_empty (take n xs) ≡ true → xs ≡ []
take-is_empty zero xs h e = absurd (omega arith)
take-is_empty (suc n) [] h e = refl
take-is_empty (suc n) (x ∷ xs) h e = cc

take-not_empty :
    (n : ℕ) (xs : List ℕ) → is_empty (take n xs) ≡ false → length (drop n xs) < length xs
take-not_empty zero xs e = cc
take-not_empty (suc n) [] e = cc
take-not_empty (suc n) (x ∷ xs) e = omega (arith, length-drop n xs)

-- The chunks that are read, one behind the other, are the whole file, for each size of a read but
-- zero and enough fuel for a read more than there are bytes.
pub concat-read_chunks :
    (fuel size : ℕ) (bytes : List ℕ)
    → 0 < size
    → length bytes < fuel
    → concat (read_chunks fuel size bytes) ≡ bytes
unfolding read_chunks
concat-read_chunks zero size bytes h k = absurd (omega arith)
concat-read_chunks (suc fuel) size bytes h k = elim (Bool-cases (is_empty (take size bytes))) [
  | inl e ↦ rw e (sym (take-is_empty size bytes h e))
  | inr e ↦
      let short = take-not_empty size bytes e in
      rw (e, concat-read_chunks fuel size (drop size bytes) h (omega arith), take-append-drop) refl
]

-- The temporary files that are there, the latest first: each call but two leaves them alone; a new
-- file is a new first one, and that one can be deleted.
pub record Temporaries {f : Floats} {h : Http f} (io : Streaming h) (files : h.Net → List String)
    : Type 0 where
  pub sleeps : (t : f.Float) (n : h.Net) → files (h.sleep t n) ≡ files n
  pub pauses : (t : ℤ) (n : h.Net) → files (h.pause t n) ≡ files n
  pub gets :
      (url : String) (headers : List (String × String)) (n : h.Net)
      → files (h.get url headers n).1 ≡ files n
  pub posts :
      (url : String) (names : List String) (headers : List (String × String)) (n : h.Net)
      → files (h.post url names headers n).1 ≡ files n
  pub draws : (b : ℤ) (n : h.Net) → files (h.uniform b n).1 ≡ files n
  pub opens : (p : String) (n : h.Net) → files (io.open_write p n).1 ≡ files n
  pub writes : (p : String) (bytes : List ℕ) (n : h.Net) → files (io.write p bytes n).1 ≡ files n
  pub flushes : (p : String) (n : h.Net) → files (io.flush p n).1 ≡ files n
  pub reads : (p : String) (n : h.Net) → files (io.read p n).1 ≡ files n
  pub streams :
      (url : String) (names : List String) (headers : List (String × String)) (n : h.Net)
      → files (io.stream url names headers n).1 ≡ files n
  pub leaves : (n : h.Net) → files (io.leave n).1 ≡ files n
  pub closes : (p : String) (n : h.Net) → files (io.close p n).1 ≡ files n
  pub creates :
      (n : h.Net) → Post (λ p t. files t ≡ p ∷ files n) (λ t. files t ≡ files n) (io.new_file n)
  pub unlinks :
      (p : String) (rest : List String) (n : h.Net)
      → files n ≡ p ∷ rest
      → Post (λ _ t. files t ≡ rest) (λ t. ⊥) (io.unlink p n)

module _ {f : Floats} {h : Http f} (io : Streaming h) (files : h.Net → List String)
    (laws : Temporaries io files) where
  abbrev pub Has : List String → CatalogClient h → Type 0
  Has base c = files c.net ≡ base

  module _ (base : List String) where
    pub net-Keeps :
        {A : Type 0} (m : Exec h.Net A)
        → ((n : h.Net) → files (m n).1 ≡ files n)
        → Keeps (Has base) (on_net m)
    net-Keeps m k = record { at = λ c p. k c.net ∙ p }

    pub success-Keeps : Keeps (Has base) success
    success-Keeps = record { at = λ c p. p }

    pub failure-Keeps : Keeps (Has base) failure
    failure-Keeps = record { at = λ c p. p }

    pub wait-Keeps : Keeps (Has base) wait
    wait-Keeps = record { at = λ c p. laws.sleeps c.rate_limiter.delay c.net ∙ p }

    raise_some-Keeps : (o : Option Error) → Keeps (Has base) (raise_some io o)
    raise_some-Keeps none = pure-Keeps (Has base) tt
    raise_some-Keeps (some e) = raise-Keeps (Has base) e

    write_chunks-Keeps : (p : String) (cs : List (List ℕ)) → Keeps (Has base) (write_chunks io p cs)
    unfolding write_chunks
    write_chunks-Keeps p [] = pure-Keeps (Has base) tt
    write_chunks-Keeps p (c ∷ cs) =
        Keeps-bind _ _ (net-Keeps (io.write p c) (laws.writes p c)) (λ _. write_chunks-Keeps p cs)

    receive-Keeps : (p : String) (r : Response × Body) → Keeps (Has base) (receive io p r)
    unfolding receive
    receive-Keeps p (response, body) =
        Keeps-bind _ _ (handle_errors-Keeps (Has base) failure-Keeps response) λ _.
          Keeps-bind _ _ (write_chunks-Keeps p body.chunks) (λ _. raise_some-Keeps body.failure)

    download_to-Keeps :
        (p : String) (names : List String) (headers : List (String × String))
        → Keeps (Has base) (download_to io p names headers)
    unfolding download_to
    download_to-Keeps p names headers =
        Keeps-bind _ _ (net-Keeps (io.stream _ names headers) (laws.streams _ names headers)) λ r.
          Keeps-bind _ _ (Keeps-finally _ _ (net-Keeps io.leave laws.leaves) (receive-Keeps p r))
            λ _. net-Keeps (io.flush p) (laws.flushes p)

    fill-Keeps :
        (p : String) (names : List String) (headers : List (String × String))
        → Keeps (Has base) (fill io p names headers)
    unfolding fill
    fill-Keeps p names headers = Keeps-bind _ _ (net-Keeps (io.open_write p) (laws.opens p)) λ _.
        Keeps-finally _ _ (net-Keeps (io.close p) (laws.closes p))
          (download_to-Keeps p names headers)

  module _ (base : List String) where
    new_file-Ensures : Ensures (Has base) (on_net io.new_file) (λ p. Has (p ∷ base)) (Has base)
    new_file-Ensures = record { at = λ c e. made c e (io.new_file c.net) (laws.creates c.net) }
      where
        made :
            (c : CatalogClient h)
            → Has base c
            → (r : Result String × h.Net)
            → Post (λ p t. files t ≡ p ∷ files c.net) (λ t. files t ≡ files c.net) r
            → Post (λ p. Has (p ∷ base)) (Has base) (r.0, record c { net = r.1 })
        made c e (ok p, t) g = g ∙ ap (λ l. p ∷ l) e
        made c e (raised x, t) g = g ∙ e

    unlink-Ensures :
        (p : String) → Ensures (Has (p ∷ base)) (on_net (io.unlink p)) (λ _. Has base) (Has base)
    unlink-Ensures p = record {
      at = λ c e. gone c (io.unlink p c.net) (laws.unlinks p base c.net e);
    }
      where
        gone :
            (c : CatalogClient h) (r : Result (Unit {0}) × h.Net)
            → Post (λ _ t. files t ≡ base) (λ t. ⊥) r
            → Post (λ _. Has base) (Has base) (r.0, record c { net = r.1 })
        gone c (ok u, t) g = g
        gone c (raised x, t) g = absurd g

    filled-Ensures :
        (p : String) (r : Result (Unit {0}))
        → Ensures (Has (p ∷ base)) (filled io p r) (λ q. Has (q ∷ base)) (Has base)
    unfolding filled ◌>>=◌
    filled-Ensures p (ok u) = record { at = λ c e. e }
    filled-Ensures p (raised e) =
        Ensures-bind (on_net (io.unlink p)) _ (unlink-Ensures p) (λ _. Ensures-raise _ (Has base) e)

    request-Ensures :
        (names : List String) (headers : List (String × String))
        → Ensures
            (Has base)
            (request_download_stream io names headers)
            (λ p. Has (p ∷ base))
            (Has base)
    unfolding request_download_stream
    request-Ensures names headers =
        Ensures-bind wait _ (Ensures-Keeps (Has base) wait (wait-Keeps base) (λ s p. p)) λ _.
          Ensures-bind (on_net io.new_file) _ new_file-Ensures λ p.
            Ensures-bind (attempt (fill io p names headers)) _
              (Ensures-attempt_Keeps (Has base) (fill io p names headers)
                (fill-Keeps (p ∷ base) p names headers))
              (filled-Ensures p)

    consume-Ensures :
        (p : String) → Ensures (Has (p ∷ base)) (consume io p) (λ _. Has base) (Has base)
    unfolding consume
    consume-Ensures p =
        Ensures-bind (attempt (on_net (io.read p))) _
          (Ensures-attempt_Keeps (Has base) (on_net (io.read p))
            (net-Keeps (p ∷ base) (io.read p) (laws.reads p)))
          λ r.
            Ensures-bind (on_net (io.unlink p)) _ (unlink-Ensures p)
              λ _. Ensures-Keeps (Has base) (lift r) (lift-Keeps (Has base) r) (λ s h. h)

    streamed_cleans :
        (x : Tried String × CatalogClient h)
        → Outcome (λ p. Has (p ∷ base)) (Has base) x
        → Has base (streamed io x).1
    unfolding streamed
    streamed_cleans (going_on, c) e = e
    streamed_cleans (done (raised x), c) e = e
    streamed_cleans (done (ok p), c) e =
        Post_state (Has base) (consume io p c) ((consume-Ensures p).at c e)

  -- Whatever happens, through all retries, in the requests, in the writes to the temporary file and
  -- in its reads, `download_files_stream` leaves the temporary files as they were, if a file that
  -- was created can be deleted and no other call creates or deletes one.
  pub download_files_stream_cleans :
      (m l : ℤ) (fuel : ℕ) (names : List String) (c : CatalogClient h)
      → files (download_files_stream io m l fuel names c).1.net ≡ files c.net
  unfolding download_files_stream
  download_files_stream_cleans m l fuel names c =
      let base = files c.net in
      let headers = ("Content-Type", "application/json") ∷ [] in
      streamed_cleans base
        (execute client_outside (client_retry m l) (request_download_stream io names headers) fuel
          c)
        (execute-Outcome (λ p. Has (p ∷ base)) (Has base) client_outside (client_retry m l)
          (request_download_stream io names headers) (request-Ensures base names headers)
          (λ t d e. laws.pauses t d.net ∙ e) (λ b d e. laws.draws b d.net ∙ e) fuel c refl)
