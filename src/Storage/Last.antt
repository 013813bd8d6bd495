-- ===== src/Storage/Last.antt =====
-- What `download` gives: the object as it was uploaded last.
use file_extractor.Base.{
  All, ℕ, String, ◌≡◌, ◌≢◌, refl, sym, ap, ◌∙◌, Option, some, List, [], ◌∷◌, concat,
}
use file_extractor.Base.Int.{ℤ}
use file_extractor.Base.Exec.{
  Exec, Result, ok, raised, proceed, pure, attempt, finally, ◌>>=◌, ◌>>◌,
}
use file_extractor.Base.Exec.Ensures.{Keeps, Keeps-bind, Keeps-within}
use file_extractor.Storage.{
  S3, upload_stream, delete, get_download_url, get_text, download, or_no_text, with_client,
}

-- A call of the storage.
pub data Call : Type 0 where
  uploads : (chunks : List (List ℕ)) (key : String) (length : ℕ) → Call
  deletes : (key : String) → Call
  links : (key : String) (expires_in : ℤ) → Call
  downloads : (key : String) → Call

-- The call may change the object with the key.
abbrev pub Touches : String → Call → Type 0
Touches k (uploads chunks key length) = key ≡ k
Touches k (deletes key) = key ≡ k
Touches k (links key expires_in) = ⊥
Touches k (downloads key) = ⊥

module _ (c : S3) where
  -- Calls one after another, each after the one before has returned or raised.
  abbrev pub after : List Call → c.State → c.State
  after [] s = s
  after (uploads chunks key length ∷ cs) s = after cs (upload_stream c (pure chunks) key length s).1
  after (deletes key ∷ cs) s = after cs (delete c key s).1
  after (links key expires_in ∷ cs) s = after cs (get_download_url c key expires_in s).1
  after (downloads key ∷ cs) s = after cs (download c key s).1

-- What the theorem relies on: the bucket as a map from keys to bytes. A put stores its bytes or
-- raises, a call leaves the objects of other keys, and what only reads leaves all; a client can be
-- created, and an object that is there can be read.
pub record Bucket (c : S3) (object : c.State → String → Option (List ℕ)) : Type 0 where
  pub creates : (s : c.State) → (c.create_client s).0 ≡ ok tt
  pub leaves : (s : c.State) → (c.leave_client s).0 ≡ ok tt
  pub create_keeps : (s : c.State) (k : String) → object (c.create_client s).1 k ≡ object s k
  pub leave_keeps : (s : c.State) (k : String) → object (c.leave_client s).1 k ≡ object s k
  pub puts :
      (key : String) (bytes : List ℕ) (s : c.State)
      → (c.put_object c.bucket_name key bytes s).0 ≡ ok tt
      → object (c.put_object c.bucket_name key bytes s).1 key ≡ some bytes
  pub put_keeps :
      (key : String) (bytes : List ℕ) (s : c.State) (k : String)
      → key ≢ k
      → object (c.put_object c.bucket_name key bytes s).1 k ≡ object s k
  pub delete_keeps :
      (key : String) (s : c.State) (k : String)
      → key ≢ k
      → object (c.delete_object c.bucket_name key s).1 k ≡ object s k
  pub link_keeps :
      (key : String) (n : ℤ) (s : c.State) (k : String)
      → object (c.presigned_url c.bucket_name key n s).1 k ≡ object s k
  pub get_keeps :
      (key : String) (s : c.State) (k : String)
      → object (c.get_object c.bucket_name key s).1 k ≡ object s k
  pub read_keeps :
      (b : c.Body) (s : c.State) (k : String) → object (c.read_body b s).1 k ≡ object s k
  pub gets :
      (key : String) (bytes : List ℕ) (s : c.State)
      → object s key ≡ some bytes
      → (b : c.Body) × (t : c.State) × (c.get_object c.bucket_name key s ≡ (ok b, t))
        × ((c.read_body b t).0 ≡ ok bytes)

module _ {c : S3} {object : c.State → String → Option (List ℕ)} (law : Bucket c object) where
  module _ (k : String) (bytes : List ℕ) where
    abbrev Holds : c.State → Type 0
    Holds s = object s k ≡ some bytes

    client-Keeps : {A : Type 0} (m : Exec c.State A) → Keeps Holds m → Keeps Holds (with_client c m)
    client-Keeps m h =
        Keeps-within c.create_client c.leave_client m
          (record { at = λ s p. law.create_keeps s k ∙ p })
          (record { at = λ s p. law.leave_keeps s k ∙ p }) h

    pure-Keeps : {A : Type 0} (a : A) → Keeps Holds (pure a)
    pure-Keeps a = record { at = λ s p. p }

    put-Keeps :
        (chunks : List (List ℕ)) (key : String) (length : ℕ)
        → key ≢ k
        → Keeps Holds (upload_stream c (pure chunks) key length)
    unfolding upload_stream
    put-Keeps chunks key length other = client-Keeps _ (
        Keeps-bind (pure chunks) _ (pure-Keeps chunks) λ chunks.
          Keeps-bind (c.put_object c.bucket_name key (concat chunks)) _
            (record { at = λ s p. law.put_keeps key (concat chunks) s k other ∙ p })
            λ _. pure-Keeps key)

    delete-Keeps : (key : String) → key ≢ k → Keeps Holds (delete c key)
    unfolding delete
    delete-Keeps key other =
        client-Keeps _ (record { at = λ s p. law.delete_keeps key s k other ∙ p })

    link-Keeps : (key : String) (n : ℤ) → Keeps Holds (get_download_url c key n)
    unfolding get_download_url
    link-Keeps key n = client-Keeps _ (record { at = λ s p. law.link_keeps key n s k ∙ p })

    text-Keeps : (key : String) → Keeps Holds (get_text c key)
    unfolding get_text
    text-Keeps key =
        Keeps-bind (c.get_object c.bucket_name key) _
          (record { at = λ s p. law.get_keeps key s k ∙ p })
          λ b.
            Keeps-bind (c.read_body b) _ (record { at = λ s p. law.read_keeps b s k ∙ p })
              λ bytes. record { at = λ s p. p }

    download-Keeps : (key : String) → Keeps Holds (download c key)
    unfolding download
    download-Keeps key = client-Keeps _ (
        Keeps-bind (attempt (get_text c key)) _ (record { at = λ s p. (text-Keeps key).at s p })
          λ r. pure-Keeps (or_no_text r))

    after-Holds :
        (cs : List Call) (s : c.State)
        → All (λ x. ¬ Touches k x) cs
        → Holds s
        → Holds (after c cs s)
    after-Holds [] s others h = h
    after-Holds (uploads chunks key length ∷ cs) s (other, others) h =
        after-Holds cs _ others ((put-Keeps chunks key length other).at s h)
    after-Holds (deletes key ∷ cs) s (other, others) h =
        after-Holds cs _ others ((delete-Keeps key other).at s h)
    after-Holds (links key n ∷ cs) s (other, others) h =
        after-Holds cs _ others ((link-Keeps key n).at s h)
    after-Holds (downloads key ∷ cs) s (other, others) h =
        after-Holds cs _ others ((download-Keeps key).at s h)

  -- A client is created and left, and nothing comes in the place of what the body gives.
  with_client_lem :
      {A : Type 0} (m : Exec c.State A) (s : c.State)
      → with_client c m s
        ≡ ((m (c.create_client s).1).0, (c.leave_client (m (c.create_client s).1).1).1)
  unfolding finally ◌>>=◌
  with_client_lem m s = rw (law.creates s, law.leaves (m (c.create_client s).1).1) refl

  put_ok :
      (key r : String) (p : Result (Unit {0}) × c.State)
      → (proceed (λ _. pure key) p.0 p.1).0 ≡ ok r
      → (p.0 ≡ ok tt) × ((proceed (λ _. pure key) p.0 p.1).1 ≡ p.1)
  put_ok key r (ok _, s) e = (refl, refl)
  put_ok key r (raised x, s) e = cc

  abbrev put_body : List (List ℕ) → String → Exec c.State String
  put_body chunks key =
      pure chunks >>= λ chunks. c.put_object c.bucket_name key (concat chunks) >> pure key

  upload-Holds :
      (chunks : List (List ℕ)) (key r : String) (length : ℕ) (s : c.State)
      → (upload_stream c (pure chunks) key length s).0 ≡ ok r
      → Holds key (concat chunks) (upload_stream c (pure chunks) key length s).1
  unfolding upload_stream ◌>>=◌
  upload-Holds chunks key r length s uploaded =
      let s1 = (c.create_client s).1 in
      let e = with_client_lem (put_body chunks key) s in
      let (fine, same) =
        put_ok key r (c.put_object c.bucket_name key (concat chunks) s1)
          (sym (ap (λ x. x.0) e) ∙ uploaded) in
      ap (λ x. object x.1 key) e
      ∙ law.leave_keeps (put_body chunks key s1).1 key
      ∙ ap (λ t. object t key) same
      ∙ law.puts key (concat chunks) s1 fine

  get_text_lem :
      (key : String) (bytes : List ℕ) (s : c.State)
      → object s key ≡ some bytes
      → (get_text c key s).0 ≡ c.decode bytes
  unfolding get_text ◌>>=◌
  get_text_lem key bytes s h = let (b, t, got, read) = law.gets key bytes s h in rw (got, read) refl

-- An object that has been uploaded is downloaded as the text that its chunks, one behind the other,
-- decode to, or as None where they are no UTF-8, after any later calls that neither upload nor
-- delete an object of that key, whether these return or raise. The bucket is a map from keys to
-- bytes, clients can be created and left, and an object that is there can be read.
pub download-upload_stream :
    (c : S3) (object : c.State → String → Option (List ℕ))
    → Bucket c object
    → (chunks : List (List ℕ)) (key r : String) (length : ℕ) (s : c.State)
    → (upload_stream c (pure chunks) key length s).0 ≡ ok r
    → (cs : List Call) → All (λ x. ¬ Touches key x) cs
    → (download c key (after c cs (upload_stream c (pure chunks) key length s).1)).0
      ≡ ok (or_no_text (c.decode (concat chunks)))
unfolding download get_text ◌>>=◌
download-upload_stream c object law chunks key r length s uploaded cs others =
    let bytes = concat chunks in
    let t = after c cs (upload_stream c (pure chunks) key length s).1 in
    let held =
      after-Holds law key bytes cs _ others (upload-Holds law chunks key r length s uploaded) in
    ap (λ x. x.0) (with_client_lem law (attempt (get_text c key) >>= λ r. pure (or_no_text r)) t)
    ∙ ap (λ r. ok (or_no_text r))
        (get_text_lem law key bytes (c.create_client t).1 (law.create_keeps t key ∙ held))
