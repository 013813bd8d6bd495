-- ===== src/Storage/Examples.antt =====
-- The theorem about the storage at a bucket that is held in memory.
use text.Mathlib.Text.{◌==◌ as str_eq}
use text.Mathlib.TextEquality.{eq_iff}
use file_extractor.Base.{
  ℕ, String, ◌≡◌, ◌≢◌, refl, Bool-cases, inl, inr, Option, none, some, List, [], ◌∷◌, ◌==◌,
  if◌then◌else◌,
}
use file_extractor.Base.Errors.{value_error, other}
use file_extractor.Base.Exec.{Result, ok, raised, pure, finally, ◌>>=◌}
use file_extractor.Storage.{S3, upload_stream, get_text, download}
use file_extractor.Storage.Last.{deletes, downloads, after, Bucket, download-upload_stream}

abbrev pub Objects : Type 0
Objects = String → Option (List ℕ)

abbrev pub with_object : String → Option (List ℕ) → Objects → Objects
with_object key o s j = if str_eq key j then o else s j

abbrev pub got : Option (List ℕ) → Objects → Result (List ℕ) × Objects
got none s = (raised (other "NoSuchKey"), s)
got (some bytes) s = (ok bytes, s)

-- Only one letter begins a text.
abbrev pub decoded : List ℕ → Result String
decoded [] = raised (value_error "invalid start byte")
decoded (b ∷ bytes) = if b == 104 then ok "hi" else raised (value_error "invalid start byte")

abbrev pub bucket : S3
bucket = record {
  State = Objects;
  Body = List ℕ;
  bucket_name = "files";
  create_client = λ s. (ok tt, s);
  leave_client = λ s. (ok tt, s);
  put_object = λ name key bytes s. (ok tt, with_object key (some bytes) s);
  delete_object = λ name key s. (ok tt, with_object key none s);
  presigned_url = λ name key n s. (ok key, s);
  get_object = λ name key s. got (s key) s;
  read_body = λ b s. (ok b, s);
  decode = decoded;
}

with_object-same : (key : String) (o : Option (List ℕ)) (s : Objects) → with_object key o s key ≡ o
with_object-same key o s = rw ((eq_iff key key).1 refl) refl

with_object-other :
    (key : String) (o : Option (List ℕ)) (s : Objects) (k : String)
    → key ≢ k
    → with_object key o s k ≡ s k
with_object-other key o s k differs = elim (Bool-cases (str_eq key k)) [
  | inl e ↦ absurd (differs ((eq_iff key k).0 e))
  | inr e ↦ rw e refl
]

got_keeps : (o : Option (List ℕ)) (s : Objects) (k : String) → (got o s).1 k ≡ s k
got_keeps none s k = refl
got_keeps (some b) s k = refl

bucket-Bucket : Bucket bucket (λ s. s)
bucket-Bucket = record {
  creates = λ s. refl;
  leaves = λ s. refl;
  create_keeps = λ s k. refl;
  leave_keeps = λ s k. refl;
  puts = λ key bytes s e. with_object-same key (some bytes) s;
  put_keeps = λ key bytes s k differs. with_object-other key (some bytes) s k differs;
  delete_keeps = λ key s k differs. with_object-other key none s k differs;
  link_keeps = λ key n s k. refl;
  get_keeps = λ key s k. got_keeps (s key) s k;
  read_keeps = λ b s k. refl;
  gets = λ key bytes s e. (bytes, s, rw e refl, refl);
}

abbrev empty : Objects
empty key = none

-- A key that is not there gives None, and the exception is not raised.
missing : (download bucket "files/a" empty).0 ≡ ok none
unfolding download get_text finally ◌>>=◌
missing = refl

abbrev hi : List (List ℕ)
hi = (104 ∷ []) ∷ (105 ∷ []) ∷ []

uploaded : (upload_stream bucket (pure hi) "files/a" 2 empty).0 ≡ ok "files/a"
unfolding upload_stream finally ◌>>=◌
uploaded = refl

different : ¬ (◌≡◌ {A = String} "files/b" "files/a")
different e = absurd (cc ((eq_iff "files/b" "files/a").1 e))

download-upload_stream_example :
    (download bucket "files/a" (
      after bucket
        (deletes "files/b" ∷ downloads "files/a" ∷ [])
        (upload_stream bucket (pure hi) "files/a" 2 empty).1)).0
    ≡ ok (some "hi")
download-upload_stream_example =
    download-upload_stream bucket (λ s. s) bucket-Bucket hi "files/a" "files/a" 2 empty uploaded
      (deletes "files/b" ∷ downloads "files/a" ∷ []) (different, (λ x. x, tt))
