-- ===== src/Domain/File/Upload.antt =====
-- The upload of a file as a state machine.
use file_extractor.Base.{
  ℕ, String, ◌≡◌, refl, Bool, true, false, ◌&&◌, List, [], ◌∷◌, Option, none, some, arith,
  if◌then◌else◌,
}
use file_extractor.Base.Errors.{Error}
use file_extractor.Base.Exec.{Exec, raised}
use file_extractor.Domain.Status.{is_uploaded}
use file_extractor.Domain.Hash.{FileHash}
use file_extractor.Domain.Time.{DateTime}
use file_extractor.Domain.File.{
  File, StorageKey, start_upload, complete_upload, fail_upload, set_hash,
}

pub data Call : Type 0 where
  begin : Call
  end_with : StorageKey → FileHash → DateTime → Call
  drop : Call
  rehash : FileHash → Call

abbrev pub has {ℓ} : {A : Type ℓ} → Option A → Bool
has none = false
has (some a) = true

-- An uploaded file has a storage key, a hash and the time of the upload.
abbrev pub IsStored : File → Type 0
IsStored f =
    (if is_uploaded f.status then has f.storage_key && has f.hash && has f.uploaded_at else true)
    ≡ true

module _ (str_id : ℕ → String) where
  unfoldable pub invoke : Call → Exec File (Unit {0})
  unfolding start_upload complete_upload fail_upload set_hash
  invoke begin = start_upload str_id
  invoke (end_with key hash now) = complete_upload key hash now
  invoke drop = fail_upload
  invoke (rehash hash) = set_hash hash

  -- Calls in a row, whose exceptions the caller swallows.
  unfoldable pub invoke_all : List Call → File → File
  invoke_all [] f = f
  invoke_all (c ∷ cs) f = invoke_all cs (invoke c f).1

  -- A method of a file that raises has changed nothing.
  raised-unchanged :
      (c : Call) (f : File) (e : Error) → (invoke c f).0 ≡ raised e → (invoke c f).1 ≡ f
  unfolding invoke
  raised-unchanged begin f e h = ground arith
  raised-unchanged (end_with k s now) f e h = ground arith
  raised-unchanged drop f e h = ground arith
  raised-unchanged (rehash hash) f e h = cc

  invoke-IsStored : (c : Call) (f : File) → IsStored f → IsStored (invoke c f).1
  unfolding invoke
  invoke-IsStored begin f h = ground arith
  invoke-IsStored (end_with k s now) f h = ground arith
  invoke-IsStored drop f h = ground arith
  invoke-IsStored (rehash hash) f h = ground arith

  -- Whatever calls are made, returning or raising, an uploaded file has a storage key, a hash and
  -- the time of its upload, if that held before.
  pub invoke_all-IsStored : (cs : List Call) (f : File) → IsStored f → IsStored (invoke_all cs f)
  unfolding invoke_all
  invoke_all-IsStored [] f h = h
  invoke_all-IsStored (c ∷ cs) f h = invoke_all-IsStored cs (invoke c f).1 (invoke-IsStored c f h)

  -- The hash that the last setter has set.
  unfoldable pub last_hash : List Call → Option FileHash → Option FileHash
  last_hash [] h = h
  last_hash (rehash value ∷ cs) h = last_hash cs (some value)
  last_hash (c ∷ cs) h = last_hash cs h

  end_uploaded :
      (key : StorageKey) (hash : FileHash) (now : DateTime) (f : File)
      → is_uploaded f.status ≡ true
      → (invoke (end_with key hash now) f).1 ≡ f
  unfolding invoke
  end_uploaded key hash now f h = ground arith

  drop_uploaded : (f : File) → is_uploaded f.status ≡ true → (invoke drop f).1 ≡ f
  unfolding invoke
  drop_uploaded f h = ground arith

  -- Calls of the methods of a file change nothing of an uploaded one but its hash, and that only by
  -- the setter: it is what the last call of the setter has set.
  pub invoke_all_uploaded :
      (cs : List Call) (f : File)
      → is_uploaded f.status ≡ true
      → invoke_all cs f ≡ record f { hash = last_hash cs f.hash }
  unfolding invoke_all invoke last_hash
  invoke_all_uploaded [] f h = refl
  invoke_all_uploaded (begin ∷ cs) f h = rw h (invoke_all_uploaded cs f h)
  invoke_all_uploaded (end_with k s now ∷ cs) f h =
      rw (end_uploaded k s now f h) (invoke_all_uploaded cs f h)
  invoke_all_uploaded (drop ∷ cs) f h = rw (drop_uploaded f h) (invoke_all_uploaded cs f h)
  invoke_all_uploaded (rehash value ∷ cs) f h =
      invoke_all_uploaded cs (record f { hash = some value }) h
