-- ===== src/Download/Keeps/Gone.antt =====
-- The theorem about what is left of a batch, in a world that knows only what is gone.
use text.Mathlib.Text.{◌==◌ as str_eq}
use text.Mathlib.TextEquality.{eq_iff}
use file_extractor.Base.{
  All, ℕ, ◌≡◌, refl, Bool, true, false, ◌&&◌, none, some, [], ◌∷◌, length, ◌==◌, if◌then◌else◌,
  arith,
}
use file_extractor.Base.Int.{pos}
use file_extractor.Base.Errors.{other}
use file_extractor.Base.Exec.{Exec, ok}
use file_extractor.Domain.Status.{TaskStatus, FileStatus}
use file_extractor.Domain.File.{File}
use file_extractor.Domain.Task.{DownloadTask, new_task}
use file_extractor.Download.Ports.{World}
use file_extractor.Download.State.{Run}
use file_extractor.Download.Batch.{recover}
use file_extractor.Download.Keeps.Traces.{Trace, object, row, download, Erases}
use file_extractor.Download.Keeps.Undone.{IsUndone, recover-IsUndone}

abbrev Gone : Type 0
Gone = Trace → Bool

abbrev same : Trace → Trace → Bool
same (object a) (object b) = str_eq a b
same (row a) (row b) = a.value == b.value
same (download a b) (download c d) = str_eq a c && str_eq b d
same _ _ = false

abbrev erase : Trace → Exec Gone (Unit {0})
erase x s = (ok tt, λ y. if same x y then true else s y)

eq_self : (n : ℕ) → (n == n) ≡ true
eq_self n = ground arith

same_self : (x : Trace) → same x x ≡ true
same_self (object a) = (eq_iff a a).1 refl
same_self (row a) = eq_self a.value
same_self (download a b) = rw ((eq_iff a a).1 refl, (eq_iff b b).1 refl) refl

erase-hits : (x : Trace) (s : Gone) → (erase x s).1 x ≡ true
erase-hits x s = rw (same_self x) refl

chosen : (b c : Bool) → c ≡ true → (if b then true else c) ≡ true
chosen true c e = refl
chosen false c e = e

abbrev nothing : Exec Gone (Unit {0})
nothing s = (ok tt, s)

abbrev void_world : World
void_world = record {
  State = Gone;
  now = λ s. (5, s);
  uuid4 = λ s. (1, s);
  sha256_hexdigest = λ bytes. "";
  str_id = λ n. "id";
  repr = λ t. t;
  uuid_of = λ t. ok 0;
  send_task = λ id c. nothing;
  get_file_names = λ c s. (ok [], s);
  extract = λ batch s. (record { files = []; failure = none }, s);
  mark_downloaded = λ batch c s. (ok (pos (length batch), pos 0), s);
  upload_stream = λ bytes key n s. (ok key, s);
  delete_object = λ key. erase (object key);
  download = λ key s. (ok none, s);
  file_by_id = λ id s. (ok none, s);
  count_by_status = λ name s. (ok 0, s);
  add_file = λ f. nothing;
  delete_file = λ id. erase (row id);
  add_task = λ t. nothing;
  get_task = λ id s. (ok none, s);
  update_task = λ t. nothing;
  downloaded_file_exists = λ id name s. (ok false, s);
  record_downloaded_file = λ id name h. nothing;
  delete_downloaded_file = λ id name. erase (download id name);
  commit = nothing;
  rollback = nothing;
}

void-Erases : Erases void_world (λ s. s)
void-Erases = record {
  deletes_object = λ key s. erase-hits (object key) s;
  deletes_file = λ id s. (refl, erase-hits (row id) s);
  deletes_download = λ id name s. (refl, erase-hits (download id name) s);
  object_keeps = λ key x. record { at = λ s p. chosen (same (object key) x) (s x) p };
  file_keeps = λ id x. record { at = λ s p. chosen (same (row id) x) (s x) p };
  download_keeps = λ id name x. record { at = λ s p. chosen (same (download id name) x) (s x) p };
  update_keeps = λ t x. record { at = λ s p. p };
  commit_keeps = λ x. record { at = λ s p. p };
  updates = λ t s. refl;
  commits = λ s. refl;
  now_keeps = λ s x p. p;
}

abbrev task : DownloadTask
task = record (new_task "t" "c") {
  status = TaskStatus.running;
  received_files = 1;
  worker_id = some "w";
  started_at = some 1;
  last_heartbeat = some 1;
  attempts = 1;
}

abbrev stored_file : File
stored_file = record {
  id = record { value = 3 };
  filename = "a";
  size = record { value = pos 2 };
  hash = none;
  storage_key = some (record { value = "files/a" });
  status = FileStatus.uploaded;
  created_at = 5;
  uploaded_at = some 5;
}

-- Nothing is gone before.
abbrev begin : Run void_world
begin = record { task = task; world = λ x. false; files = stored_file ∷ []; beats = 1 }

recover-IsUndone_example :
    All (IsUndone void-Erases "t" (recover 1 (other "reset") begin).1.world) (stored_file ∷ [])
recover-IsUndone_example = recover-IsUndone void_world (λ s. s) void-Erases 1 (other "reset") begin
