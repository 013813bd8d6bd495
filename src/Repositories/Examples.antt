-- ===== src/Repositories/Examples.antt =====
-- The repositories over a table that is a list of rows, with a clock that stands still.
use mathlib.Core.Path.{subst}
use file_extractor.Base.{
  All, ℕ, zero, suc, ◌≤◌, String, ◌≡◌, ◌≢◌, refl, Bool, Bool-cases, ◌⊎◌, inl, inr, Option, none,
  some, List, [], ◌∷◌, ◌++◌, length, if◌then◌else◌, arith,
}
use text.Mathlib.Text.{◌==◌ as str_eq}
use file_extractor.Base.Int.{pos}
use file_extractor.Base.Exec.{ok, ◌>>=◌}
use file_extractor.Domain.Status.{TaskStatus, FileStatus, task_status_of_name}
use file_extractor.Domain.Hash.{FileHash, file_hash, matches_hex}
use file_extractor.Domain.Size.{file_size}
use file_extractor.Domain.File.{File, StorageKey}
use file_extractor.Domain.Task.{DownloadTask, new_task}
use file_extractor.Repositories.Rows.{
  DownloadTaskModel, task_to_domain, task_to_model, file_to_domain, file_to_model,
  task_to_domain-task_to_model, file_to_domain-file_to_model,
}
use file_extractor.Repositories.Tasks.{Session, claim, reclaim_blocked, tasks_of, first_task}
use file_extractor.Repositories.Claims.{
  EachFrom, EachFrom-stored, Returns, IsClaim, IsReclaimed, claim-IsClaim,
  reclaim_blocked-IsReclaimed,
}

abbrev Rows : Type 0
Rows = List DownloadTaskModel

-- The rows with the condition, with the values set, and the table after the update; a limit ends
-- both.
abbrev hits : (DownloadTaskModel → Bool) → (DownloadTaskModel → DownloadTaskModel) → ℕ → Rows → Rows
hits p f zero ms = []
hits p f (suc n) [] = []
hits p f (suc n) (m ∷ ms) = if p m then f m ∷ hits p f n ms else hits p f (suc n) ms

abbrev updated :
    (DownloadTaskModel → Bool) → (DownloadTaskModel → DownloadTaskModel) → ℕ → Rows → Rows
updated p f zero ms = ms
updated p f (suc n) [] = []
updated p f (suc n) (m ∷ ms) = if p m then f m ∷ updated p f n ms else m ∷ updated p f (suc n) ms

-- The rows that a table stores.
abbrev In : Rows → DownloadTaskModel → Type 0
In [] m = ⊥
In (row ∷ rows) m = (row ≡ m) ⊎ In rows m

hits_from :
    (p : DownloadTaskModel → Bool) (f : DownloadTaskModel → DownloadTaskModel) (n : ℕ) (ms : Rows)
    → EachFrom (In ms) p f (hits p f n ms) × (length (hits p f n ms) ≤ n)
hits_from p f zero ms = (tt, omega arith)
hits_from p f (suc n) [] = (tt, omega arith)
hits_from p f (suc n) (m ∷ ms) = elim (Bool-cases (p m)) [
  | inl e ↦
      let (each, size) = hits_from p f n ms in
      rw e (
        ((m, inl refl, e, refl), EachFrom-stored p f (hits p f n ms) (λ row there. inr there) each),
        omega (arith, size),
      )
  | inr e ↦
      let (each, size) = hits_from p f (suc n) ms in
      rw e (EachFrom-stored p f (hits p f (suc n) ms) (λ row there. inr there) each, size)
]

abbrev find : String → Rows → Option DownloadTaskModel
find id [] = none
find id (m ∷ ms) = if str_eq m.id id then some m else find id ms

abbrev table : Session
table = record {
  State = Rows;
  now = λ ms. (5000, ms);
  get = λ id ms. (ok (find id ms), ms);
  add = λ m ms. (ok tt, ms ++ m ∷ []);
  assign = λ id f ms. updated (λ m. str_eq m.id id) f (length ms) ms;
  select_latest = λ offset limit ms. (ok [], ms);
  update_where = λ p f ms. (ok (hits p f (length ms) ms), updated p f (length ms) ms);
  update_some = λ p n f ms. (ok (hits p f n ms), updated p f n ms);
  select_downloaded = λ p ms. (ok none, ms);
  add_downloaded = λ d ms. (ok tt, ms);
  delete_downloaded = λ p ms. (ok tt, ms);
}

table-Returns : Returns table In
table-Returns = record {
  now_from = λ ms m there. there;
  where_from =
      λ p f ms rows h. subst (EachFrom (In ms) p f) (ok_value h) (hits_from p f (length ms) ms).0;
  some_from = λ p n f ms rows h.
      subst (λ xs. EachFrom (In ms) p f xs × (length xs ≤ n)) (ok_value h) (hits_from p f n ms);
}
  where
    ok_value : {xs ys : Rows} → ok xs ≡ ok ys → xs ≡ ys
    ok_value h = cc

abbrev fresh : DownloadTask
fresh = new_task "t1" "candidate"

abbrev asleep : DownloadTask
asleep = record (new_task "t2" "candidate") {
  status = TaskStatus.blocked;
  blocked_until = some 4000;
  worker_id = some "w0";
}

abbrev rows : Rows
unfolding task_to_model
rows = task_to_model fresh ∷ task_to_model asleep ∷ []

abbrev claimed : DownloadTask
claimed = record fresh {
  status = TaskStatus.running;
  worker_id = some "w1";
  started_at = some 5000;
  last_heartbeat = some 5000;
  attempts = 1;
}

abbrev awake : DownloadTask
awake = record (new_task "t2" "candidate") { status = TaskStatus.pending }

claim_run : (claim table "t1" "w1" rows).0 ≡ ok (some claimed)
unfolding claim ◌>>=◌ first_task task_to_domain task_status_of_name rows
claim_run = refl

reclaim_run : (reclaim_blocked table 10 rows).0 ≡ ok (awake ∷ [])
unfolding reclaim_blocked ◌>>=◌ tasks_of task_to_domain task_status_of_name rows
reclaim_run = refl

claim-IsClaim_example : IsClaim (In rows) "t1" "w1" 5000 claimed
claim-IsClaim_example = claim-IsClaim table In table-Returns "t1" "w1" rows claimed claim_run

reclaim_blocked-IsReclaimed_example : All (IsReclaimed (In rows) 5000) (awake ∷ []) × (1 ≤ 10)
reclaim_blocked-IsReclaimed_example =
    reclaim_blocked-IsReclaimed table In table-Returns 10 rows (awake ∷ []) reclaim_run

task_rows_example : task_to_domain (task_to_model asleep) ≡ ok asleep
task_rows_example = task_to_domain-task_to_model asleep

abbrev hex_text : String
hex_text = "0123456789abcdef0123456789abcdef0123456789abcdef0123456789abcdef"

abbrev stored_file : File
stored_file = record {
  id = record { value = 7 };
  filename = "a.txt";
  size = record { value = pos 2 };
  hash = some (record { value = hex_text });
  storage_key = some (record { value = "files/a.txt" });
  status = FileStatus.uploaded;
  created_at = 10;
  uploaded_at = some 20;
}

file_rows_example :
    file_to_domain (λ n. "7") (λ s. ok 7) (file_to_model stored_file) ≡ ok stored_file
unfolding file_hash matches_hex file_size
file_rows_example =
    file_to_domain-file_to_model (λ n. "7") (λ s. ok 7) stored_file refl refl hash_is_made
      key_is_set
  where
    hash_is_made : (h : FileHash) → stored_file.hash ≡ some h → file_hash h.value ≡ ok h
    hash_is_made h e =
        let made : file_hash hex_text ≡ ok (record { value = hex_text }) = refl in
        subst (λ g. file_hash g.value ≡ ok g) (inner e) made
      where
        inner : {g h : FileHash} → some g ≡ some h → g ≡ h
        inner e = cc

    key_is_set : (k : StorageKey) → stored_file.storage_key ≡ some k → k.value ≢ ""
    key_is_set k e = subst (λ k. k.value ≢ "") (inner e) (λ e. cc)
      where
        inner : {g h : StorageKey} → some g ≡ some h → g ≡ h
        inner e = cc
