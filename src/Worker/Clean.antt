-- ===== src/Worker/Clean.antt =====
-- What the handler leaves behind of its client, with the parts that the worker puts in.
use mathlib.Core.Path.{subst}
use file_extractor.Base.{ℕ, ◌≡◌, sym, String, Option, none, some, List, []}
use file_extractor.Base.Int.{pos}
use file_extractor.Base.Exec.{Exec, Result, ok, raised, ◌>>◌}
use file_extractor.Base.Exec.Ensures.{Keeps, Keeps-bind}
use file_extractor.Uow.{with_uow}
use file_extractor.Uow.Blocks.{with_uow-Keeps}
use file_extractor.Client.Requests.{CatalogClient, get_file_names, mark_downloaded}
use file_extractor.Client.Stream.{download_files_stream}
use file_extractor.Domain.Task.{DownloadTask}
use file_extractor.Domain.File.{File, FileId}
use file_extractor.Domain.Hash.{FileHash}
use file_extractor.Download.Ports.{World}
use file_extractor.Download.State.{ProcessFilesCommand, Ended, forget_file}
use file_extractor.Download.Loop.{process, execute}
use file_extractor.Download.Keeps.{Kept}
use file_extractor.Download.Keeps.Whole.{process-Keeps}
use file_extractor.Worker.Parts.{Parts, calls, with_parts}

-- The client is a part of the world of its own: it is what was put there last, and no call of the
-- other ports, of the storage or of the session changes it.
pub record Apart (w : World) (p : Parts w) : Type 0 where
  pub puts : (c : CatalogClient p.http) (s : w.State) → p.client (p.with_client c s) ≡ c
  pub buckets : (b : p.s3.State) (s : w.State) → p.client (p.with_bucket b s) ≡ p.client s
  pub now : (s : w.State) → p.client (w.now s).1 ≡ p.client s
  pub uuid4 : (s : w.State) → p.client (w.uuid4 s).1 ≡ p.client s
  pub finds : (id : String) (s : w.State) → p.client (w.get_task id s).1 ≡ p.client s
  pub saves : (t : DownloadTask) (s : w.State) → p.client (w.update_task t s).1 ≡ p.client s
  pub adds : (f : File) (s : w.State) → p.client (w.add_file f s).1 ≡ p.client s
  pub records :
      (id name : String) (h : FileHash) (s : w.State)
      → p.client (w.record_downloaded_file id name h s).1 ≡ p.client s
  pub looks :
      (id name : String) (s : w.State)
      → p.client (w.downloaded_file_exists id name s).1 ≡ p.client s
  pub removes : (id : FileId) (s : w.State) → p.client (w.delete_file id s).1 ≡ p.client s
  pub unrecords :
      (id name : String) (s : w.State)
      → p.client (w.delete_downloaded_file id name s).1 ≡ p.client s
  pub commits : (s : w.State) → p.client (w.commit s).1 ≡ p.client s
  pub rolls_back : (s : w.State) → p.client (w.rollback s).1 ≡ p.client s

-- What each operation of the client keeps.
pub record KeptByClient {w : World} (p : Parts w) (Q : CatalogClient p.http → Type 0) : Type 0 where
  pub names :
      (fuel : ℕ) (c : Option String) (a : CatalogClient p.http)
      → Q a
      → Q (get_file_names (pos p.max_retries) (pos p.rate_limit_retries) fuel c a).1
  pub marks :
      (fuel : ℕ) (batch : List String) (c : Option String) (a : CatalogClient p.http)
      → Q a
      → Q (mark_downloaded (pos p.max_retries) (pos p.rate_limit_retries) fuel batch c a).1
  pub streams :
      (fuel : ℕ) (batch : List String) (a : CatalogClient p.http)
      → Q a
      → Q (download_files_stream p.io (pos p.max_retries) (pos p.rate_limit_retries) fuel batch a).1

-- The world after `execute`.
abbrev pub world_of : {S : Type 0} → Result (Option Ended) × Option DownloadTask × S → S
world_of (r, task, s) = s

module _ {w : World} {p : Parts w} (apart : Apart w p) {Q : CatalogClient p.http → Type 0}
    (kept : KeptByClient p Q) where
  abbrev pub Fine : w.State → Type 0
  Fine s = Q (p.client s)

  pub leaves-Keeps :
      {A : Type 0} (m : Exec w.State A)
      → ((s : w.State) → p.client (m s).1 ≡ p.client s)
      → Keeps Fine m
  leaves-Keeps m h = record { at = λ s q. subst Q (sym (h s)) q }

  put : (c : CatalogClient p.http) (s : w.State) → Q c → Fine (p.with_client c s)
  put c s q = subst Q (sym (apart.puts c s)) q

  stay : (b : p.s3.State) (s : w.State) → Fine s → Fine (p.with_bucket b s)
  stay b s q = subst Q (sym (apart.buckets b s)) q

  pub uow-Keeps :
      {A : Type 0} (m : Exec w.State A) → Keeps Fine m → Keeps Fine (with_uow w.rollback m)
  uow-Keeps m h = with_uow-Keeps w.rollback (leaves-Keeps w.rollback apart.rolls_back) m h

  committed-Keeps : (m : Exec w.State (Unit {0})) → Keeps Fine m → Keeps Fine (m >> w.commit)
  committed-Keeps m h = Keeps-bind _ _ h λ _. leaves-Keeps w.commit apart.commits

  forgets-Keeps : (id : String) (f : File) → Keeps Fine (forget_file (with_parts w p) id f)
  unfolding forget_file
  forgets-Keeps id f = committed-Keeps _ (
      Keeps-bind _ _ (leaves-Keeps _ (apart.removes f.id))
        λ _. leaves-Keeps _ (apart.unrecords id f.filename))

  parts-Kept : Kept (with_parts w p) Fine
  parts-Kept = record {
    now = λ s q. subst Q (sym (apart.now s)) q;
    uuid4 = λ s q. subst Q (sym (apart.uuid4 s)) q;
    extract = λ batch s q. put _ s (kept.streams (calls w p) batch (p.client s) q);
    mark_downloaded =
        λ batch c. record { at = λ s q. put _ s (kept.marks (calls w p) batch c (p.client s) q) };
    upload_stream = λ bytes key size. record { at = λ s q. stay _ s q };
    delete_object = λ key. record { at = λ s q. stay _ s q };
    downloaded_file_exists = λ id name. leaves-Keeps _ (apart.looks id name);
    saves = λ t. uow-Keeps _ (committed-Keeps _ (leaves-Keeps _ (apart.saves t)));
    registers = λ id f h. uow-Keeps _ (
        committed-Keeps _ (
          Keeps-bind _ _ (leaves-Keeps _ (apart.adds f))
            λ _. leaves-Keeps _ (apart.records id f.filename h)));
    forgets = λ id f. uow-Keeps _ (forgets-Keeps id f);
  }

  names-Keeps : (c : Option String) → Keeps Fine ((with_parts w p).get_file_names c)
  names-Keeps c = record { at = λ s q. put _ s (kept.names (calls w p) c (p.client s) q) }

  -- What `execute` makes of the task that it has read.
  read-Fine :
      (fuel : ℕ) (command : ProcessFilesCommand) (r : Result (Option DownloadTask) × w.State)
      → Fine r.1
      → Fine (
          world_of (elim r.0 [
            | raised e ↦ (raised e, none, r.1)
            | ok none ↦ (ok none, none, r.1)
            | ok (some task) ↦
                let (ended, u) =
                  process {w = with_parts w p} fuel command.candidate_id
                    (record { task = task; world = r.1; files = []; beats = 0 }) in
                (elim ended [ ok e ↦ ok (some e) | raised e ↦ raised e ], some u.task, u.world)
          ]))
  read-Fine fuel command (raised e, s) q = q
  read-Fine fuel command (ok none, s) q = q
  read-Fine fuel command (ok (some task), s) q =
      (process-Keeps parts-Kept names-Keeps fuel command.candidate_id).at
        (record { task = task; world = s; files = []; beats = 0 }) q

  pub execute-Fine :
      (fuel : ℕ) (command : ProcessFilesCommand) (s : w.State)
      → Fine s
      → Fine (world_of (execute (with_parts w p) fuel command s))
  unfolding execute
  execute-Fine fuel command s q =
      read-Fine fuel command (with_uow w.rollback (w.get_task command.task_id) s)
        ((uow-Keeps _ (leaves-Keeps _ (apart.finds command.task_id))).at s q)
