-- ===== src/Worker/Whole.antt =====
-- A whole message: what the worker leaves behind of the client that it opens.
use file_extractor.Base.{ℕ, ◌≡◌, refl, ◌∙◌, String, Option, none, some, List}
use file_extractor.Base.Exec.{Result}
use file_extractor.Base.Exec.Ensures.{Keeps, Keeps-bind, Keeps-finally, Keeps-within}
use file_extractor.Client.Limiter.{FloatLaws}
use file_extractor.Client.Requests.{CatalogClient}
use file_extractor.Client.Outcomes.{HasBounds, get_file_names_keeps, mark_downloaded_keeps}
use file_extractor.Client.Temporary.{Temporaries, download_files_stream_cleans}
use file_extractor.Client.Clean.{
  get_file_names_cleans, mark_downloaded_cleans, download_files_stream_keeps,
}
use file_extractor.Domain.Task.{DownloadTask}
use file_extractor.Download.State.{ProcessFilesCommand, Ended}
use file_extractor.Download.Loop.{execute}
use file_extractor.Repositories.Tasks.{claim}
use file_extractor.Worker.{
  Host, on_db, without_task, handled, claimed, in_session, process_files_task, worker_name,
}
use file_extractor.Worker.Parts.{Parts, with_parts, assembled}
use file_extractor.Worker.Clean.{Apart, KeptByClient, Fine, leaves-Keeps, execute-Fine, world_of}

-- What the worker does beside the handler leaves the client alone, but for opening it.
pub record Opens (h : Host) (p : Parts h.ports) : Type 0 where
  pub stores : (d : h.session.State) (s : h.ports.State) → p.client (h.with_db d s) ≡ p.client s
  pub opens : (s : h.ports.State) → p.client (h.open_session s).1 ≡ p.client s
  pub closes : (s : h.ports.State) → p.client (h.close_session s).1 ≡ p.client s
  pub disposes : (s : h.ports.State) → p.client (h.dispose s).1 ≡ p.client s
  pub leaves : (s : h.ports.State) → p.client (h.close_client s).1 ≡ p.client s

module _ {h : Host} {p : Parts h.ports} (apart : Apart h.ports p) (opens : Opens h p)
    {Q : CatalogClient p.http → Type 0} (kept : KeptByClient p Q)
    (enters : Keeps (Fine apart kept) h.open_client) where
  handled-Keeps :
      (fuel : ℕ) (command : ProcessFilesCommand)
      → Keeps (Fine apart kept) (handled (assembled h p) fuel command)
  handled-Keeps fuel command = record {
    at = λ s q.
        over (execute (with_parts h.ports p) fuel command s)
          (execute-Fine apart kept fuel command s q);
  }
    where
      over :
          (x : Result (Option Ended) × Option DownloadTask × h.ports.State)
          → Fine apart kept (world_of x)
          → Fine apart kept (without_task (assembled h p) x).1
      over (r, task, s) q = q

  claimed-Keeps :
      (fuel : ℕ) (command : ProcessFilesCommand) (found : Option DownloadTask)
      → Keeps (Fine apart kept) (claimed (assembled h p) fuel command found)
  unfolding claimed
  claimed-Keeps fuel command none = record { at = λ s q. q }
  claimed-Keeps fuel command (some t) =
      Keeps-bind _ _ (leaves-Keeps apart kept h.ports.commit apart.commits) λ _.
        Keeps-within h.open_client h.close_client (handled (assembled h p) fuel command) enters
          (leaves-Keeps apart kept h.close_client opens.leaves) (handled-Keeps fuel command)

  in_session-Keeps :
      (fuel : ℕ) (command : ProcessFilesCommand) (worker_id : String)
      → Keeps (Fine apart kept) (in_session (assembled h p) fuel command worker_id)
  unfolding in_session
  in_session-Keeps fuel command worker_id =
      let m = claim h.session command.task_id worker_id in
      Keeps-bind (on_db (assembled h p) m) _
        (leaves-Keeps apart kept (on_db (assembled h p) m) λ s. opens.stores (m (h.db s)).1 s)
        (claimed-Keeps fuel command)

  process-Fine :
      (fuel : ℕ) (task_id : String) (candidate_id hostname : Option String)
      → Keeps
          (Fine apart kept)
          (process_files_task (assembled h p) fuel task_id candidate_id hostname)
  unfolding process_files_task
  process-Fine fuel task_id candidate_id hostname =
      Keeps-finally h.dispose _ (leaves-Keeps apart kept h.dispose opens.disposes) (
        Keeps-within h.open_session h.close_session _
          (leaves-Keeps apart kept h.open_session opens.opens)
          (leaves-Keeps apart kept h.close_session opens.closes)
          (in_session-Keeps fuel (record { task_id = task_id; candidate_id = candidate_id })
            (worker_name hostname)))

-- Whatever the API, the archives, the storage and the database do, `process_files_task`, whose
-- handler is given the client, the archive reader and the storage of the worker, leaves the
-- temporary files as they were before it, and the delay of the rate limiter within its bounds, if it
-- was there. A file that was created can be deleted, no other call creates or deletes one, a client
-- that is opened creates none and has its delay within the bounds, and the client is changed by its
-- own calls alone.
pub process_files_task_cleans :
    (h : Host) (p : Parts h.ports)
    → Apart h.ports p
    → Opens h p
    → (files : p.http.Net → List String) → Temporaries p.io files
    → (Le : p.floats.Float → p.floats.Float → Type 0) (laws : FloatLaws p.floats Le)
    → ((s : h.ports.State)
        → (files (p.client (h.open_client s).1).net ≡ files (p.client s).net)
          × HasBounds laws (p.client (h.open_client s).1))
    → (fuel : ℕ) (task_id : String) (candidate_id hostname : Option String) (s : h.ports.State)
    → HasBounds laws (p.client s)
    → let t = (process_files_task (assembled h p) fuel task_id candidate_id hostname s).1 in
      (files (p.client t).net ≡ files (p.client s).net) × HasBounds laws (p.client t)
process_files_task_cleans h p apart opens files temporaries Le laws enters fuel task_id candidate_id
      hostname s bounded =
    (
      (process-Fine apart opens clean (record { at = λ t q. (enters t).0 ∙ q }) fuel task_id
            candidate_id hostname).at
          s refl,
      (process-Fine apart opens within_bounds (record { at = λ t q. (enters t).1 }) fuel task_id
            candidate_id hostname).at
          s bounded,
    )
  where
    clean : KeptByClient p (λ c. files c.net ≡ files (p.client s).net)
    clean = record {
      names = λ n c a q. get_file_names_cleans p.io files temporaries _ _ _ n c a q;
      marks = λ n batch c a q. mark_downloaded_cleans p.io files temporaries _ _ _ n batch c a q;
      streams =
          λ n batch a q. download_files_stream_cleans p.io files temporaries _ _ n batch a ∙ q;
    }

    within_bounds : KeptByClient p (HasBounds laws)
    within_bounds = record {
      names = λ n c a q. get_file_names_keeps laws _ _ n c a q;
      marks = λ n batch c a q. mark_downloaded_keeps laws _ _ n batch c a q;
      streams = λ n batch a q. download_files_stream_keeps laws p.io _ _ n batch a q;
    }
