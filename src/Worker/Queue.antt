-- ===== src/Worker/Queue.antt =====
-- The messages that the jobs of app/worker/watchdog.py put into the queue.
use mathlib.Core.Path.{subst}
use file_extractor.Base.{
  ℕ, suc, String, ◌≡◌, refl, sym, ap, ◌∙◌, Option, List, [], ◌∷◌, ◌++◌, map, take, length,
}
use file_extractor.Base.Int.{pos}
use file_extractor.Base.Exec.{Exec, Result, ok, raised, ◌>>◌}
use file_extractor.Base.Exec.Ensures.{
  Post, Post-weaken, Ensures, Keeps, Ensures-bind, Ensures-finally, Ensures-Keeps,
}
use file_extractor.Domain.Task.{DownloadTask}
use file_extractor.Repositories.Tasks.{reclaim_stuck, reclaim_blocked}
use file_extractor.Worker.{
  Host, or_none, on_db, requeue_task, requeue_tasks, sweep, reclaim_stuck_tasks,
  reclaim_blocked_tasks,
}

abbrev pub Message : Type 0
Message = String × Option String

-- The arguments of the message that makes a worker claim the task.
abbrev pub message_of : DownloadTask → Message
message_of t = (t.id, or_none t.candidate_id)

-- The tasks that a method returns, none if it raises.
abbrev pub returned_tasks : Result (List DownloadTask) → List DownloadTask
returned_tasks (ok ts) = ts
returned_tasks (raised e) = []

-- What the theorem relies on: `send_task` puts its message at the end of the queue or raises, and
-- the database is another system than the queue.
pub record Queue (h : Host) (queue : h.ports.State → List Message) : Type 0 where
  pub sends :
      (id : String) (c : Option String) (s : h.ports.State)
      → Post
          (λ _ t. queue t ≡ queue s ++ (id, c) ∷ [])
          (λ t. queue t ≡ queue s)
          (h.ports.send_task id c s)
  pub stores : (d : h.session.State) (s : h.ports.State) → queue (h.with_db d s) ≡ queue s
  pub commits : (s : h.ports.State) → queue (h.ports.commit s).1 ≡ queue s
  pub opens : (s : h.ports.State) → queue (h.open_session s).1 ≡ queue s
  pub closes : (s : h.ports.State) → queue (h.close_session s).1 ≡ queue s
  pub disposes : (s : h.ports.State) → queue (h.dispose s).1 ≡ queue s

module _ {h : Host} {queue : h.ports.State → List Message} (law : Queue h queue) where
  abbrev Holds : List Message → h.ports.State → Type 0
  Holds q s = queue s ≡ q

  -- The messages of the first tasks are sent.
  abbrev Partly : List Message → List DownloadTask → h.ports.State → Type 0
  Partly q ts s = (n : ℕ) × (queue s ≡ q ++ map message_of (take n ts))

  append-nil : (q : List Message) → q ++ [] ≡ q
  append-nil [] = refl
  append-nil (x ∷ q) = ap (λ r. x ∷ r) (append-nil q)

  append_one : (q r : List Message) (x : Message) → (q ++ x ∷ []) ++ r ≡ q ++ x ∷ r
  append_one [] r x = refl
  append_one (y ∷ q) r x = ap (λ z. y ∷ z) (append_one q r x)

  none_sent :
      (q : List Message) (ts : List DownloadTask) (s : h.ports.State) → Holds q s → Partly q ts s
  none_sent q ts s e = (0, e ∙ sym (append-nil q))

  take-all : (ts : List DownloadTask) → take (length ts) ts ≡ ts
  take-all [] = refl
  take-all (t ∷ ts) = ap (λ r. t ∷ r) (take-all ts)

  all_sent :
      (q : List Message) (ts : List DownloadTask) (s : h.ports.State)
      → Holds (q ++ map message_of ts) s
      → Partly q ts s
  all_sent q ts s e = (length ts, e ∙ ap (λ r. q ++ map message_of r) (sym (take-all ts)))

  -- A step that keeps the queue, whatever is held of it.
  quiet-Keeps :
      {A : Type 0} (m : Exec h.ports.State A) (P : List Message → Type 0)
      → ((s : h.ports.State) → queue (m s).1 ≡ queue s)
      → Keeps (λ s. P (queue s)) m
  quiet-Keeps m P same = record { at = λ s p. subst P (sym (same s)) p }

  Ensures-requeue_tasks :
      (ts : List DownloadTask) (q : List Message)
      → Ensures (Holds q) (requeue_tasks h ts) (λ _. Holds (q ++ map message_of ts)) (Partly q ts)
  unfolding requeue_tasks requeue_task
  Ensures-requeue_tasks [] q = record { at = λ s e. e ∙ sym (append-nil q) }
  Ensures-requeue_tasks (t ∷ ts) q =
      Ensures-bind (requeue_task h t) (λ _. requeue_tasks h ts)
        (record {
          at = λ s e.
              Post-weaken (requeue_task h t s)
                (λ _ u sent. sent ∙ ap (λ r. r ++ message_of t ∷ []) e)
                (λ u kept. none_sent q (t ∷ ts) u (kept ∙ e))
                (law.sends t.id (or_none t.candidate_id) s);
        })
        λ _. record {
          at = λ s e.
              Post-weaken (requeue_tasks h ts s)
                (λ _ u sent. sent ∙ append_one q (map message_of ts) (message_of t))
                (λ u (n, sent).
                  (suc n, sent ∙ append_one q (map message_of (take n ts)) (message_of t)))
                ((Ensures-requeue_tasks ts (q ++ message_of t ∷ [])).at s e);
        }

  module _ (reclaim : Exec h.session.State (List DownloadTask)) (s : h.ports.State) where
    -- What the repository takes back in the session that is opened.
    abbrev found : List DownloadTask
    found = returned_tasks (reclaim (h.db (h.open_session s).1)).0

    abbrev Sent : h.ports.State → Type 0
    Sent = Holds (queue s ++ map message_of found)

    abbrev Some : h.ports.State → Type 0
    Some = Partly (queue s) found

    abbrev Opened : Result (Unit {0}) × h.ports.State → Type 0
    Opened = Post (λ _ t. t ≡ (h.open_session s).1) Some

    opened-Ensures : Ensures (λ t. t ≡ s) h.open_session (λ _ t. t ≡ (h.open_session s).1) Some
    opened-Ensures = record {
      at = λ t e. subst (λ t. Opened (h.open_session t)) (sym e) (opened (h.open_session s) refl);
    }
      where
        opened : (r : Result (Unit {0}) × h.ports.State) → r ≡ h.open_session s → Opened r
        opened (ok _, t) e = ap (λ r. r.1) e
        opened (raised x, t) e = none_sent (queue s) found t (ap (λ r. queue r.1) e ∙ law.opens s)

    abbrev Reclaimed : Result (List DownloadTask) × h.ports.State → Type 0
    Reclaimed = Post (λ ts t. (ts ≡ found) × Holds (queue s) t) Some

    reclaimed-Ensures :
        Ensures
          (λ t. t ≡ (h.open_session s).1)
          (on_db h reclaim)
          (λ ts t. (ts ≡ found) × Holds (queue s) t)
          Some
    reclaimed-Ensures = record {
      at = λ t e.
          subst (λ t. Reclaimed (on_db h reclaim t)) (sym e)
            (reclaimed (reclaim (h.db (h.open_session s).1)) refl);
    }
      where
        kept : (d : h.session.State) → Holds (queue s) (h.with_db d (h.open_session s).1)
        kept d = law.stores d (h.open_session s).1 ∙ law.opens s

        reclaimed :
            (r : Result (List DownloadTask) × h.session.State)
            → r ≡ reclaim (h.db (h.open_session s).1)
            → Reclaimed (r.0, h.with_db r.1 (h.open_session s).1)
        reclaimed (ok ts, d) e = (ap (λ r. returned_tasks r.0) e, kept d)
        reclaimed (raised x, d) e = none_sent (queue s) found _ (kept d)

    -- A step that keeps the queue, once all is sent, and when it is not.
    Ensures-Sent :
        {A : Type 0} (m : Exec h.ports.State A)
        → ((t : h.ports.State) → queue (m t).1 ≡ queue t)
        → Ensures Sent m (λ _. Sent) Some
    Ensures-Sent m same =
        Ensures-Keeps Some m (quiet-Keeps m (λ q. q ≡ queue s ++ map message_of found) same)
          (all_sent (queue s) found)

    Keeps-Some :
        {A : Type 0} (m : Exec h.ports.State A)
        → ((t : h.ports.State) → queue (m t).1 ≡ queue t)
        → Keeps Some m
    Keeps-Some m same =
        quiet-Keeps m (λ q. (n : ℕ) × (q ≡ queue s ++ map message_of (take n found))) same

    -- The commit and the messages.
    requeued-Ensures :
        (ts : List DownloadTask)
        → Ensures
            (λ t. (ts ≡ found) × Holds (queue s) t)
            (h.ports.commit >> requeue_tasks h ts)
            (λ _. Sent)
            Some
    requeued-Ensures ts = record {
      at = λ t (e, held).
          subst (λ ts. Post (λ _. Sent) Some ((h.ports.commit >> requeue_tasks h ts) t)) (sym e)
            ((Ensures-bind h.ports.commit (λ _. requeue_tasks h found)
                (Ensures-Keeps Some h.ports.commit
                  (quiet-Keeps h.ports.commit (λ q. q ≡ queue s) law.commits)
                  (none_sent (queue s) found))
                λ _. Ensures-requeue_tasks found (queue s)).at
              t held);
    }

    pub sweep-Ensures : Ensures (λ t. t ≡ s) (sweep h reclaim) (λ _. Sent) Some
    unfolding sweep
    sweep-Ensures =
        Ensures-finally h.dispose _ (λ _. Ensures-Sent h.dispose law.disposes)
          (Keeps-Some h.dispose law.disposes)
          (Ensures-bind h.open_session _ opened-Ensures λ _.
            Ensures-finally h.close_session _ (λ _. Ensures-Sent h.close_session law.closes)
              (Keeps-Some h.close_session law.closes)
              (Ensures-bind (on_db h reclaim) _ reclaimed-Ensures requeued-Ensures))

-- Either job of the watchdog sends a message for each task that the repository takes back in its
-- session, in order, if it returns; if it raises, it has sent those of the first of these tasks
-- only. The queue keeps what was in it. `send_task` puts its message at the end or raises, and
-- nothing else that the jobs do touches the queue.
pub sweeps_requeue :
    (h : Host) (queue : h.ports.State → List Message)
    → Queue h queue
    → (s : h.ports.State)
    → let d = h.db (h.open_session s).1 in
      let stuck = returned_tasks (reclaim_stuck h.session (pos 300) 20 d).0 in
      let over = returned_tasks (reclaim_blocked h.session 20 d).0 in
      Post
        (λ _ t. queue t ≡ queue s ++ map message_of stuck)
        (λ t. (n : ℕ) × (queue t ≡ queue s ++ map message_of (take n stuck)))
        (reclaim_stuck_tasks h s)
      × Post
          (λ _ t. queue t ≡ queue s ++ map message_of over)
          (λ t. (n : ℕ) × (queue t ≡ queue s ++ map message_of (take n over)))
          (reclaim_blocked_tasks h s)
unfolding reclaim_stuck_tasks reclaim_blocked_tasks
sweeps_requeue h queue law s = (
  (sweep-Ensures law (reclaim_stuck h.session (pos 300) 20) s).at s refl,
  (sweep-Ensures law (reclaim_blocked h.session 20) s).at s refl,
)
