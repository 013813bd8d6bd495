-- ===== src/Repositories/Exclusive.antt =====
-- Claims of one task by many workers, between other statements of theirs, in any order.
use text.Mathlib.Text.{◌==◌ as str_eq}
use text.Mathlib.TextEquality.{eq_iff}
use mathlib.Core.Path.{subst}
use file_extractor.Base.{
  ℕ, String, ◌≡◌, refl, sym, ap, ◌∙◌, Bool, true, false, Bool-cases, inl, inr, Option, none, some,
  List, [], ◌∷◌, arith, if◌then◌else◌,
}
use file_extractor.Base.Int.{ℤ}
use file_extractor.Domain.Time.{DateTime}
use file_extractor.Base.Exec.{Result, ok, raised, proceed, pure, lift, ◌>>=◌}
use file_extractor.Domain.Status.{TaskStatus, is_pending, task_status_name}
use file_extractor.Domain.Task.{DownloadTask}
use file_extractor.Repositories.Rows.{DownloadTaskModel, task_to_model}
use file_extractor.Repositories.Tasks.{
  Session, has_status, claim_values, first_task, claim, update, add, update_heartbeat,
  reclaim_stuck, reclaim_blocked, assigned,
}
use file_extractor.Repositories.Table.{Table, changed}

module _ (d : Session) (row : d.State → String → Option DownloadTaskModel) (k : String) where
  -- A call of the repository on a shared database, by any worker. A task is saved as its methods
  -- leave it, so never as PENDING; a sweep of the watchdog is one that leaves the row `k` alone.
  pub data Step : d.State → d.State → Type 0 where
    claims : (task_id worker_id : String) (s : d.State) → Step s (claim d task_id worker_id s).1
    saves :
        (t : DownloadTask) (s : d.State)
        → (t.id ≡ k → is_pending t.status ≡ false)
        → Step s (update d t s).1
    beats : (task_id : String) (s : d.State) → Step s (update_heartbeat d task_id s).1
    files : (t : DownloadTask) (s : d.State) → Step s (add d t s).1
    sweeps_stuck :
        (age : ℤ) (limit : ℕ) (s : d.State)
        → row (reclaim_stuck d age limit s).1 k ≡ row s k
        → Step s (reclaim_stuck d age limit s).1
    sweeps_blocked :
        (limit : ℕ) (s : d.State)
        → row (reclaim_blocked d limit s).1 k ≡ row s k
        → Step s (reclaim_blocked d limit s).1

  pub data Reach (s : d.State) : d.State → Type 0 where
    here : Reach s s
    next : {t u : d.State} → Reach s t → Step t u → Reach s u

  -- The row is there, and is not PENDING.
  abbrev pub IsTaken : d.State → Type 0
  IsTaken s = (m : DownloadTaskModel) × (row s k ≡ some m) × (str_eq m.status "PENDING" ≡ false)

  module _ (table : Table d row) where
    pub kept-IsTaken : (s t : d.State) → row t k ≡ row s k → IsTaken s → IsTaken t
    kept-IsTaken s t e (m, at, free) = (m, e ∙ at, free)

    -- An UPDATE that does not make the row PENDING.
    where-IsTaken :
        (p : DownloadTaskModel → Bool) (f : DownloadTaskModel → DownloadTaskModel)
        → ((m : DownloadTaskModel) → (f m).id ≡ m.id)
        → ((m : DownloadTaskModel)
            → str_eq m.status "PENDING" ≡ false
            → str_eq (f m).status "PENDING" ≡ false)
        → (s : d.State) → IsTaken s
        → IsTaken (d.update_where p f s).1
    where-IsTaken p f same taken s (m, at, free) = after (d.update_where p f s) refl
      where
        after :
            (r : Result (List DownloadTaskModel) × d.State) → d.update_where p f s ≡ r → IsTaken r.1
        after (raised e, t) h = kept-IsTaken s t (table.where_fails p f s t e h k) (m, at, free)
        after (ok rows, t) h =
            let e : row t k ≡ some (if p m then f m else m) =
              table.where_changes p f same s t rows h k ∙ ap (changed p f) at in
            elim (Bool-cases (p m)) [
              | inl hit ↦ (f m, e ∙ ap (λ b. some (if b then f m else m)) hit, taken m free)
              | inr miss ↦ (m, e ∙ ap (λ b. some (if b then f m else m)) miss, free)
            ]

    lift_state :
        {A B : Type 0} (g : A → Result B) (r : Result A × d.State)
        → (proceed (λ a. lift (g a)) r.0 r.1).1 ≡ r.1
    lift_state g (ok a, s) = refl
    lift_state g (raised e, s) = refl

    claim-IsTaken :
        (task_id worker_id : String) (s : d.State)
        → IsTaken s
        → IsTaken (claim d task_id worker_id s).1
    unfolding claim ◌>>=◌
    claim-IsTaken task_id worker_id s h =
        let (now, t) = d.now s in
        let p = has_status task_id "PENDING" in
        let f = claim_values worker_id now in
        subst IsTaken (sym (lift_state first_task (d.update_where p f t)))
          (where-IsTaken p f (λ m. refl) (λ m e. refl) t (kept-IsTaken s t (table.now_keeps s k) h))

    update_heartbeat-IsTaken :
        (task_id : String) (s : d.State) → IsTaken s → IsTaken (update_heartbeat d task_id s).1
    unfolding update_heartbeat ◌>>=◌
    update_heartbeat-IsTaken task_id s h =
        let (now, t) = d.now s in
        let p = has_status task_id "RUNNING" in
        let f = λ (m : DownloadTaskModel). record m { last_heartbeat = some now } in
        subst IsTaken (sym (lift_state (λ _. ok tt) (d.update_where p f t)))
          (where-IsTaken p f (λ m. refl) (λ m e. e) t (kept-IsTaken s t (table.now_keeps s k) h))

    status_name-free :
        (s : TaskStatus) → is_pending s ≡ false → str_eq (task_status_name s) "PENDING" ≡ false
    status_name-free TaskStatus.pending h = cc
    status_name-free TaskStatus.running h = refl
    status_name-free TaskStatus.success h = refl
    status_name-free TaskStatus.failed h = refl
    status_name-free TaskStatus.blocked h = refl

    assign-IsTaken :
        (t : DownloadTask) (s : d.State)
        → (t.id ≡ k → is_pending t.status ≡ false)
        → IsTaken s
        → IsTaken (d.assign t.id (assigned t) s)
    unfolding assigned task_to_model
    assign-IsTaken t s free (m, at, old) = elim (Bool-cases (str_eq t.id k)) [
      | inl e ↦ (
        assigned t m,
        table.assigns t.id (assigned t) (λ m. refl) s k ∙ rw (e, at) refl,
        status_name-free t.status (free ((eq_iff t.id k).0 e)),
      )
      | inr e ↦ (m, table.assigns t.id (assigned t) (λ m. refl) s k ∙ rw e at, old)
    ]

    update-IsTaken :
        (t : DownloadTask) (s : d.State)
        → (t.id ≡ k → is_pending t.status ≡ false)
        → IsTaken s
        → IsTaken (update d t s).1
    unfolding update ◌>>=◌
    update-IsTaken t s free h = after (d.get t.id s) (kept-IsTaken s _ (table.get_keeps t.id s k) h)
      where
        after :
            (r : Result (Option DownloadTaskModel) × d.State)
            → IsTaken r.1
            → IsTaken
                (proceed {B = Unit {0}}
                  (λ found. elim found [
                    | none ↦ pure tt
                    | some m ↦ λ u. (ok tt, d.assign t.id (assigned t) u)
                  ])
                  r.0
                  r.1).1
        after (raised e, u) g = g
        after (ok none, u) g = g
        after (ok (some m), u) g = assign-IsTaken t u free g

    Step-IsTaken : {s t : d.State} → Step s t → IsTaken s → IsTaken t
    unfolding add
    Step-IsTaken (claims task_id worker_id s) h = claim-IsTaken task_id worker_id s h
    Step-IsTaken (saves t s free) h = update-IsTaken t s free h
    Step-IsTaken (beats task_id s) h = update_heartbeat-IsTaken task_id s h
    Step-IsTaken (files t s) (m, at, old) = (m, table.adds (task_to_model t) s k m at, old)
    Step-IsTaken (sweeps_stuck age limit s alone) h = kept-IsTaken s _ alone h
    Step-IsTaken (sweeps_blocked limit s alone) h = kept-IsTaken s _ alone h

    pub Reach-IsTaken : {s t : d.State} → Reach s t → IsTaken s → IsTaken t
    Reach-IsTaken here h = h
    Reach-IsTaken (next r st) h = Step-IsTaken st (Reach-IsTaken r h)

    inner : {A : Type 0} (a b : A) → some a ≡ some b → a ≡ b
    inner a b h = cc

    hit-IsTaken :
        (worker_id : String) (now : DateTime) (s t v : d.State) (m : DownloadTaskModel)
        (ms : List DownloadTaskModel)
        → row t k ≡ row s k
        → d.update_where (has_status k "PENDING") (claim_values worker_id now) t ≡ (ok (m ∷ ms), v)
        → IsTaken v × ¬ IsTaken s
    hit-IsTaken worker_id now s t v m ms same q =
        let p = has_status k "PENDING" in
        let f = claim_values worker_id now in
        let (old, at, hit) = table.where_hits p f t m ms (ap (λ r. r.0) q) in
        let key : old.id ≡ k = (eq_iff old.id k).0 (ground arith) in
        let here : row t k ≡ some old = ap (row t) (sym key) ∙ at in
        let e : row v k ≡ some (if p old then f old else old) =
          table.where_changes p f (λ m. refl) t v (m ∷ ms) q k ∙ ap (changed p f) here in
        (
          (f old, e ∙ ap (λ b. some (if b then f old else old)) hit, refl),
          λ (x, at_x, free).
              let old_x : x ≡ old = inner x old (sym at_x ∙ sym same ∙ here) in
              let pending : str_eq old.status "PENDING" ≡ true = ground arith in
              cc (ap (λ (m : DownloadTaskModel). str_eq m.status "PENDING") old_x),
        )

    -- A claim that succeeds has found a PENDING row, and has taken it.
    pub claimed-IsTaken :
        (worker_id : String) (s : d.State) (u : DownloadTask)
        → (claim d k worker_id s).0 ≡ ok (some u)
        → IsTaken (claim d k worker_id s).1 × ¬ IsTaken s
    unfolding claim ◌>>=◌ first_task
    claimed-IsTaken worker_id s u h =
        let (now, t) = d.now s in
        let p = has_status k "PENDING" in
        let f = claim_values worker_id now in
        after now t (table.now_keeps s k) (d.update_where p f t) refl h
      where
        after :
            (now : DateTime) (t : d.State)
            → row t k ≡ row s k
            → (r : Result (List DownloadTaskModel) × d.State)
            → d.update_where (has_status k "PENDING") (claim_values worker_id now) t ≡ r
            → (proceed (λ rows. lift (first_task rows)) r.0 r.1).0 ≡ ok (some u)
            → IsTaken (proceed (λ rows. lift (first_task rows)) r.0 r.1).1 × ¬ IsTaken s
        after now t same (raised e, v) q g = cc
        after now t same (ok [], v) q g = cc
        after now t same (ok (m ∷ ms), v) q g = hit-IsTaken worker_id now s t v m ms same q

-- If a claim of a task succeeds, then no later one does, by whatever worker, after any calls of the
-- repository by any workers in any order, as long as no sweep of the watchdog changes the row of
-- that task and nobody saves it as PENDING. The table changes its rows as the statements say.
claim_once :
    (d : Session) (row : d.State → String → Option DownloadTaskModel)
    → Table d row
    → (k worker_id other_id : String) (s t : d.State) (u v : DownloadTask)
    → (claim d k worker_id s).0 ≡ ok (some u)
    → Reach d row k (claim d k worker_id s).1 t
    → ¬ ((claim d k other_id t).0 ≡ ok (some v))
claim_once d row table k worker_id other_id s t u v first r second =
    (claimed-IsTaken d row k table other_id t v second).1
      (Reach-IsTaken d row k table r (claimed-IsTaken d row k table worker_id s u first).0)
