-- ===== src/Schema/Undone.antt =====
-- `downgrade` of each revision, after its `upgrade`.
use file_extractor.Base.{String, ◌≡◌, refl, true, some}
use file_extractor.Base.Exec.{◌>>◌}
use file_extractor.Base.Exec.Ensures.{Post, Ensures, Ensures-bind}
use file_extractor.Schema.{Table, Op, string}
use file_extractor.Schema.Revisions.{
  Revision, initial, drop_outbox_events, add_worker_fields, upgrade_initial, upgrade_outbox,
  downgrade_initial, downgrade_outbox, files_created, download_tasks_created, outbox_events_created,
}
use file_extractor.Schema.Tables.{Tables, with_table, IsFree, IsFree-with, IsSound, IsSound-IsFree}
use file_extractor.Schema.Effects.{
  Does, IsUnnamed, IsUnused, IsUnnamed-with, IsUnnamed-without, keys, is_only,
}
use file_extractor.Schema.Rules.{
  Holds, Never, create-Ensures, drop-Ensures, drop_created-Ensures, create_dropped-Ensures,
}
use file_extractor.Schema.Widened.{Lacks, worker_columns, worker_added, worker_removed}

module _ {op : Op} (tables : op.State → Tables) where
  -- Neither function raises, and each table is then as it was.
  abbrev pub Undoes : Revision op → op.State → Type 0
  Undoes r s =
      Post (λ _ t. (name : String) → tables t name ≡ tables s name) (λ _. ⊥)
        ((r.upgrade >> r.downgrade) s)

module _ {op : Op} {tables : op.State → Tables} (law : Does op tables) (s : op.State)
    (sound : IsSound (tables s)) where
  abbrev before : Tables
  before = tables s

  initial-Undoes :
      IsUnused "files" before
      → IsUnused "download_tasks" before
      → IsUnused "outbox_events" before
      → Ensures
          (Holds law before)
          (upgrade_initial op >> downgrade_initial op)
          (λ _. Holds law before)
          (Never law)
  unfolding upgrade_initial downgrade_initial
  initial-Undoes (a, new_a) (b, new_b) (c, new_c) =
      let f = with_table "files" (some files_created) before in
      let g = with_table "download_tasks" (some download_tasks_created) f in
      let made =
        Ensures-bind _ _
          (create-Ensures law before "files" files_created (refl, refl, ((a, new_a), tt)))
          λ _.
            Ensures-bind _ _
              (create-Ensures law f "download_tasks" download_tasks_created
                (refl, refl, ((b, IsUnnamed-with _ _ files_created before refl new_b), tt)))
              λ _. create-Ensures law g "outbox_events" outbox_events_created (
                refl,
                refl,
                (
                  (
                    c,
                    IsUnnamed-with _ _ download_tasks_created f refl
                        (IsUnnamed-with _ _ files_created before refl new_c),
                  ),
                  tt,
                ),
              ) in
      Ensures-bind _ _ made λ _.
        Ensures-bind _ _
          (drop_created-Ensures law g "outbox_events" outbox_events_created c refl (
            IsFree-with "outbox_events" _ download_tasks_created f refl (
              IsFree-with "outbox_events" _ files_created before refl
                (IsSound-IsFree before _ sound c))))
          λ _.
            Ensures-bind _ _
              (drop_created-Ensures law f "download_tasks" download_tasks_created b refl (
                IsFree-with "download_tasks" _ files_created before refl
                  (IsSound-IsFree before _ sound b)))
              λ _.
                drop_created-Ensures law before "files" files_created a refl
                  (IsSound-IsFree before _ sound a)

module _ {op : Op} {tables : op.State → Tables} (law : Does op tables) where
  outbox-Undoes :
      (s : op.State)
      → tables s "outbox_events" ≡ some outbox_events_created
      → IsFree "outbox_events" (tables s)
      → IsUnnamed "outbox_events" (tables s)
      → Ensures
          (Holds law (tables s))
          (upgrade_outbox op >> downgrade_outbox op)
          (λ _. Holds law (tables s))
          (Never law)
  unfolding upgrade_outbox downgrade_outbox
  outbox-Undoes s there free new =
      Ensures-bind _ _
        (drop-Ensures law (tables s) "outbox_events" outbox_events_created there free)
        λ _.
          create_dropped-Ensures law (tables s) "outbox_events" outbox_events_created there
            (refl, refl, ((refl, IsUnnamed-without _ "outbox_events" _ new), tt))

  -- `downgrade` right after `upgrade` raises no exception, and the database then has the tables
  -- that it had, each with the columns and the constraints that it had; nothing is said of the rows,
  -- and those of a table that was dropped are lost. This holds for the first revision from a
  -- database that has no tables or constraints of the names that it creates, for the second from
  -- one with the table that it drops, as the first revision makes it, named by no foreign key and no
  -- constraint, and for the third from one with a table of the tasks that lacks the five columns, has
  -- the key `id` and is named by no foreign key, and without the table and the constraint that it
  -- creates. The foreign keys of the first and of the last database name tables that are there.
  pub upgrade-downgrade :
      (s t u : op.State)
      → IsSound (tables s)
      → IsUnused "files" (tables s)
      → IsUnused "download_tasks" (tables s)
      → IsUnused "outbox_events" (tables s)
      → tables t "outbox_events" ≡ some outbox_events_created
      → IsFree "outbox_events" (tables t)
      → IsUnnamed "outbox_events" (tables t)
      → IsSound (tables u)
      → (v : Table) → tables u "download_tasks" ≡ some v
      → Lacks worker_columns v
      → is_only "id" (string 36) (keys v.columns) ≡ true
      → IsUnused "downloaded_files" (tables u)
      → IsUnused "uq_task_file" (tables u)
      → IsFree "download_tasks" (tables u)
      → Undoes tables (initial op) s
        × Undoes tables (drop_outbox_events op) t
        × Undoes tables (add_worker_fields op) u
  upgrade-downgrade s t u sound a b c there free new sound_u v have lacks id absent key unref = (
    (initial-Undoes law s sound a b c).at s (λ j. refl),
    (outbox-Undoes t there free new).at t (λ j. refl),
    (Ensures-bind _ _ (worker_added law u sound_u v lacks have id absent key unref)
          λ _. worker_removed law u sound_u v lacks have id absent key unref).at
        u (λ j. refl),
  )
