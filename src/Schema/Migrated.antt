-- ===== src/Schema/Migrated.antt =====
-- The schema that the migrations make, beside the one that the models declare.
use mathlib.Core.Path.{subst, fun_ext}
use text.Mathlib.Text.{◌==◌ as str_eq}
use file_extractor.Base.{
  String, ◌≡◌, refl, sym, true, false, Bool-cases, inl, inr, Option, none, some, List, [], ◌∷◌,
}
use file_extractor.Base.Exec.{Exec, pure, ◌>>◌}
use file_extractor.Base.Exec.Ensures.{Post, Ensures, Ensures-bind}
use file_extractor.Schema.{Column, Table, Op, column, default_column, string, integer, date_time}
use file_extractor.Schema.Models
use file_extractor.Schema.Revisions.{
  Revision, history, upgrade_initial, upgrade_outbox, upgrade_worker, files_created,
  download_tasks_created, outbox_events_created, downloaded_files_created,
}
use file_extractor.Schema.Tables.{
  Tables, with_table, plus_column, has_column, IsFree-with, different,
}
use file_extractor.Schema.Effects.{Does, fills, IsUnnamed, IsUnnamed-with, IsUnnamed-without}
use file_extractor.Schema.Rules.{
  Holds, Never, create-Ensures, drop-Ensures, add-Ensures, add_more-Ensures,
}

-- Each revision comes after the one before it.
abbrev pub IsChain : {op : Op} → Option String → List (Revision op) → Type 0
IsChain before [] = Unit
IsChain before (r ∷ rs) = (r.down_revision ≡ before) × IsChain (some r.revision) rs

-- `alembic upgrade head`: the revisions in order.
abbrev pub upgrade_all : {op : Op} → List (Revision op) → Exec op.State (Unit {0})
upgrade_all [] = pure tt
upgrade_all (r ∷ rs) = r.upgrade >> upgrade_all rs

-- A column as a model sees it, which need not declare the default of the server.
abbrev pub seen : Column → Column → Column
seen m c = record c {
  server_default = elim m.server_default [ none ↦ none | some d ↦ c.server_default ];
}

abbrev pub all_seen : List Column → List Column → List Column
all_seen [] cs = cs
all_seen (m ∷ ms) [] = []
all_seen (m ∷ ms) (c ∷ cs) = seen m c ∷ all_seen ms cs

-- The table has the columns of the model, in the same order, and its constraints.
abbrev pub Agrees : Table → Option Table → Type 0
Agrees m none = ⊥
Agrees m (some t) = (all_seen m.columns t.columns ≡ m.columns) × (t.unique ≡ m.unique)

-- The database has the tables of the models and no others.
pub record Declares (f : Tables) : Type 0 where
  pub files : Agrees Models.files (f "files")
  pub download_tasks : Agrees Models.download_tasks (f "download_tasks")
  pub downloaded_files : Agrees Models.downloaded_files (f "downloaded_files")
  pub others :
      (name : String)
      → ¬ (name ≡ "files")
      → ¬ (name ≡ "download_tasks")
      → ¬ (name ≡ "downloaded_files")
      → f name ≡ none

abbrev no_tables : Tables
no_tables j = none

abbrev with_files : Tables
with_files = with_table "files" (some files_created) no_tables

abbrev with_tasks : Tables
with_tasks = with_table "download_tasks" (some download_tasks_created) with_files

abbrev first : Tables
first = with_table "outbox_events" (some outbox_events_created) with_tasks

abbrev second : Tables
second = with_table "outbox_events" none first

abbrev with_worker : Table
with_worker = plus_column (column "block_reason" (string 255) true) (
    plus_column (column "blocked_until" date_time true) (
      plus_column (default_column "attempts" integer "0") (
        plus_column (column "last_heartbeat" date_time true)
          (plus_column (column "worker_id" (string 100) true) download_tasks_created))))

abbrev third : Tables
third =
    with_table "downloaded_files" (some downloaded_files_created)
      (with_table "download_tasks" (some with_worker) second)

-- Of these tables only the last has a constraint.
none-IsUnnamed : (name : String) → IsUnnamed name no_tables
none-IsUnnamed name j u h = cc

files-IsUnnamed : (name : String) → IsUnnamed name with_files
files-IsUnnamed name =
    IsUnnamed-with name "files" files_created no_tables refl (none-IsUnnamed name)

tasks-IsUnnamed : (name : String) → IsUnnamed name with_tasks
tasks-IsUnnamed name =
    IsUnnamed-with name "download_tasks" download_tasks_created with_files refl
      (files-IsUnnamed name)

worker-IsUnnamed :
    (name : String) → IsUnnamed name (with_table "download_tasks" (some with_worker) second)
worker-IsUnnamed name = IsUnnamed-with name "download_tasks" with_worker second refl (
    IsUnnamed-without name "outbox_events" first (
      IsUnnamed-with name "outbox_events" outbox_events_created with_tasks refl
        (tasks-IsUnnamed name)))

third-Declares : Declares third
third-Declares = record {
  files = (refl, refl);
  download_tasks = (refl, refl);
  downloaded_files = (refl, refl);
  others = λ name a b c.
      rw
        (
          different "files" name a,
          different "download_tasks" name b,
          different "downloaded_files" name c,
        )
        (elim (Bool-cases (str_eq "outbox_events" name)) [ inl e ↦ rw e refl | inr e ↦ rw e refl ]);
}

module _ {op : Op} {tables : op.State → Tables} (law : Does op tables) where
  initial-Ensures :
      Ensures (Holds law no_tables) (upgrade_initial op) (λ _. Holds law first) (Never law)
  unfolding upgrade_initial
  initial-Ensures =
      Ensures-bind _ _
        (create-Ensures law no_tables "files" files_created
          (refl, refl, ((refl, none-IsUnnamed "files"), tt)))
        λ _.
          Ensures-bind _ _
            (create-Ensures law with_files "download_tasks" download_tasks_created
              (refl, refl, ((refl, files-IsUnnamed "download_tasks"), tt)))
            λ _.
              create-Ensures law with_tasks "outbox_events" outbox_events_created
                (refl, refl, ((refl, tasks-IsUnnamed "outbox_events"), tt))

  outbox-Ensures : Ensures (Holds law first) (upgrade_outbox op) (λ _. Holds law second) (Never law)
  unfolding upgrade_outbox
  outbox-Ensures = drop-Ensures law first "outbox_events" outbox_events_created refl (
      IsFree-with "outbox_events" "outbox_events" outbox_events_created _ refl (
        IsFree-with "outbox_events" "download_tasks" download_tasks_created _ refl
          (IsFree-with "outbox_events" "files" files_created no_tables refl λ j u h. cc)))

  more :
      (c : Column) (t : Table)
      → has_column c.name t.columns ≡ false
      → fills c ≡ true
      → Ensures
          (Holds law (with_table "download_tasks" (some t) second))
          (op.add_column "download_tasks" c)
          (λ _. Holds law (with_table "download_tasks" (some (plus_column c t)) second))
          (Never law)
  more c t free full = add_more-Ensures law second "download_tasks" c t free full

  worker-Ensures : Ensures (Holds law second) (upgrade_worker op) (λ _. Holds law third) (Never law)
  unfolding upgrade_worker
  worker-Ensures =
      Ensures-bind _ _
        (add-Ensures law second "download_tasks" (column "worker_id" (string 100) true)
          download_tasks_created refl refl refl)
        λ _. Ensures-bind _ _ (more (column "last_heartbeat" date_time true) _ refl refl) λ _.
          Ensures-bind _ _ (more (default_column "attempts" integer "0") _ refl refl) λ _.
            Ensures-bind _ _ (more (column "blocked_until" date_time true) _ refl refl) λ _.
              Ensures-bind _ _ (more (column "block_reason" (string 255) true) _ refl refl) λ _.
                create-Ensures law (with_table "download_tasks" (some with_worker) second)
                  "downloaded_files" downloaded_files_created
                  (
                    refl,
                    refl,
                    (
                      (refl, worker-IsUnnamed "downloaded_files"),
                      ((refl, worker-IsUnnamed "uq_task_file"), tt),
                    ),
                  )

  all-Ensures :
      Ensures (Holds law no_tables) (upgrade_all (history op)) (λ _ t. Declares (tables t)) (λ _. ⊥)
  all-Ensures = Ensures-bind _ _ initial-Ensures λ _. Ensures-bind _ _ outbox-Ensures λ _.
      Ensures-bind _ _ worker-Ensures
        λ _. record { at = λ s h. subst Declares (fun_ext λ j. sym (h j)) third-Declares }

  -- The revisions follow each other, and when they are run in order on a database without tables,
  -- none raises, and the tables are then those that the models declare, with the same columns in
  -- the same order and the same constraints, and no others. A default of the server is compared
  -- where the model has one.
  pub upgrade_all-Declares :
      (s : op.State)
      → ((name : String) → tables s name ≡ none)
      → IsChain none (history op)
        × Post (λ _ t. Declares (tables t)) (λ _. ⊥) (upgrade_all (history op) s)
  upgrade_all-Declares s h = ((refl, (refl, (refl, tt))), all-Ensures.at s h)
