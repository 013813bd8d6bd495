-- ===== src/Schema/Widened.antt =====
-- The third revision, undone: a table of the tasks that gets five columns and loses them again.
use text.Mathlib.Text.{◌==◌ as str_eq}
use file_extractor.Base.{String, ◌≡◌, refl, ◌∙◌, true, false, none, some, List, [], ◌∷◌}
use file_extractor.Base.Exec.Ensures.{Ensures, Ensures-bind}
use file_extractor.Schema.{Column, Table, Op, column, default_column, string, integer, date_time}
use file_extractor.Schema.Revisions.{upgrade_worker, downgrade_worker, downloaded_files_created}
use file_extractor.Schema.Tables.{
  Tables, with_table, plus_column, has_column, has_column-append, has, targets, targets-plus_column,
  IsFree, IsFree-with, IsSound, IsSound-IsFree, with_table-own,
}
use file_extractor.Schema.Effects.{
  Does, CanCreate, IsUnnamed, IsUnused, IsUnnamed-with, uses, keys, is_only, keys-plus_column,
}
use file_extractor.Schema.Rules.{
  Holds, Never, becomes-Ensures, create-Ensures, add-Ensures, add_more-Ensures,
  drop_created-Ensures, remove_added-Ensures,
}

-- None of the names is a column of the table, or stands in a constraint of it.
abbrev pub Lacks : List String → Table → Type 0
Lacks [] t = Unit
Lacks (name ∷ names) t =
    ((has_column name t.columns ≡ false) × (uses name t ≡ false)) × Lacks names t

abbrev pub worker_columns : List String
worker_columns = "worker_id" ∷ "last_heartbeat" ∷ "attempts" ∷ "blocked_until" ∷ "block_reason" ∷ []

unnamed :
    (name : String) (c : Column) (t : Table)
    → c.references ≡ none
    → has name (targets t.columns) ≡ false
    → has name (targets (plus_column c t).columns) ≡ false
unnamed name c t e h = rw (targets-plus_column c t e) h

module _ {op : Op} {tables : op.State → Tables} (law : Does op tables) (s : op.State)
    (sound : IsSound (tables s)) where
  abbrev before : Tables
  before = tables s

  module _ (t : Table) (lacks : Lacks worker_columns t) (there : before "download_tasks" ≡ some t)
      (id : is_only "id" (string 36) (keys t.columns) ≡ true)
      (absent : IsUnused "downloaded_files" before) (unnamed_key : IsUnused "uq_task_file" before)
      (free : IsFree "download_tasks" before) where
    -- The table with one column more each.
    abbrev t1 : Table
    t1 = plus_column (column "worker_id" (string 100) true) t

    abbrev t2 : Table
    t2 = plus_column (column "last_heartbeat" date_time true) t1

    abbrev t3 : Table
    t3 = plus_column (default_column "attempts" integer "0") t2

    abbrev t4 : Table
    t4 = plus_column (column "blocked_until" date_time true) t3

    abbrev t5 : Table
    t5 = plus_column (column "block_reason" (string 255) true) t4

    abbrev tasks : Table → Tables
    tasks u = with_table "download_tasks" (some u) before

    more :
        (name : String) (c : Column) (u : Table)
        → has_column name u.columns ≡ false
        → str_eq name c.name ≡ false
        → has_column name (plus_column c u).columns ≡ false
    more name c u = has_column-append name u.columns c

    free2 : has_column "last_heartbeat" t1.columns ≡ false
    free2 = more _ _ t lacks.1.0.0 refl

    free3 : has_column "attempts" t2.columns ≡ false
    free3 = more _ _ t1 (more _ _ t lacks.1.1.0.0 refl) refl

    free4 : has_column "blocked_until" t3.columns ≡ false
    free4 = more _ _ t2 (more _ _ t1 (more _ _ t lacks.1.1.1.0.0 refl) refl) refl

    free5 : has_column "block_reason" t4.columns ≡ false
    free5 =
        more _ _ t3 (more _ _ t2 (more _ _ t1 (more _ _ t lacks.1.1.1.1.0.0 refl) refl) refl) refl

    tasks-IsFree : IsFree "downloaded_files" (tasks t5)
    tasks-IsFree =
        IsFree-with "downloaded_files" "download_tasks" t5 before
          (unnamed _ _ t4 refl (
            unnamed _ _ t3 refl (
              unnamed _ _ t2 refl (
                unnamed _ _ t1 refl (
                  unnamed _ _ t refl (
                    IsSound-IsFree before "downloaded_files" sound absent.0 "download_tasks" t
                      there))))))
          (IsSound-IsFree before _ sound absent.0)

    -- No version of the table has a foreign key to itself.
    own : has "download_tasks" (targets t.columns) ≡ false
    own = free "download_tasks" t there

    own1 : has "download_tasks" (targets t1.columns) ≡ false
    own1 = unnamed _ _ t refl own

    own2 : has "download_tasks" (targets t2.columns) ≡ false
    own2 = unnamed _ _ t1 refl own1

    own3 : has "download_tasks" (targets t3.columns) ≡ false
    own3 = unnamed _ _ t2 refl own2

    own4 : has "download_tasks" (targets t4.columns) ≡ false
    own4 = unnamed _ _ t3 refl own3

    keys_kept : keys t5.columns ≡ keys t.columns
    keys_kept =
        keys-plus_column _ t4 refl
        ∙ keys-plus_column _ t3 refl
        ∙ keys-plus_column _ t2 refl
        ∙ keys-plus_column _ t1 refl
        ∙ keys-plus_column _ t refl

    -- The names of the new table and of its constraint are new beside the wider table.
    still-IsUnnamed : (name : String) → IsUnnamed name before → IsUnnamed name (tasks t5)
    still-IsUnnamed name new =
        IsUnnamed-with name "download_tasks" t5 before (new "download_tasks" t there) new

    can_create : CanCreate "downloaded_files" downloaded_files_created (tasks t5)
    can_create = (
      refl,
      rw (keys_kept, id) refl,
      (
        (absent.0, still-IsUnnamed _ absent.1),
        ((unnamed_key.0, still-IsUnnamed _ unnamed_key.1), tt),
      ),
    )

    pub worker_added :
        Ensures
          (Holds law before)
          (upgrade_worker op)
          (λ _.
            Holds law (with_table "downloaded_files" (some downloaded_files_created) (tasks t5)))
          (Never law)
    unfolding upgrade_worker
    worker_added =
        Ensures-bind _ _ (add-Ensures law before "download_tasks" _ t there lacks.0.0 refl) λ _.
          Ensures-bind _ _ (add_more-Ensures law before "download_tasks" _ t1 free2 refl) λ _.
            Ensures-bind _ _ (add_more-Ensures law before "download_tasks" _ t2 free3 refl) λ _.
              Ensures-bind _ _ (add_more-Ensures law before "download_tasks" _ t3 free4 refl) λ _.
                Ensures-bind _ _ (add_more-Ensures law before "download_tasks" _ t4 free5 refl) λ _.
                  create-Ensures law (tasks t5) "downloaded_files" downloaded_files_created
                    can_create

    less :
        (c : Column) (u : Table)
        → c.references ≡ none
        → c.primary_key ≡ false
        → has_column c.name u.columns ≡ false
        → uses c.name u ≡ false
        → has "download_tasks" (targets u.columns) ≡ false
        → Ensures
            (Holds law (tasks (plus_column c u)))
            (op.drop_column "download_tasks" c.name)
            (λ _. Holds law (tasks u))
            (Never law)
    less c u bare plain lacked unused other =
        remove_added-Ensures law before "download_tasks" c u bare plain lacked unused other free

    pub worker_removed :
        Ensures
          (Holds law (with_table "downloaded_files" (some downloaded_files_created) (tasks t5)))
          (downgrade_worker op)
          (λ _. Holds law before)
          (Never law)
    unfolding downgrade_worker
    worker_removed =
        Ensures-bind _ _
          (drop_created-Ensures law (tasks t5) "downloaded_files" downloaded_files_created absent.0
            refl tasks-IsFree)
          λ _. Ensures-bind _ _ (less _ t4 refl refl free5 lacks.1.1.1.1.0.1 own4) λ _.
            Ensures-bind _ _ (less _ t3 refl refl free4 lacks.1.1.1.0.1 own3) λ _.
              Ensures-bind _ _ (less _ t2 refl refl free3 lacks.1.1.0.1 own2) λ _.
                Ensures-bind _ _ (less _ t1 refl refl free2 lacks.1.0.1 own1) λ _.
                  becomes-Ensures law _ _ before _
                    (with_table-own "download_tasks" (some t) before there)
                    (less _ t refl refl lacks.0.0 lacks.0.1 own)
