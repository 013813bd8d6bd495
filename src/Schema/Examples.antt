-- ===== src/Schema/Examples.antt =====
-- The theorems about the schema at a database that is its tables, and nothing else.
use mathlib.Core.Path.{subst}
use text.Mathlib.Text.{◌==◌ as str_eq}
use file_extractor.Base.{inl, inr, Bool-cases, String, ◌≡◌, refl, Option, none, some}
use file_extractor.Base.Errors.{key_error}
use file_extractor.Base.Exec.{Exec, ok, raised}
use file_extractor.Base.Exec.Ensures.{Post}
use file_extractor.Domain.Status.{task_status_of_name}
use file_extractor.Schema.{Table, Op}
use file_extractor.Schema.Revisions.{
  history, initial, drop_outbox_events, add_worker_fields, outbox_events_created,
  download_tasks_created,
}
use file_extractor.Schema.Tables.{
  Tables, with_table, plus_column, minus_column, IsSound, IsFree, ArePresent, targets, IsFree-with,
}
use file_extractor.Schema.Effects.{Does, IsUnnamed, IsUnnamed-with}
use file_extractor.Schema.Migrated.{IsChain, Declares, upgrade_all, upgrade_all-Declares}
use file_extractor.Schema.Undone.{Undoes, upgrade-downgrade}

abbrev changed : String → Option Table → Option Table → Exec Tables (Unit {0})
changed name none t f = (raised (key_error name), f)
changed name (some _) t f = (ok tt, with_table name t f)

abbrev altered : String → Option Table → (Table → Table) → Exec Tables (Unit {0})
altered name none g f = (raised (key_error name), f)
altered name (some t) g f = (ok tt, with_table name (some (g t)) f)

abbrev plain : Op
plain = record {
  State = Tables;
  create_table = λ name t f. elim (f name) [
    | none ↦ (ok tt, with_table name (some t) f)
    | some _ ↦ (raised (key_error name), f)
  ];
  drop_table = λ name f. changed name (f name) none f;
  add_column = λ name c f. altered name (f name) (plus_column c) f;
  drop_column = λ name column f. altered name (f name) (minus_column column) f;
}

plain-Does : Does plain (λ f. f)
plain-Does = record {
  creates = λ name t f can. rw can.2.0.0 (refl, λ j. refl);
  drops = λ name t f e free. rw e (refl, λ j. refl);
  adds = λ name c t f e free full. rw e (refl, λ j. refl);
  removes = λ name column t f e there plain unused free. rw e (refl, λ j. refl);
}

abbrev no_table : Option Table
no_table = none

abbrev nothing : Tables
nothing j = none

upgrade_all-Declares_example :
    IsChain {op = plain} none (history plain)
    × Post {S = Tables} {A = Unit {0}}
        (λ _ f. Declares f)
        (λ _. ⊥)
        (upgrade_all {op = plain} (history plain) nothing)
upgrade_all-Declares_example = upgrade_all-Declares plain-Does nothing (λ j. refl)

abbrev with_outbox : Tables
with_outbox = with_table "outbox_events" (some outbox_events_created) nothing

abbrev with_tasks : Tables
with_tasks = with_table "download_tasks" (some download_tasks_created) nothing

nothing-IsSound : IsSound nothing
nothing-IsSound j u h = absurd (impossible h)
  where
    impossible : (no_table ≡ some u) → ⊥
    impossible h = cc

with_tasks-IsSound : IsSound with_tasks
with_tasks-IsSound j u h = elim (Bool-cases (str_eq "download_tasks" j)) [
  | inl same ↦
      let both : some download_tasks_created ≡ some u = rw same at h in
      subst (λ v. ArePresent (targets v.columns) with_tasks) (some-inj both) tt
  | inr other ↦ let none_there : no_table ≡ some u = rw other at h in cc
]
  where
    some-inj : {t u : Table} → some t ≡ some u → t ≡ u
    some-inj e = cc

with_outbox-IsFree : IsFree "outbox_events" with_outbox
with_outbox-IsFree =
    IsFree-with "outbox_events" "outbox_events" outbox_events_created nothing refl λ j u h. cc

nothing-IsUnnamed : (name : String) → IsUnnamed name nothing
nothing-IsUnnamed name j u h = cc

with_outbox-IsUnnamed : IsUnnamed "outbox_events" with_outbox
with_outbox-IsUnnamed =
    IsUnnamed-with "outbox_events" "outbox_events" outbox_events_created nothing refl
      (nothing-IsUnnamed "outbox_events")

with_tasks-IsUnnamed : (name : String) → IsUnnamed name with_tasks
with_tasks-IsUnnamed name =
    IsUnnamed-with name "download_tasks" download_tasks_created nothing refl
      (nothing-IsUnnamed name)

with_tasks-IsFree : IsFree "download_tasks" with_tasks
with_tasks-IsFree =
    IsFree-with "download_tasks" "download_tasks" download_tasks_created nothing refl λ j u h. cc

upgrade-downgrade_example :
    Undoes {op = plain} (λ f. f) (initial plain) nothing
    × Undoes {op = plain} (λ f. f) (drop_outbox_events plain) with_outbox
    × Undoes {op = plain} (λ f. f) (add_worker_fields plain) with_tasks
upgrade-downgrade_example =
    upgrade-downgrade plain-Does nothing with_outbox with_tasks nothing-IsSound
      (refl, nothing-IsUnnamed "files") (refl, nothing-IsUnnamed "download_tasks")
      (refl, nothing-IsUnnamed "outbox_events") refl with_outbox-IsFree with_outbox-IsUnnamed
      with_tasks-IsSound download_tasks_created refl
      ((refl, refl), ((refl, refl), ((refl, refl), ((refl, refl), ((refl, refl), tt))))) refl
      (refl, with_tasks-IsUnnamed "downloaded_files") (refl, with_tasks-IsUnnamed "uq_task_file")
      with_tasks-IsFree

-- The default that the first revision gives the status of a task is no status.
created_refused : task_status_of_name "CREATED" ≡ raised (key_error "CREATED")
unfolding task_status_of_name
created_refused = refl
