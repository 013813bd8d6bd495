-- ===== src/Schema/Rules.antt =====
-- A rule for each operation of alembic, and for one after another.
use mathlib.Core.Path.{subst, fun_ext}
use file_extractor.Base.{String, ◌≡◌, sym, ap, ◌∙◌, true, false, Option, none, some}
use file_extractor.Base.Exec.{Exec, Result, ok, raised}
use file_extractor.Base.Exec.Ensures.{Post, Post-weaken, Ensures}
use file_extractor.Schema.{Column, Table, Op}
use file_extractor.Schema.Tables.{
  Tables, with_table, has_column, plus_column, minus_column, targets, has, IsFree, IsFree-with,
  with_table-same, with_table-twice, with_table-back, has_column-plus_column,
  minus_column-plus_column, targets-plus_column,
}
use file_extractor.Schema.Effects.{
  fills, keys, uses, CanCreate, keys-plus_column, has_column-keys, Does,
}

module _ {op : Op} {tables : op.State → Tables} (law : Does op tables) where
  -- The tables are these.
  abbrev pub Holds : Tables → op.State → Type 0
  Holds f s = (j : String) → tables s j ≡ f j

  -- No exception is raised.
  abbrev pub Never : op.State → Type 0
  Never s = ⊥

  changed-Ensures :
      (f : Tables) (name : String) (t : Option Table) (m : Exec op.State (Unit {0}))
      → ((s : op.State)
          → Holds f s
          → ((m s).0 ≡ ok tt) × ((j : String) → tables (m s).1 j ≡ with_table name t (tables s) j))
      → Ensures (Holds f) m (λ _. Holds (with_table name t f)) Never
  changed-Ensures f name t m h = record {
    at = λ s held.
        let (fine, change) = h s held in returned (m s) fine (λ j. rw (held j) at (change j));
  }
    where
      returned :
          (r : Result (Unit {0}) × op.State)
          → r.0 ≡ ok tt
          → Holds (with_table name t f) r.1
          → Post (λ _. Holds (with_table name t f)) Never r
      returned (ok _, s) e h = h
      returned (raised x, s) e h = cc

  pub create-Ensures :
      (f : Tables) (name : String) (t : Table)
      → CanCreate name t f
      → Ensures (Holds f) (op.create_table name t) (λ _. Holds (with_table name (some t) f)) Never
  create-Ensures f name t can =
      changed-Ensures f name (some t) _
        λ s h. law.creates name t s (subst (CanCreate name t) (fun_ext λ j. sym (h j)) can)

  pub drop-Ensures :
      (f : Tables) (name : String) (t : Table)
      → f name ≡ some t
      → IsFree name f
      → Ensures (Holds f) (op.drop_table name) (λ _. Holds (with_table name none f)) Never
  drop-Ensures f name t e free =
      changed-Ensures f name none _
        λ s h. law.drops name t s (rw (h name) e) λ j u at_j. free j u (rw (h j) at at_j)

  pub add-Ensures :
      (f : Tables) (name : String) (c : Column) (t : Table)
      → f name ≡ some t
      → has_column c.name t.columns ≡ false
      → fills c ≡ true
      → Ensures
          (Holds f)
          (op.add_column name c)
          (λ _. Holds (with_table name (some (plus_column c t)) f))
          Never
  add-Ensures f name c t e free full =
      changed-Ensures f name (some (plus_column c t)) _
        λ s h. law.adds name c t s (rw (h name) e) free full

  pub remove-Ensures :
      (f : Tables) (name column : String) (t : Table)
      → f name ≡ some t
      → has_column column t.columns ≡ true
      → has_column column (keys t.columns) ≡ false
      → uses column t ≡ false
      → IsFree name f
      → Ensures
          (Holds f)
          (op.drop_column name column)
          (λ _. Holds (with_table name (some (minus_column column t)) f))
          Never
  remove-Ensures f name column t e there plain unused free =
      changed-Ensures f name (some (minus_column column t)) _ λ s h.
        law.removes name column t s (rw (h name) e) there plain unused
          λ j u at_j. free j u (rw (h j) at at_j)

  -- The same tables, written otherwise.
  pub becomes-Ensures :
      (f g h : Tables) (m : Exec op.State (Unit {0}))
      → ((j : String) → g j ≡ h j)
      → Ensures (Holds f) m (λ _. Holds g) Never
      → Ensures (Holds f) m (λ _. Holds h) Never
  becomes-Ensures f g h m same e = record {
    at = λ s p. Post-weaken (m s) (λ _ t q j. q j ∙ same j) (λ t q. q) (e.at s p);
  }

  -- A table that is dropped right after it was created, and the other way round.
  pub drop_created-Ensures :
      (f : Tables) (name : String) (t : Table)
      → f name ≡ none
      → has name (targets t.columns) ≡ false
      → IsFree name f
      → Ensures (Holds (with_table name (some t) f)) (op.drop_table name) (λ _. Holds f) Never
  drop_created-Ensures f name t e other free =
      becomes-Ensures _ _ f _ (with_table-back name (some t) none f e) (
        drop-Ensures (with_table name (some t) f) name t (with_table-same name (some t) f)
          (IsFree-with name name t f other free))

  pub create_dropped-Ensures :
      (f : Tables) (name : String) (t : Table)
      → f name ≡ some t
      → CanCreate name t (with_table name none f)
      → Ensures (Holds (with_table name none f)) (op.create_table name t) (λ _. Holds f) Never
  create_dropped-Ensures f name t e can =
      becomes-Ensures _ _ f _ (with_table-back name none (some t) f e)
        (create-Ensures (with_table name none f) name t can)

  -- A column more for a table that was changed before, and the same column less.
  pub add_more-Ensures :
      (f : Tables) (name : String) (c : Column) (t : Table)
      → has_column c.name t.columns ≡ false
      → fills c ≡ true
      → Ensures
          (Holds (with_table name (some t) f))
          (op.add_column name c)
          (λ _. Holds (with_table name (some (plus_column c t)) f))
          Never
  add_more-Ensures f name c t free full =
      becomes-Ensures _ _ _ _ (with_table-twice name (some t) (some (plus_column c t)) f) (
        add-Ensures (with_table name (some t) f) name c t (with_table-same name (some t) f) free
          full)

  pub remove_added-Ensures :
      (f : Tables) (name : String) (c : Column) (t : Table)
      → c.references ≡ none
      → c.primary_key ≡ false
      → has_column c.name t.columns ≡ false
      → uses c.name t ≡ false
      → has name (targets t.columns) ≡ false
      → IsFree name f
      → Ensures
          (Holds (with_table name (some (plus_column c t)) f))
          (op.drop_column name c.name)
          (λ _. Holds (with_table name (some t) f))
          Never
  remove_added-Ensures f name c t bare plain free unused other unnamed =
      becomes-Ensures _ _ _ _
        (λ j.
          with_table-twice name (some (plus_column c t))
            (some (minus_column c.name (plus_column c t))) f j
          ∙ ap (λ u. with_table name (some u) f j) (minus_column-plus_column c t free))
        (remove-Ensures (with_table name (some (plus_column c t)) f) name c.name (plus_column c t)
          (with_table-same name (some (plus_column c t)) f) (has_column-plus_column c t)
          (rw (keys-plus_column c t plain) (has_column-keys c.name t.columns free)) unused
          (IsFree-with name name (plus_column c t) f (rw (targets-plus_column c t bare) other)
            unnamed))
