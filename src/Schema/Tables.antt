-- ===== src/Schema/Tables.antt =====
-- The tables of a database by their names, and what changes them.
use mathlib.Core.Path.{subst}
use text.Mathlib.Text.{◌==◌ as str_eq}
use text.Mathlib.TextEquality.{eq_iff}
use file_extractor.Base.{
  String, ◌≡◌, refl, sym, ap, ◌∙◌, arith, inl, inr, Bool-cases, Bool, true, false, ◌||◌, Option,
  none, some, List, [], ◌∷◌, ◌++◌, if◌then◌else◌,
}
use file_extractor.Schema.{Column, Table}

-- The tables by their names.
abbrev pub Tables : Type 0
Tables = String → Option Table

abbrev pub with_table : String → Option Table → Tables → Tables
with_table name t f j = if str_eq name j then t else f j

abbrev pub has_column : String → List Column → Bool
has_column name [] = false
has_column name (c ∷ cs) = str_eq name c.name || has_column name cs

-- The new column is the last.
abbrev pub plus_column : Column → Table → Table
plus_column c t = record t { columns = t.columns ++ c ∷ [] }

abbrev pub without : String → List Column → List Column
without name [] = []
without name (c ∷ cs) = if str_eq name c.name then cs else c ∷ without name cs

abbrev pub minus_column : String → Table → Table
minus_column name t = record t { columns = without name t.columns }

abbrev pub and_target : Option (String × String) → List String → List String
and_target none names = names
and_target (some (name, _)) names = name ∷ names

-- The tables that the foreign keys of a table name.
abbrev pub targets : List Column → List String
targets [] = []
targets (c ∷ cs) = and_target c.references (targets cs)

abbrev pub has : String → List String → Bool
has name [] = false
has name (n ∷ ns) = str_eq name n || has name ns

abbrev pub IsPresent : Option Table → Type 0
IsPresent none = ⊥
IsPresent (some t) = Unit

abbrev pub ArePresent : List String → Tables → Type 0
ArePresent [] f = Unit
ArePresent (n ∷ ns) f = IsPresent (f n) × ArePresent ns f

-- Every foreign key names a table that is there.
abbrev pub IsSound : Tables → Type 0
IsSound f = (j : String) (u : Table) → f j ≡ some u → ArePresent (targets u.columns) f

-- No foreign key names the table.
abbrev pub IsFree : String → Tables → Type 0
IsFree name f = (j : String) (u : Table) → f j ≡ some u → has name (targets u.columns) ≡ false

absent :
    (name : String) (ns : List String) (f : Tables)
    → f name ≡ none
    → ArePresent ns f
    → has name ns ≡ false
absent name [] f e h = refl
absent name (n ∷ ns) f e (there, rest) = elim (Bool-cases (str_eq name n)) [
  | inl same ↦ absurd (subst IsPresent (ap f (sym ((eq_iff name n).0 same)) ∙ e) there)
  | inr other ↦ rw other (absent name ns f e rest)
]

-- In a sound database no foreign key names a table that is not there.
pub IsSound-IsFree : (f : Tables) (name : String) → IsSound f → f name ≡ none → IsFree name f
IsSound-IsFree f name sound e j u h = absent name (targets u.columns) f e (sound j u h)

pub IsFree-with :
    (name n : String) (t : Table) (f : Tables)
    → has name (targets t.columns) ≡ false
    → IsFree name f
    → IsFree name (with_table n (some t) f)
IsFree-with name n t f e free j u h = elim (Bool-cases (str_eq n j)) [
  | inl same ↦ let both : some t ≡ some u = rw same at h in cc
  | inr other ↦ free j u (rw other at h)
]

pub targets-plus_column :
    (c : Column) (t : Table)
    → c.references ≡ none
    → targets (plus_column c t).columns ≡ targets t.columns
targets-plus_column c t e = last t.columns
  where
    last : (cs : List Column) → targets (cs ++ c ∷ []) ≡ targets cs
    last [] = rw e refl
    last (d ∷ cs) = ap (and_target d.references) (last cs)

pub with_table-same : (name : String) (t : Option Table) (f : Tables) → with_table name t f name ≡ t
with_table-same name t f = rw ((eq_iff name name).1 refl) refl

pub with_table-twice :
    (name : String) (t u : Option Table) (f : Tables) (j : String)
    → with_table name u (with_table name t f) j ≡ with_table name u f j
with_table-twice name t u f j = elim (Bool-cases (str_eq name j)) [
  | inl e ↦ rw e refl
  | inr e ↦ rw e refl
]

pub different : (name j : String) → ¬ (j ≡ name) → str_eq name j ≡ false
different name j h = elim (Bool-cases (str_eq name j)) [
  | inl same ↦ absurd (h (sym ((eq_iff name j).0 same)))
  | inr other ↦ other
]

pub with_table-own :
    (name : String) (t : Option Table) (f : Tables)
    → f name ≡ t
    → (j : String) → with_table name t f j ≡ f j
with_table-own name t f e j = elim (Bool-cases (str_eq name j)) [
  | inl same ↦ rw same (sym e ∙ ap f ((eq_iff name j).0 same))
  | inr other ↦ rw other refl
]

-- What was there before is put back.
pub with_table-back :
    (name : String) (t u : Option Table) (f : Tables)
    → f name ≡ u
    → (j : String) → with_table name u (with_table name t f) j ≡ f j
with_table-back name t u f e j = elim (Bool-cases (str_eq name j)) [
  | inl same ↦ rw same (sym e ∙ ap f ((eq_iff name j).0 same))
  | inr other ↦ rw other refl
]

has_column-last : (c : Column) (cs : List Column) → has_column c.name (cs ++ c ∷ []) ≡ true
has_column-last c [] = rw ((eq_iff c.name c.name).1 refl) refl
has_column-last c (d ∷ cs) = ground (arith, has_column-last c cs)

pub has_column-append :
    (name : String) (cs : List Column) (c : Column)
    → has_column name cs ≡ false
    → str_eq name c.name ≡ false
    → has_column name (cs ++ c ∷ []) ≡ false
has_column-append name [] c h e = rw e refl
has_column-append name (d ∷ cs) c h e = ground (arith, has_column-append name cs c)

without-append :
    (c : Column) (cs : List Column)
    → has_column c.name cs ≡ false
    → without c.name (cs ++ c ∷ []) ≡ cs
without-append c [] h = rw ((eq_iff c.name c.name).1 refl) refl
without-append c (d ∷ cs) h = ground (arith, without-append c cs)

pub has_column-plus_column :
    (c : Column) (t : Table) → has_column c.name (plus_column c t).columns ≡ true
has_column-plus_column c t = has_column-last c t.columns

pub minus_column-plus_column :
    (c : Column) (t : Table)
    → has_column c.name t.columns ≡ false
    → minus_column c.name (plus_column c t) ≡ t
minus_column-plus_column c t free =
    ap (λ cs. record t { columns = cs }) (without-append c t.columns free)
