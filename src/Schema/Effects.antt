-- ===== src/Schema/Effects.antt =====
-- What the operations of alembic need, and what they do to the tables of the database.
use Prim.Native.String.{count}
use package.text.Mathlib.Text.{◌==◌ as str_eq}
use file_extractor.Base.{
  not, leb, ◌==◌, ◌&&◌, String, ◌≡◌, refl, arith, inl, inr, Bool-cases, Bool, true, false, Option,
  none, some, List, [], ◌∷◌, ◌++◌, if◌then◌else◌,
}
use file_extractor.Base.Exec.{ok}
use file_extractor.Schema.{
  Column, ColumnType, uuid, text, integer, big_integer, date_time, string, Table, Op,
}
use file_extractor.Schema.Tables.{
  Tables, with_table, has_column, plus_column, minus_column, has, IsFree,
}

abbrev same_type : ColumnType → ColumnType → Bool
same_type uuid uuid = true
same_type text text = true
same_type integer integer = true
same_type big_integer big_integer = true
same_type date_time date_time = true
same_type (string m) (string n) = m == n
same_type a b = false

-- The defaults that are used, and the types.
abbrev suits : ColumnType → String → Bool
suits (string n) sql = leb (count sql) n
suits integer sql = str_eq sql "0"
suits date_time sql = str_eq sql "now()"
suits type sql = false

abbrev is_type : ColumnType → Bool
is_type (string n) = leb 1 n && leb n 10485760
is_type type = true

abbrev is_column : Column → Bool
is_column c = is_type c.type && elim c.server_default [ none ↦ true | some sql ↦ suits c.type sql ]

-- A column that can be added below rows: it has a value for them, is no key, and has no foreign
-- key.
abbrev pub fills : Column → Bool
fills c = elim c.references [
  | none ↦
      is_column c
      && not c.primary_key
      && elim c.server_default [ none ↦ c.nullable | some sql ↦ true ]
  | some r ↦ false
]

-- The primary key.
abbrev pub keys : List Column → List Column
keys [] = []
keys (c ∷ cs) = if c.primary_key then c ∷ keys cs else keys cs

abbrev pub is_only : String → ColumnType → List Column → Bool
is_only name type (c ∷ []) = str_eq name c.name && same_type type c.type
is_only name type cs = false

-- A foreign key names the primary key of a table that is there, with the type of its own column.
abbrev has_key : String → ColumnType → Option Table → Bool
has_key name type none = false
has_key name type (some u) = is_only name type (keys u.columns)

abbrev is_bound : Column → Tables → Bool
is_bound c f = elim c.references [ none ↦ true | some (name, key) ↦ has_key key c.type (f name) ]

abbrev all_bound : List Column → Tables → Bool
all_bound [] f = true
all_bound (c ∷ cs) f = is_bound c f && all_bound cs f

abbrev all_columns : List Column → Bool
all_columns [] = true
all_columns (c ∷ cs) = is_column c && not (has_column c.name cs) && all_columns cs

abbrev names_columns : List String → List Column → Bool
names_columns [] cs = true
names_columns (n ∷ ns) cs = has_column n cs && names_columns ns cs

abbrev is_some : List String → Bool
is_some [] = false
is_some (n ∷ ns) = true

abbrev pub unique_names : List (String × List String) → List String
unique_names [] = []
unique_names ((n, cs) ∷ us) = n ∷ unique_names us

abbrev all_unique : List (String × List String) → List Column → Bool
all_unique [] cs = true
all_unique ((n, ns) ∷ us) cs =
    not (has n (unique_names us)) && is_some ns && names_columns ns cs && all_unique us cs

-- The columns have different names, their types and their defaults are good, and a constraint is
-- on columns of the table.
abbrev is_formed : Table → Bool
is_formed t = all_columns t.columns && all_unique t.unique t.columns

-- No constraint has the name; nor does a table, which shares the names of the constraints, since
-- each of them has an index.
abbrev pub IsUnnamed : String → Tables → Type 0
IsUnnamed name f =
    (j : String) (u : Table) → f j ≡ some u → has name (unique_names u.unique) ≡ false

abbrev pub IsUnused : String → Tables → Type 0
IsUnused name f = (f name ≡ none) × IsUnnamed name f

abbrev AreUnused : List String → Tables → Type 0
AreUnused [] f = Unit
AreUnused (n ∷ ns) f = IsUnused n f × AreUnused ns f

-- What a table needs to be created.
abbrev pub CanCreate : String → Table → Tables → Type 0
CanCreate name t f =
    (is_formed t && not (has name (unique_names t.unique)) ≡ true)
    × (all_bound t.columns f ≡ true)
    × AreUnused (name ∷ unique_names t.unique) f

abbrev constrained : List (String × List String) → List String
constrained [] = []
constrained ((n, cs) ∷ us) = cs ++ constrained us

-- A constraint of the table is on the column.
abbrev pub uses : String → Table → Bool
uses column t = has column (constrained t.unique)

pub IsUnnamed-with :
    (name n : String) (t : Table) (f : Tables)
    → has name (unique_names t.unique) ≡ false
    → IsUnnamed name f
    → IsUnnamed name (with_table n (some t) f)
IsUnnamed-with name n t f e free j u h = elim (Bool-cases (str_eq n j)) [
  | inl same ↦ let both : some t ≡ some u = rw same at h in cc
  | inr other ↦ free j u (rw other at h)
]

pub IsUnnamed-without :
    (name n : String) (f : Tables) → IsUnnamed name f → IsUnnamed name (with_table n none f)
IsUnnamed-without name n f free j u h = elim (Bool-cases (str_eq n j)) [
  | inl same ↦ let both : none ≡ some u = rw same at h in cc
  | inr other ↦ free j u (rw other at h)
]

pub keys-plus_column :
    (c : Column) (t : Table)
    → c.primary_key ≡ false
    → keys (plus_column c t).columns ≡ keys t.columns
keys-plus_column c t e = last t.columns
  where
    last : (cs : List Column) → keys (cs ++ c ∷ []) ≡ keys cs
    last [] = rw e refl
    last (d ∷ cs) = elim (Bool-cases d.primary_key) [
      | inl key ↦ rw (key, last cs) refl
      | inr other ↦ rw (other, last cs) refl
    ]

pub has_column-keys :
    (name : String) (cs : List Column)
    → has_column name cs ≡ false
    → has_column name (keys cs) ≡ false
has_column-keys name [] h = refl
has_column-keys name (c ∷ cs) h = elim (Bool-cases c.primary_key) [
  | inl key ↦ rw key (ground (arith, has_column-keys name cs))
  | inr other ↦ rw other (has_column-keys name cs (ground arith))
]

-- Each operation returns where it can be done, and changes the columns and the constraints of the
-- table that it names and nothing else: a table is created where `CanCreate` holds, dropped where
-- no foreign key names it, a column is added where it fills the rows that are there, and dropped
-- where no foreign key names its table, no constraint is on it, and it is no key.
pub record Does (op : Op) (tables : op.State → Tables) : Type 0 where
  pub creates :
      (name : String) (t : Table) (s : op.State)
      → CanCreate name t (tables s)
      → ((op.create_table name t s).0 ≡ ok tt)
        × ((j : String)
            → tables (op.create_table name t s).1 j ≡ with_table name (some t) (tables s) j)
  pub drops :
      (name : String) (t : Table) (s : op.State)
      → tables s name ≡ some t
      → IsFree name (tables s)
      → ((op.drop_table name s).0 ≡ ok tt)
        × ((j : String) → tables (op.drop_table name s).1 j ≡ with_table name none (tables s) j)
  pub adds :
      (name : String) (c : Column) (t : Table) (s : op.State)
      → tables s name ≡ some t
      → has_column c.name t.columns ≡ false
      → fills c ≡ true
      → ((op.add_column name c s).0 ≡ ok tt)
        × ((j : String)
            → tables (op.add_column name c s).1 j
              ≡ with_table name (some (plus_column c t)) (tables s) j)
  pub removes :
      (name column : String) (t : Table) (s : op.State)
      → tables s name ≡ some t
      → has_column column t.columns ≡ true
      → has_column column (keys t.columns) ≡ false
      → uses column t ≡ false
      → IsFree name (tables s)
      → ((op.drop_column name column s).0 ≡ ok tt)
        × ((j : String)
            → tables (op.drop_column name column s).1 j
              ≡ with_table name (some (minus_column column t)) (tables s) j)
