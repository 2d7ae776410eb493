-- ===== src/Migrations.antt =====
-- The statements of a migration of the schema, and what a database makes of them: the interface is
-- that of `alembic.op` on PostgreSQL, with what the migrations rely on of it.
pub mod Initial
pub mod Reversible
use fastapi_url_shortener.Base.{
  ℕ, String, ◌≡◌, Bool, true, false, not, ◌&&◌, ◌||◌, Option, none, some, List, [], ◌∷◌, ◌++◌, map,
  ◌==◌, string_eq, if◌then◌else◌, select, contains, any,
}

pub data ColumnType : Type 0 where
  uuid : ColumnType
  string : ℕ → ColumnType
  unbounded : ColumnType
  boolean : ColumnType
  timestamptz : ColumnType
  big_integer : ColumnType
  date : ColumnType
  json : ColumnType

-- `sa.Column(name, type, nullable, server_default)`
pub data Column : Type 0 where
  column : String → ColumnType → Bool → Option String → Column

abbrev pub column_name : Column → String
column_name (column name type nullable server_default) = name

pub record ForeignKey : Type 0 where
  pub column : String
  pub table : String
  pub target : String
  pub ondelete : String

pub record TableDef : Type 0 where
  pub name : String
  pub columns : List Column
  pub foreign_keys : List ForeignKey
  pub primary_key : List String
  pub uniques : List (List String)

pub record IndexDef : Type 0 where
  pub name : String
  pub table : String
  pub columns : List String
  pub unique : Bool

pub data Statement : Type 0 where
  create_table : TableDef → Statement
  create_index : IndexDef → Statement
  drop_table : String → Statement

-- What the catalogue of a database lists.
pub record Catalogue : Type 0 where
  pub tables : List TableDef
  pub indexes : List IndexDef

-- A database that runs statements; none where it raises.
pub record Ddl : Type 1 where
  pub Schema : Type 0
  pub catalogue : Schema → Catalogue
  pub execute : Statement → Schema → Option Schema

abbrev pub all : {A : Type 0} → (A → Bool) → List A → Bool
all p [] = true
all p (x ∷ xs) = p x && all p xs

abbrev pub has_columns : List String → TableDef → Bool
has_columns names t = all (contains (map column_name t.columns)) names

-- The column alone is the primary key of the table, or one of its unique constraints.
abbrev is_alone : String → List String → Bool
is_alone n (m ∷ []) = m == n
is_alone n ms = false

abbrev pub is_key : String → TableDef → Bool
is_key n t = is_alone n t.primary_key || any (is_alone n) t.uniques

abbrev no_repeats : List String → Bool
no_repeats [] = true
no_repeats (n ∷ ns) = not (contains ns n) && no_repeats ns

-- A foreign key leads from a column of the table to a key of a table that is there.
abbrev pub leads : Catalogue → TableDef → ForeignKey → Bool
leads c t k =
    has_columns (k.column ∷ []) t
    && any (λ u. (u.name == k.table) && has_columns (k.target ∷ []) u && is_key k.target u) c.tables

-- Conditions under which PostgreSQL accepts a statement. Tables and indexes share their names.
abbrev pub accepts : Statement → Catalogue → Bool
accepts (create_table t) c =
    not (any (λ u. u.name == t.name) c.tables)
    && not (any (λ i. i.name == t.name) c.indexes)
    && no_repeats (map column_name t.columns)
    && has_columns t.primary_key t
    && all (λ names. has_columns names t) t.uniques
    && all (leads c t) t.foreign_keys
accepts (create_index i) c =
    not (any (λ j. j.name == i.name) c.indexes)
    && not (any (λ t. t.name == i.name) c.tables)
    && any (λ t. (t.name == i.table) && has_columns i.columns t) c.tables
accepts (drop_table n) c =
    any (λ t. t.name == n) c.tables
    && all (λ t. t.name == n || not (any (λ k. k.table == n) t.foreign_keys)) c.tables

-- What is listed afterwards.
abbrev pub listed : Statement → Catalogue → Catalogue
listed (create_table t) c = record c { tables = c.tables ++ t ∷ [] }
listed (create_index i) c = record c { indexes = c.indexes ++ i ∷ [] }
listed (drop_table n) c = record {
  tables = select (λ t. not (t.name == n)) c.tables;
  indexes = select (λ i. not (i.table == n)) c.indexes;
}

abbrev pub catalogue_after : (d : Ddl) → Option d.Schema → Option Catalogue
catalogue_after d none = none
catalogue_after d (some s) = some (d.catalogue s)

pub record IsDdl (d : Ddl) : Type 0 where
  pub catalogue-execute :
      (c : Statement) (s : d.Schema)
      → accepts c (d.catalogue s) ≡ true
      → catalogue_after d (d.execute c s) ≡ some (listed c (d.catalogue s))

module _ (d : Ddl) where
  -- The statements of a migration, one after the other; one that raises ends it.
  unfoldable pub run : List Statement → d.Schema → Option d.Schema
  run [] s = some s
  run (c ∷ cs) s = elim (d.execute c s) [ none ↦ none | some s' ↦ run cs s' ]
