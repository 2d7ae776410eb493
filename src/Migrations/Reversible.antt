-- ===== src/Migrations/Reversible.antt =====
-- The migration of alembic/versions/0001_initial_schema.py, up and down.
use fastapi_url_shortener.Base.{Option, none, some, List, [], ◌∷◌, if◌then◌else◌}
use fastapi_url_shortener.Migrations.{Statement, Catalogue, Ddl, IsDdl, accepts, listed}

-- What the catalogue lists after statements that are all accepted.
abbrev pub planned : List Statement → Catalogue → Option Catalogue
planned [] c = some c
planned (x ∷ xs) c = if accepts x c then planned xs (listed x c) else none

abbrev all_listed : List Statement → Catalogue → Catalogue
all_listed [] c = c
all_listed (x ∷ cs) c = all_listed cs (listed x c)

module _ (d : Ddl) (laws : IsDdl d) where
  abbrev pub empty : Catalogue
  empty = record { tables = []; indexes = [] }
