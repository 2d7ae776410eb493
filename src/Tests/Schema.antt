-- ===== src/Tests/Schema.antt =====
-- The migrations at a concrete database: its catalogue.
use fastapi_url_shortener.Base.{none, some, if◌then◌else◌}
use fastapi_url_shortener.Migrations.{Catalogue, Ddl, accepts, listed}

abbrev memory_ddl : Ddl
memory_ddl = record {
  Schema = Catalogue;
  catalogue = λ c. c;
  execute = λ x c. if accepts x c then some (listed x c) else none;
}
