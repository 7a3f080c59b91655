-- ===== src/Witnesses/Schema.antt =====
-- Migrations and deployment limits at concrete files and databases.
use modal_template_fastapi.Common.{ℕ, ◌+◌, ◌≡◌, refl, String, none, some, List, [], ◌∷◌, map, arith}
use modal_template_fastapi.Common.Dict
use modal_template_fastapi.Domain.Exec.{ok}
use modal_template_fastapi.Migrations.{Migration, discover}
use modal_template_fastapi.Migrations.Files.{Ascending}
use modal_template_fastapi.Migrations.Files.Complete.{discover_complete}
use modal_template_fastapi.Migrations.Run.{
  Row, Db, Connection, Format, Timing, Report, applied_rows, pending_of, run_migrations,
}
use modal_template_fastapi.Migrations.Status.{verify_up_to_date}
use modal_template_fastapi.Migrations.Settled.{run_verifies, run_reports, run_settles}
use modal_template_fastapi.Common.{false, string_keys, length, ◌+◌}
use modal_template_fastapi.Deploy.Envfile.{load_env_file, load_env_file-keeps}
use modal_template_fastapi.Witnesses.{ascii}

abbrev plain : ℕ → String
plain n = "n"

abbrev same_text : String → String
same_text s = s

abbrev files : List (String × String)
files = ("002_b.sql", "B") ∷ ("001_a.sql", "A") ∷ ("R__lock.sql", "L") ∷ []

abbrev first_file : Migration
first_file = record {
  version = some 1;
  name = "a";
  filename = "001_a.sql";
  sql = "A";
  checksum = "A";
}

abbrev second_file : Migration
second_file = record {
  version = some 2;
  name = "b";
  filename = "002_b.sql";
  sql = "B";
  checksum = "B";
}

abbrev lock_file : Migration
lock_file = record {
  version = none;
  name = "lock";
  filename = "R__lock.sql";
  sql = "L";
  checksum = "L";
}

abbrev versioned : List Migration
versioned = first_file ∷ second_file ∷ []

abbrev repeatable : List Migration
repeatable = lock_file ∷ []

discover_complete_example :
    Ascending versioned × (length versioned + length repeatable ≡ length files)
unfolding discover Dict.get Dict.put
discover_complete_example = discover_complete ascii same_text plain files versioned repeatable refl

-- A database that keeps the list of the texts that it ran.
abbrev conn : Connection (List String)
conn = record { lock = none; create = none; execute = λ sql ran. ok (sql ∷ ran) }

abbrev fmt : Format
fmt = record { decimal = plain; date = plain }

abbrev time : Timing
time = record { now = 3; elapsed = λ m. 1 }

abbrev row : String → Row
row name = record { name = name; checksum = "A"; applied_at = 1; execution_ms = 1 }

abbrev db : Db (List String)
db = record { schema = some ((1, row "a") ∷ []); content = "A" ∷ [] }

abbrev after : Db (List String)
after = (run_migrations conn fmt time 10 (ok (versioned, repeatable)) db).1

abbrev report : Report
report = record {
  applied = "002_b.sql" ∷ [];
  repeatable = "R__lock.sql" ∷ [];
  warnings = [];
  already_applied = 1;
}

abbrev report_again : Report
report_again = record {
  applied = [];
  repeatable = "R__lock.sql" ∷ [];
  warnings = [];
  already_applied = 2;
}

abbrev rises : Ascending versioned
rises = ((omega arith, tt), (tt, tt))

run_verifies_example : verify_up_to_date (ok (versioned, repeatable)) after.schema ≡ ok tt
unfolding run_migrations Dict.get Dict.put
run_verifies_example = run_verifies conn fmt time 10 versioned repeatable db after report rises refl

run_reports_example :
    (report.applied ≡ map (λ m. m.filename) (pending_of versioned (applied_rows db.schema)))
    × (report.repeatable ≡ map (λ m. m.filename) repeatable)
unfolding run_migrations Dict.get Dict.put
run_reports_example = run_reports conn fmt time 10 versioned repeatable db after report refl

abbrev twice : Db (List String)
twice = (run_migrations conn fmt time 10 (ok (versioned, repeatable)) after).1

run_settles_example : (report_again.applied ≡ []) × (twice.schema ≡ after.schema)
unfolding run_migrations Dict.get Dict.put
run_settles_example =
    run_settles conn conn fmt time time 10 versioned repeatable db after twice report report_again
      rises refl refl

load_env_file-keeps_example :
    Dict.get "A" (load_env_file none [] false (some "export A=2\nB='x' # b") (("A", "1") ∷ [])).0
    ≡ some "1"
unfolding Dict.get
load_env_file-keeps_example =
    load_env_file-keeps none [] (some "export A=2\nB='x' # b") (("A", "1") ∷ []) "A" "1" refl
