-- ===== src/Migrations/Status.antt =====
-- `status`, `verify_up_to_date` and `migrate_on_startup` of adapters/persistence/migrations.py.
use modal_template_fastapi.Common.{
  ℕ, String, Bool, true, false, not, ◌||◌, Option, none, some, List, [], ◌∷◌, ◌++◌, string_keys,
  nat_keys, ◌==◌, if◌then◌else◌, map, keep, join,
}
use modal_template_fastapi.Common.Dict
use modal_template_fastapi.Common.Dict.{Dict}
use modal_template_fastapi.Common.Text.{Unicode, strip, map_text, ◌⧺◌}
use modal_template_fastapi.Domain.Exec.{Outcome, ok, raise}
use modal_template_fastapi.Migrations.{Error, migration_error, Migration, number}
use modal_template_fastapi.Migrations.Run.{
  Row, Db, Connection, Format, Timing, Report, applied_rows, drift, unknown_of, run_migrations,
}

pub data State : Type 0 where
  pending changed applied unknown repeatable : State

pub record StatusRow : Type 0 where
  pub version : Option ℕ
  pub name : String
  pub file : Option String
  pub state : State
  pub applied_at : Option ℕ

abbrev pub state_of : Option Row → Migration → State
state_of none m = pending
state_of (some row) m = if drift row.checksum m then changed else applied

abbrev time_of : Option Row → Option ℕ
time_of none = none
time_of (some row) = some row.applied_at

abbrev pub known_row : Dict ℕ Row → Migration → StatusRow
known_row rows m =
    let row = Dict.get (number m) rows in
    record {
      version = m.version;
      name = m.name;
      file = some m.filename;
      state = state_of row m;
      applied_at = time_of row;
    }

abbrev pub unknown_row : ℕ × Row → StatusRow
unknown_row (v, row) = record {
  version = some v;
  name = row.name;
  file = none;
  state = unknown;
  applied_at = some row.applied_at;
}

abbrev pub repeatable_row : Migration → StatusRow
repeatable_row m = record {
  version = none;
  name = m.name;
  file = some m.filename;
  state = repeatable;
  applied_at = none;
}

-- `status`, of a directory that `discover` has read
unfoldable pub status : List Migration → List Migration → Option (Dict ℕ Row) → List StatusRow
status versioned repeatables schema =
    let rows = applied_rows schema in
    map (known_row rows) versioned
    ++ (map unknown_row (unknown_of versioned rows) ++ map repeatable_row repeatables)

abbrev pub is_problem : StatusRow → Bool
is_problem r = elim r.state [ pending ↦ true | changed ↦ true | _ ↦ false ]

abbrev state_name : State → String
state_name pending = "pending"
state_name changed = "changed"
state_name applied = "applied"
state_name unknown = "unknown"
state_name repeatable = "repeatable"

-- an f-string prints a missing file as `None`
abbrev file_name : Option String → String
file_name none = "None"
file_name (some f) = f

-- what `verify_up_to_date` does with `problems`
abbrev pub refused : List StatusRow → Outcome Error (Unit {0})
refused [] = ok tt
refused (r ∷ rs) = raise (
    migration_error (
      "AUTO_MIGRATE is off and the database is not at this code's schema: "
      ⧺ (join (map (λ r'. file_name r'.file ⧺ (" (" ⧺ (state_name r'.state ⧺ ")"))) (r ∷ rs))
          ⧺ ". Run `python scripts/migrate.py up` (as a deploy step) before starting this version.")))

unfoldable pub verify_up_to_date :
    Outcome Error (List Migration × List Migration) → Option (Dict ℕ Row) → Outcome Error (Unit {0})
unfolding status
verify_up_to_date (raise e) schema = raise e
verify_up_to_date (ok (versioned, repeatables)) schema =
    refused (keep is_problem (status versioned repeatables schema))

-- `auto_migrate_enabled`, of the environment's AUTO_MIGRATE
unfoldable pub auto_migrate_enabled : Unicode → Option String → Bool
auto_migrate_enabled u none = true
auto_migrate_enabled u (some value) =
    let v = map_text u.to_lower (strip value) in
    not (v == "false" || v == "0" || v == "no" || v == "off")

module _ {D : Type 0} (u : Unicode) (conn : Connection D) (fmt : Format) (time : Timing) where
  unfoldable pub migrate_on_startup :
      Option String
      → ℕ
      → Outcome Error (List Migration × List Migration)
      → Db D
      → Outcome Error (Option Report) × Db D
  unfolding verify_up_to_date auto_migrate_enabled
  migrate_on_startup auto lock_s found db =
      let migrated = run_migrations conn fmt time lock_s found db in
      if auto_migrate_enabled u auto
      then elim migrated.0 [
        | ok report ↦ (ok (some report), migrated.1)
        | raise e ↦ (raise e, migrated.1)
      ]
      else elim (verify_up_to_date found db.schema) [
        | ok _ ↦ (ok none, db)
        | raise e ↦ (raise e, db)
      ]
