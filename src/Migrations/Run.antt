-- ===== src/Migrations/Run.antt =====
-- `run_migrations` of adapters/persistence/migrations.py. The database is the table
-- `schema_migrations`, if there is one, and the rest; what the migrations' own SQL does to the rest,
-- and which statements wait for a lock too long, is a parameter, `Connection`.
use Prim.Native.Char.{Char, code}
use modal_template_fastapi.Common.{
  ℕ, zero, suc, max, String, Bool, not, ◌&&◌, ◌||◌, Option, none, some, List, [], ◌∷◌, ◌++◌, leb,
  ltb, nat_eq, string_keys, nat_keys, ◌==◌, if◌then◌else◌, sort_by, map, keep, is_some, length,
  join,
}
use modal_template_fastapi.Common.Dict
use modal_template_fastapi.Common.Dict.{Dict}
use modal_template_fastapi.Common.Text.{◌⧺◌}
use modal_template_fastapi.Domain.Exec.{Outcome, ok, raise}
use modal_template_fastapi.Migrations.{
  DbError, lock_not_available, failed, Error, migration_error, database, Migration, number,
}

-- A row of `schema_migrations`, whose key is `version`.
pub record Row : Type 0 where
  pub name : String
  pub checksum : String
  pub applied_at : ℕ
  pub execution_ms : ℕ

pub record Db (D : Type 0) : Type 0 where
  pub schema : Option (Dict ℕ Row)
  pub content : D

-- `lock` and `create` are the outcomes of `pg_advisory_xact_lock` and of `_CREATE_TABLE`.
pub record Connection (D : Type 0) : Type 0 where
  pub lock : Option DbError
  pub create : Option DbError
  pub execute : String → D → Outcome DbError D

-- `now()` of the transaction, and the milliseconds that a migration takes.
pub record Timing : Type 0 where
  pub now : ℕ
  pub elapsed : Migration → ℕ

-- `str` of a number, and `{...:%Y-%m-%d}` of a time.
pub record Format : Type 0 where
  pub decimal : ℕ → String
  pub date : ℕ → String

pub record Report : Type 0 where
  pub applied : List String
  pub repeatable : List String
  pub warnings : List String
  pub already_applied : ℕ

-- the line boundaries of `str.splitlines`
abbrev ends_line : Char → Bool
ends_line c =
    let n = code c in
    leb 10 n && leb n 13
    || leb 28 n && leb n 30
    || nat_eq n 0x85
    || nat_eq n 0x2028
    || nat_eq n 0x2029

-- `_first_line`, of at most `room` characters
abbrev first_line : ℕ → String → String
first_line zero s = String.[]
first_line (suc room) String.[] = String.[]
first_line (suc room) (String.◌∷◌ c s) =
    let rest = first_line room s in if ends_line c then String.[] else String.◌∷◌ c rest

-- `{type(exc).__name__}: {_first_line(exc)}`; the driver's text of a lock timeout is fixed
abbrev described : DbError → String
described lock_not_available = "LockNotAvailableError: canceling statement due to lock timeout"
described (failed type text) = type ⧺ (": " ⧺ first_line 300 text)

-- `_drift`
abbrev pub drift : String → Migration → Bool
drift applied_checksum m = not (applied_checksum == m.checksum)

-- `_applied_rows`
abbrev pub applied_rows : Option (Dict ℕ Row) → Dict ℕ Row
applied_rows none = []
applied_rows (some rows) = rows

-- `by_version.get(version)`; the versions of a directory differ
abbrev pub with_version : ℕ → List Migration → Option Migration
with_version v [] = none
with_version v (m ∷ ms) = if nat_eq (number m) v then some m else with_version v ms

-- the first row, by version, whose migration has changed
abbrev pub first_drift : List Migration → Dict ℕ Row → Option (Migration × Row)
first_drift versioned [] = none
first_drift versioned ((v, row) ∷ rows) =
    let later = first_drift versioned rows in
    elim (with_version v versioned) [
      | none ↦ later
      | some m ↦ if drift row.checksum m then some (m, row) else later
    ]

abbrev pub by_key : Dict ℕ Row → Dict ℕ Row
by_key = sort_by (λ a b. leb a.0 b.0)

-- `[m for m in versioned if m.version not in applied]`
abbrev pub pending_of : List Migration → Dict ℕ Row → List Migration
pending_of versioned rows = keep (λ m. not (Dict.has (number m) rows)) versioned

-- `sorted(set(applied) - set(by_version))`
abbrev pub unknown_of : List Migration → Dict ℕ Row → Dict ℕ Row
unknown_of versioned rows = keep (λ e. not (is_some (with_version e.0 versioned))) (by_key rows)

-- `max(applied, default=0)`
abbrev newest : Dict ℕ Row → ℕ
newest [] = 0
newest ((v, row) ∷ rows) = max v (newest rows)

module _ {D : Type 0} (conn : Connection D) (fmt : Format) (time : Timing) where
  unknown_warning : Dict ℕ Row → List String
  unknown_warning [] = []
  unknown_warning (e ∷ es) =
      ("database has migrations this code does not know ("
        ⧺ (join (map (λ x. fmt.decimal x.0) (e ∷ es))
            ⧺ "): running older code against a newer schema; continuing"))
      ∷ []

  order_warnings : ℕ → List Migration → List String
  order_warnings top [] = []
  order_warnings top (m ∷ ms) =
      let rest = order_warnings top ms in
      if ltb (number m) top
      then ("applying "
          ⧺ (m.filename ⧺ (" out of order (version " ⧺ (fmt.decimal top ⧺ " is already applied)"))))
        ∷ rest
      else rest

  -- the INSERT; `version` is the primary key
  abbrev pub insert_row : Migration → Dict ℕ Row → Outcome Error (Dict ℕ Row)
  insert_row m rows =
      if Dict.has (number m) rows
      then raise (database (failed "UniqueViolationError" "duplicate key value"))
      else ok (
          Dict.put (number m)
            (record {
              name = m.name;
              checksum = m.checksum;
              applied_at = time.now;
              execution_ms = time.elapsed m;
            })
            rows)

  -- the loop over `pending`: the rows, the rest of the database, and `report.applied`
  unfoldable pub apply_pending :
      List Migration → Dict ℕ Row × D → Outcome Error ((Dict ℕ Row × D) × List String)
  apply_pending [] (rows, content) = ok ((rows, content), [])
  apply_pending (m ∷ ms) (rows, content) = elim (conn.execute m.sql content) [
    | raise e ↦ raise (
        migration_error (
          "Migration "
          ⧺ (m.filename
              ⧺ (" failed ("
                  ⧺ (described e
                      ⧺ "). The whole batch was rolled back; nothing from this run was applied.")))))
    | ok content' ↦ elim (insert_row m rows) [
      | raise e ↦ raise e
      | ok rows' ↦ elim (apply_pending ms (rows', content')) [
        | raise e ↦ raise e
        | ok (after, names) ↦ ok (after, m.filename ∷ names)
      ]
    ]
  ]

  -- the loop over `repeatable`
  unfoldable pub apply_repeatable : List Migration → D → Outcome Error (D × List String)
  apply_repeatable [] content = ok (content, [])
  apply_repeatable (m ∷ ms) content = elim (conn.execute m.sql content) [
    | raise e ↦ raise (
        migration_error (
          "Repeatable migration "
          ⧺ (m.filename ⧺ (" failed (" ⧺ (described e ⧺ "). The whole batch was rolled back.")))))
    | ok content' ↦ elim (apply_repeatable ms content') [
      | raise e ↦ raise e
      | ok (after, names) ↦ ok (after, m.filename ∷ names)
    ]
  ]

  -- the body of the transaction once the table is there
  unfoldable pub migrate :
      List Migration → List Migration → Dict ℕ Row × D → Outcome Error ((Dict ℕ Row × D) × Report)
  unfolding apply_pending apply_repeatable unknown_warning order_warnings
  migrate versioned repeatable (rows, content) = elim (first_drift versioned (by_key rows)) [
    | some (m, row) ↦ raise (
        migration_error (
          "Migration "
          ⧺ (m.filename
              ⧺ (" was changed after it was applied (applied "
                  ⧺ (fmt.date row.applied_at
                      ⧺ ("). Applied migrations are immutable: restore the file and put the change in a new, "
                          ⧺ "higher-numbered migration."))))))
    | none ↦ elim (apply_pending (pending_of versioned rows) (rows, content)) [
      | raise e ↦ raise e
      | ok ((rows', content'), names) ↦ elim (apply_repeatable repeatable content') [
        | raise e ↦ raise e
        | ok (content'', repeated) ↦ ok (
          (rows', content''),
          record {
            applied = names;
            repeatable = repeated;
            warnings =
                unknown_warning (unknown_of versioned rows)
                ++ order_warnings (newest rows) (pending_of versioned rows);
            already_applied = length rows;
          },
        )
      ]
    ]
  ]

  -- the transaction: the advisory lock, `_CREATE_TABLE`, then the migrations
  unfoldable pub in_transaction :
      ℕ → List Migration → List Migration → Db D → Outcome Error (Db D × Report)
  unfolding migrate
  in_transaction lock_s versioned repeatable db = elim conn.lock [
    | some lock_not_available ↦ raise (
        migration_error (
          "Another instance has been running migrations for more than "
          ⧺ (fmt.decimal lock_s
              ⧺ ("s. Check for a stuck migration (pg_stat_activity) or raise "
                  ⧺ "MIGRATION_LOCK_TIMEOUT_SECONDS."))))
    | some (failed type text) ↦ raise (database (failed type text))
    | none ↦ elim conn.create [
      | some e ↦ raise (database e)
      | none ↦ elim (migrate versioned repeatable (applied_rows db.schema, db.content)) [
        | raise e ↦ raise e
        | ok ((rows, content), report) ↦
            ok (record { schema = some rows; content = content }, report)
      ]
    ]
  ]

  -- the outer handlers
  translated : ℕ → Error → Error
  translated lock_s (database lock_not_available) = migration_error (
      "A migration waited more than "
      ⧺ (fmt.decimal lock_s ⧺ "s for a database lock and was rolled back."))
  translated lock_s (database (failed type text)) = database (failed type text)
  translated lock_s (migration_error what) = migration_error what

  -- `run_migrations`, of a directory that `discover` has read; a transaction that raises is undone
  unfoldable pub run_migrations :
      ℕ → Outcome Error (List Migration × List Migration) → Db D → Outcome Error Report × Db D
  unfolding in_transaction translated
  run_migrations lock_s (raise e) db = (raise e, db)
  run_migrations lock_s (ok (versioned, repeatable)) db =
      elim (in_transaction lock_s versioned repeatable db) [
        | raise e ↦ (raise (translated lock_s e), db)
        | ok (db', report) ↦ (ok report, db')
      ]
