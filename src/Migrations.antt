-- ===== src/Migrations.antt =====
-- adapters/persistence/migrations.py: the files of a directory, and the migrations that they hold.
pub mod Run
pub mod Status
pub mod Laws
pub mod Batch
pub mod Settled
pub mod Files
use Prim.Native.Char.{Char, code}
use Prim.Native.String
use modal_template_fastapi.Common.{
  ℕ, zero, suc, ◌+◌, ◌*◌, String, Bool, true, false, not, ◌&&◌, ◌||◌, Option, none, some, List, [],
  ◌∷◌, ◌++◌, leb, ltb, nat_eq, string_keys, nat_keys, ◌==◌, if◌then◌else◌, before, sort_by, map,
}
use modal_template_fastapi.Common.Dict
use modal_template_fastapi.Common.Dict.{Dict, values}
use modal_template_fastapi.Common.Text.{Unicode, ◌⧺◌, is_empty}
use modal_template_fastapi.Domain.Exec.{Outcome, ok, raise}

-- An exception of a query: asyncpg's LockNotAvailableError, or another one by its type and `str`.
pub data DbError : Type 0 where
  lock_not_available : DbError
  failed : String → String → DbError

-- What a function of the module raises: its own error, or one of the database that it lets pass.
pub data Error : Type 0 where
  migration_error : String → Error
  database : DbError → Error

-- `version` is `none` for a repeatable migration.
pub record Migration : Type 0 where
  pub version : Option ℕ
  pub name : String
  pub filename : String
  pub sql : String
  pub checksum : String

abbrev name_start : Char → Bool
name_start c =
    let n = code c in
    leb b'A' n && leb n b'Z' || leb b'a' n && leb n b'z' || leb b'0' n && leb n b'9'

abbrev in_name : Char → Bool
in_name c = name_start c || nat_eq (code c) b'_' || nat_eq (code c) b'-'

-- `[A-Za-z0-9_\-]*\.sql$`, and what stands in front of the dot
abbrev name_rest : String → Option String
name_rest String.[] = none
name_rest (String.◌∷◌ c s) =
    let rest = name_rest s in
    if in_name c
    then elim rest [ none ↦ none | some r ↦ some (String.◌∷◌ c r) ]
    else if String.◌∷◌ c s == ".sql"
    then some String.[]
    else none

-- `([A-Za-z0-9][A-Za-z0-9_\-]*)\.sql$`, its group
abbrev name_of : String → Option String
name_of String.[] = none
name_of (String.◌∷◌ c s) = if name_start c then name_rest (String.◌∷◌ c s) else none

-- `\d+_`: the number, and what follows the underscore
abbrev number_of : Unicode → ℕ → Bool → String → Option (ℕ × String)
number_of u acc some_digit String.[] = none
number_of u acc some_digit (String.◌∷◌ c s) = elim (u.digit c) [
  | some d ↦ number_of u (acc * 10 + d) true s
  | none ↦ if some_digit && nat_eq (code c) b'_' then some (acc, s) else none
]

-- `_VERSIONED.match(name)`, its groups
unfoldable pub versioned_name : Unicode → String → Option (ℕ × String)
versioned_name u filename = elim (number_of u 0 false filename) [
  | none ↦ none
  | some (version, rest) ↦ elim (name_of rest) [ none ↦ none | some name ↦ some (version, name) ]
]

-- `_REPEATABLE.match(name)`, its group
unfoldable pub repeatable_name : String → Option String
repeatable_name (String.◌∷◌ a (String.◌∷◌ b (String.◌∷◌ c s))) =
    if nat_eq (code a) b'R' && nat_eq (code b) b'_' && nat_eq (code c) b'_' then name_of s else none
repeatable_name _ = none

-- `sql.replace("\r\n", "\n")`
abbrev unix_lines : String → String
unix_lines String.[] = String.[]
unix_lines (String.◌∷◌ c String.[]) = String.◌∷◌ c String.[]
unix_lines (String.◌∷◌ c (String.◌∷◌ d s)) =
    let rest = unix_lines (String.◌∷◌ d s) in
    if nat_eq (code c) 13 && nat_eq (code d) 10 then rest else String.◌∷◌ c rest

-- `versioned` by number, and `repeatable`
abbrev pub Found : Type 0
Found = Dict ℕ Migration × List Migration

-- `m.version`, of a versioned migration
abbrev pub number : Migration → ℕ
number m = elim m.version [ some version ↦ version | none ↦ 0 ]

-- `sha256` is the hex digest of a text's UTF-8 bytes, `decimal` is `str` of a number.
module _ (u : Unicode) (sha256 : String → String) (decimal : ℕ → String) where
  unfoldable pub checksum : String → String
  checksum sql = sha256 (unix_lines sql)

  abbrev pub migration : Option ℕ → String → String → String → Migration
  migration version name filename sql = record {
    version = version;
    name = name;
    filename = filename;
    sql = sql;
    checksum = checksum sql;
  }

  -- one turn of the loop of `discover`
  unfoldable pub add_file : String → String → Found → Outcome Error Found
  unfolding checksum versioned_name repeatable_name
  add_file filename sql (versioned, repeatable) = elim (versioned_name u filename) [
    | some (version, name) ↦ elim (Dict.get version versioned) [
      | some other ↦ raise (
          migration_error (
            "Two migrations share version "
            ⧺ (decimal version ⧺ (": " ⧺ (other.filename ⧺ (" and " ⧺ filename))))))
      | none ↦
          ok (Dict.put version (migration (some version) name filename sql) versioned, repeatable)
    ]
    | none ↦ elim (repeatable_name filename) [
      | some name ↦ ok (versioned, repeatable ++ migration none name filename sql ∷ [])
      | none ↦ raise (
          migration_error (
            filename
            ⧺ (" does not match NNN_name.sql (versioned) or R__name.sql (repeatable); "
                ⧺ "rename it or move it out of the migrations directory")))
    ]
  ]

  unfoldable pub add_files : Dict String String → Found → Outcome Error Found
  unfolding add_file
  add_files [] found = ok found
  add_files ((filename, sql) ∷ files) found = elim (add_file filename sql found) [
    | ok found' ↦ add_files files found'
    | raise e ↦ raise e
  ]

  -- `discover`, of the files `*.sql` of the directory
  unfoldable pub discover : Dict String String → Outcome Error (List Migration × List Migration)
  unfolding add_files
  discover files = elim (add_files (sort_by (λ a b. before a.0 b.0) files) ([], [])) [
    | ok (versioned, repeatable) ↦ ok (
      map (λ e. e.1) (sort_by (λ a b. leb a.0 b.0) versioned),
      sort_by (λ a b. before a.filename b.filename) repeatable,
    )
    | raise e ↦ raise e
  ]
