-- ===== src/Migrations/Files/Complete.antt =====
-- `discover` of adapters/persistence/migrations.py leaves no file of the directory out.
use modal_template_fastapi.Common.{
  ℕ, ◌+◌, ◌≡◌, refl, String, none, some, List, [], ◌∷◌, ◌++◌, leb, before, nat_keys, sort_by,
  length, length-append, length-map, length-sort_by, map, arith, Option-cases, inl, inr,
}
use modal_template_fastapi.Common.Dict
use modal_template_fastapi.Common.Dict.{Dict, put_new}
use modal_template_fastapi.Common.Text.{Unicode}
use modal_template_fastapi.Domain.Exec.{Outcome, ok, Outcome-cases}
use modal_template_fastapi.Migrations.{
  Error, Migration, Found, migration, add_file, add_files, discover, versioned_name,
  repeatable_name,
}
use modal_template_fastapi.Migrations.Files.{Ascending, discover-Ascending}

abbrev count : Found → ℕ
count (versioned, repeatable) = length versioned + length repeatable

module _ (u : Unicode) (sha256 : String → String) (decimal : ℕ → String) where
  count_of :
      {o : Outcome Error Found} {found' : Found} (found : Found) (n : ℕ)
      → count found ≡ n
      → o ≡ ok found
      → o ≡ ok found'
      → count found' ≡ n
  count_of found n c e h = ground arith

  count-put :
      (k : ℕ) (m : Migration) (v : Dict ℕ Migration) (r : List Migration)
      → Dict.get k v ≡ none
      → count (Dict.put k m v, r) ≡ count (v, r) + 1
  count-put k m v r h = rw (put_new k m v h) (omega (arith, length-append {0} v ((k, m) ∷ [])))

  count-add_file :
      (filename sql : String) (found found' : Found)
      → add_file u sha256 decimal filename sql found ≡ ok found'
      → count found' ≡ count found + 1
  unfolding add_file
  count-add_file filename sql (v, r) found' h = elim (Option-cases (versioned_name u filename)) [
    | inl k ↦ elim (Option-cases (repeatable_name filename)) [
      | inl l ↦ ground arith
      | inr (name, l) ↦
          count_of (v, r ++ migration u sha256 decimal none name filename sql ∷ []) _
            (omega
              (arith, length-append {0} r (migration u sha256 decimal none name filename sql ∷ [])))
            (rw (k, add_file) (rw (l, add_file) refl)) h
    ]
    | inr ((version, name), k) ↦ elim (Option-cases (Dict.get version v)) [
      | inr (other, l) ↦ ground arith
      | inl l ↦
          count_of
            (Dict.put version (migration u sha256 decimal (some version) name filename sql) v, r) _
            (count-put version (migration u sha256 decimal (some version) name filename sql) v r l)
            (rw (k, add_file) (rw (l, add_file) refl)) h
    ]
  ]

  count-add_files :
      (files : Dict String String) (found found' : Found)
      → add_files u sha256 decimal files found ≡ ok found'
      → count found' ≡ count found + length files
  unfolding add_files
  count-add_files [] found found' h = ground arith
  count-add_files ((filename, sql) ∷ files) found found' h =
      elim (Outcome-cases (add_file u sha256 decimal filename sql found)) [
        | inl (e, k) ↦ ground arith
        | inr (next, k) ↦ omega (
          arith,
          count-add_files files next found' (rw (k, add_files) at h),
          count-add_file filename sql found next k,
        )
      ]

  sizes_of :
      {o : Outcome Error (List Migration × List Migration)} {v' r' : List Migration}
      (v r : List Migration)
      → o ≡ ok (v, r)
      → o ≡ ok (v', r')
      → length v' + length r' ≡ length v + length r
  sizes_of v r e h = ground arith

  -- When `discover` accepts a directory, every file of it is a migration of its own: there are as
  -- many migrations, versioned and repeatable, as files, and the versioned ones come in the strict
  -- order of their numbers, so no two files share one.
  pub discover_complete :
      (files : Dict String String) (versioned repeatable : List Migration)
      → discover u sha256 decimal files ≡ ok (versioned, repeatable)
      → Ascending versioned × (length versioned + length repeatable ≡ length files)
  unfolding discover
  discover_complete files versioned repeatable h = (
    discover-Ascending u sha256 decimal files versioned repeatable h,
    elim (Outcome-cases
        (add_files u sha256 decimal (sort_by (λ a b. before a.0 b.0) files) ([], []))) [
          | inl (e, k) ↦ ground arith
          | inr (found, k) ↦ omega (
            arith,
            count-add_files _ ([], []) found k,
            length-sort_by (λ (a b : String × String). before a.0 b.0) files,
            length-sort_by (λ (a b : ℕ × Migration). leb a.0 b.0) found.0,
            length-sort_by (λ (a b : Migration). before a.filename b.filename) found.1,
            length-map (λ (e : ℕ × Migration). e.1) (sort_by (λ a b. leb a.0 b.0) found.0),
            sizes_of (map (λ e. e.1) (sort_by (λ a b. leb a.0 b.0) found.0))
                (sort_by (λ a b. before a.filename b.filename) found.1) (rw (k, discover) refl) h,
          )
        ],
  )
