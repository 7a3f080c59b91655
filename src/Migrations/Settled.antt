-- ===== src/Migrations/Settled.antt =====
-- After a run of adapters/persistence/migrations.py the database is at the code's schema.
use modal_template_fastapi.Common.{
  ℕ, ◌≡◌, refl, sym, ap, ◌∙◌, String, false, not, Option, some, List, [], ◌∷◌, leb, nat_keys,
  string_keys, All, map, arith, Option-cases, inl, inr,
}
use modal_template_fastapi.Common.Dict
use modal_template_fastapi.Common.Dict.{Dict, Distinct, put-Distinct, get-put}
use modal_template_fastapi.Domain.Exec.{ok, ok_unique}
use modal_template_fastapi.Migrations.{Migration, number}
use modal_template_fastapi.Migrations.Files.{Ascending}
use modal_template_fastapi.Migrations.Run.{
  Row, Db, Connection, Format, Timing, Report, applied_rows, with_version, by_key, pending_of,
  unknown_of, apply_pending, run_migrations,
}
use modal_template_fastapi.Migrations.Status.{
  is_problem, status, verify_up_to_date, known_row, unknown_row, repeatable_row,
}
use modal_template_fastapi.Migrations.Laws.{
  IsApplied, Extends, apply_pending-keeps, apply_pending-IsApplied, apply_pending-names,
  apply_repeatable-names,
}
use modal_template_fastapi.Common.{All_of_sort, All-append}
use modal_template_fastapi.Migrations.Batch.{
  undrifted, All_get, found, All_of_keep, none_kept, Undrifted, IsMigrated, BatchOf, run-BatchOf,
}

problem_free :
    (rows : Dict ℕ Row) (ms : List Migration)
    → All (IsApplied rows) ms
    → All (λ r. is_problem r ≡ false) (map (known_row rows) ms)
problem_free rows [] a = tt
problem_free rows (m ∷ ms) a = (rw a.0 refl, problem_free rows ms a.1)

unknown_free : (es : Dict ℕ Row) → All (λ r. is_problem r ≡ false) (map unknown_row es)
unknown_free [] = tt
unknown_free (e ∷ es) = (refl, unknown_free es)

repeatable_free : (ms : List Migration) → All (λ r. is_problem r ≡ false) (map repeatable_row ms)
repeatable_free [] = tt
repeatable_free (m ∷ ms) = (refl, repeatable_free ms)

accepted_of :
    (versioned repeatable : List Migration) (schema : Option (Dict ℕ Row))
    → All (IsApplied (applied_rows schema)) versioned
    → verify_up_to_date (ok (versioned, repeatable)) schema ≡ ok tt
unfolding verify_up_to_date status
accepted_of versioned repeatable schema a =
    rw
      (none_kept is_problem _ (
        All-append _ _ _ (problem_free (applied_rows schema) versioned a) (
          All-append _ _ _ (unknown_free (unknown_of versioned (applied_rows schema)))
            (repeatable_free repeatable))))
      refl

none_pending :
    (rows : Dict ℕ Row) (ms : List Migration) → All (IsApplied rows) ms → pending_of ms rows ≡ []
none_pending rows ms a = none_kept (λ m. not (Dict.has (number m) rows)) ms (present ms a)
  where
    present :
        (ns : List Migration)
        → All (IsApplied rows) ns
        → All (λ m. not (Dict.has (number m) rows) ≡ false) ns
    present [] b = tt
    present (m ∷ ns) b = (
      (elim (Option-cases (Dict.get (number m) rows)) [
        | inl k ↦ ground arith
        | inr (r, k) ↦ rw k refl
      ]),
      present ns b.1,
    )

apply_none :
    {D : Type 0} (fmt : Format) (conn' : Connection D) (time' : Timing) (ms : List Migration)
    (before after : Dict ℕ Row × D) (names : List String)
    → ms ≡ []
    → apply_pending conn' fmt time' ms before ≡ ok (after, names)
    → (names ≡ []) × (after.0 ≡ before.0)
unfolding apply_pending
apply_none fmt conn' time' ms before after names e h =
    let same = ok_unique refl (rw e at h) in (sym (ap (λ x. x.1) same), sym (ap (λ x. x.0.0) same))

module _ {D : Type 0} (conn : Connection D) (fmt : Format) (time : Timing) (lock_s : ℕ) where
  module _ (versioned repeatable : List Migration) (db db' : Db D) (report : Report) where
    all-IsApplied :
        Ascending versioned
        → BatchOf conn fmt time lock_s versioned repeatable db report db'
        → All (IsApplied (applied_rows db'.schema)) versioned
    unfolding BatchOf IsMigrated Extends
    all-IsApplied a (rows, same, (clean, c, run, _)) = rw same (
        All_of_keep (λ m. not (Dict.has (number m) (applied_rows db.schema))) (IsApplied rows)
          versioned
          (apply_pending-IsApplied conn fmt time _ (applied_rows db.schema) db.content (rows, c)
            report.applied run)
          (kept versioned (found versioned a)))
      where
        old : All (Undrifted versioned) (applied_rows db.schema)
        old =
            All_of_sort (λ a b. leb a.0 b.0) (Undrifted versioned) (applied_rows db.schema)
              (undrifted versioned (by_key (applied_rows db.schema)) clean)

        kept :
            (ms : List Migration)
            → All (λ m. with_version (number m) versioned ≡ some m) ms
            → All
                (λ m. not (Dict.has (number m) (applied_rows db.schema)) ≡ false → IsApplied rows m)
                ms
        kept [] f = tt
        kept (m ∷ ms) f = (
          (λ h. elim (Option-cases (Dict.get (number m) (applied_rows db.schema))) [
            | inl k ↦ ground arith
            | inr (r, k) ↦
                rw
                  (apply_pending-keeps conn fmt time _ (applied_rows db.schema) db.content (rows, c)
                    report.applied run (number m) r k)
                  (rw
                    (All_get (Undrifted versioned) (applied_rows db.schema) old (number m) r k m
                      f.0)
                    refl)
          ]),
          kept ms f.1,
        )

  -- A run that succeeds leaves a database that `verify_up_to_date` accepts, where the versions of
  -- the files rise.
  pub run_verifies :
      (versioned repeatable : List Migration) (db db' : Db D) (report : Report)
      → Ascending versioned
      → run_migrations conn fmt time lock_s (ok (versioned, repeatable)) db ≡ (ok report, db')
      → verify_up_to_date (ok (versioned, repeatable)) db'.schema ≡ ok tt
  run_verifies versioned repeatable db db' report a h =
      accepted_of versioned repeatable db'.schema (
        all-IsApplied versioned repeatable db db' report a
          (run-BatchOf conn fmt time lock_s versioned repeatable db db' report h))

  -- A run that succeeds reports the files that had no row, in their order, and every repeatable file.
  pub run_reports :
      (versioned repeatable : List Migration) (db db' : Db D) (report : Report)
      → run_migrations conn fmt time lock_s (ok (versioned, repeatable)) db ≡ (ok report, db')
      → (report.applied ≡ map (λ m. m.filename) (pending_of versioned (applied_rows db.schema)))
        × (report.repeatable ≡ map (λ m. m.filename) repeatable)
  unfolding BatchOf IsMigrated
  run_reports versioned repeatable db db' report h =
      let (rows, _, (_, c, run, repeated)) =
        run-BatchOf conn fmt time lock_s versioned repeatable db db' report h in
      (
        (apply_pending-names conn fmt time _ (applied_rows db.schema) db.content (rows, c)
            report.applied run).0,
        apply_repeatable-names conn fmt time repeatable c db'.content report.repeatable repeated,
      )

-- Once a run has succeeded, another run that succeeds, with any outcome of its own SQL, applies
-- nothing and leaves the rows as they are.
pub run_settles :
    {D : Type 0} (conn conn' : Connection D) (fmt : Format) (time time' : Timing) (lock_s : ℕ)
    (versioned repeatable : List Migration) (db db' db'' : Db D) (report report' : Report)
    → Ascending versioned
    → run_migrations conn fmt time lock_s (ok (versioned, repeatable)) db ≡ (ok report, db')
    → run_migrations conn' fmt time' lock_s (ok (versioned, repeatable)) db' ≡ (ok report', db'')
    → (report'.applied ≡ []) × (db''.schema ≡ db'.schema)
unfolding BatchOf IsMigrated
run_settles conn conn' fmt time time' lock_s versioned repeatable db db' db'' report report' a h
      h' =
    let (rows, same, _) = run-BatchOf conn fmt time lock_s versioned repeatable db db' report h in
    let (rows', same', (_, c, run, _)) =
      run-BatchOf conn' fmt time' lock_s versioned repeatable db' db'' report' h' in
    let settled =
      all-IsApplied conn fmt time lock_s versioned repeatable db db' report a
        (run-BatchOf conn fmt time lock_s versioned repeatable db db' report h) in
    let (nothing, kept) =
      apply_none fmt conn' time' (pending_of versioned (applied_rows db'.schema))
        (applied_rows db'.schema, db'.content) (rows', c) report'.applied
        (none_pending (applied_rows db'.schema) versioned settled) run in
    (nothing, same' ∙ (ap some kept ∙ rw same refl))
