-- ===== src/Migrations/Batch.antt =====
-- What a run of adapters/persistence/migrations.py went through when it succeeded.
use modal_template_fastapi.Common.{
  ℕ, ◌<◌, ◌≡◌, refl, sym, ap, ◌∙◌, Bool, false, none, some, List, [], ◌∷◌, nat_keys, string_keys,
  All, keep, arith, Bool-cases, Option-cases, inl, inr,
}
use modal_template_fastapi.Common.Dict
use modal_template_fastapi.Common.Dict.{Dict, Distinct, put-Distinct, get-put}
use modal_template_fastapi.Domain.Exec.{ok, Outcome-cases, ok_unique, ok≢raise}
use modal_template_fastapi.Migrations.{lock_not_available, failed, Migration, number}
use modal_template_fastapi.Migrations.Files.{Ascending}
use modal_template_fastapi.Migrations.Run.{
  Row, Db, Connection, Format, Timing, Report, applied_rows, drift, with_version, first_drift,
  by_key, pending_of, apply_pending, apply_repeatable, migrate, in_transaction, run_migrations,
}

abbrev pub Undrifted : List Migration → ℕ × Row → Type 0
Undrifted versioned e =
    (m : Migration) → with_version e.0 versioned ≡ some m → drift e.1.checksum m ≡ false

pub undrifted :
    (versioned : List Migration) (rows : Dict ℕ Row)
    → first_drift versioned rows ≡ none
    → All (Undrifted versioned) rows
undrifted versioned [] h = tt
undrifted versioned ((v, row) ∷ rows) h = elim (Option-cases (with_version v versioned)) [
  | inl k ↦ (λ m l. ground arith, undrifted versioned rows (rw (k, first_drift) at h))
  | inr (m, k) ↦ elim (Bool-cases (drift row.checksum m)) [
    | inl l ↦ ground arith
    | inr l ↦ (λ n q. ground arith, undrifted versioned rows (rw l at (rw (k, first_drift) at h)))
  ]
]

pub All_get :
    (P : ℕ × Row → Type 0) (rows : Dict ℕ Row)
    → All P rows
    → (v : ℕ) (r : Row) → Dict.get v rows ≡ some r
    → P (v, r)
unfolding Dict.get
All_get P [] a v r h = ground arith
All_get P ((w, s) ∷ rows) a v r h = ground (arith, All_get P rows a.1 v r)

found_later :
    (k : ℕ) (m : Migration) (ms ns : List Migration)
    → All (λ n. number m < number n) ns
    → All (λ n. with_version (number n) ms ≡ some n) ns
    → All (λ n. with_version (number n) (m ∷ ms) ≡ some n) ns
found_later k m ms [] l a = tt
found_later k m ms (n ∷ ns) l a = (ground (arith, l.0, a.0), found_later k m ms ns l.1 a.1)

pub found : (ms : List Migration) → Ascending ms → All (λ m. with_version (number m) ms ≡ some m) ms
found [] a = tt
found (m ∷ ms) a = (ground arith, found_later 0 m ms ms a.0 (found ms a.1))

pub All_of_keep {ℓ} :
    {A : Type ℓ} (p : A → Bool) (Q : A → Type 0) (xs : List A)
    → All Q (keep p xs)
    → All (λ x. p x ≡ false → Q x) xs
    → All Q xs
All_of_keep p Q [] a b = tt
All_of_keep p Q (x ∷ xs) a b = elim (Bool-cases (p x)) [
  | inl h ↦ let (q, rest) = rw h at a in (q, All_of_keep p Q xs rest b.1)
  | inr h ↦ (b.0 h, All_of_keep p Q xs (rw h at a) b.1)
]

pub none_kept {ℓ} :
    {A : Type ℓ} (p : A → Bool) (xs : List A) → All (λ x. p x ≡ false) xs → keep p xs ≡ []
none_kept p [] a = refl
none_kept p (x ∷ xs) a = rw a.0 (none_kept p xs a.1)

module _ {D : Type 0} (conn : Connection D) (fmt : Format) (time : Timing) (lock_s : ℕ) where
  -- What a successful batch went through.
  unfoldable pub IsMigrated :
      List Migration → List Migration → Dict ℕ Row × D → Report → Dict ℕ Row × D → Type 0
  IsMigrated versioned repeatable before report after =
      (first_drift versioned (by_key before.0) ≡ none)
      × (c : D) × (apply_pending conn fmt time (pending_of versioned before.0) before
          ≡ ok ((after.0, c), report.applied))
      × (apply_repeatable conn fmt time repeatable c ≡ ok (after.1, report.repeatable))

  migrate-IsMigrated :
      (versioned repeatable : List Migration) (before after : Dict ℕ Row × D) (report : Report)
      → migrate conn fmt time versioned repeatable before ≡ ok (after, report)
      → IsMigrated versioned repeatable before report after
  unfolding IsMigrated migrate
  migrate-IsMigrated versioned repeatable (rows, content) after report h =
      elim (Option-cases (first_drift versioned (by_key rows))) [
        | inr ((m, row), k) ↦ ground arith
        | inl k ↦
            elim (Outcome-cases
              (apply_pending conn fmt time (pending_of versioned rows) (rows, content))) [
                | inl (e, l) ↦ ok≢raise {e = e} (rw (k, migrate) (rw (l, migrate) refl)) h
                | inr (((rows', c'), names), l) ↦
                    elim (Outcome-cases (apply_repeatable conn fmt time repeatable c')) [
                      | inl (e, n) ↦
                          ok≢raise {e = e}
                            (rw (k, migrate) (rw (l, migrate) (rw (n, migrate) refl))) h
                      | inr ((c'', repeated), n) ↦
                          let g =
                            ok_unique
                              (rw (n, migrate) at (rw (l, migrate) at (rw (k, migrate) at h)))
                              refl in
                          (
                            k,
                            c',
                            l ∙ ap (λ x. ok ((x.0.0, c'), x.1.applied)) (sym g),
                            n ∙ ap (λ x. ok (x.0.1, x.1.repeatable)) (sym g),
                          )
                    ]
              ]
      ]

  unfoldable pub BatchOf : List Migration → List Migration → Db D → Report → Db D → Type 0
  unfolding IsMigrated
  BatchOf versioned repeatable db report db' =
      (rows : Dict ℕ Row) × (db'.schema ≡ some rows)
      × IsMigrated versioned repeatable (applied_rows db.schema, db.content) report
          (rows, db'.content)

  in_transaction-BatchOf :
      (versioned repeatable : List Migration) (db db' : Db D) (report : Report)
      → in_transaction conn fmt time lock_s versioned repeatable db ≡ ok (db', report)
      → BatchOf versioned repeatable db report db'
  unfolding in_transaction BatchOf
  in_transaction-BatchOf versioned repeatable db db' report h = elim (Option-cases conn.lock) [
    | inr (lock_not_available, k) ↦ ground arith
    | inr (failed type text, k) ↦ ground arith
    | inl k ↦ elim (Option-cases conn.create) [
      | inr (e, l) ↦ ground arith
      | inl l ↦
          elim (Outcome-cases
            (migrate conn fmt time versioned repeatable (applied_rows db.schema, db.content))) [
              | inl (e, n) ↦ ground arith
              | inr (((rows, c), report'), n) ↦
                  let g = ok_unique (rw n at (rw l at (rw k at h))) refl in
                  (
                    rows,
                    ap (λ x. x.0.schema) g,
                    migrate-IsMigrated versioned repeatable (applied_rows db.schema, db.content)
                        (rows, db'.content) report
                        (n ∙ ap (λ x. ok ((rows, x.0.content), x.1)) (sym g)),
                  )
            ]
    ]
  ]

  pub run-BatchOf :
      (versioned repeatable : List Migration) (db db' : Db D) (report : Report)
      → run_migrations conn fmt time lock_s (ok (versioned, repeatable)) db ≡ (ok report, db')
      → BatchOf versioned repeatable db report db'
  unfolding run_migrations
  run-BatchOf versioned repeatable db db' report h =
      elim (Outcome-cases (in_transaction conn fmt time lock_s versioned repeatable db)) [
        | inl (e, k) ↦ ground arith
        | inr ((db'', report'), k) ↦
            in_transaction-BatchOf versioned repeatable db db' report
              (k ∙ (let q = rw (k, run_migrations) at h in ground arith))
      ]
