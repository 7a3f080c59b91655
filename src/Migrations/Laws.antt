-- ===== src/Migrations/Laws.antt =====
-- What a run of adapters/persistence/migrations.py leaves behind.
use modal_template_fastapi.Common.{
  ℕ, ◌≡◌, refl, sym, ap, ◌∙◌, String, none, some, List, [], ◌∷◌, nat_keys, string_keys, All, map,
  arith, Option-cases, inl, inr,
}
use modal_template_fastapi.Common.Dict
use modal_template_fastapi.Common.Dict.{Dict, Distinct, put-Distinct, get-put}
use modal_template_fastapi.Common.{==_refl, eq_refl}
use modal_template_fastapi.Domain.Exec.{ok, Outcome-cases, ok_unique, ok≢raise}
use modal_template_fastapi.Migrations.{database, failed, Migration, number}
use modal_template_fastapi.Migrations.Run.{
  Row, Connection, Format, Timing, apply_pending, apply_repeatable,
}
use modal_template_fastapi.Migrations.Status.{applied, state_of}

-- The migration has its row, with the checksum of its file.
abbrev pub IsApplied : Dict ℕ Row → Migration → Type 0
IsApplied rows m = state_of (Dict.get (number m) rows) m ≡ applied

module _ {D : Type 0} (conn : Connection D) (fmt : Format) (time : Timing) where
  -- A migration that the loop got past: its row was missing, and its SQL did not raise.
  IsStep : Migration → List Migration → Dict ℕ Row → Dict ℕ Row × D → List String → Type 0
  IsStep m ms rows after names =
      (Dict.get (number m) rows ≡ none)
      × (c : D) × (r : Row) × (r.checksum ≡ m.checksum)
      × (rest : List String) × (apply_pending conn fmt time ms (Dict.put (number m) r rows, c)
          ≡ ok (after, rest))
      × (names ≡ m.filename ∷ rest)

  module _ (m : Migration) (ms : List Migration) (rows : Dict ℕ Row) (c : D)
      (after : Dict ℕ Row × D) (names : List String) where
    apply_pending-IsStep :
        apply_pending conn fmt time (m ∷ ms) (rows, c) ≡ ok (after, names)
        → IsStep m ms rows after names
    unfolding apply_pending IsStep
    apply_pending-IsStep h = elim (Outcome-cases (conn.execute m.sql c)) [
      | inl (e, k) ↦ ground arith
      | inr (c', k) ↦ elim (Option-cases (Dict.get (number m) rows)) [
        | inr (r, l) ↦
            ok≢raise {e = database (failed "UniqueViolationError" "duplicate key value")}
              (rw (k, apply_pending) (rw (l, apply_pending) refl)) h
        | inl l ↦
            let r : Row = record {
              name = m.name;
              checksum = m.checksum;
              applied_at = time.now;
              execution_ms = time.elapsed m;
            } in
            elim (Outcome-cases (apply_pending conn fmt time ms (Dict.put (number m) r rows, c'))) [
              | inl (e, n) ↦
                  ok≢raise {e = e}
                    (rw (k, apply_pending) (rw (l, apply_pending) (rw (n, apply_pending) refl))) h
              | inr ((after', rest), n) ↦
                  let same : (after', m.filename ∷ rest) ≡ (after, names) =
                    ok_unique
                      (rw (k, apply_pending) (rw (l, apply_pending) (rw (n, apply_pending) refl)))
                      h in
                  (
                    l,
                    c',
                    r,
                    refl,
                    rest,
                    n ∙ ap (λ x. ok (x.0, rest)) same,
                    sym (ap (λ x. x.1) same),
                  )
            ]
      ]
    ]

  -- What a step of the loop, and so the loop, does to the rows.
  unfoldable pub Extends : Dict ℕ Row → Dict ℕ Row → Type 0
  Extends rows rows' = (v : ℕ) (r : Row) → Dict.get v rows ≡ some r → Dict.get v rows' ≡ some r

  put-Extends :
      (v : ℕ) (r : Row) (rows : Dict ℕ Row)
      → Dict.get v rows ≡ none
      → Extends rows (Dict.put v r rows)
  unfolding Extends
  put-Extends v r rows h w s k = ground (arith, get-put v w r rows)

  pub apply_pending-keeps :
      (ms : List Migration) (rows : Dict ℕ Row) (c : D) (after : Dict ℕ Row × D)
      (names : List String)
      → apply_pending conn fmt time ms (rows, c) ≡ ok (after, names)
      → Extends rows after.0
  unfolding apply_pending Extends IsStep
  apply_pending-keeps [] rows c after names h v r k = rw (← ap (λ x. x.0.0) (ok_unique refl h)) k
  apply_pending-keeps (m ∷ ms) rows c after names h v r k =
      let (absent, c', r', _, rest, n, _) = apply_pending-IsStep m ms rows c after names h in
      apply_pending-keeps ms _ c' after rest n v r (put-Extends (number m) r' rows absent v r k)

  pub apply_pending-IsApplied :
      (ms : List Migration) (rows : Dict ℕ Row) (c : D) (after : Dict ℕ Row × D)
      (names : List String)
      → apply_pending conn fmt time ms (rows, c) ≡ ok (after, names)
      → All (IsApplied after.0) ms
  unfolding IsStep Extends
  apply_pending-IsApplied [] rows c after names h = tt
  apply_pending-IsApplied (m ∷ ms) rows c after names h =
      let (absent, c', r, same, rest, n, _) = apply_pending-IsStep m ms rows c after names h in
      (
        rw (apply_pending-keeps ms _ c' after rest n (number m) r (simp (get-put, ==_refl)))
            (rw same (simp (eq_refl))),
        apply_pending-IsApplied ms _ c' after rest n,
      )

  pub apply_pending-names :
      (ms : List Migration) (rows : Dict ℕ Row) (c : D) (after : Dict ℕ Row × D)
      (names : List String)
      → apply_pending conn fmt time ms (rows, c) ≡ ok (after, names)
      → (names ≡ map (λ m. m.filename) ms) × (Distinct rows → Distinct after.0)
  unfolding apply_pending IsStep
  apply_pending-names [] rows c after names h = ground arith
  apply_pending-names (m ∷ ms) rows c after names h =
      let (absent, c', r, same, rest, n, e) = apply_pending-IsStep m ms rows c after names h in
      let (l, d) = apply_pending-names ms _ c' after rest n in
      (e ∙ ap (λ x. m.filename ∷ x) l, λ x. d (put-Distinct (number m) r rows x))

  pub apply_repeatable-names :
      (ms : List Migration) (c c' : D) (names : List String)
      → apply_repeatable conn fmt time ms c ≡ ok (c', names)
      → names ≡ map (λ m. m.filename) ms
  unfolding apply_repeatable
  apply_repeatable-names [] c c' names h = ground arith
  apply_repeatable-names (m ∷ ms) c c' names h = elim (Outcome-cases (conn.execute m.sql c)) [
    | inl (e, k) ↦ ground arith
    | inr (d, k) ↦ elim (Outcome-cases (apply_repeatable conn fmt time ms d)) [
      | inl (e, l) ↦ ok≢raise {e = e} (rw (k, apply_repeatable) (rw (l, apply_repeatable) refl)) h
      | inr ((d', rest), l) ↦
          sym (ap (λ x. x.1) (ok_unique refl (rw l at (rw (k, apply_repeatable) at h))))
          ∙ ap (λ x. m.filename ∷ x) (apply_repeatable-names ms d d' rest l)
    ]
  ]
