-- ===== src/Migrations/Files.antt =====
-- What `discover` of adapters/persistence/migrations.py returns.
pub mod Complete
use modal_template_fastapi.Common.{
  ℕ, ◌<◌, ◌≡◌, ◌≢◌, refl, String, Bool, none, some, List, [], ◌∷◌, ◌++◌, leb, nat_keys, sort_by,
  All, map, arith, Bool-cases, Option-cases, inl, inr, before, sort_by-All, insert_by,
  insert_by-All,
}
use modal_template_fastapi.Common.Dict
use modal_template_fastapi.Common.Dict.{Dict, Distinct, put-Distinct}
use modal_template_fastapi.Common.Text.{Unicode}
use modal_template_fastapi.Domain.Exec.{Outcome, ok, Outcome-cases}
use modal_template_fastapi.Migrations.{
  Error, Migration, number, Found, migration, add_file, add_files, discover, versioned_name,
  repeatable_name,
}

-- The numbers rise from one migration to the next.
abbrev pub Ascending : List Migration → Type 0
Ascending [] = Unit
Ascending (m ∷ ms) = All (λ n. number m < number n) ms × Ascending ms

abbrev Rising : Dict ℕ Migration → Type 0
Rising [] = Unit
Rising (e ∷ es) = All (λ f. e.0 < f.0) es × Rising es

abbrev Numbered : ℕ × Migration → Type 0
Numbered e = number e.1 ≡ e.0

abbrev by_number : ℕ × Migration → ℕ × Migration → Bool
by_number a b = leb a.0 b.0

All-lt : {k j : ℕ} (es : Dict ℕ Migration) → k < j → All (λ f. j < f.0) es → All (λ f. k < f.0) es
All-lt [] h a = tt
All-lt (e ∷ es) h a = (omega arith, All-lt es h a.1)

apart_of_absent : (k : ℕ) (es : Dict ℕ Migration) → Dict.get k es ≡ none → All (λ f. k ≢ f.0) es
unfolding Dict.get
apart_of_absent k [] h = tt
apart_of_absent k ((j, m) ∷ es) h = ground (arith, apart_of_absent k es)

insert_by-Rising :
    (e : ℕ × Migration) (es : Dict ℕ Migration)
    → All (λ f. e.0 ≢ f.0) es
    → Rising es
    → Rising (insert_by by_number e es)
insert_by-Rising e [] a r = (tt, tt)
insert_by-Rising e (f ∷ es) a r = elim (Bool-cases (leb e.0 f.0)) [
  | inl h ↦ rw h ((let lt : e.0 < f.0 = ground arith in lt, All-lt es (ground arith) r.0), r)
  | inr h ↦ rw h (
    insert_by-All by_number (λ g. f.0 < g.0) e es (ground arith) r.0,
    insert_by-Rising e es a.1 r.1,
  )
]

sort_by-Rising : (es : Dict ℕ Migration) → Distinct es → Rising (sort_by by_number es)
sort_by-Rising [] d = tt
sort_by-Rising (e ∷ es) d =
    insert_by-Rising e (sort_by by_number es)
      (sort_by-All by_number (λ f. e.0 ≢ f.0) es (apart_of_absent e.0 es d.0))
      (sort_by-Rising es d.1)

lt_values :
    (k : ℕ) (es : Dict ℕ Migration)
    → All Numbered es
    → All (λ f. k < f.0) es
    → All (λ n. k < number n) (map (λ e. e.1) es)
lt_values k [] n a = tt
lt_values k (e ∷ es) n a = (rw n.0 a.0, lt_values k es n.1 a.1)

Ascending_of : (es : Dict ℕ Migration) → All Numbered es → Rising es → Ascending (map (λ e. e.1) es)
Ascending_of [] n r = tt
Ascending_of (e ∷ es) n r = (rw n.0 (lt_values e.0 es n.1 r.0), Ascending_of es n.1 r.1)

put-Numbered :
    (m : Migration) (k : ℕ) (es : Dict ℕ Migration)
    → number m ≡ k
    → All Numbered es
    → All Numbered (Dict.put k m es)
unfolding Dict.put
put-Numbered m k [] h a = (h, tt)
put-Numbered m k ((j, n) ∷ es) h a = ground (arith, put-Numbered m k es h a.1)

module _ (u : Unicode) (sha256 : String → String) (decimal : ℕ → String) where
  -- What the loop of `discover` keeps.
  IsSound : Found → Type 0
  IsSound found = Distinct found.0 × All Numbered found.0

  IsSound-of :
      {o : Outcome Error Found} (v : Dict ℕ Migration) (r : List Migration) {found' : Found}
      → IsSound (v, r)
      → o ≡ ok (v, r)
      → o ≡ ok found'
      → IsSound found'
  unfolding IsSound
  IsSound-of v r s e h = ground arith

  add_file-IsSound :
      (filename sql : String) (found found' : Found)
      → IsSound found
      → add_file u sha256 decimal filename sql found ≡ ok found'
      → IsSound found'
  unfolding add_file IsSound
  add_file-IsSound filename sql (versioned, repeatable) found' s h =
      elim (Option-cases (versioned_name u filename)) [
        | inl k ↦ elim (Option-cases (repeatable_name filename)) [
          | inl l ↦ ground arith
          | inr (name, l) ↦
              IsSound-of versioned
                (repeatable ++ migration u sha256 decimal none name filename sql ∷ []) s
                (rw (k, add_file) (rw (l, add_file) refl)) h
        ]
        | inr ((version, name), k) ↦ elim (Option-cases (Dict.get version versioned)) [
          | inr (other, l) ↦ ground arith
          | inl l ↦
              IsSound-of
                (Dict.put version (migration u sha256 decimal (some version) name filename sql)
                  versioned)
                repeatable
                (put-Distinct version _ versioned s.0, put-Numbered _ version versioned refl s.1)
                (rw (k, add_file) (rw (l, add_file) refl)) h
        ]
      ]

  add_files-IsSound :
      (files : Dict String String) (found found' : Found)
      → IsSound found
      → add_files u sha256 decimal files found ≡ ok found'
      → IsSound found'
  unfolding add_files IsSound
  add_files-IsSound [] found found' s h = ground arith
  add_files-IsSound ((filename, sql) ∷ files) found found' s h =
      elim (Outcome-cases (add_file u sha256 decimal filename sql found)) [
        | inl (e, k) ↦ ground arith
        | inr (next, k) ↦
            add_files-IsSound files next found' (add_file-IsSound filename sql found next s k)
              (rw (k, add_files) at h)
      ]

  ascending_of :
      {o : Outcome Error (List Migration × List Migration)} {v r v' r' : List Migration}
      → Ascending v
      → o ≡ ok (v, r)
      → o ≡ ok (v', r')
      → Ascending v'
  ascending_of a e h = ground arith

  -- The versioned migrations that `discover` returns come in the strict order of their numbers.
  pub discover-Ascending :
      (files : Dict String String) (versioned repeatable : List Migration)
      → discover u sha256 decimal files ≡ ok (versioned, repeatable)
      → Ascending versioned
  unfolding discover IsSound
  discover-Ascending files versioned repeatable h =
      elim (Outcome-cases
        (add_files u sha256 decimal (sort_by (λ a b. before a.0 b.0) files) ([], []))) [
          | inl (e, k) ↦ ground arith
          | inr (found, k) ↦
              let (d, n) =
                add_files-IsSound (sort_by (λ a b. before a.0 b.0) files) ([], []) found (tt, tt)
                  k in
              ascending_of {r = sort_by (λ a b. before a.filename b.filename) found.1}
                (Ascending_of (sort_by by_number found.0) (sort_by-All by_number Numbered found.0 n)
                  (sort_by-Rising found.0 d))
                (rw (k, discover) refl) h
        ]
