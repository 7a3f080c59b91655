-- ===== src/Repo/Memory/Valid.antt =====
-- The invariant of the in-memory repository, kept by every method.
use modal_template_fastapi.Common.{refl, String, none, some, string_keys, Bool-cases, inl, inr}
use modal_template_fastapi.Common.Dict
use modal_template_fastapi.Common.Text.{Unicode}
use modal_template_fastapi.Domain.{Item}
use modal_template_fastapi.Repo.Memory.{normal, create, update, delete}
use modal_template_fastapi.Repo.Names
use modal_template_fastapi.Repo.Names.{
  Store, name_taken, free, put-IsValid, remove-IsValid, differs_of_key,
}

module _ (u : Unicode) where
  abbrev pub IsValid : Store → Type 0
  IsValid = Names.IsValid (normal u)

  pub create-IsValid : (item : Item) (s : Store) → IsValid s → IsValid (create u item s).1
  unfolding create
  create-IsValid item s v = elim (Bool-cases (name_taken (normal u) item.name none s)) [
    | inl taken ↦ rw taken v
    | inr open_name ↦ rw open_name (
        put-IsValid (normal u) item s (λ k i e _. free (normal u) item none s k i open_name e refl)
          v)
  ]

  pub update-IsValid : (item : Item) (s : Store) → IsValid s → IsValid (update u item s).1
  unfolding update
  update-IsValid item s v = elim (Bool-cases (Dict.has item.id s)) [
    | inr missing ↦ rw missing v
    | inl present ↦ elim (Bool-cases (name_taken (normal u) item.name (some item.id) s)) [
      | inl taken ↦ rw (present, taken) v
      | inr open_name ↦
          rw (present, open_name)
            (put-IsValid (normal u) item s
              (λ k i e n.
                free (normal u) item (some item.id) s k i open_name e
                  (differs_of_key (normal u) s item.id k i v e n))
              v)
    ]
  ]

  pub delete-IsValid : (id : String) (s : Store) → IsValid s → IsValid (delete u id s).1
  unfolding delete
  delete-IsValid id s v = remove-IsValid (normal u) id s v
