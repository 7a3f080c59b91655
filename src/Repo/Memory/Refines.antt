-- ===== src/Repo/Memory/Refines.antt =====
-- The in-memory repository keeps the contract of the port.
use modal_template_fastapi.Common.{refl, none, some, string_keys, arith, Bool-cases, inl, inr}
use modal_template_fastapi.Common.Dict
use modal_template_fastapi.Common.Dict.{Distinct, get-put, get-remove}
use modal_template_fastapi.Common.Text.{Unicode}
use modal_template_fastapi.Domain.{Item}
use modal_template_fastapi.Repo.Port.{
  ItemRepository, Created, stored, refused, Updated, missing, replaced, clashed, Contract,
}
use modal_template_fastapi.Repo.Memory
use modal_template_fastapi.Repo.Memory.{normal, create, update, delete}
use modal_template_fastapi.Repo.Names.{
  Store, view, name_taken, holder_of_name_taken, not-held_of_free, not-held_of_free_else,
  held_of_taken,
}
use modal_template_fastapi.Repo.Memory.Reads.{values-Lists, get_by_name_ends}
use modal_template_fastapi.Repo.Memory.Valid.{
  IsValid, create-IsValid, update-IsValid, delete-IsValid,
}

module _ (u : Unicode) where
  -- The class `InMemoryItemRepository`.
  abbrev pub memory : ItemRepository Store
  memory = record {
    get = Memory.get u;
    get_by_name = Memory.get_by_name u;
    list = Memory.list u;
    create = create u;
    update = update u;
    delete = delete u;
  }

  create_ends :
      (item : Item) (s : Store)
      → IsValid u s
      → Created (normal u) (view s) (view (create u item s).1) item (create u item s).0
  unfolding create
  create_ends item s v = elim (Bool-cases (name_taken (normal u) item.name none s)) [
    | inl taken ↦
        let (k, i, found, (_, same)) =
          holder_of_name_taken (normal u) item.name none s v.distinct taken in
        rw taken (refused (k, i, found, tt, same) (λ j. refl))
    | inr open_name ↦
        rw open_name
          (stored (not-held_of_free (normal u) item s open_name) (λ j. get-put item.id j item s))
  ]

  update_ends :
      (item : Item) (s : Store)
      → IsValid u s
      → Updated (normal u) (view s) (view (update u item s).1) item (update u item s).0
  unfolding update
  update_ends item s v = elim (Bool-cases (Dict.has item.id s)) [
    | inr absent ↦ rw absent (missing (ground arith) (λ j. refl))
    | inl present ↦ elim (Bool-cases (name_taken (normal u) item.name (some item.id) s)) [
      | inl taken ↦
          rw (present, taken)
            (clashed (ground arith) (held_of_taken (normal u) item s v taken) (λ j. refl))
      | inr open_name ↦
          rw (present, open_name)
            (replaced (ground arith) (not-held_of_free_else (normal u) item s v open_name)
              (λ j. get-put item.id j item s))
    ]
  ]

  -- The in-memory repository keeps the contract of the port on a valid store: `get` shows the view,
  -- `get_by_name` returns an item of the view whose name agrees with it up to case and surrounding
  -- space, or none where there is none; `list` returns pages of one order of the items of the view,
  -- each once, and their number; `create`, `update` and `delete` refuse, miss or write as `Created`,
  -- `Updated` and `delete_drops` say; and the store stays valid.
  pub memory-Contract : Contract (normal u) (IsValid u) view memory
  unfolding Memory.get Memory.get_by_name Memory.list delete
  memory-Contract = record {
    get_reads = λ k s. refl;
    get_by_name_ends = λ name s v. (get_by_name_ends u s v name, refl);
    list_pages = λ s v. (Dict.values s, values-Lists u s v, λ limit offset. refl);
    create_keeps = create-IsValid u;
    create_ends = create_ends;
    update_keeps = update-IsValid u;
    update_ends = update_ends;
    delete_keeps = delete-IsValid u;
    delete_tells = λ k s. refl;
    delete_drops = λ k j s. get-remove k j s;
  }
