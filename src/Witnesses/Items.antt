-- ===== src/Witnesses/Items.antt =====
-- The repository, the service and its metrics at concrete items.
use modal_template_fastapi.Common.{
  List, ◌+◌, ◌≡◌, ◌↔◌, String, none, some, [], ◌∷◌, ◌++◌, string_keys,
}
use modal_template_fastapi.Common.Dict
use modal_template_fastapi.Domain.{Item}
use modal_template_fastapi.Domain.Exec.{ok}
use modal_template_fastapi.Repo.Port.{Contract}
use modal_template_fastapi.Repo.Memory.{normal, list, get_by_name}
use modal_template_fastapi.Repo.Names.{Store, view, IsValid}
use modal_template_fastapi.Repo.Memory.Refines.{memory, memory-Contract}
use modal_template_fastapi.Repo.Memory.History.{
  creates, updates, deletes, run, run-IsValid, get_by_name_iff, list_pages, page_of, total_of,
}
use modal_template_fastapi.Service.{create, update, delete}
use modal_template_fastapi.Service.Laws.{
  create_announces, update_announces, delete_announces, after_create, after_update, after_delete,
  draft,
}
use modal_template_fastapi.Service.Metered.Runs.{
  Call, creates, gets, deletes, metered_run, plain_run, run_transparent,
}
use modal_template_fastapi.Witnesses.{ascii, counting}

abbrev lamp : Item
lamp = record { id = "a"; name = "Lamp"; description = none; project_id = none }

abbrev desk : Item
desk = record { id = "b"; name = "Desk"; description = some "oak"; project_id = none }

abbrev shelf : Store
shelf = ("a", lamp) ∷ ("b", desk) ∷ []

memory-Contract_example : Contract (normal ascii) (IsValid (normal ascii)) view (memory ascii)
memory-Contract_example = memory-Contract ascii

run-IsValid_example :
    IsValid
      (normal ascii)
      (run ascii [] (creates lamp ∷ creates desk ∷ updates lamp ∷ deletes "b" ∷ []))
run-IsValid_example =
    run-IsValid ascii (creates lamp ∷ creates desk ∷ updates lamp ∷ deletes "b" ∷ [])

list_pages_example :
    (page_of ascii (list ascii 1 0 shelf).0 ++ page_of ascii (list ascii 1 (0 + 1) shelf).0
      ≡ page_of ascii (list ascii (1 + 1) 0 shelf).0)
    × (page_of ascii (list ascii (total_of ascii (list ascii 1 0 shelf).0) 0 shelf).0
        ≡ Dict.values shelf)
list_pages_example = list_pages ascii 1 1 0 shelf

get_by_name_iff_example :
    ((get_by_name ascii " Lamp" (run ascii [] (creates lamp ∷ []))).0 ≡ ok (some lamp)) ↔ (
      (k : String) × (Dict.get k (run ascii [] (creates lamp ∷ [])) ≡ some lamp)
      × (normal ascii lamp.name ≡ normal ascii " Lamp"))
get_by_name_iff_example =
    get_by_name_iff ascii " Lamp" (run ascii [] (creates lamp ∷ [])) lamp
      (run-IsValid ascii (creates lamp ∷ []))

create_announces_example :
    create (memory ascii) (some counting) "c" "Chair" none none (shelf, 0) ≡ (
      ((memory ascii).create
          (draft (memory ascii) (some counting) "c" "Chair" none none shelf 0)
          shelf).0,
      (
        ((memory ascii).create
            (draft (memory ascii) (some counting) "c" "Chair" none none shelf 0)
            shelf).1,
        after_create
            (memory ascii)
            (some counting)
            ((memory ascii).create
              (draft (memory ascii) (some counting) "c" "Chair" none none shelf 0)
              shelf).0
            0,
      ),
    )
create_announces_example =
    create_announces (memory ascii) (some counting) "c" "Chair" none none shelf 0

update_announces_example :
    update (memory ascii) (some counting) "a" "Chair" none none (shelf, 0) ≡ (
      ((memory ascii).update
          (draft (memory ascii) (some counting) "a" "Chair" none none shelf 0)
          shelf).0,
      (
        ((memory ascii).update
            (draft (memory ascii) (some counting) "a" "Chair" none none shelf 0)
            shelf).1,
        after_update
            (memory ascii)
            (some counting)
            ((memory ascii).update
              (draft (memory ascii) (some counting) "a" "Chair" none none shelf 0)
              shelf).0
            0,
      ),
    )
update_announces_example =
    update_announces (memory ascii) (some counting) "a" "Chair" none none shelf 0

delete_announces_example : delete (memory ascii) (some counting) "a" (shelf, 0) ≡ (
  ((memory ascii).delete "a" shelf).0,
  (
    ((memory ascii).delete "a" shelf).1,
    after_delete (memory ascii) (some counting) "a" ((memory ascii).delete "a" shelf).0 0,
  ),
)
delete_announces_example = delete_announces (memory ascii) (some counting) "a" shelf 0

abbrev calls : List Call
calls = creates "c" "Chair" none none ∷ gets "z" ∷ deletes "a" ∷ []

run_transparent_example : metered_run (memory ascii) (some counting) 7 calls ((shelf, 0), []) ≡ (
  (plain_run (memory ascii) (some counting) 7 calls (shelf, 0)).0.0,
  (
    (plain_run (memory ascii) (some counting) 7 calls (shelf, 0)).1,
    [] ++ (plain_run (memory ascii) (some counting) 7 calls (shelf, 0)).0.1,
  ),
)
run_transparent_example = run_transparent (memory ascii) (some counting) 7 calls (shelf, 0) []
