-- ===== src/Repo/Memory.antt =====
-- adapters/persistence/memory.py. A method is an action on the store, which is the dict `_store`.
pub mod Valid
pub mod Reads
pub mod Refines
pub mod History
use modal_template_fastapi.Common.{
  ℕ, ◌+◌, String, Bool, true, false, not, ◌&&◌, Option, none, some, List, [], ◌∷◌, length, take,
  drop, any, first, keep, is_some, string_keys, ◌==◌, if◌then◌else◌,
}
use modal_template_fastapi.Common.Dict
use modal_template_fastapi.Common.Dict.{Dict}
use modal_template_fastapi.Common.Text.{Unicode, strip, map_text}
use modal_template_fastapi.Domain.{Item, Failure, duplicate_item_name}
use modal_template_fastapi.Repo.Names.{Store, name_taken}
use modal_template_fastapi.Domain.Exec.{Outcome, ok, raise, Exec}

module _ (u : Unicode) where
  -- name.strip().casefold()
  unfoldable pub normal : String → String
  unfolding strip map_text
  normal name = map_text u.fold (strip name)

  unfoldable pub get : String → Exec Store Failure (Option Item)
  get item_id s = (ok (Dict.get item_id s), s)

  unfoldable pub get_by_name : String → Exec Store Failure (Option Item)
  unfolding normal
  get_by_name name s = (ok (first (keep (λ i. normal i.name == normal name) (Dict.values s))), s)

  unfoldable pub list : ℕ → ℕ → Exec Store Failure (List Item × ℕ)
  list limit offset s = (ok (take limit (drop offset (Dict.values s)), length (Dict.values s)), s)

  unfoldable pub create : Item → Exec Store Failure Item
  unfolding name_taken
  create item s =
      if name_taken normal item.name none s
      then (raise (duplicate_item_name item.name), s)
      else (ok item, Dict.put item.id item s)

  unfoldable pub update : Item → Exec Store Failure (Option Item)
  unfolding name_taken
  update item s =
      if not (Dict.has item.id s)
      then (ok none, s)
      else if name_taken normal item.name (some item.id) s
      then (raise (duplicate_item_name item.name), s)
      else (ok (some item), Dict.put item.id item s)

  unfoldable pub delete : String → Exec Store Failure Bool
  delete item_id s = (ok (Dict.has item_id s), Dict.remove item_id s)
