-- ===== src/Repo/Postgres.antt =====
-- adapters/persistence/postgres.py: `PostgresItemRepository` over the table `items` of
-- sql/001_create_items.sql, whose rows stand in the order of `seq`. A statement either takes effect
-- at once or is rejected. How the database forms `lower(btrim(name))`, which of two violated
-- constraints it reports, and whether a call reaches it are parameters.
pub mod Refines
pub mod Pool
use modal_template_fastapi.Common.{
  ℕ, String, Bool, true, false, not, ◌&&◌, ◌||◌, Option, none, some, List, [], ◌∷◌, map, length,
  take, drop, first, keep, string_keys, ◌==◌, nat_eq, is_some, if◌then◌else◌,
}
use modal_template_fastapi.Common.Dict
use modal_template_fastapi.Domain.{Item, Failure, duplicate_item_name, storage_unavailable, other}
use modal_template_fastapi.Domain.Exec.{Outcome, ok, raise, Exec, resume}
use modal_template_fastapi.Repo.Names.{Store, name_taken}

pub data Constraint : Type 0 where
  items_pkey items_name_unique : Constraint

-- What a call may raise: an exception of `_UNAVAILABLE`, by its type's name; a UniqueViolationError;
-- any other; or one that the adapter itself raises.
pub data Error : Type 0 where
  unavailable : String → Error
  unique_violation : Constraint → Error
  rejected : String → Error
  domain : Failure → Error

-- How a call of the pool goes: the database answers, or the call ends in an exception, before or
-- after the statement took effect.
pub data Reply : Type 0 where
  answers : Reply
  breaks : Error → Bool → Reply

abbrev pub call {ℓ} : {A : Type ℓ} → Reply → Exec Store Error A → Exec Store Error A
call answers statement s = statement s
call (breaks e applied) statement s =
    let (_, s') = statement s in (raise e, if applied then s' else s)

-- The exceptions of asyncpg that are no connection failures stay what they are.
abbrev pub constraint_text : Constraint → String
constraint_text items_pkey = "items_pkey"
constraint_text items_name_unique = "items_name_unique"

-- `_translating`
unfoldable pub translate : Error → Failure
translate (unavailable kind) = storage_unavailable kind
translate (unique_violation c) = other (constraint_text c)
translate (rejected text) = other text
translate (domain f) = f

abbrev pub translating {ℓ} : {A : Type ℓ} → Outcome Error A × Store → Outcome Failure A × Store
translating (ok a, s) = (ok a, s)
translating (raise e, s) = (raise (translate e), s)

-- `except asyncpg.UniqueViolationError` in `create` and `update`
abbrev pub on_violation {ℓ} :
    {A : Type ℓ} → String → Outcome Error A × Store → Outcome Error A × Store
on_violation name (raise (unique_violation items_name_unique), s) =
    (raise (domain (duplicate_item_name name)), s)
on_violation name (raise (unique_violation items_pkey), s) =
    (raise (unique_violation items_pkey), s)
on_violation name (raise (unavailable kind), s) = (raise (unavailable kind), s)
on_violation name (raise (rejected text), s) = (raise (rejected text), s)
on_violation name (raise (domain f), s) = (raise (domain f), s)
on_violation name (ok a, s) = (ok a, s)

abbrev pub returning : Item → Outcome Error (Unit {0}) × Store → Outcome Error Item × Store
returning item (ok _, s) = (ok item, s)
returning item (raise e, s) = (raise e, s)

abbrev pub with_total : ℕ → Item → Item × ℕ
with_total total i = (i, total)

abbrev pub item_of : Item × ℕ → Item
item_of (i, _) = i

-- The two queries of `list`: the page with the total in each row, and the count alone.
abbrev pub page : ℕ → ℕ → Store → List (Item × ℕ)
page limit offset s =
    take limit (drop offset (map (with_total (length (Dict.values s))) (Dict.values s)))

module _ (normal : String → String) (pkey_first : Bool) where
  violated : Bool → Bool → Constraint
  violated id_taken name_is_taken =
      if id_taken && name_is_taken
      then if pkey_first then items_pkey else items_name_unique
      else if id_taken
      then items_pkey
      else items_name_unique

  -- `INSERT INTO items`
  unfoldable pub insert_item : Item → Exec Store Error (Unit {0})
  unfolding name_taken violated
  insert_item item s =
      let id_taken = Dict.has item.id s in
      let name_is_taken = name_taken normal item.name none s in
      if id_taken || name_is_taken
      then (raise (unique_violation (violated id_taken name_is_taken)), s)
      else (ok tt, Dict.put item.id item s)

  -- `UPDATE items ... RETURNING`; the row's own entry of the index is no obstacle
  unfoldable pub update_item : Item → Exec Store Error (Option Item)
  unfolding name_taken
  update_item item s =
      if not (Dict.has item.id s)
      then (ok none, s)
      else if name_taken normal item.name (some item.id) s
      then (raise (unique_violation items_name_unique), s)
      else (ok (some item), Dict.put item.id item s)

  unfoldable pub get : Reply → String → Exec Store Failure (Option Item)
  get reply item_id s = translating (call reply (λ t. (ok (Dict.get item_id t), t)) s)

  unfoldable pub get_by_name : Reply → String → Exec Store Failure (Option Item)
  get_by_name reply name s = translating (
      call reply (λ t. (ok (first (keep (λ i. normal i.name == normal name) (Dict.values t))), t))
        s)

  -- `list`; the table may have become `later` before the second query
  abbrev pub counted : Reply → Store → ℕ → List (Item × ℕ) → Exec Store Error (List Item × ℕ)
  counted reply later offset (row ∷ rows) s = (ok (map item_of (row ∷ rows), row.1), s)
  counted reply later offset [] s =
      if nat_eq offset 0
      then (ok ([], 0), s)
      else call reply (λ t. (ok ([], length (Dict.values t)), t)) later

  unfoldable pub list : Reply → Reply → Store → ℕ → ℕ → Exec Store Failure (List Item × ℕ)
  list reply reply' later limit offset s =
      translating
        (resume (call reply (λ t. (ok (page limit offset t), t)) s) (counted reply' later offset))

  unfoldable pub create : Reply → Item → Exec Store Failure Item
  unfolding insert_item
  create reply item s =
      translating (returning item (on_violation item.name (call reply (insert_item item) s)))

  unfoldable pub update : Reply → Item → Exec Store Failure (Option Item)
  unfolding update_item
  update reply item s = translating (on_violation item.name (call reply (update_item item) s))

  unfoldable pub delete : Reply → String → Exec Store Failure Bool
  delete reply item_id s =
      translating (call reply (λ t. (ok (Dict.has item_id t), Dict.remove item_id t)) s)

  unfoldable pub ping : Reply → Exec Store Failure (Unit {0})
  ping reply s = translating (call reply (λ t. (ok tt, t)) s)
