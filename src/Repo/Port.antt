-- ===== src/Repo/Port.antt =====
-- core/ports/item_repository.py: the operations of a repository, and the contract that its
-- docstring states, as laws over what `get` shows.
use modal_template_fastapi.Common.{
  ℕ, ◌≡◌, ◌≢◌, String, Bool, Option, none, some, List, [], ◌∷◌, ◌⊎◌, All, take, drop, length, ◌==◌,
  string_keys, is_some, if◌then◌else◌,
}
use modal_template_fastapi.Domain.{Item, Failure, duplicate_item_name}
use modal_template_fastapi.Domain.Exec.{Outcome, ok, raise, Exec}

pub record ItemRepository (S : Type 0) : Type 0 where
  pub get : String → Exec S Failure (Option Item)
  pub get_by_name : String → Exec S Failure (Option Item)
  pub list : ℕ → ℕ → Exec S Failure (List Item × ℕ)
  pub create : Item → Exec S Failure Item
  pub update : Item → Exec S Failure (Option Item)
  pub delete : String → Exec S Failure Bool

-- What a client sees of a state: the item under each id.
abbrev pub View : Type 0
View = String → Option Item

-- Another item than the one under `id` holds the name, as `normal` compares names.
abbrev pub NameHeld : (String → String) → View → String → (String → Type 0) → Type 0
NameHeld normal v name other =
    (k : String) × (i : Item) × (v k ≡ some i) × other k × (normal i.name ≡ normal name)

abbrev pub Anyone : String → Type 0
Anyone k = Unit

abbrev pub Except : String → String → Type 0
Except id k = k ≢ id

-- The result of a write that stores `item`, or of none.
abbrev pub Written : View → View → Item → Type 0
Written before after item = (j : String) → after j ≡ (if item.id == j then some item else before j)

abbrev pub Unchanged : View → View → Type 0
Unchanged before after = (j : String) → after j ≡ before j

-- How `create` may end.
pub data Created (normal : String → String) (before after : View) (item : Item)
    : Outcome Failure Item → Type 0 where
  stored :
      ¬ NameHeld normal before item.name Anyone
      → Written before after item
      → Created normal before after item (ok item)
  refused :
      NameHeld normal before item.name Anyone
      → Unchanged before after
      → Created normal before after item (raise (duplicate_item_name item.name))

-- How `update` may end.
pub data Updated (normal : String → String) (before after : View) (item : Item)
    : Outcome Failure (Option Item) → Type 0 where
  missing :
      before item.id ≡ none → Unchanged before after → Updated normal before after item (ok none)
  replaced :
      before item.id ≢ none
      → ¬ NameHeld normal before item.name (Except item.id)
      → Written before after item
      → Updated normal before after item (ok (some item))
  clashed :
      before item.id ≢ none
      → NameHeld normal before item.name (Except item.id)
      → Unchanged before after
      → Updated normal before after item (raise (duplicate_item_name item.name))

-- How a lookup by name may end.
pub data FoundByName (normal : String → String) (v : View) (name : String)
    : Outcome Failure (Option Item) → Type 0 where
  holder :
      (k : String) (i : Item)
      → v k ≡ some i
      → normal i.name ≡ normal name
      → FoundByName normal v name (ok (some i))
  nobody : ¬ NameHeld normal v name Anyone → FoundByName normal v name (ok none)

abbrev pub Among : Item → List Item → Type 0
Among i [] = ⊥
Among i (j ∷ js) = (j ≡ i) ⊎ Among i js

abbrev pub Apart : List Item → Type 0
Apart [] = Unit
Apart (i ∷ is) = All (λ j. i.id ≢ j.id) is × Apart is

-- The items of a view in some order, each once.
pub record Lists (v : View) (items : List Item) : Type 0 where
  pub apart : Apart items
  pub shown : All (λ i. v i.id ≡ some i) items
  pub complete : (k : String) (i : Item) → v k ≡ some i → Among i items

pub record Contract {S : Type 0} (normal : String → String) (IsValid : S → Type 0) (view : S → View)
    (repo : ItemRepository S) : Type 0 where
  pub get_reads : (k : String) (s : S) → repo.get k s ≡ (ok (view s k), s)
  pub get_by_name_ends :
      (name : String) (s : S)
      → IsValid s
      → FoundByName normal (view s) name (repo.get_by_name name s).0
        × ((repo.get_by_name name s).1 ≡ s)
  pub list_pages :
      (s : S)
      → IsValid s
      → (items : List Item) × Lists (view s) items
        × ((limit offset : ℕ)
            → repo.list limit offset s ≡ (ok (take limit (drop offset items), length items), s))
  pub create_keeps : (i : Item) (s : S) → IsValid s → IsValid (repo.create i s).1
  pub create_ends :
      (i : Item) (s : S)
      → IsValid s
      → Created normal (view s) (view (repo.create i s).1) i (repo.create i s).0
  pub update_keeps : (i : Item) (s : S) → IsValid s → IsValid (repo.update i s).1
  pub update_ends :
      (i : Item) (s : S)
      → IsValid s
      → Updated normal (view s) (view (repo.update i s).1) i (repo.update i s).0
  pub delete_keeps : (k : String) (s : S) → IsValid s → IsValid (repo.delete k s).1
  pub delete_tells : (k : String) (s : S) → (repo.delete k s).0 ≡ ok (is_some (view s k))
  pub delete_drops :
      (k j : String) (s : S) → view (repo.delete k s).1 j ≡ (if k == j then none else view s j)
