-- ===== src/Domain.antt =====
-- core/domain: the item entity, the event, the errors, and Python values that travel as JSON.
pub mod Exec
use modal_template_fastapi.Common.{ℕ, String, Bool, Option, none, some}

-- A value that `json.dumps` accepts; a number is kept as the text of its literal.
mutual
  pub data Json : Type 0 where
    null : Json
    bool : Bool → Json
    number : String → Json
    str : String → Json
    arr : Elements → Json
    obj : Fields → Json

  pub data Elements : Type 0 where
    nil : Elements
    cons : Json → Elements → Elements

  pub data Fields : Type 0 where
    end : Fields
    field : String → Json → Fields → Fields

pub record Item : Type 0 where
  pub id : String
  pub name : String
  pub description : Option String
  pub project_id : Option String

-- `None` or a text, as JSON
abbrev pub optional : Option String → Json
optional none = null
optional (some s) = str s

-- Item.to_dict
unfoldable pub to_dict : Item → Fields
to_dict i = field "id" (str i.id) (
    field "name" (str i.name) (
      field "description" (optional i.description)
        (field "project_id" (optional i.project_id) end)))

-- The bus assigns `id` and `ts`. An `id` is the text of a number, and is kept as that number.
pub record Event : Type 0 where
  pub id : ℕ
  pub type : String
  pub payload : Fields
  pub ts : ℕ

-- The exceptions that the program tells apart; `other` stands for all the rest, by its text.
pub data Failure : Type 0 where
  duplicate_item_name : String → Failure
  storage_unavailable : String → Failure
  other : String → Failure
