-- ===== src/Service/Laws.antt =====
-- What the item service adds to the repository: announcements that can never fail a write.
use modal_template_fastapi.Common.{◌≡◌, String, Bool, true, Option, none, some, arith}
use modal_template_fastapi.Domain.{Item, to_dict, Fields, end, field, str, Failure}
use modal_template_fastapi.Domain.Exec.{Outcome, ok, raise}
use modal_template_fastapi.Repo.Port.{ItemRepository}
use modal_template_fastapi.Service.{Publish, items_topic, create, update, delete}

-- The bus after one event of the topic "items", where there is a bus.
abbrev pub announced : {B : Type 0} → Option (Publish B) → B → String → Fields → B
announced none b event_type payload = b
announced (some publish) b event_type payload = (publish items_topic event_type payload b).1

module _ {S B : Type 0} (repo : ItemRepository S) (events : Option (Publish B)) where
  -- The events that the three writes owe, for the outcome of the repository's call.
  abbrev pub after_create : Outcome Failure Item → B → B
  after_create (ok i) b = announced events b "item.created" (to_dict i)
  after_create (raise e) b = b

  abbrev pub after_update : Outcome Failure (Option Item) → B → B
  after_update (ok (some i)) b = announced events b "item.updated" (to_dict i)
  after_update _ b = b

  abbrev pub after_delete : String → Outcome Failure Bool → B → B
  after_delete id (ok true) b = announced events b "item.deleted" (field "id" (str id) end)
  after_delete id _ b = b

  module _ (id name : String) (description project_id : Option String) (s : S) (b : B) where
    abbrev pub draft : Item
    draft = record { id = id; name = name; description = description; project_id = project_id }

    -- `create` returns, raises and stores what the repository's `create` does, whatever the bus does;
    -- the bus sees one "item.created" with the stored item exactly when the repository stored it.
    pub create_announces : create repo events id name description project_id (s, b) ≡ (
      (repo.create draft s).0,
      ((repo.create draft s).1, after_create (repo.create draft s).0 b),
    )
    unfolding create
    create_announces = ground arith

    -- `update` likewise, with one "item.updated" exactly when an item was replaced.
    pub update_announces : update repo events id name description project_id (s, b) ≡ (
      (repo.update draft s).0,
      ((repo.update draft s).1, after_update (repo.update draft s).0 b),
    )
    unfolding update
    update_announces = ground arith

  -- `delete` likewise, with one "item.deleted" exactly when an item was deleted.
  pub delete_announces :
      (id : String) (s : S) (b : B)
      → delete repo events id (s, b)
        ≡ ((repo.delete id s).0, ((repo.delete id s).1, after_delete id (repo.delete id s).0 b))
  unfolding delete
  delete_announces id s b = ground arith
