-- ===== src/Service.antt =====
-- core/services/item_service.py, over any repository and any event bus. The state is the pair of
-- the repository's and the bus's. `uuid.uuid4()` is the argument `new_id` of `create`.
pub mod Laws
pub mod Metered
use modal_template_fastapi.Common.{ℕ, String, Bool, Option, none, some, List, if◌then◌else◌}
use modal_template_fastapi.Domain.{Item, to_dict, Fields, end, field, str, Event, Failure}
use modal_template_fastapi.Domain.Exec.{Outcome, ok, raise, Exec, ◌>>=◌}
use modal_template_fastapi.Repo.Port.{ItemRepository}

-- EventBus.publish
abbrev pub Publish : Type 0 → Type 0
Publish B = String → String → Fields → Exec B Failure Event

abbrev pub items_topic : String
items_topic = "items"

module _ {S B : Type 0} where
  -- A call of the repository leaves the bus alone.
  abbrev pub on_repo {ℓ} : {A : Type ℓ} → Exec S Failure A → Exec (S × B) Failure A
  on_repo m (s, b) = let (r, s') = m s in (r, (s', b))

  -- `try: ... except Exception`: the failure is logged and forgotten, what was done stays done.
  abbrev pub attempt {ℓ} : {A : Type ℓ} → Exec B Failure A → Exec (S × B) Failure (Unit {0})
  attempt m (s, b) = (ok tt, (s, (m b).1))

  unfoldable pub emit : Option (Publish B) → String → Fields → Exec (S × B) Failure (Unit {0})
  emit none event_type payload s = (ok tt, s)
  emit (some publish) event_type payload s = attempt (publish items_topic event_type payload) s

  abbrev pub pure {ℓ} : {A : Type ℓ} → A → Exec (S × B) Failure A
  pure a s = (ok a, s)

  module _ (repo : ItemRepository S) (events : Option (Publish B)) where
    unfoldable pub create :
        String → String → Option String → Option String → Exec (S × B) Failure Item
    unfolding emit
    create new_id name description project_id = do
      created ← on_repo (
          repo.create (record {
            id = new_id;
            name = name;
            description = description;
            project_id = project_id;
          }))
      _ ← emit events "item.created" (to_dict created)
      pure created

    unfoldable pub get : String → Exec (S × B) Failure (Option Item)
    get item_id = on_repo (repo.get item_id)

    unfoldable pub list : ℕ → ℕ → Exec (S × B) Failure (List Item × ℕ)
    list limit offset = on_repo (repo.list limit offset)

    emit_updated : Option Item → Exec (S × B) Failure (Unit {0})
    unfolding emit
    emit_updated none = pure tt
    emit_updated (some result) = emit events "item.updated" (to_dict result)

    unfoldable pub update :
        String → String → Option String → Option String → Exec (S × B) Failure (Option Item)
    unfolding emit_updated
    update item_id name description project_id = do
      result ← on_repo (
          repo.update (record {
            id = item_id;
            name = name;
            description = description;
            project_id = project_id;
          }))
      _ ← emit_updated result
      pure result

    unfoldable pub delete : String → Exec (S × B) Failure Bool
    unfolding emit
    delete item_id = do
      deleted ← on_repo (repo.delete item_id)
      _ ← if deleted then emit events "item.deleted" (field "id" (str item_id) end) else pure tt
      pure deleted
