-- ===== src/Service/Metered.antt =====
-- `MeteredItemService`, around any call of an item service, and `publish` of `MeteredEventBus`, of
-- adapters/telemetry/metered.py. The metrics are the list of what was recorded, the newest last;
-- `took` is the time of a call.
pub mod Runs
use modal_template_fastapi.Common.{
  ℕ, ◌≡◌, refl, String, Bool, false, not, Option, List, [], ◌∷◌, ◌++◌, if◌then◌else◌, is_some,
}
use modal_template_fastapi.Domain.{
  Event, Item, Failure, duplicate_item_name, storage_unavailable, other,
}
use modal_template_fastapi.Domain.Exec.{Outcome, ok, raise, Exec}
use modal_template_fastapi.Repo.Port.{ItemRepository}
use modal_template_fastapi.Service
use modal_template_fastapi.Service.{Publish}

-- A call of `record_item_op`.
pub record Metric : Type 0 where
  pub operation : String
  pub outcome : String
  pub took : ℕ

module _ {ℓ} {A : Type ℓ} where
  -- The `try` statement of `_observe` around the awaited call: how it is left, and the value of
  -- `outcome` there. Each `except` branch raises again what it caught.
  unfoldable pub try_block : (A → Bool) → Outcome Failure A → Outcome Failure A × String
  try_block is_missing (ok result) =
      let outcome : String = "ok" in (ok result, if is_missing result then "not_found" else outcome)
  try_block is_missing (raise (duplicate_item_name name)) =
      (raise (duplicate_item_name name), "conflict")
  try_block is_missing (raise (storage_unavailable what)) =
      (raise (storage_unavailable what), "unavailable")
  try_block is_missing (raise (other what)) = (raise (other what), "error")

module _ {ℓ} {S : Type 0} {A : Type ℓ} where
  -- The `finally` block of `_observe`
  unfoldable pub finally_block :
      String
      → ℕ
      → Outcome Failure A × String
      → S × List Metric
      → Outcome Failure A × (S × List Metric)
  finally_block operation took (left, outcome) (s, metrics) =
      (left, (s, metrics ++ record { operation = operation; outcome = outcome; took = took } ∷ []))

  -- `_observe`
  unfoldable pub observe :
      String → ℕ → (A → Bool) → Exec S Failure A → Exec (S × List Metric) Failure A
  unfolding try_block finally_block
  observe operation took is_missing call (s, metrics) =
      let (result, s') = call s in
      finally_block operation took (try_block is_missing result) (s', metrics)

module _ {S B : Type 0} (repo : ItemRepository S) (events : Option (Publish B)) (took : ℕ) where
  abbrev pub Metered {ℓ} : Type ℓ → Type ℓ
  Metered A = Exec ((S × B) × List Metric) Failure A

  unfoldable pub create : String → String → Option String → Option String → Metered Item
  unfolding observe
  create new_id name description project_id =
      observe "create" took (λ r. false)
        (Service.create repo events new_id name description project_id)

  unfoldable pub get : String → Metered (Option Item)
  unfolding observe
  get item_id = observe "get" took (λ r. not (is_some r)) (Service.get repo events item_id)

  unfoldable pub list : ℕ → ℕ → Metered (List Item × ℕ)
  unfolding observe
  list limit offset = observe "list" took (λ r. false) (Service.list repo events limit offset)

  unfoldable pub update : String → String → Option String → Option String → Metered (Option Item)
  unfolding observe
  update item_id name description project_id =
      observe "update" took (λ r. not (is_some r))
        (Service.update repo events item_id name description project_id)

  unfoldable pub delete : String → Metered Bool
  unfolding observe
  delete item_id = observe "delete" took (λ r. not r) (Service.delete repo events item_id)

-- A call of `record_event_published`.
pub record BusMetric : Type 0 where
  pub topic : String
  pub event_type : String
  pub outcome : String
  pub took : ℕ

abbrev publish_outcome : Outcome Failure Event → String
publish_outcome (ok e) = "ok"
publish_outcome (raise e) = "error"

-- `MeteredEventBus.publish`
unfoldable pub metered_publish : {B : Type 0} → Publish B → ℕ → Publish (B × List BusMetric)
metered_publish publish took topic event_type payload (b, metrics) =
    let (result, b') = publish topic event_type payload b in
    (
      result,
      (
        b',
        metrics
            ++ record {
              topic = topic;
              event_type = event_type;
              outcome = publish_outcome result;
              took = took;
            }
              ∷ [],
      ),
    )
