-- ===== src/Service/Metered/Runs.antt =====
-- Sequences of calls of `MeteredItemService`, beside the same calls of the service that it wraps.
use modal_template_fastapi.Common.{
  ℕ, ◌≡◌, refl, String, Bool, true, false, not, Option, none, some, List, [], ◌∷◌, ◌++◌, is_some,
  append_assoc, append-nil,
}
use modal_template_fastapi.Domain.{Item, Failure, duplicate_item_name, storage_unavailable, other}
use modal_template_fastapi.Domain.Exec.{Outcome, ok, raise}
use modal_template_fastapi.Repo.Port.{ItemRepository}
use modal_template_fastapi.Service
use modal_template_fastapi.Service.{Publish}
use modal_template_fastapi.Service.Metered
use modal_template_fastapi.Service.Metered.{Metric, observe, try_block, finally_block}

-- A call of the item service; `creates` has the fresh id of the item first.
pub data Call : Type 0 where
  creates updates : String → String → Option String → Option String → Call
  gets deletes : String → Call
  lists : ℕ → ℕ → Call

-- How a metric names what was raised.
abbrev pub raised_name : Failure → String
raised_name (duplicate_item_name name) = "conflict"
raised_name (storage_unavailable what) = "unavailable"
raised_name (other what) = "error"

-- How a metric names what a lookup or an update, a deletion, and any other call ended in.
abbrev pub optional_name : Outcome Failure (Option Item) → String
optional_name (ok none) = "not_found"
optional_name (ok (some i)) = "ok"
optional_name (raise f) = raised_name f

abbrev pub deleted_name : Outcome Failure Bool → String
deleted_name (ok false) = "not_found"
deleted_name (ok true) = "ok"
deleted_name (raise f) = raised_name f

abbrev pub plain_name {ℓ} : {A : Type ℓ} → Outcome Failure A → String
plain_name (ok a) = "ok"
plain_name (raise f) = raised_name f

try_plain {ℓ} : {A : Type ℓ} (r : Outcome Failure A) → try_block (λ x. false) r ≡ (r, plain_name r)
unfolding try_block
try_plain (ok a) = refl
try_plain (raise (duplicate_item_name name)) = refl
try_plain (raise (storage_unavailable what)) = refl
try_plain (raise (other what)) = refl

try_optional :
    (r : Outcome Failure (Option Item)) → try_block (λ x. not (is_some x)) r ≡ (r, optional_name r)
unfolding try_block
try_optional (ok none) = refl
try_optional (ok (some i)) = refl
try_optional (raise (duplicate_item_name name)) = refl
try_optional (raise (storage_unavailable what)) = refl
try_optional (raise (other what)) = refl

try_told : (r : Outcome Failure Bool) → try_block (λ x. not x) r ≡ (r, deleted_name r)
unfolding try_block
try_told (ok true) = refl
try_told (ok false) = refl
try_told (raise (duplicate_item_name name)) = refl
try_told (raise (storage_unavailable what)) = refl
try_told (raise (other what)) = refl

-- What a caller gets.
pub data Answer : Type 0 where
  item : Outcome Failure Item → Answer
  maybe : Outcome Failure (Option Item) → Answer
  told : Outcome Failure Bool → Answer
  page : Outcome Failure (List Item × ℕ) → Answer

module _ {S B : Type 0} (repo : ItemRepository S) (events : Option (Publish B)) (took : ℕ) where
  -- A call of the metered service.
  pub metered_step : Call → (S × B) × List Metric → Answer × ((S × B) × List Metric)
  metered_step (creates id name text project) s =
      let (r, s') = Metered.create repo events took id name text project s in (item r, s')
  metered_step (updates id name text project) s =
      let (r, s') = Metered.update repo events took id name text project s in (maybe r, s')
  metered_step (gets id) s = let (r, s') = Metered.get repo events took id s in (maybe r, s')
  metered_step (deletes id) s = let (r, s') = Metered.delete repo events took id s in (told r, s')
  metered_step (lists limit offset) s =
      let (r, s') = Metered.list repo events took limit offset s in (page r, s')

  pub metered_run : List Call → (S × B) × List Metric → List Answer × ((S × B) × List Metric)
  metered_run [] s = ([], s)
  metered_run (c ∷ cs) s =
      let (a, s') = metered_step c s in let (answers, s'') = metered_run cs s' in (a ∷ answers, s'')

  abbrev pub metric : String → String → Metric
  metric operation outcome = record { operation = operation; outcome = outcome; took = took }

  -- A call of the service itself, with the metric that it should leave.
  abbrev pub plain_step : Call → S × B → (Answer × Metric) × (S × B)
  plain_step (creates id name text project) s =
      let (r, s') = Service.create repo events id name text project s in
      ((item r, metric "create" (plain_name r)), s')
  plain_step (updates id name text project) s =
      let (r, s') = Service.update repo events id name text project s in
      ((maybe r, metric "update" (optional_name r)), s')
  plain_step (gets id) s =
      let (r, s') = Service.get repo events id s in ((maybe r, metric "get" (optional_name r)), s')
  plain_step (deletes id) s =
      let (r, s') = Service.delete repo events id s in
      ((told r, metric "delete" (deleted_name r)), s')
  plain_step (lists limit offset) s =
      let (r, s') = Service.list repo events limit offset s in
      ((page r, metric "list" (plain_name r)), s')

  pub plain_run : List Call → S × B → (List Answer × List Metric) × (S × B)
  plain_run [] s = (([], []), s)
  plain_run (c ∷ cs) s =
      let ((a, m), s') = plain_step c s in
      let ((answers, metrics), s'') = plain_run cs s' in ((a ∷ answers, m ∷ metrics), s'')

  step_transparent :
      (c : Call) (s : S × B) (log : List Metric)
      → metered_step c (s, log)
        ≡ ((plain_step c s).0.0, ((plain_step c s).1, log ++ (plain_step c s).0.1 ∷ []))
  unfolding metered_step Metered.create Metered.update Metered.get Metered.delete Metered.list
      observe finally_block
  step_transparent (creates id name text project) s log =
      rw (try_plain (Service.create repo events id name text project s).0) refl
  step_transparent (updates id name text project) s log =
      rw (try_optional (Service.update repo events id name text project s).0) refl
  step_transparent (gets id) s log = rw (try_optional (Service.get repo events id s).0) refl
  step_transparent (deletes id) s log = rw (try_told (Service.delete repo events id s).0) refl
  step_transparent (lists limit offset) s log =
      rw (try_plain (Service.list repo events limit offset s).0) refl

  -- A sequence of calls of the metered service, whether they raise or not, gives the answers and
  -- the final state that the service itself gives, and adds one metric for each call, in order, with
  -- the operation and with how the call ended.
  pub run_transparent :
      (cs : List Call) (s : S × B) (log : List Metric)
      → metered_run cs (s, log)
        ≡ ((plain_run cs s).0.0, ((plain_run cs s).1, log ++ (plain_run cs s).0.1))
  unfolding metered_run plain_run
  run_transparent [] s log = rw append-nil refl
  run_transparent (c ∷ cs) s log = rw (step_transparent c s log) (
      rw (run_transparent cs (plain_step c s).1 (log ++ (plain_step c s).0.1 ∷ []))
        (rw append_assoc refl))
