-- ===== src/Repo/Memory/History.antt =====
-- Sequences of calls on the in-memory repository, its lookup by name, and its pages.
use modal_template_fastapi.Common.{
  ℕ, ◌+◌, ◌≡◌, ◌↔◌, String, true, some, List, [], ◌∷◌, ◌++◌, string_keys, ◌==◌, eq_iff, arith,
  any-first, take_split, drop-drop, take_all, ◌∙◌, sym,
}
use modal_template_fastapi.Common.Dict
use modal_template_fastapi.Common.Dict.{Distinct, get_of_any, any_of_get, get_of_first}
use modal_template_fastapi.Common.Text.{Unicode}
use modal_template_fastapi.Domain.{Item, Failure}
use modal_template_fastapi.Domain.Exec.{Outcome, ok, raise}
use modal_template_fastapi.Repo.Names.{Store}
use modal_template_fastapi.Repo.Memory.{normal, list, get_by_name, create, update, delete}
use modal_template_fastapi.Repo.Memory.Valid.{
  IsValid, create-IsValid, update-IsValid, delete-IsValid,
}

pub data Call : Type 0 where
  creates updates : Item → Call
  deletes : String → Call

module _ (u : Unicode) where
  -- The store after one call; a call that raises leaves it as it was.
  pub step : Store → Call → Store
  step s (creates i) = (create u i s).1
  step s (updates i) = (update u i s).1
  step s (deletes k) = (delete u k s).1

  pub run : Store → List Call → Store
  run s [] = s
  run s (c ∷ cs) = run (step s c) cs

  step-IsValid : (s : Store) (c : Call) → IsValid u s → IsValid u (step s c)
  unfolding step
  step-IsValid s (creates i) v = create-IsValid u i s v
  step-IsValid s (updates i) v = update-IsValid u i s v
  step-IsValid s (deletes k) v = delete-IsValid u k s v

  pub run-IsValid_from : (s : Store) (cs : List Call) → IsValid u s → IsValid u (run s cs)
  unfolding run
  run-IsValid_from s [] v = v
  run-IsValid_from s (c ∷ cs) v = run-IsValid_from (step s c) cs (step-IsValid s c v)

  pub empty-IsValid : IsValid u []
  unfolding Dict.get
  empty-IsValid = record { distinct = tt; keyed = λ k i e. cc; unique = λ k l i j e f g. cc }

  -- Whatever calls are made on a new repository, whether they raise or not, each item stands under
  -- its own id and no two items have names that agree up to case and surrounding space.
  pub run-IsValid : (cs : List Call) → IsValid u (run [] cs)
  run-IsValid cs = run-IsValid_from [] cs empty-IsValid

  same_name :
      (name : String) (i : Item)
      → (normal u i.name == normal u name) ≡ true
      → normal u i.name ≡ normal u name
  same_name name i h = (eq_iff _ _).0 h

  pub found_by_name :
      (name : String) (s : Store) (i : Item)
      → IsValid u s
      → (get_by_name u name s).0 ≡ ok (some i)
      → (k : String) × (Dict.get k s ≡ some i) × (normal u i.name ≡ normal u name)
  unfolding get_by_name
  found_by_name name s i v h =
      let (k, found, t) =
        get_of_first (λ i. normal u i.name == normal u name) s i v.distinct (ground arith) in
      (k, found, same_name name i t)

  pub finds_by_name :
      (name : String) (s : Store) (i : Item) (k : String)
      → IsValid u s
      → Dict.get k s ≡ some i
      → normal u i.name ≡ normal u name
      → (get_by_name u name s).0 ≡ ok (some i)
  unfolding get_by_name
  finds_by_name name s i k v found same =
      let (j, first) =
        any-first _ (Dict.values s)
          (any_of_get (λ i. normal u i.name == normal u name) k i s found ((eq_iff _ _).1 same)) in
      let (l, found', t) = get_of_first _ s j v.distinct first in
      ground (arith, first, found', v.unique k l i j found found' (same ∙ sym (same_name name j t)))

  -- In a valid store a lookup by name returns exactly the item whose name agrees with it up to case
  -- and surrounding space.
  pub get_by_name_iff :
      (name : String) (s : Store) (i : Item)
      → IsValid u s
      → ((get_by_name u name s).0 ≡ ok (some i))
        ↔ ((k : String) × (Dict.get k s ≡ some i) × (normal u i.name ≡ normal u name))
  get_by_name_iff name s i v =
      (found_by_name name s i v, λ (k, found, same). finds_by_name name s i k v found same)

  abbrev pub page_of : Outcome Failure (List Item × ℕ) → List Item
  page_of (ok (items, total)) = items
  page_of (raise e) = []

  abbrev pub total_of : Outcome Failure (List Item × ℕ) → ℕ
  total_of (ok (items, total)) = total
  total_of (raise e) = 0

  -- Pages tile: a page of `m` items and the page of `n` items behind it are together the page of
  -- `m + n` items; a page that starts at 0 and is as long as the reported total holds everything.
  pub list_pages :
      (m n offset : ℕ) (s : Store)
      → (page_of (list u m offset s).0 ++ page_of (list u n (offset + m) s).0
          ≡ page_of (list u (m + n) offset s).0)
        × (page_of (list u (total_of (list u m offset s).0) 0 s).0 ≡ Dict.values s)
  unfolding list
  list_pages m n offset s =
      (rw (← drop-drop offset m (Dict.values s)) (take_split m n _), take_all (Dict.values s))
