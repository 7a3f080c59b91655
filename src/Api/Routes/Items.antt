-- ===== src/Api/Routes/Items.antt =====
-- What a client of api/routes.py can rely on.
use modal_template_fastapi.Common.{
  ℕ, suc, min, ◌+◌, ◌-◌, ◌<◌, ◌≤◌, ◌≡◌, ◌≢◌, ◌↔◌, ◌⊎◌, inl, inr, refl, sym, ap, ◌∙◌, String, Bool,
  true, false, false≢true, Option, none, some, List, [], ◌∷◌, ◌++◌, map, length, arith, take, drop,
  length-take, length-drop, Bool-cases, string_keys,
}
use modal_template_fastapi.Common.Dict
use modal_template_fastapi.Common.Text.{Unicode, strip, is_empty}
use modal_template_fastapi.Domain.{to_dict}
use modal_template_fastapi.Domain.Exec.{ok, raise}
use modal_template_fastapi.Repo.Names.{Store}
use modal_template_fastapi.Repo.Memory
use modal_template_fastapi.Repo.Memory.Refines.{memory}
use modal_template_fastapi.Service
use modal_template_fastapi.Service.{Publish}
use modal_template_fastapi.Api.Errors.{FieldError}
use modal_template_fastapi.Api.Routes.{
  ItemRequest, PaginatedItemsResponse, item_request, list_items, limit_errors, max_page_size,
  blank_name, too_short,
}

-- The name has more than space in it; the project, if there is one, is not empty.
abbrev pub IsGood : ItemRequest → Type 0
IsGood r = (is_empty (strip r.name) ≡ false) × (r.project_id ≢ some "")

abbrev Exactly : ItemRequest → Type 0
Exactly r =
    ((item_request r ≡ ok (record r { name = strip r.name })) × IsGood r)
    ⊎ (((e : List FieldError) × (item_request r ≡ raise e)) × ¬ IsGood r)

abbrev is_some_text : Option String → Bool
is_some_text none = true
is_some_text (some String.[]) = false
is_some_text (some (String.◌∷◌ c s)) = true

not_empty : {o : Option String} → is_some_text o ≡ true → o ≢ some ""
not_empty h k = ground arith

exactly :
    (name : String) (description project_id : Option String)
    → Exactly (record { name = name; description = description; project_id = project_id })
unfolding item_request strip
exactly String.[] description none = inr ((_, refl), λ g. ground arith)
exactly String.[] description (some String.[]) = inr ((_, refl), λ g. ground arith)
exactly String.[] description (some (String.◌∷◌ d t)) = inr ((_, refl), λ g. ground arith)
exactly (String.◌∷◌ c s) description none = elim (Bool-cases (is_empty (strip (String.◌∷◌ c s)))) [
  | inl h ↦ inr ((blank_name, rw h refl), λ g. false≢true (sym g.0 ∙ h))
  | inr h ↦ inl (rw h refl, (h, not_empty refl))
]
exactly (String.◌∷◌ c s) description (some String.[]) =
    elim (Bool-cases (is_empty (strip (String.◌∷◌ c s)))) [
      | inl h ↦
          inr
            ((blank_name ++ too_short "body.project_id", rw h refl), λ g. false≢true (sym g.0 ∙ h))
      | inr h ↦ inr ((too_short "body.project_id", rw h refl), λ g. g.1 refl)
    ]
exactly (String.◌∷◌ c s) description (some (String.◌∷◌ d t)) =
    elim (Bool-cases (is_empty (strip (String.◌∷◌ c s)))) [
      | inl h ↦ inr ((blank_name, rw h refl), λ g. false≢true (sym g.0 ∙ h))
      | inr h ↦ inl (rw h refl, (h, not_empty refl))
    ]

-- A request is accepted exactly when its name has more than space in it and its project, if it names
-- one, is not empty; the request that goes on has the stripped name, and is else as it was sent.
pub item_request_exact :
    (r : ItemRequest)
    → ((item_request r ≡ ok (record r { name = strip r.name })) × IsGood r)
      ⊎ (((e : List FieldError) × (item_request r ≡ raise e)) × ¬ IsGood r)
item_request_exact r = exactly r.name r.description r.project_id

length-map {ℓ} : {A B : Type ℓ} (f : A → B) (xs : List A) → length (map f xs) ≡ length xs
length-map f [] = refl
length-map f (x ∷ xs) = ap suc (length-map f xs)

module _ (u : Unicode) {B : Type 0} (events : Option (Publish B)) where
  -- With a limit from 1 to 500, listing over the in-memory repository returns a page: it holds no
  -- more than the limit, its total is the number of items, and it says that there is more exactly
  -- when the items up to its end are fewer than all.
  pub has_more_exact :
      (limit offset : ℕ) (s : Store) (b : B)
      → 1 ≤ limit
      → limit ≤ 500
      → (page : PaginatedItemsResponse) × ((list_items (memory u) events limit offset (s, b)).0
          ≡ ok page)
        × (length page.items ≤ limit)
        × (page.total ≡ length s)
        × ((page.has_more ≡ true) ↔ (offset + length page.items < page.total))
  unfolding list_items limit_errors max_page_size Service.list Memory.list
  has_more_exact limit offset s b p q =
      let clean : limit_errors limit ≡ [] = ground arith in
      let n : length (map to_dict (take limit (drop offset (Dict.values s))))
          ≡ min limit (length (Dict.values s) - offset) =
        length-map to_dict _
        ∙ (length-take limit _ ∙ ap (min limit) (length-drop offset (Dict.values s))) in
      let total = length-map {0} (λ e. e.1) s in
      rw (clean, list_items)
        (
          _,
          refl,
          omega (arith, n),
          total,
          (λ t. ground (arith, n, total), λ t. ground (arith, n, total)),
        )
