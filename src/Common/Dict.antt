-- ===== src/Common/Dict.antt =====
-- Python's `dict` and `OrderedDict`: an association list in insertion order.
use mathlib.Core.Path.{◌≡◌, refl}
use mathlib.Core.Bool.{Bool, true}
use mathlib.Core.Logic.{inl, inr}
use mathlib.Core.Option.{Option, none, some}
use mathlib.Core.List.{List, [], ◌∷◌, ◌++◌, map}
use native.Mathlib.Omega.{arith}
use modal_template_fastapi.Common.Tests.{Bool-cases, if◌then◌else◌, is_some}
use modal_template_fastapi.Common.Lists.{any, keep, first}
use modal_template_fastapi.Common.Keys.{Eq, ◌==◌}

abbrev pub Dict {ℓ κ} : Type ℓ → Type κ → Type (ℓ ⊔ κ)
Dict K V = List (K × V)

module _ {ℓ κ} {K : Type ℓ} {V : Type κ} where
  -- `d.values()`
  abbrev pub values : Dict K V → List V
  values = map (λ e. e.1)

module _ {ℓ κ} {K : Type ℓ} {V : Type κ} ⦃e : Eq K⦄ where
  -- `d.get(k)`
  unfoldable pub get : K → Dict K V → Option V
  get k [] = none
  get k ((j, v) ∷ m) = if j == k then some v else get k m

  -- `k in d`
  abbrev pub has : K → Dict K V → Bool
  has k m = is_some (get k m)

  -- `d[k] = v`: an old key keeps its place, a new one goes to the end
  unfoldable pub put : K → V → Dict K V → Dict K V
  put k v [] = (k, v) ∷ []
  put k v ((j, w) ∷ m) = if j == k then (j, v) ∷ m else (j, w) ∷ put k v m

  -- `del d[k]`, `d.pop(k, None)`
  unfoldable pub remove : K → Dict K V → Dict K V
  remove k [] = []
  remove k ((j, v) ∷ m) = let rest = remove k m in if j == k then rest else (j, v) ∷ rest

  pub get-put :
      (k j : K) (v : V) (m : Dict K V) → get j (put k v m) ≡ (if k == j then some v else get j m)
  unfolding get put
  get-put k j v [] = refl
  get-put k j v ((i, w) ∷ m) =
      ground (arith, e.agrees_iff k j, e.agrees_iff i k, e.agrees_iff i j, get-put k j v m)

  pub get-remove :
      (k j : K) (m : Dict K V) → get j (remove k m) ≡ (if k == j then none else get j m)
  unfolding get remove
  get-remove k j [] = ground arith
  get-remove k j ((i, w) ∷ m) =
      ground (arith, e.agrees_iff k j, e.agrees_iff i k, e.agrees_iff i j, get-remove k j m)

  -- Each key stands once.
  abbrev pub Distinct : Dict K V → Type (ℓ ⊔ κ)
  Distinct [] = Unit
  Distinct ((k, v) ∷ m) = (get k m ≡ none) × Distinct m

  pub put-Distinct : (k : K) (v : V) (m : Dict K V) → Distinct m → Distinct (put k v m)
  unfolding get put
  put-Distinct k v [] h = (refl, tt)
  put-Distinct k v ((i, w) ∷ m) h =
      ground (arith, put-Distinct k v m h.1, get-put k i v m, e.agrees_iff i k, e.agrees_iff k i)

  pub remove-Distinct : (k : K) (m : Dict K V) → Distinct m → Distinct (remove k m)
  unfolding get remove
  remove-Distinct k [] h = tt
  remove-Distinct k ((i, w) ∷ m) h =
      ground (arith, remove-Distinct k m h.1, get-remove k i m, e.agrees_iff i k, e.agrees_iff k i)

  -- A scan over the values finds what a lookup finds.
  pub any_of_get :
      (p : V → Bool) (k : K) (v : V) (m : Dict K V)
      → get k m ≡ some v
      → p v ≡ true
      → any p (values m) ≡ true
  unfolding get
  any_of_get p k v [] h t = cc
  any_of_get p k v ((j, w) ∷ m) h t = ground (arith, any_of_get p k v m)

  -- Where each key stands once, a value that the scan finds has a key.
  pub get_of_any :
      (p : V → Bool) (m : Dict K V)
      → Distinct m
      → any p (values m) ≡ true
      → (k : K) × (v : V) × (get k m ≡ some v) × (p v ≡ true)
  unfolding get
  get_of_any p [] d h = cc
  get_of_any p ((j, w) ∷ m) d h = elim (Bool-cases (p w)) [
    | inl here ↦ (j, w, ground (arith, e.agrees_iff j j), here)
    | inr there ↦
        let (k, v, found, t) = get_of_any p m d.1 (ground arith) in
        (k, v, ground (arith, e.agrees_iff j k), t)
  ]

  -- Where each key stands once, the first value that passes a test has a key.
  pub get_of_first :
      (p : V → Bool) (m : Dict K V) (v : V)
      → Distinct m
      → first (keep p (values m)) ≡ some v
      → (k : K) × (get k m ≡ some v) × (p v ≡ true)
  unfolding get
  get_of_first p [] v d h = cc
  get_of_first p ((j, w) ∷ m) v d h = elim (Bool-cases (p w)) [
    | inl here ↦ (j, ground (arith, e.agrees_iff j j), ground arith)
    | inr there ↦
        let (k, found, t) = get_of_first p m v d.1 (ground arith) in
        (k, ground (arith, e.agrees_iff j k), t)
  ]

  -- A new key goes to the end.
  pub put_new : (k : K) (v : V) (m : Dict K V) → get k m ≡ none → put k v m ≡ m ++ (k, v) ∷ []
  unfolding get put
  put_new k v [] h = refl
  put_new k v ((j, w) ∷ m) h = ground (arith, put_new k v m)
