-- ===== src/Common/Sort.antt =====
-- Python's `sorted` and `", ".join`.
use Prim.Native.String
use Prim.Native.String.{String}
use mathlib.Core.Bool.{Bool, true, false}
use Prim.Native.Nat.{suc, Ordering}
use mathlib.Core.Path.{◌≡◌, refl}
use mathlib.Core.List.{List, [], ◌∷◌}
use native.Mathlib.Omega.{arith}
use modal_template_fastapi.Common.Tests.{if◌then◌else◌}
use modal_template_fastapi.Common.Lists.{All, length}
use modal_template_fastapi.Common.Text.{◌⧺◌}

module _ {ℓ} {A : Type ℓ} (before : A → A → Bool) where
  abbrev pub insert_by : A → List A → List A
  insert_by x [] = x ∷ []
  insert_by x (y ∷ ys) = if before x y then x ∷ y ∷ ys else y ∷ insert_by x ys

  -- `sorted(xs, key=...)`; `before x y` tells that the key of `x` is at most that of `y`
  abbrev pub sort_by : List A → List A
  sort_by [] = []
  sort_by (x ∷ xs) = insert_by x (sort_by xs)

  length-insert_by : (x : A) (ys : List A) → length (insert_by x ys) ≡ suc (length ys)
  length-insert_by x [] = refl
  length-insert_by x (y ∷ ys) = ground (arith, length-insert_by x ys)

  pub length-sort_by : (xs : List A) → length (sort_by xs) ≡ length xs
  length-sort_by [] = refl
  length-sort_by (x ∷ xs) = omega (arith, length-insert_by x (sort_by xs), length-sort_by xs)

  pub insert_by-All {κ} :
      (P : A → Type κ) (x : A) (ys : List A) → P x → All P ys → All P (insert_by x ys)
  insert_by-All P x [] p h = (p, tt)
  insert_by-All P x (y ∷ ys) p h = ground (arith, insert_by-All P x ys p h.1)

  pub sort_by-All {κ} : (P : A → Type κ) (xs : List A) → All P xs → All P (sort_by xs)
  sort_by-All P [] h = tt
  sort_by-All P (x ∷ xs) h = insert_by-All P x (sort_by xs) h.0 (sort_by-All P xs h.1)

  pub All_of_insert {κ} :
      (P : A → Type κ) (x : A) (ys : List A) → All P (insert_by x ys) → P x × All P ys
  All_of_insert P x [] h = h
  All_of_insert P x (y ∷ ys) h = ground (arith, All_of_insert P x ys)

  pub All_of_sort {κ} : (P : A → Type κ) (xs : List A) → All P (sort_by xs) → All P xs
  All_of_sort P [] h = tt
  All_of_sort P (x ∷ xs) h =
      let (p, q) = All_of_insert P x (sort_by xs) h in (p, All_of_sort P xs q)

abbrev pub before : String → String → Bool
before s t = elim (String.compare s t) [ Ordering.gt ↦ false | _ ↦ true ]

-- `", ".join(xs)`
abbrev pub join : List String → String
join [] = ""
join (x ∷ []) = x
join (x ∷ y ∷ ys) = x ⧺ (", " ⧺ join (y ∷ ys))
