-- ===== src/Common/Age.antt =====
-- The age of an entry of an insertion-ordered `dict`: what stands behind it is newer.
use Prim.Native.Nat.{ℕ, zero, suc, ◌+◌, ◌≤◌, ◌<◌}
use mathlib.Core.Path.{◌≡◌, refl}
use mathlib.Core.Bool.{false}
use mathlib.Core.Option.{none, some}
use mathlib.Core.List.{[], ◌∷◌}
use native.Mathlib.Omega.{arith}
use modal_template_fastapi.Common.Tests.{if◌then◌else◌}
use modal_template_fastapi.Common.Lists.{length, drop}
use modal_template_fastapi.Common.Keys.{Eq, ◌==◌}
use modal_template_fastapi.Common.Dict.{Dict, get, put, remove}

module _ {ℓ κ} {K : Type ℓ} {V : Type κ} ⦃e : Eq K⦄ where
  -- How many entries stand behind that of a key.
  unfoldable pub behind : K → Dict K V → ℕ
  behind k [] = 0
  behind k ((j, v) ∷ m) = if j == k then length m else behind k m

  pub length-put : (j : K) (v : V) (m : Dict K V) → length (put j v m) ≤ length m + 1
  unfolding put
  length-put j v [] = omega arith
  length-put j v ((i, w) ∷ m) = ground (arith, length-put j v m)

  length-remove : (j : K) (m : Dict K V) → length (remove j m) ≤ length m
  unfolding remove
  length-remove j [] = omega arith
  length-remove j ((i, w) ∷ m) = ground (arith, length-remove j m)

  -- A write puts at most one entry behind another.
  pub behind-put : (k j : K) (v : V) (m : Dict K V) → behind k (put j v m) ≤ behind k m + 1
  unfolding behind put
  behind-put k j v [] = ground arith
  behind-put k j v ((i, w) ∷ m) = ground (arith, behind-put k j v m, length-put j v m)

  pub behind-remove :
      (k j : K) (m : Dict K V) → (j == k) ≡ false → behind k (remove j m) ≤ behind k m
  unfolding behind remove
  behind-remove k j [] h = omega arith
  behind-remove k j ((i, w) ∷ m) h = ground (
    arith,
    behind-remove k j m,
    length-remove j m,
    e.agrees_iff i j,
    e.agrees_iff i k,
    e.agrees_iff j k,
  )

  -- The newest entry.
  pub behind_new : (k : K) (v : V) (m : Dict K V) → get k m ≡ none → behind k (put k v m) ≡ 0
  unfolding behind put get
  behind_new k v [] h = ground arith
  behind_new k v ((i, w) ∷ m) h = ground (arith, behind_new k v m)

  pub behind-lt : (k : K) (v : V) (m : Dict K V) → get k m ≡ some v → behind k m < length m
  unfolding behind get
  behind-lt k v [] h = cc
  behind-lt k v ((i, w) ∷ m) h = ground (arith, behind-lt k v m)

  -- Dropping the oldest entries keeps one that has enough newer entries than what stays.
  pub get-drop :
      (n : ℕ) (k : K) (m : Dict K V) → n + behind k m < length m → get k (drop n m) ≡ get k m
  unfolding behind get
  get-drop zero k m h = refl
  get-drop (suc n) k [] h = refl
  get-drop (suc n) k ((i, w) ∷ m) h = ground (arith, get-drop n k m)

  pub behind-drop :
      (n : ℕ) (k : K) (m : Dict K V) → n + behind k m < length m → behind k (drop n m) ≡ behind k m
  unfolding behind
  behind-drop zero k m h = refl
  behind-drop (suc n) k [] h = refl
  behind-drop (suc n) k ((i, w) ∷ m) h = ground (arith, behind-drop n k m)
