-- ===== src/Domain/Exec.antt =====
-- Methods that change an object and may raise. What was written before a raise stays written, so
-- the state comes back beside the error.
use modal_template_fastapi.Common.{◌≡◌, refl, ap, ◌⊎◌, inl, inr, arith}

pub data Outcome {ℓ κ} (E : Type ℓ) (A : Type κ) : Type (ℓ ⊔ κ) where
  ok : A → Outcome E A
  raise : E → Outcome E A

abbrev pub Exec {ℓ κ μ} : Type ℓ → Type κ → Type μ → Type (ℓ ⊔ κ ⊔ μ)
Exec S E A = S → Outcome E A × S

module _ {ℓ κ μ ν} {S : Type ℓ} {E : Type κ} {A : Type μ} {B : Type ν} where
  abbrev pub resume : Outcome E A × S → (A → Exec S E B) → Outcome E B × S
  resume (ok a, s) f = f a s
  resume (raise e, s) f = (raise e, s)

  infixl 5 ◌>>=◌
  abbrev pub ◌>>=◌ : Exec S E A → (A → Exec S E B) → Exec S E B
  ◌>>=◌ m f s = resume (m s) f

module _ {ℓ κ} {E : Type ℓ} {A : Type κ} where
  infixl 5 ◌>>◌
  -- A call that raises leaves no value.
  abbrev pub ◌>>◌ {μ} : {B : Type μ} → Outcome E A → Outcome E B → Outcome E B
  ok a >> k = k
  raise e >> k = raise e

pub Outcome-cases {ℓ κ} :
    {E : Type ℓ} {A : Type κ} (o : Outcome E A) → ((e : E) × (o ≡ raise e)) ⊎ ((a : A) × (o ≡ ok a))
Outcome-cases (ok a) = inr (a, refl)
Outcome-cases (raise e) = inl (e, refl)

pub ok_unique {ℓ κ} :
    {E : Type ℓ} {A : Type κ} {o : Outcome E A} {a b : A} → o ≡ ok a → o ≡ ok b → a ≡ b
ok_unique h k = ground arith

pub ok≢raise {ℓ κ μ} :
    {E : Type ℓ} {A : Type κ} {R : Type μ} {o : Outcome E A} {a : A} {e : E}
    → o ≡ raise e
    → o ≡ ok a
    → R
ok≢raise h k = ground arith

-- A chain that returns went through its first call.
pub resume_ok {ℓ κ μ ν} :
    {S : Type ℓ} {E : Type κ} {A : Type μ} {B : Type ν} (r : Outcome E A × S) (f : A → Exec S E B)
    (b : B) (s : S)
    → resume r f ≡ (ok b, s)
    → (a : A) × (r.0 ≡ ok a) × (f a r.1 ≡ (ok b, s))
resume_ok (ok a, t) f b s h = (a, refl, h)
resume_ok (raise e, t) f b s h = cc

-- What the first call and the rest of a chain keep, the chain keeps.
pub resume-keeps {ℓ κ μ ν ξ} :
    {S : Type ℓ} {E : Type κ} {A : Type μ} {B : Type ν} (P : S → Type ξ) (r : Outcome E A × S)
    (f : A → Exec S E B)
    → P r.1
    → ((a : A) (s : S) → P s → P (f a s).1)
    → P (resume r f).1
resume-keeps P (ok a, s) f p keeps = keeps a s p
resume-keeps P (raise e, s) f p keeps = p

-- A first call that returns hands on its value and its state.
pub resume_of_ok {ℓ κ μ ν} :
    {S : Type ℓ} {E : Type κ} {A : Type μ} {B : Type ν} (r : Outcome E A × S) (f : A → Exec S E B)
    (a : A)
    → r.0 ≡ ok a
    → resume r f ≡ f a r.1
resume_of_ok (ok b, s) f a h = ap {A = Outcome _ _} (λ o. resume (o, s) f) h
resume_of_ok (raise e, s) f a h = cc
