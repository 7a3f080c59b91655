-- ===== src/Stores/Postgres.antt =====
-- `PostgresWebhookStore`, `PostgresTicketStore` and `_Pruner` of adapters/events/postgres.py. The tables
-- `webhook_events` and `ws_ticket_uses` are shared by all containers; each container has a pruner of
-- its own. The readings of the database's clock and of the container's are arguments.
use modal_template_fastapi.Common.{
  ℕ, ◌+◌, ◌-◌, ◌≤◌, ◌≡◌, refl, sym, ap, ◌∙◌, subst, String, Bool, true, false, not, Option, none,
  some, List, [], ◌∷◌, keep, ltb, leb, string_keys, pair_keys, pair_eq_iff, ◌==◌, ==_refl, arith,
  All, Bool-cases, inl, inr, if◌then◌else◌,
}
use modal_template_fastapi.Common.Dict
use modal_template_fastapi.Common.Dict.{Dict, get-put, get-remove}
use modal_template_fastapi.Stores.Webhooks.{Key}

pub record Pruner : Type 0 where
  pub every : ℕ
  pub last : ℕ

-- `_Pruner.due`
unfoldable pub due : ℕ → Pruner → Bool × Pruner
due now p = if leb p.every (now - p.last) then (true, record p { last = now }) else (false, p)

abbrev pub Table : Type 0
Table = Dict Key ℕ

-- The `DELETE` of rows older than `ttl`.
unfoldable pub delete_old : ℕ → ℕ → Table → Table
delete_old ttl now = keep (λ e. not (ltb (e.1 + ttl) now))

abbrev pub claimed : ℕ → Key → ℕ → Option ℕ → Table → Bool × Table
claimed ttl key now none t = (true, Dict.put key now t)
claimed ttl key now (some created_at) t =
    if ltb (created_at + ttl) now then (true, Dict.put key now t) else (false, t)

-- `record_if_new`; the `INSERT ... ON CONFLICT` runs at `now`, and the `DELETE`, where it is due, at
-- `later`
unfoldable pub record_if_new : ℕ → String → String → ℕ → Bool → ℕ → Table → Bool × Table
unfolding delete_old
record_if_new ttl provider webhook_id now prune_due later t =
    let (new, t') = claimed ttl (provider, webhook_id) now (Dict.get (provider, webhook_id) t) t in
    (new, if prune_due then delete_old ttl later t' else t')

unfoldable pub forget : String → String → Table → Table
forget provider webhook_id t = Dict.remove (provider, webhook_id) t

abbrev pub Used : Type 0
Used = Dict String ℕ

-- `consume`: `INSERT ... ON CONFLICT DO NOTHING` tells by its status whether a row went in
unfoldable pub consume : String → ℕ → Bool → ℕ → Used → Bool × Used
consume jti expires_at prune_due now t =
    let fresh = not (Dict.has jti t) in
    let t' = if fresh then Dict.put jti expires_at t else t in
    (fresh, if prune_due then keep (λ e. not (ltb e.1 now)) t' else t')

-- What any of the containers may do to `webhook_events`.
pub data Call : Type 0 where
  records : String → String → ℕ → Bool → ℕ → Call
  forgets : String → String → Call

unfoldable pub calls : ℕ → List Call → Table → Table
unfolding record_if_new forget
calls ttl [] t = t
calls ttl (records p i now d later ∷ cs) t = calls ttl cs (record_if_new ttl p i now d later t).1
calls ttl (forgets p i ∷ cs) t = calls ttl cs (forget p i t)

get-keep_newer :
    (ttl now x : ℕ) (k : Key) (t : Table)
    → now ≤ x + ttl
    → Dict.get k t ≡ some x
    → Dict.get k (delete_old ttl now t) ≡ some x
unfolding delete_old Dict.get
get-keep_newer ttl now x k [] l h = cc
get-keep_newer ttl now x k ((j, y) ∷ t) l h = ground (arith, l, get-keep_newer ttl now x k t l)

-- The call comes before the entry of `k`, made at `x`, expires, and does not forget it.
abbrev pub Harmless : ℕ → Key → ℕ → Call → Type 0
Harmless ttl k x (records p i now d later) = (now ≤ x + ttl) × (later ≤ x + ttl)
Harmless ttl k x (forgets p i) = ((p, i) == k) ≡ false

claimed_other :
    (ttl : ℕ) (j k : Key) (now : ℕ) (o : Option ℕ) (t : Table)
    → (j == k) ≡ false
    → Dict.get k (claimed ttl j now o t).1 ≡ Dict.get k t
claimed_other ttl j k now none t n = simp (get-put, n)
claimed_other ttl j k now (some y) t n = elim (Bool-cases (ltb (y + ttl) now)) [
  | inl l ↦ rw l (simp (get-put, n))
  | inr l ↦ rw l refl
]

claimed_live :
    (ttl : ℕ) (k : Key) (now x : ℕ) (t : Table)
    → now ≤ x + ttl
    → claimed ttl k now (some x) t ≡ (false, t)
claimed_live ttl k now x t l = ground (arith, l)

claimed_new :
    (ttl : ℕ) (k : Key) (now : ℕ) (o : Option ℕ) (t : Table)
    → (claimed ttl k now o t).0 ≡ true
    → Dict.get k (claimed ttl k now o t).1 ≡ some now
claimed_new ttl k now none t h = simp (get-put, ==_refl)
claimed_new ttl k now (some y) t h = elim (Bool-cases (ltb (y + ttl) now)) [
  | inl l ↦ rw l (simp (get-put, ==_refl))
  | inr l ↦ cc (rw l at h)
]

module _ (ttl : ℕ) (k : Key) (x : ℕ) where
  claimed-keeps :
      (j : Key) (now : ℕ) (t : Table)
      → now ≤ x + ttl
      → Dict.get k t ≡ some x
      → Dict.get k (claimed ttl j now (Dict.get j t) t).1 ≡ some x
  claimed-keeps j now t l h = elim (Bool-cases (j == k)) [
    | inr other ↦ claimed_other ttl j k now (Dict.get j t) t other ∙ h
    | inl same ↦
        subst (λ i. Dict.get k (claimed ttl i now (Dict.get i t) t).1 ≡ some x)
          (sym ((pair_eq_iff j k).0 same)) (rw h (rw (claimed_live ttl k now x t l) h))
  ]

  pruned-keeps :
      (d : Bool) (now : ℕ) (t : Table)
      → now ≤ x + ttl
      → Dict.get k t ≡ some x
      → Dict.get k (if d then delete_old ttl now t else t) ≡ some x
  pruned-keeps true now t l h = get-keep_newer ttl now x k t l h
  pruned-keeps false now t l h = h

  calls-keeps :
      (cs : List Call) (t : Table)
      → All (Harmless ttl k x) cs
      → Dict.get k t ≡ some x
      → Dict.get k (calls ttl cs t) ≡ some x
  unfolding calls record_if_new forget
  calls-keeps [] t p h = h
  calls-keeps (records q i now d later ∷ cs) t p h =
      calls-keeps cs _ p.1 (pruned-keeps d later _ p.0.1 (claimed-keeps (q, i) now t p.0.0 h))
  calls-keeps (forgets q i ∷ cs) t p h = calls-keeps cs _ p.1 (rw (get-remove, p.0) h)

-- A delivery that was accepted is refused when it comes again, to any container, until its entry
-- expires, whatever the containers record, forget and prune meanwhile, as long as it is not
-- itself forgotten.
pub claimed_once :
    (ttl : ℕ) (provider webhook_id : String) (now later now' later' : ℕ) (d d' : Bool) (t : Table)
    (between : List Call)
    → (record_if_new ttl provider webhook_id now d later t).0 ≡ true
    → later ≤ now + ttl
    → All (Harmless ttl (provider, webhook_id) now) between
    → now' ≤ now + ttl
    → (record_if_new ttl provider webhook_id now' d' later'
        (calls ttl between (record_if_new ttl provider webhook_id now d later t).1)).0
      ≡ false
unfolding record_if_new
claimed_once ttl provider webhook_id now later now' later' d d' t between h l p q =
    rw
      (calls-keeps ttl (provider, webhook_id) now between _ p
        (pruned-keeps ttl (provider, webhook_id) now d later _ l
          (claimed_new ttl (provider, webhook_id) now _ t h)))
      (ap (λ r. r.0) (claimed_live ttl (provider, webhook_id) now' now _ q))
