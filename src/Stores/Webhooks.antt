-- ===== src/Stores/Webhooks.antt =====
-- `InMemoryWebhookStore` of adapters/events/memory.py. The clock's readings are arguments.
pub mod Kept
pub mod Between
use modal_template_fastapi.Common.{
  ℕ, suc, ◌+◌, ◌≤◌, ◌<◌, ◌≡◌, refl, String, Bool, true, false, ◌&&◌, none, some, [], ◌∷◌, ◌++◌,
  length, ltb, leb, pair_keys, pair_eq_iff, ==_refl, arith, if◌then◌else◌,
}
use modal_template_fastapi.Common.Dict
use modal_template_fastapi.Common.Age.{length-put}
use modal_template_fastapi.Common.Dict.{
  Dict, Distinct, get-put, get-remove, put-Distinct, remove-Distinct, put_new,
}

abbrev pub Key : Type 0
Key = String × String

pub record Store : Type 0 where
  pub ttl : ℕ
  pub max_entries : ℕ
  pub seen : Dict Key ℕ

-- the loop of `_purge`: the oldest entries go while they have expired or the store is too large
unfoldable pub purge_from : ℕ → ℕ → Dict Key ℕ → Dict Key ℕ
purge_from now limit [] = []
purge_from now limit ((key, expiry) ∷ rest) =
    let purged = purge_from now limit rest in
    if ltb now expiry && leb (suc (length rest)) limit then (key, expiry) ∷ rest else purged

unfoldable pub purge : ℕ → Store → Store
unfolding purge_from
purge now s = record s { seen = purge_from now s.max_entries s.seen }

-- `now` and `later` are the two readings of the clock
unfoldable pub record_if_new : String → String → ℕ → ℕ → Store → Bool × Store
unfolding purge
record_if_new provider webhook_id now later s =
    let p = purge now s in
    if Dict.has (provider, webhook_id) p.seen
    then (false, p)
    else (true, record p { seen = Dict.put (provider, webhook_id) (later + p.ttl) p.seen })

unfoldable pub forget : String → String → Store → Store
forget provider webhook_id s = record s { seen = Dict.remove (provider, webhook_id) s.seen }

-- What `_purge` leaves, and what it cannot touch.
purge_from-short : (now limit : ℕ) (m : Dict Key ℕ) → length (purge_from now limit m) ≤ limit
unfolding purge_from
purge_from-short now limit [] = omega arith
purge_from-short now limit ((k, x) ∷ m) = ground (arith, purge_from-short now limit m)

purge_from-absent :
    (now limit : ℕ) (k : Key) (m : Dict Key ℕ)
    → Dict.get k m ≡ none
    → Dict.get k (purge_from now limit m) ≡ none
unfolding purge_from Dict.get
purge_from-absent now limit k [] h = refl
purge_from-absent now limit k ((j, x) ∷ m) h = ground (arith, purge_from-absent now limit k m)

module _ (provider webhook_id : String) (now later : ℕ) (s : Store) where
  pub absent_of_accepted :
      (record_if_new provider webhook_id now later s).0 ≡ true
      → Dict.get (provider, webhook_id) (purge_from now s.max_entries s.seen) ≡ none
  unfolding record_if_new
  absent_of_accepted h = ground arith

  pub seen_of_accepted :
      (record_if_new provider webhook_id now later s).0 ≡ true
      → (record_if_new provider webhook_id now later s).1 ≡ record s {
        seen = purge_from now s.max_entries s.seen ++ ((provider, webhook_id), later + s.ttl) ∷ [];
      }
  unfolding record_if_new
  seen_of_accepted h =
      ground (
        arith,
        put_new (provider, webhook_id) (later + s.ttl) (purge_from now s.max_entries s.seen),
      )

  pub refused_of_seen :
      {x : ℕ}
      → Dict.get (provider, webhook_id) (purge_from now s.max_entries s.seen) ≡ some x
      → (record_if_new provider webhook_id now later s).0 ≡ false
  unfolding record_if_new
  refused_of_seen h = ground arith

  -- The store never holds more than one entry above `max_entries`.
  pub record_if_new-bounded :
      length (record_if_new provider webhook_id now later s).1.seen ≤ s.max_entries + 1
  unfolding record_if_new
  record_if_new-bounded = ground (
    arith,
    purge_from-short now s.max_entries s.seen,
    length-put (provider, webhook_id) (later + s.ttl) (purge_from now s.max_entries s.seen),
  )

  -- A delivery that is forgotten is accepted when it comes again, at any time.
  pub forgotten_accepted :
      (record_if_new provider webhook_id now later (forget provider webhook_id s)).0 ≡ true
  unfolding record_if_new forget
  forgotten_accepted = ground (
    arith,
    purge_from-absent now s.max_entries (provider, webhook_id)
        (Dict.remove (provider, webhook_id) s.seen),
    get-remove (provider, webhook_id) (provider, webhook_id) s.seen,
    pair_eq_iff (provider, webhook_id) (provider, webhook_id),
  )
