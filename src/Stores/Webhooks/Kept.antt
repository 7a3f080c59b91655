-- ===== src/Stores/Webhooks/Kept.antt =====
-- How long an entry of `InMemoryWebhookStore` stays: until it expires, or until as many newer ones
-- are there as the store may hold.
use modal_template_fastapi.Common.{
  ℕ, ◌+◌, ◌≤◌, ◌<◌, ◌≡◌, String, true, false, some, [], ◌∷◌, pair_keys, pair_eq_iff, arith, ◌≢◌,
  Option-cases, inl, inr,
}
use modal_template_fastapi.Common.Dict
use modal_template_fastapi.Common.Dict.{Dict, get-put, get-remove}
use modal_template_fastapi.Common.Age.{behind, behind-put, behind-remove, behind_new}
use modal_template_fastapi.Stores.Webhooks.{
  Key, Store, purge_from, record_if_new, forget, absent_of_accepted, refused_of_seen,
}

-- The store holds the key, with this expiry and at most `n` newer entries.
pub record IsKept (k : Key) (x n : ℕ) (s : Store) : Type 0 where
  pub found : Dict.get k s.seen ≡ some x
  pub recent : behind k s.seen ≤ n

purge_from-kept :
    (now limit : ℕ) (k : Key) (x : ℕ) (m : Dict Key ℕ)
    → now < x
    → behind k m < limit
    → Dict.get k m ≡ some x
    → (Dict.get k (purge_from now limit m) ≡ some x)
      × (behind k (purge_from now limit m) ≡ behind k m)
unfolding purge_from Dict.get behind
purge_from-kept now limit k x [] p q h = cc
purge_from-kept now limit k x ((j, y) ∷ m) p q h = ground (arith, purge_from-kept now limit k x m p)

module _ (provider webhook_id : String) (k : Key) (x n : ℕ) (s : Store) where
  purged :
      (now : ℕ)
      → now < x
      → n < s.max_entries
      → IsKept k x n s
      → (Dict.get k (purge_from now s.max_entries s.seen) ≡ some x)
        × (behind k (purge_from now s.max_entries s.seen) ≤ n)
  purged now early room kept =
      let (got, same) =
        purge_from-kept now s.max_entries k x s.seen early (omega (arith, room, kept.recent))
          kept.found in
      (got, omega (arith, same, kept.recent))

  pub record_if_new-IsKept :
      (now later : ℕ)
      → now < x
      → n < s.max_entries
      → IsKept k x n s
      → IsKept k x (n + 1) (record_if_new provider webhook_id now later s).1
  unfolding record_if_new
  record_if_new-IsKept now later early room kept =
      let m = purge_from now s.max_entries s.seen in
      let (got, recent) = purged now early room kept in
      elim (Option-cases (Dict.get (provider, webhook_id) m)) [
        | inl e ↦ rw e (record {
          found = ground (
            arith,
            get-put (provider, webhook_id) k (later + s.ttl) m,
            pair_eq_iff (provider, webhook_id) k,
          );
          recent = omega (arith, recent, behind-put k (provider, webhook_id) (later + s.ttl) m);
        })
        | inr (y, e) ↦ rw e (record { found = got; recent = omega (arith, recent) })
      ]

  -- Nothing but its own key makes the store forget the entry.
  pub forget-IsKept :
      (provider, webhook_id) ≢ k → IsKept k x n s → IsKept k x n (forget provider webhook_id s)
  unfolding forget
  forget-IsKept other kept = record {
    found = ground (
      arith,
      kept.found,
      get-remove (provider, webhook_id) k s.seen,
      pair_eq_iff (provider, webhook_id) k,
    );
    recent = ground (
      arith,
      kept.recent,
      behind-remove k (provider, webhook_id) s.seen,
      pair_eq_iff (provider, webhook_id) k,
    );
  }

  -- A key that the store holds is refused.
  pub refused_of_kept :
      (now later : ℕ)
      → now < x
      → n < s.max_entries
      → IsKept (provider, webhook_id) x n s
      → (record_if_new provider webhook_id now later s).0 ≡ false
  refused_of_kept now later early room kept = refused_of_seen provider webhook_id now later s (
      (purge_from-kept now s.max_entries (provider, webhook_id) x s.seen early
        (omega (arith, room, kept.recent)) kept.found).0)

-- What was just accepted is the newest entry.
pub accepted-IsKept :
    (provider webhook_id : String) (now later : ℕ) (s : Store)
    → (record_if_new provider webhook_id now later s).0 ≡ true
    → IsKept
        (provider, webhook_id)
        (later + s.ttl)
        0
        (record_if_new provider webhook_id now later s).1
unfolding record_if_new
accepted-IsKept provider webhook_id now later s h =
    let m = purge_from now s.max_entries s.seen in
    let gone = absent_of_accepted provider webhook_id now later s h in
    rw gone (record {
      found = ground (
        arith,
        get-put (provider, webhook_id) (provider, webhook_id) (later + s.ttl) m,
        pair_eq_iff (provider, webhook_id) (provider, webhook_id),
      );
      recent = omega (arith, behind_new (provider, webhook_id) (later + s.ttl) m gone);
    })
