-- ===== src/Repo/Postgres/Refines.antt =====
-- The writes of the repository on Postgres, against `Created` and `Updated` of `Repo.Port`, while the
-- database answers. Names are compared by `normal`, which stands for the database's
-- `lower(btrim(name))`.
use modal_template_fastapi.Common.{
  ℕ, ◌<◌, ◌≤◌, ◌≡◌, refl, ap, sym, zero, suc, subst, ltb, String, Bool, true, false, none, some,
  List, [], ◌∷◌, length, map, take, drop, string_keys, ◌==◌, arith, Bool-cases, ◌⊎◌, inl, inr,
  is_some, if◌then◌else◌,
}
use modal_template_fastapi.Common.Dict
use modal_template_fastapi.Common.Dict.{get-put, get-remove}
use modal_template_fastapi.Domain.{Item, Failure, duplicate_item_name, storage_unavailable, other}
use modal_template_fastapi.Domain.Exec.{Outcome, ok, raise}
use modal_template_fastapi.Repo.Port.{Created, stored, refused, Updated, missing, replaced, clashed}
use modal_template_fastapi.Repo.Names.{
  Store, view, name_taken, IsValid, holder_of_name_taken, not-held_of_free, not-held_of_free_else,
  held_of_taken, free, put-IsValid, remove-IsValid, differs_of_key,
}
use modal_template_fastapi.Repo.Postgres.{
  items_pkey, items_name_unique, Error, unavailable, Reply, answers, breaks, constraint_text,
  unique_violation, rejected, domain, returning, on_violation, translating, get, get_by_name, ping,
  list, counted, with_total, item_of, insert_item, update_item, create, update, delete, translate,
}

module _ (normal : String → String) (pkey_first : Bool) where
  -- The id is free and `Created` holds, or the id is taken and the row is refused.
  abbrev pub CreateEnds : Store → Item → Outcome Failure Item × Store → Type 0
  CreateEnds s item (o, s') =
      ((Dict.has item.id s ≡ false) × Created normal (view s) (view s') item o)
      ⊎ ((Dict.has item.id s ≡ true)
          × (s' ≡ s)
          × ((o ≡ raise (other (constraint_text items_pkey)))
              ⊎ (o ≡ raise (duplicate_item_name item.name))))

  create_taken :
      (item : Item) (s : Store) (name_is_taken first : Bool)
      → Dict.has item.id s ≡ true
      → name_taken normal item.name none s ≡ name_is_taken
      → pkey_first ≡ first
      → CreateEnds s item (create normal pkey_first answers item s)
  unfolding create insert_item translate
  create_taken item s true true h t p = rw (h, t, p) (inr (refl, refl, inl refl))
  create_taken item s true false h t p = rw (h, t, p) (inr (refl, refl, inr refl))
  create_taken item s false first h t p = rw (h, t) (inr (refl, refl, inl refl))

  create_fresh :
      (item : Item) (s : Store)
      → IsValid normal s
      → Dict.has item.id s ≡ false
      → CreateEnds s item (create normal pkey_first answers item s)
  unfolding create insert_item translate
  create_fresh item s v h = elim (Bool-cases (name_taken normal item.name none s)) [
    | inl taken ↦
        let (k, i, found, (_, same)) =
          holder_of_name_taken normal item.name none s v.distinct taken in
        rw (h, taken) (inl (refl, refused (k, i, found, tt, same) (λ j. refl)))
    | inr open_name ↦
        rw (h, open_name)
          (inl (
            refl,
            stored (not-held_of_free normal item s open_name) (λ j. get-put item.id j item s),
          ))
  ]

  create_ends :
      (item : Item) (s : Store)
      → IsValid normal s
      → CreateEnds s item (create normal pkey_first answers item s)
  create_ends item s v = elim (Bool-cases (Dict.has item.id s)) [
    | inl present ↦ create_taken item s _ _ present refl refl
    | inr absent ↦ create_fresh item s v absent
  ]

  create-IsValid :
      (item : Item) (s : Store)
      → IsValid normal s
      → IsValid normal (create normal pkey_first answers item s).1
  unfolding create insert_item
  create-IsValid item s v = elim (Bool-cases (Dict.has item.id s)) [
    | inl present ↦ elim (create_taken item s _ _ present refl refl) [
      | inl (absent, _) ↦ cc
      | inr (_, same, _) ↦ subst (IsValid normal) (sym same) v
    ]
    | inr absent ↦ elim (Bool-cases (name_taken normal item.name none s)) [
      | inl taken ↦ rw (absent, taken) v
      | inr open_name ↦
          rw (absent, open_name)
            (put-IsValid normal item s (λ k i e _. free normal item none s k i open_name e refl) v)
    ]
  ]

  update_ends :
      (item : Item) (s : Store)
      → IsValid normal s
      → Updated normal
          (view s)
          (view (update normal pkey_first answers item s).1)
          item
          (update normal pkey_first answers item s).0
  unfolding update update_item translate
  update_ends item s v = elim (Bool-cases (Dict.has item.id s)) [
    | inr absent ↦ rw absent (missing (ground arith) (λ j. refl))
    | inl present ↦ elim (Bool-cases (name_taken normal item.name (some item.id) s)) [
      | inl taken ↦
          rw (present, taken)
            (clashed (ground arith) (held_of_taken normal item s v taken) (λ j. refl))
      | inr open_name ↦
          rw (present, open_name)
            (replaced (ground arith) (not-held_of_free_else normal item s v open_name)
              (λ j. get-put item.id j item s))
    ]
  ]

  update-IsValid :
      (item : Item) (s : Store)
      → IsValid normal s
      → IsValid normal (update normal pkey_first answers item s).1
  unfolding update update_item
  update-IsValid item s v = elim (Bool-cases (Dict.has item.id s)) [
    | inr absent ↦ rw absent v
    | inl present ↦ elim (Bool-cases (name_taken normal item.name (some item.id) s)) [
      | inl taken ↦ rw (present, taken) v
      | inr open_name ↦
          rw (present, open_name)
            (put-IsValid normal item s
              (λ k i e n.
                free normal item (some item.id) s k i open_name e
                  (differs_of_key normal s item.id k i v e n))
              v)
    ]
  ]

firsts :
    (limit n : ℕ) (is : List Item)
    → map item_of (take limit (map (with_total n) is)) ≡ take limit is
firsts zero n is = refl
firsts (suc limit) n [] = refl
firsts (suc limit) n (i ∷ is) = ap (◌∷◌ i) (firsts limit n is)

module _ (normal : String → String) (pkey_first : Bool) (reply : Reply) (s later : Store) where
  counted_page :
      (is : List Item) (n asked limit offset : ℕ)
      → 0 < limit
      → offset < length is
      → counted normal pkey_first reply later asked
          (take limit (drop offset (map (with_total n) is)))
          s
        ≡ (ok (take limit (drop offset is), n), s)
  counted_page [] n asked limit offset l o = ground (arith, o)
  counted_page (i ∷ is) n asked zero offset l o = ground (arith, l)
  counted_page (i ∷ is) n asked (suc limit) zero l o =
      ap (λ x. (ok (i ∷ x, n), s)) (firsts limit n is)
  counted_page (i ∷ is) n asked (suc limit) (suc offset) l o =
      counted_page is n asked (suc limit) offset l (omega (arith, o))

no_page :
    (limit n offset : ℕ) (is : List Item)
    → length is ≤ offset
    → (take limit (drop offset (map (with_total n) is)) ≡ []) × (take limit (drop offset is) ≡ [])
no_page zero n offset is l = (refl, refl)
no_page (suc limit) n zero [] l = (refl, refl)
no_page (suc limit) n (suc offset) [] l = (refl, refl)
no_page (suc limit) n zero (i ∷ is) l = ground (arith, l)
no_page (suc limit) n (suc offset) (i ∷ is) l = no_page (suc limit) n offset is (omega (arith, l))

-- While the database answers and the table stays the same, `list` with a limit that is not zero gives
-- the page that the port promises and the number of all items, for a page past the end too.
pub pages_counted :
    (normal : String → String) (pkey_first : Bool) (s : Store) (limit offset : ℕ)
    → 0 < limit
    → list normal pkey_first answers answers s limit offset s
      ≡ (ok (take limit (drop offset (Dict.values s)), length (Dict.values s)), s)
unfolding list
pages_counted normal pkey_first s limit offset l =
    elim (Bool-cases (ltb offset (length (Dict.values s)))) [
      | inl within ↦
          rw
            (counted_page normal pkey_first answers s s (Dict.values s) (length (Dict.values s))
              offset limit offset l (ground (arith, within)))
            refl
      | inr past ↦
          let (none_counted, none_there) =
            no_page limit (length (Dict.values s)) offset (Dict.values s) (ground (arith, past)) in
          rw (none_counted, none_there) (ground (arith, past))
    ]

-- From a valid table, while the database answers each statement, and with names compared by the
-- database's `normal`, a parameter: `create` of a free id and `update` end as `Created` and `Updated`
-- of `Repo.Port` say, `create` of a taken id raises and leaves the table, `delete` tells whether the
-- id was there and removes it alone, and the table stays valid.
pub postgres_keeps :
    (normal : String → String) (pkey_first : Bool) (item : Item) (id : String) (s : Store)
    → IsValid normal s
    → (let created = create normal pkey_first answers item s in
        let updated = update normal pkey_first answers item s in
        let deleted = delete normal pkey_first answers id s in
        CreateEnds normal pkey_first s item created
        × IsValid normal created.1
        × Updated normal (view s) (view updated.1) item updated.0
        × IsValid normal updated.1
        × (deleted.0 ≡ ok (is_some (view s id)))
        × ((j : String) → view deleted.1 j ≡ (if id == j then none else view s j))
        × IsValid normal deleted.1)
unfolding delete
postgres_keeps normal pkey_first item id s v = (
  create_ends normal pkey_first item s v,
  create-IsValid normal pkey_first item s v,
  update_ends normal pkey_first item s v,
  update-IsValid normal pkey_first item s v,
  refl,
  (λ j. get-remove id j s),
  remove-IsValid normal id s v,
)

returning-state : (item : Item) (r : Outcome Error (Unit {0}) × Store) → (returning item r).1 ≡ r.1
returning-state item (ok _, s) = refl
returning-state item (raise e, s) = refl

on_violation-state {ℓ} :
    {A : Type ℓ} (name : String) (r : Outcome Error A × Store) → (on_violation name r).1 ≡ r.1
on_violation-state name (ok a, s) = refl
on_violation-state name (raise (unavailable kind), s) = refl
on_violation-state name (raise (rejected text), s) = refl
on_violation-state name (raise (domain f), s) = refl
on_violation-state name (raise (unique_violation items_pkey), s) = refl
on_violation-state name (raise (unique_violation items_name_unique), s) = refl

translating-state {ℓ} : {A : Type ℓ} (r : Outcome Error A × Store) → (translating r).1 ≡ r.1
translating-state (ok a, s) = refl
translating-state (raise e, s) = refl

-- A call that does not reach the database, or loses it before the answer, ends in the service's
-- StorageUnavailableError for every method, and leaves the table as it was or as the answered call
-- leaves it; it is never half done.
pub unreachable :
    (normal : String → String) (pkey_first : Bool) (kind : String) (applied : Bool) (item : Item)
    (text : String) (s : Store)
    → (let lost = breaks (unavailable kind) applied in
        let error : Failure = storage_unavailable kind in
        let either : Store → Store = λ s'. if applied then s' else s in
        (create normal pkey_first lost item s
          ≡ (raise error, either (create normal pkey_first answers item s).1))
        × (update normal pkey_first lost item s
            ≡ (raise error, either (update normal pkey_first answers item s).1))
        × (delete normal pkey_first lost text s
            ≡ (raise error, either (delete normal pkey_first answers text s).1))
        × (get normal pkey_first lost text s ≡ (raise error, s))
        × (get_by_name normal pkey_first lost text s ≡ (raise error, s))
        × (ping normal pkey_first lost s ≡ (raise error, s)))
unfolding create update delete get get_by_name ping translate
unreachable normal pkey_first kind false item text s = (refl, refl, refl, refl, refl, refl)
unreachable normal pkey_first kind true item text s = (
  simp (translating-state, returning-state, on_violation-state),
  simp (translating-state, on_violation-state),
  refl,
  refl,
  refl,
  refl,
)
