-- ===== src/Repo/Names.antt =====
-- Names are unique up to a normal form, in both repositories: what the scan for a taken name decides,
-- and the invariant. The tables are dicts from ids to items, in the order of insertion.
use modal_template_fastapi.Common.{
  ◌≡◌, ◌≢◌, refl, String, Bool, true, false, not, ◌&&◌, Option, none, some, any, string_keys, ◌==◌,
  eq_iff, arith,
}
use modal_template_fastapi.Common.Dict
use modal_template_fastapi.Common.Dict.{
  Dict, Distinct, get-put, get-remove, put-Distinct, remove-Distinct, any_of_get, get_of_any,
}
use modal_template_fastapi.Domain.{Item}
use modal_template_fastapi.Repo.Port.{View, NameHeld, Anyone, Except}

abbrev pub Store : Type 0
Store = Dict String Item

abbrev pub view : Store → View
view s k = Dict.get k s

-- `i.id != by_other_than`, where `None` differs from every id
abbrev pub differs : Item → Option String → Bool
differs i none = true
differs i (some id) = not (i.id == id)

module _ (normal : String → String) where
  unfoldable pub name_taken : String → Option String → Store → Bool
  name_taken name by_other_than s =
      any (λ i. differs i by_other_than && (normal i.name == normal name)) (Dict.values s)

  -- `i` holds the name, and is not the item that may keep it.
  abbrev pub Holds : String → Option String → Item → Type 0
  Holds name except i = (differs i except ≡ true) × (normal i.name ≡ normal name)

  pub name_taken_of_Holds :
      (name : String) (except : Option String) (s : Store) (k : String) (i : Item)
      → Dict.get k s ≡ some i
      → Holds name except i
      → name_taken name except s ≡ true
  unfolding name_taken
  name_taken_of_Holds name except s k i e h =
      any_of_get _ k i s e (ground (arith, eq_iff (normal i.name) (normal name)))

  pub holder_of_name_taken :
      (name : String) (except : Option String) (s : Store)
      → Distinct s
      → name_taken name except s ≡ true
      → (k : String) × (i : Item) × (Dict.get k s ≡ some i) × Holds name except i
  unfolding name_taken
  holder_of_name_taken name except s d e =
      let (k, i, found, t) = get_of_any _ s d e in
      (k, i, found, (ground arith, ground (arith, eq_iff (normal i.name) (normal name))))

  -- Each item stands under its own id, and no two items share a normalised name.
  pub record IsValid (s : Store) : Type 0 where
    pub distinct : Distinct s
    pub keyed : (k : String) (i : Item) → Dict.get k s ≡ some i → i.id ≡ k
    pub unique :
        (k l : String) (i j : Item)
        → Dict.get k s ≡ some i
        → Dict.get l s ≡ some j
        → normal i.name ≡ normal j.name
        → k ≡ l

  -- A free name: every item other than `item` itself is called otherwise.
  pub free :
      (item : Item) (except : Option String) (s : Store) (k : String) (i : Item)
      → name_taken item.name except s ≡ false
      → Dict.get k s ≡ some i
      → differs i except ≡ true
      → normal i.name ≢ normal item.name
  free item except s k i t e d same = cc (name_taken_of_Holds item.name except s k i e (d, same))

  pub put-IsValid :
      (item : Item) (s : Store)
      → ((k : String) (i : Item)
          → Dict.get k s ≡ some i
          → k ≢ item.id
          → normal i.name ≢ normal item.name)
      → IsValid s
      → IsValid (Dict.put item.id item s)
  put-IsValid item s others v = record {
    distinct = put-Distinct item.id item s v.distinct;
    keyed = λ k i e. ground (arith, get-put item.id k item s, eq_iff item.id k, v.keyed k i);
    unique = λ k l i j ei ej same. ground (
      arith,
      get-put item.id k item s,
      get-put item.id l item s,
      eq_iff item.id k,
      eq_iff item.id l,
      others k i,
      others l j,
      v.unique k l i j,
    );
  }

  -- Under another key stands another id.
  pub differs_of_key :
      (s : Store) (id k : String) (i : Item)
      → IsValid s
      → Dict.get k s ≡ some i
      → k ≢ id
      → differs i (some id) ≡ true
  differs_of_key s id k i v e n = ground (arith, v.keyed k i e, eq_iff i.id id)

  pub remove-IsValid : (id : String) (s : Store) → IsValid s → IsValid (Dict.remove id s)
  remove-IsValid id s v = record {
    distinct = remove-Distinct id s v.distinct;
    keyed = λ k i e. ground (arith, get-remove id k s, v.keyed k i);
    unique = λ k l i j ei ej same.
        ground (arith, get-remove id k s, get-remove id l s, v.unique k l i j);
  }

  pub not-held_of_free :
      (item : Item) (s : Store)
      → name_taken item.name none s ≡ false
      → ¬ NameHeld normal (view s) item.name Anyone
  not-held_of_free item s e (k, i, found, _, same) =
      cc (name_taken_of_Holds item.name none s k i found (refl, same))

  pub not-held_of_free_else :
      (item : Item) (s : Store)
      → IsValid s
      → name_taken item.name (some item.id) s ≡ false
      → ¬ NameHeld normal (view s) item.name (Except item.id)
  not-held_of_free_else item s v e (k, i, found, other, same) = cc (
      name_taken_of_Holds item.name (some item.id) s k i found
        (ground (arith, v.keyed k i found, eq_iff i.id item.id), same))

  pub held_of_taken :
      (item : Item) (s : Store)
      → IsValid s
      → name_taken item.name (some item.id) s ≡ true
      → NameHeld normal (view s) item.name (Except item.id)
  held_of_taken item s v e =
      let (k, i, found, (d, same)) = holder_of_name_taken item.name (some item.id) s v.distinct e in
      (k, i, found, (λ p. ground (arith, v.keyed k i found, eq_iff i.id item.id)), same)
