-- ===== src/Repo/Memory/Reads.antt =====
-- What the reading methods of the in-memory repository return, in terms of what `get` shows.
use modal_template_fastapi.Common.{
  ◌≡◌, ◌≢◌, refl, String, none, some, List, [], ◌∷◌, All, string_keys, ◌==◌, eq_iff, arith, inl,
  inr, Option-cases, first, keep,
}
use modal_template_fastapi.Common.Dict
use modal_template_fastapi.Common.Dict.{Dict, Distinct}
use modal_template_fastapi.Common.Text.{Unicode}
use modal_template_fastapi.Domain.{Item}
use modal_template_fastapi.Repo.Port.{FoundByName, holder, nobody, Among, Apart, Lists}
use modal_template_fastapi.Repo.Names.{Store, view}
use modal_template_fastapi.Repo.Memory.{normal, get_by_name}
use modal_template_fastapi.Repo.Memory.Valid.{IsValid}
use modal_template_fastapi.Repo.Memory.History.{found_by_name, finds_by_name}

abbrev Keyed : Store → Type 0
Keyed = All (λ e. e.1.id ≡ e.0)

Keyed-of :
    (s : Store)
    → Distinct s
    → ((k : String) (i : Item) → Dict.get k s ≡ some i → i.id ≡ k)
    → Keyed s
unfolding Dict.get
Keyed-of [] d h = tt
Keyed-of ((j, v) ∷ s) d h = (
  h j v (ground (arith, eq_iff j j)),
  Keyed-of s d.1 (λ k i e. h k i (ground (arith, eq_iff j k))),
)

other_ids :
    (j : String) (s : Store) → Dict.get j s ≡ none → Keyed s → All (λ i. j ≢ i.id) (Dict.values s)
unfolding Dict.get
other_ids j [] h k = tt
other_ids j ((l, v) ∷ s) h k = ground (arith, eq_iff l j, other_ids j s)

values-Apart : (s : Store) → Distinct s → Keyed s → Apart (Dict.values s)
values-Apart [] d k = tt
values-Apart ((j, v) ∷ s) d k = (rw k.0 (other_ids j s d.0 k.1), values-Apart s d.1 k.1)

shown_behind :
    (j : String) (v : Item) (s : Store) (is : List Item)
    → Dict.get j s ≡ none
    → All (λ i. view s i.id ≡ some i) is
    → All (λ i. view ((j, v) ∷ s) i.id ≡ some i) is
unfolding Dict.get
shown_behind j v s [] h a = tt
shown_behind j v s (i ∷ is) h a = (ground (arith, eq_iff j i.id), shown_behind j v s is h a.1)

values_shown : (s : Store) → Distinct s → Keyed s → All (λ i. view s i.id ≡ some i) (Dict.values s)
unfolding Dict.get
values_shown [] d k = tt
values_shown ((j, v) ∷ s) d k =
    (ground (arith, eq_iff j v.id), shown_behind j v s (Dict.values s) d.0 (values_shown s d.1 k.1))

values_complete : (s : Store) (k : String) (i : Item) → view s k ≡ some i → Among i (Dict.values s)
unfolding Dict.get
values_complete [] k i h = cc
values_complete ((j, v) ∷ s) k i h = ground (arith, values_complete s k i)

module _ (u : Unicode) (s : Store) (v : IsValid u s) where
  -- The values of a valid store are the items that `get` shows, each once.
  pub values-Lists : Lists (view s) (Dict.values s)
  values-Lists =
      let keyed = Keyed-of s v.distinct v.keyed in
      record {
        apart = values-Apart s v.distinct keyed;
        shown = values_shown s v.distinct keyed;
        complete = values_complete s;
      }

  pub get_by_name_ends :
      (name : String) → FoundByName (normal u) (view s) name (get_by_name u name s).0
  unfolding get_by_name
  get_by_name_ends name =
      elim (Option-cases (first (keep (λ i. normal u i.name == normal u name) (Dict.values s)))) [
        | inl e ↦ rw e (
            nobody (λ (k, i, found, _, same).
              let hit = finds_by_name u name s i k v found same in ground arith))
        | inr (i, e) ↦
            let (k, found, same) = found_by_name u name s i v (rw (e, get_by_name) refl) in
            rw e (holder k i found same)
      ]
