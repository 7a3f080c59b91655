-- ===== src/Stores/Tickets.antt =====
-- `InMemoryTicketStore` of adapters/events/memory.py.
use modal_template_fastapi.Common.{
  ℕ, ◌<◌, ◌≡◌, String, Bool, true, false, not, some, List, [], ◌∷◌, keep, leb, string_keys, eq_iff,
  arith, All, if◌then◌else◌,
}
use modal_template_fastapi.Common.Dict
use modal_template_fastapi.Common.Dict.{Dict, get-put}

abbrev pub Used : Type 0
Used = Dict String ℕ

-- the loop that drops each used ticket that has expired
unfoldable pub unexpired : ℕ → Used → Used
unexpired now = keep (λ e. not (leb e.1 now))

unfoldable pub consume : String → ℕ → ℕ → Used → Bool × Used
unfolding unexpired
consume jti expires_at now used =
    let live = unexpired now used in
    if Dict.has jti live then (false, live) else (true, Dict.put jti expires_at live)

get-unexpired :
    (now : ℕ) (jti : String) (x : ℕ) (used : Used)
    → now < x
    → Dict.get jti used ≡ some x
    → Dict.get jti (unexpired now used) ≡ some x
unfolding unexpired Dict.get
get-unexpired now jti x [] p h = cc
get-unexpired now jti x ((j, y) ∷ used) p h = ground (arith, get-unexpired now jti x used p)

-- A call of `consume`: the ticket, its expiry and the time.
pub record Use : Type 0 where
  pub jti : String
  pub expires_at : ℕ
  pub now : ℕ

unfoldable pub consume_all : List Use → Used → Used
consume_all [] used = used
consume_all (c ∷ cs) used = consume_all cs (consume c.jti c.expires_at c.now used).1

module _ (jti : String) (x : ℕ) where
  consume-keeps :
      (c : Use) (used : Used)
      → c.now < x
      → Dict.get jti used ≡ some x
      → Dict.get jti (consume c.jti c.expires_at c.now used).1 ≡ some x
  unfolding consume
  consume-keeps c used p h = ground (
    arith,
    get-unexpired c.now jti x used p h,
    get-put c.jti jti c.expires_at (unexpired c.now used),
    eq_iff c.jti jti,
  )

  consume_all-keeps :
      (cs : List Use) (used : Used)
      → All (λ c. c.now < x) cs
      → Dict.get jti used ≡ some x
      → Dict.get jti (consume_all cs used) ≡ some x
  unfolding consume_all
  consume_all-keeps [] used p h = h
  consume_all-keeps (c ∷ cs) used p h =
      consume_all-keeps cs (consume c.jti c.expires_at c.now used).1 p.1
        (consume-keeps c used p.0 h)

  refused_of_used :
      (y now : ℕ) (used : Used)
      → now < x
      → Dict.get jti used ≡ some x
      → (consume jti y now used).0 ≡ false
  unfolding consume
  refused_of_used y now used p h = ground (arith, get-unexpired now jti x used p h)

  used_of_consumed :
      (now : ℕ) (used : Used)
      → (consume jti x now used).0 ≡ true
      → Dict.get jti (consume jti x now used).1 ≡ some x
  unfolding consume
  used_of_consumed now used h =
      ground (arith, get-put jti jti x (unexpired now used), eq_iff jti jti)

-- A ticket that was consumed is refused at every later moment before it expires, whatever tickets
-- are consumed in between.
pub consume_once :
    (jti : String) (expires_at now : ℕ) (used : Used) (between : List Use) (y later : ℕ)
    → (consume jti expires_at now used).0 ≡ true
    → All (λ c. c.now < expires_at) between
    → later < expires_at
    → (consume jti y later (consume_all between (consume jti expires_at now used).1)).0 ≡ false
consume_once jti x now used between y later h p q =
    refused_of_used jti x y later _ q
      (consume_all-keeps jti x between _ p (used_of_consumed jti x now used h))
