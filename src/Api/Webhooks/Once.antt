-- ===== src/Api/Webhooks/Once.antt =====
-- A delivery of api/webhooks.py is published once.
use modal_template_fastapi.Common.{
  ℕ, ◌+◌, ◌<◌, ◌≡◌, inl, inr, refl, sym, ◌∙◌, ◌≢◌, String, true, arith, string_keys, List, [], ◌∷◌,
  All, length, subst,
}
use modal_template_fastapi.Domain.{Fields}
use modal_template_fastapi.Domain.Exec.{ok, raise}
use modal_template_fastapi.Common.Text.{Unicode}
use modal_template_fastapi.Service.{Publish}
use modal_template_fastapi.Stores.Webhooks
use modal_template_fastapi.Stores.Webhooks.{Key, record_if_new, forget, forgotten_accepted}
use modal_template_fastapi.Stores.Webhooks.Kept.{
  IsKept, record_if_new-IsKept, forget-IsKept, refused_of_kept, accepted-IsKept,
}
use modal_template_fastapi.Stores.Webhooks.Between.{same_limits}
use modal_template_fastapi.Api.Errors.{Exception}
use modal_template_fastapi.Api.Webhooks.{
  Library, Settings, Request, Clock, World, accepted, receive, deliver, text_of,
}
use modal_template_fastapi.Api.Webhooks.Receiving.{
  delivered, deliver-cases, first_of, second_of, store_cases,
}

forget_same :
    (provider webhook_id : String) (s : Webhooks.Store)
    → (forget provider webhook_id s).max_entries ≡ s.max_entries
unfolding forget
forget_same provider webhook_id s = refl

accepted_not_kept :
    (provider webhook_id : String) (now later x n : ℕ) (s : Webhooks.Store)
    → now < x
    → n < s.max_entries
    → IsKept (provider, webhook_id) x n s
    → (record_if_new provider webhook_id now later s).0 ≢ true
accepted_not_kept provider webhook_id now later x n s early room kept h =
    let r =
      refused_of_kept provider webhook_id (provider, webhook_id) x n s now later early room kept in
    ground arith

module _ (u : Unicode) (lib : Library) (cfg : Settings) {B : Type 0} (publish : Publish B) where
  -- When publishing fails, the delivery is new again at any time.
  pub failed_retry :
      (clock : Clock) (provider webhook_id : String) (payload : Fields) (w : World B)
      (e : Exception) (now later : ℕ)
      → (deliver u lib cfg publish clock provider webhook_id payload w).0 ≡ raise e
      → (record_if_new provider webhook_id now later
          (deliver u lib cfg publish clock provider webhook_id payload w).1.store).0
        ≡ true
  unfolding delivered
  failed_retry clock provider webhook_id payload w e now later h =
      elim (deliver-cases u lib cfg publish clock provider webhook_id payload w) [
        | inl (_, d) ↦ ground (arith)
        | inr (inl (_, d)) ↦ ground (arith)
        | inr (inr (_, (_, d))) ↦ rw d (forgotten_accepted provider webhook_id now later _)
      ]

  -- A request leaves an entry that has not expired, and adds at most one newer entry.
  receive-IsKept :
      (clock : Clock) (r : Request) (k : Key) (x n : ℕ) (w : World B)
      → clock.purged < x
      → n < w.store.max_entries
      → IsKept k x n w.store
      → IsKept k x (n + 1) (receive u lib cfg publish clock r w).1.store
        × ((receive u lib cfg publish clock r w).1.store.max_entries ≡ w.store.max_entries)
  receive-IsKept clock r k x n w early room kept =
      let id = text_of r.webhook_id in
      let kept' =
        record_if_new-IsKept r.provider id k x n w.store clock.purged clock.recorded early room
          kept in
      let (same, _) = same_limits r.provider id clock.purged clock.recorded w.store in
      elim (store_cases u lib cfg publish clock r w) [
        | inl e ↦
            subst (λ s. IsKept k x (n + 1) s × (s.max_entries ≡ w.store.max_entries)) (sym e)
              (record { found = kept.found; recent = omega (arith, kept.recent) }, refl)
        | inr (inl e) ↦
            subst (λ s. IsKept k x (n + 1) s × (s.max_entries ≡ w.store.max_entries)) (sym e)
              (kept', same)
        | inr (inr (new, e)) ↦
            subst (λ s. IsKept k x (n + 1) s × (s.max_entries ≡ w.store.max_entries)) (sym e)
              (
                forget-IsKept r.provider id k x (n + 1) _
                    (λ own.
                      accepted_not_kept r.provider id clock.purged clock.recorded x n w.store early
                        room (subst (λ j. IsKept j x n w.store) (sym own) kept) new)
                    kept',
                forget_same r.provider id _ ∙ same,
              )
      ]

  -- The world after requests, each with its clock.
  pub serve : List (Clock × Request) → World B → World B
  serve [] w = w
  serve ((clock, r) ∷ rs) w = serve rs (receive u lib cfg publish clock r w).1

  serve-IsKept :
      (rs : List (Clock × Request)) (k : Key) (x n : ℕ) (w : World B)
      → All (λ (clock, r). clock.purged < x) rs
      → n + length rs < w.store.max_entries
      → IsKept k x n w.store
      → IsKept k x (n + length rs) (serve rs w).store
        × ((serve rs w).store.max_entries ≡ w.store.max_entries)
  unfolding serve
  serve-IsKept [] k x n w l room kept =
      (record { found = kept.found; recent = omega (arith, kept.recent) }, refl)
  serve-IsKept ((clock, r) ∷ rs) k x n w l room kept =
      let (kept', same) = receive-IsKept clock r k x n w l.0 (omega (arith, room)) kept in
      let (kept'', same') =
        serve-IsKept rs k x (n + 1) (receive u lib cfg publish clock r w).1 l.1
          (omega (arith, room, same)) kept' in
      (record { found = kept''.found; recent = omega (arith, kept''.recent) }, same' ∙ same)

  -- After a request has been accepted, another with its provider and webhook id leaves the bus alone
  -- and is refused or answered as a duplicate, whatever requests were served in between: provided
  -- that those and the repetition come before the entry expires, and that they are fewer than
  -- `max_entries`, as more could evict the entry.
  pub accepted_once :
      (clock clock' : Clock) (r r' : Request) (between : List (Clock × Request)) (w : World B)
      → r'.provider ≡ r.provider
      → text_of r'.webhook_id ≡ text_of r.webhook_id
      → All (λ (c, q). c.purged < clock.recorded + w.store.ttl) between
      → length between < w.store.max_entries
      → clock'.purged < clock.recorded + w.store.ttl
      → (receive u lib cfg publish clock r w).0 ≡ ok accepted
      → let w' = serve between (receive u lib cfg publish clock r w).1 in
        ((receive u lib cfg publish clock' r' w').1.bus ≡ w'.bus)
        × ((receive u lib cfg publish clock' r' w').0 ≢ ok accepted)
  accepted_once clock clock' r r' between w same same_id early_all room early h =
      let id = text_of r.webhook_id in
      let x = clock.recorded + w.store.ttl in
      let (new, kept) = first_of u lib cfg publish clock r w h in
      let w' = (receive u lib cfg publish clock r w).1 in
      let (limit, _) = same_limits r.provider id clock.purged clock.recorded w.store in
      let limit' : w'.store.max_entries ≡ w.store.max_entries = rw kept limit in
      let (found, limit'') =
        serve-IsKept between (r.provider, id) x 0 w' early_all (omega (arith, room, limit'))
          (rw kept (accepted-IsKept r.provider id clock.purged clock.recorded w.store new)) in
      second_of u lib cfg publish clock' r' (serve between w') (
        rw same (
          rw same_id (
            refused_of_kept r.provider id (r.provider, id) x (length between)
              (serve between w').store clock'.purged clock'.recorded early
              (omega (arith, room, limit', limit''))
              (record { found = found.found; recent = omega (arith, found.recent) }))))
