-- ===== src/Stores/Webhooks/Between.antt =====
-- Deliveries that repeat at `InMemoryWebhookStore`, with calls for others in between.
use modal_template_fastapi.Common.{
  ℕ, ◌+◌, ◌<◌, ◌≡◌, ◌≢◌, refl, ◌∙◌, String, true, false, List, [], ◌∷◌, All, length, arith,
}
use modal_template_fastapi.Stores.Webhooks.{Key, Store, record_if_new, forget}
use modal_template_fastapi.Stores.Webhooks.Kept.{
  IsKept, record_if_new-IsKept, forget-IsKept, refused_of_kept, accepted-IsKept,
}

pub data Call : Type 0 where
  records : String → String → ℕ → ℕ → Call
  forgets : String → String → Call

-- The store after one call and after several.
pub after : Call → Store → Store
after (records provider webhook_id now later) s = (record_if_new provider webhook_id now later s).1
after (forgets provider webhook_id) s = forget provider webhook_id s

pub run : List Call → Store → Store
run [] s = s
run (c ∷ cs) s = run cs (after c s)

-- A call for any delivery before the time `x`, that does not forget the key.
abbrev pub LeavesAlone : Key → ℕ → Call → Type 0
LeavesAlone k x (records provider webhook_id now later) = now < x
LeavesAlone k x (forgets provider webhook_id) = (provider, webhook_id) ≢ k

-- A call keeps the parameters of the store.
pub same_limits :
    (provider webhook_id : String) (now later : ℕ) (s : Store)
    → ((record_if_new provider webhook_id now later s).1.max_entries ≡ s.max_entries)
      × ((record_if_new provider webhook_id now later s).1.ttl ≡ s.ttl)
unfolding record_if_new
same_limits provider webhook_id now later s = ground arith

after-IsKept :
    (c : Call) (k : Key) (x n : ℕ) (s : Store)
    → LeavesAlone k x c
    → n < s.max_entries
    → IsKept k x n s
    → IsKept k x (n + 1) (after c s) × ((after c s).max_entries ≡ s.max_entries)
unfolding after forget
after-IsKept (records provider webhook_id now later) k x n s l room kept = (
  record_if_new-IsKept provider webhook_id k x n s now later l room kept,
  (same_limits provider webhook_id now later s).0,
)
after-IsKept (forgets provider webhook_id) k x n s l room kept =
    let kept' = forget-IsKept provider webhook_id k x n s l kept in
    (record { found = kept'.found; recent = omega (arith, kept'.recent) }, refl)

run-IsKept :
    (cs : List Call) (k : Key) (x n : ℕ) (s : Store)
    → All (LeavesAlone k x) cs
    → n + length cs < s.max_entries
    → IsKept k x n s
    → IsKept k x (n + length cs) (run cs s) × ((run cs s).max_entries ≡ s.max_entries)
unfolding run
run-IsKept [] k x n s l room kept =
    (record { found = kept.found; recent = omega (arith, kept.recent) }, refl)
run-IsKept (c ∷ cs) k x n s l room kept =
    let (kept', same) = after-IsKept c k x n s l.0 (omega (arith, room)) kept in
    let (kept'', same') =
      run-IsKept cs k x (n + 1) (after c s) l.1 (omega (arith, room, same)) kept' in
    (record { found = kept''.found; recent = omega (arith, kept''.recent) }, same' ∙ same)

-- A delivery that was accepted is refused when it comes again, whatever calls for any deliveries came
-- in between: provided that they and the repetition come before its entry expires, that none of them
-- forgets it, and that they are fewer than `max_entries`, as more could evict the entry.
pub repeated_refused :
    (provider webhook_id : String) (now later now' later' : ℕ) (calls : List Call) (s : Store)
    → All (LeavesAlone (provider, webhook_id) (later + s.ttl)) calls
    → length calls < s.max_entries
    → now' < later + s.ttl
    → (record_if_new provider webhook_id now later s).0 ≡ true
    → (record_if_new provider webhook_id now' later'
        (run calls (record_if_new provider webhook_id now later s).1)).0
      ≡ false
repeated_refused provider webhook_id now later now' later' calls s l room early h =
    let (same, _) = same_limits provider webhook_id now later s in
    let (kept, same') =
      run-IsKept calls (provider, webhook_id) (later + s.ttl) 0
        (record_if_new provider webhook_id now later s).1 l (omega (arith, room, same))
        (accepted-IsKept provider webhook_id now later s h) in
    refused_of_kept provider webhook_id (provider, webhook_id) (later + s.ttl) (length calls) _ now'
      later' early (omega (arith, room, same, same'))
      (record { found = kept.found; recent = omega (arith, kept.recent) })
