-- ===== src/Bus/Postgres/Steps.antt =====
-- What may happen on the bus on Postgres, step by step: the publishers and the pump of one container,
-- its streams, and the pruning. Each step runs from one `await` to the next.
use modal_template_fastapi.Common.{
  ℕ, ◌≡◌, String, Bool, false, List, [], ◌∷◌, ◌++◌, Option, nat_keys, ◌==◌, if◌then◌else◌,
}
use modal_template_fastapi.Common.Text.{Unicode}
use modal_template_fastapi.Domain.{Fields, Event}
use modal_template_fastapi.Bus.Memory.Owed.{answered, if_topic}
use modal_template_fastapi.Bus.Postgres.{
  Bus, after, publish, publish_fails, register, fix, load, leave, next, change, fetch,
  dispatch_chunk, prune, close_bus,
}

-- The numbers are handles of streams or readings of the clock; a test tells that a query fails.
pub data Action : Type 0 where
  publishes : String → String → Fields → ℕ → Action
  rolls_back : Action
  prunes : ℕ → Action
  fetches dispatches : Action
  registers : String → Option String → Action
  fixes loads : ℕ → Bool → Action
  asks quits : ℕ → Action
  closes : Action

-- The step is one of the stream `k`.
unfoldable pub concerns : ℕ → Action → Bool
concerns k (fixes j failed) = j == k
concerns k (loads j failed) = j == k
concerns k (asks j) = j == k
concerns k (quits j) = j == k
concerns k _ = false

module _ (u : Unicode) (k : ℕ) (t : String) where
  -- One step: the bus after it, what the stream `k` received, and what was published on `t`.
  unfoldable pub act : Action → Bus → Bus × List Event × List Event
  act (publishes topic event_type payload now) b =
      let (e, b') = publish topic event_type payload now b in (b', [], if_topic t topic e)
  act rolls_back b = (publish_fails b, [], [])
  act (prunes now) b = (prune now b, [], [])
  act fetches b = (fetch b, [], [])
  act dispatches b = (dispatch_chunk b, [], [])
  act (registers topic last_event_id) b =
      let (_, b') = register topic last_event_id b in (b', [], [])
  act (fixes j failed) b = (change j (fix failed b) b, [], [])
  act (loads j failed) b = (change j (load u failed b) b, [], [])
  act (asks j) b = let (a, b') = next j b in (b', (if j == k then answered a else []), [])
  act (quits j) b = (change j leave b, [], [])
  act closes b = (close_bus b, [], [])

  unfoldable pub run : List Action → Bus → Bus × List Event × List Event
  run [] b = (b, [], [])
  run (x ∷ xs) b =
      let (b', received, published) = act x b in
      let (b'', received', published') = run xs b' in
      (b'', received ++ received', published ++ published')

  abbrev pub Kept : Action → Bus → Type 0
  Kept (prunes now) b = after b.cursor (prune now b).rows ≡ after b.cursor b.rows
  Kept _ b = Unit

  -- No row is pruned before the pump of this container has dispatched it.
  unfoldable pub Timely : List Action → Bus → Type 0
  Timely [] b = Unit
  Timely (x ∷ xs) b = Kept x b × Timely xs (act x b).0
