-- ===== src/Bus/Postgres/Advance.antt =====
-- The stream of the bus on Postgres through any steps, its own and those of others.
use modal_template_fastapi.Common.{
  ℕ, ◌+◌, ◌≡◌, refl, ap, sym, ◌∙◌, String, Bool, true, false, not, ◌&&◌, Option, List, [], ◌∷◌,
  ◌++◌, append_assoc, append-nil, nat_keys, string_keys, ◌==◌, nat_eq, nat_eq_iff, ==_refl, subst,
  arith, Bool-cases, All, ◌⊎◌, inl, inr,
}
use modal_template_fastapi.Common.Dict
use modal_template_fastapi.Common.Dict.{Dict, get-put}
use modal_template_fastapi.Common.Text.{Unicode}
use modal_template_fastapi.Domain.{Event}
use modal_template_fastapi.Bus.Memory.Owed.{if_topic}
use modal_template_fastapi.Bus.Postgres.{
  Subscriber, Bus, publish, publish_fails, register, fix, load, leave, resume, next, change, prune,
  Stage, connecting, replaying, live, finished,
}
use modal_template_fastapi.Bus.Postgres.Owed.{wanted, Owes-leave}
use modal_template_fastapi.Bus.Postgres.Received.{is_loaded, resume-Received}
use modal_template_fastapi.Bus.Postgres.Steps.{
  Action, publishes, rolls_back, prunes, fetches, dispatches, registers, fixes, loads, asks, quits,
  closes, concerns, act, run, Timely, Kept,
}
use modal_template_fastapi.Bus.Postgres.Tracks.{
  is_fixed, Tracks, Follows, Advances, put_other, put_self, publish-Tracks, rows-Tracks,
  pump-Tracks,
}
use modal_template_fastapi.Bus.Postgres.Follows.{
  other_change, other_ask, fix_loaded, load_loaded, fetch-Follows, chunk-Follows, shut-Follows,
}

module _ (u : Unicode) (k : ℕ) (t : String) (w : Option String) (n : ℕ) (m : Bool) where
  fixed_of_loaded : (stage : Stage) → is_loaded stage ≡ true → is_fixed stage ≡ true
  fixed_of_loaded connecting e = cc
  fixed_of_loaded replaying e = refl
  fixed_of_loaded live e = refl
  fixed_of_loaded finished e = refl

  own_ask :
      (b : Bus) (owed : List Event)
      → m ≡ true
      → Follows u k t w n m b owed
      → Advances u k t w n m owed (act u k t (asks k) b)
  unfolding act next
  own_ask b owed loaded h =
      let g = h.tracks in
      let coming = wanted t n (b.batch ++ h.later) in
      let (owed', taken, o, p, l) =
        resume-Received t g.stream coming owed (g.loaded ∙ loaded) g.owes in
      rw (g.found, ==_refl k)
        (
          owed',
          append-nil owed ∙ taken,
          record {
            later = h.later;
            tracks =
                put_self u k t w n m (resume g.stream).1 b (b.batch ++ h.later) owed owed' g
                  (p ∙ g.point) (fixed_of_loaded _ l) (l ∙ sym loaded) (λ e. cc) o;
          },
        )

  own_change :
      (f : Subscriber → Subscriber) (b : Bus) (owed : List Event)
      → m ≡ true
      → ((s : Subscriber) → is_loaded s.stage ≡ true → (f s ≡ s) ⊎ (f s ≡ leave s))
      → Follows u k t w n m b owed
      → Follows u k t w n m (change k f b) owed
  unfolding change
  own_change f b owed loaded still h =
      let g = h.tracks in
      let unread = b.batch ++ h.later in
      rw g.found (elim (still g.stream (g.loaded ∙ loaded)) [
        | inl e ↦
            subst
              (λ s.
                Follows u k t w n m (record b { subscribers = Dict.put k s b.subscribers }) owed)
              (sym e)
              (record {
                later = h.later;
                tracks =
                    put_self u k t w n m g.stream b unread owed owed g g.point g.fixed g.loaded
                      g.waiting g.owes;
              })
        | inr e ↦
            subst
              (λ s.
                Follows u k t w n m (record b { subscribers = Dict.put k s b.subscribers }) owed)
              (sym e)
              (record {
                later = h.later;
                tracks =
                    put_self u k t w n m (leave g.stream) b unread owed owed g g.point refl
                      (sym loaded) (λ e. cc)
                      (Owes-leave t g.stream (wanted t n unread) owed g.owes (wanted t n unread));
              })
      ])

  -- A step of a generator other than `__anext__`.
  stage_step :
      (j : ℕ) (f : Subscriber → Subscriber) (b : Bus) (owed : List Event)
      → ((j == k) && not m) ≡ false
      → ((s : Subscriber) → is_loaded s.stage ≡ true → (f s ≡ s) ⊎ (f s ≡ leave s))
      → Follows u k t w n m b owed
      → Advances u k t w n m owed (change j f b, [], [])
  stage_step j f b owed may still h = elim (Bool-cases (nat_eq j k)) [
    | inr ne ↦ (owed, append-nil owed, other_change u k t w n m j f b owed ne h)
    | inl same ↦ (
      owed,
      append-nil owed,
      subst (λ x. Follows u k t w n m (change x f b) owed) (sym ((nat_eq_iff j k).0 same))
          (own_change f b owed (ground arith) still h),
    )
  ]

  act-Advances :
      (x : Action) (b : Bus) (owed : List Event)
      → (concerns k x && not m) ≡ false
      → Kept u k t x b
      → Follows u k t w n m b owed
      → Advances u k t w n m owed (act u k t x b)
  unfolding act concerns publish publish_fails register prune
  act-Advances (publishes topic event_type payload now) b owed may kept h = (
    _,
    refl,
    record {
      later = h.later ++ _ ∷ [];
      tracks =
          subst
            (λ l.
              Tracks u k t w n m (publish topic event_type payload now b).1 l
                (owed ++ if_topic t topic (publish topic event_type payload now b).0))
            (append_assoc b.batch h.later _)
            (publish-Tracks u k t w n m topic event_type payload now b (b.batch ++ h.later) owed
              h.tracks);
    },
  )
  act-Advances rolls_back b owed may kept h = (
    owed,
    append-nil owed,
    record {
      later = h.later;
      tracks =
          pump-Tracks u k t w n m b (b.batch ++ h.later) owed b.running b.batch (b.next_seq + 1)
            (omega arith) h.tracks;
    },
  )
  act-Advances (prunes now) b owed may kept h = (
    owed,
    append-nil owed,
    record { later = h.later; tracks = rows-Tracks u k t w n m b _ owed _ _ kept h.tracks },
  )
  act-Advances fetches b owed may kept h =
      (owed, append-nil owed, fetch-Follows u k t w n m b owed h)
  act-Advances dispatches b owed may kept h =
      (owed, append-nil owed, chunk-Follows u k t w n m b owed h)
  act-Advances (registers topic last_event_id) b owed may kept h = (
    owed,
    append-nil owed,
    record {
      later = h.later;
      tracks =
          put_other u k t w n m b.next_handle _ (b.next_handle + 1) b _ owed h.tracks
            (ground (arith, h.tracks.old)) (omega (arith, h.tracks.old));
    },
  )
  act-Advances (fixes j failed) b owed may kept h =
      stage_step j (fix failed b) b owed may
        (λ s l. inl (fix_loaded u k t w n m failed b s (fixed_of_loaded s.stage l))) h
  act-Advances (loads j failed) b owed may kept h =
      stage_step j (load u failed b) b owed may (λ s l. inl (load_loaded u k t w n m failed b s l))
        h
  act-Advances (quits j) b owed may kept h = stage_step j leave b owed may (λ s l. inr refl) h
  act-Advances (asks j) b owed may kept h = elim (Bool-cases (nat_eq j k)) [
    | inl same ↦
        subst (λ x. Advances u k t w n m owed (act u k t (asks x) b))
          (sym ((nat_eq_iff j k).0 same)) (own_ask b owed (ground arith) h)
    | inr ne ↦ (owed, simp (ne, append-nil), other_ask u k t w n m j b owed ne h)
  ]
  act-Advances closes b owed may kept h = (owed, append-nil owed, shut-Follows u k t w n m b owed h)

  pub run-Advances :
      (xs : List Action) (b : Bus) (owed : List Event)
      → All (λ x. (concerns k x && not m) ≡ false) xs
      → Timely u k t xs b
      → Follows u k t w n m b owed
      → Advances u k t w n m owed (run u k t xs b)
  unfolding run Timely
  run-Advances [] b owed may kept h = (owed, append-nil owed, h)
  run-Advances (x ∷ xs) b owed may kept h =
      let (owed', e, h') = act-Advances x b owed may.0 kept.0 h in
      let (owed'', e', h'') = run-Advances xs (act u k t x b).0 owed' may.1 kept.1 h' in
      (
        owed'',
        simp (← append_assoc) (rw e (simp append_assoc (ap (λ l. (act u k t x b).1 ++ l) e'))),
        h'',
      )

  -- A generator that takes no step yields nothing.
  pub nothing_received :
      (xs : List Action) (b : Bus) → All (λ x. concerns k x ≡ false) xs → (run u k t xs b).1 ≡ []
  unfolding run act concerns
  nothing_received [] b h = refl
  nothing_received (asks j ∷ xs) b h = rw (nothing_received xs _ h.1) (simp h.0)
  nothing_received (publishes topic event_type payload now ∷ xs) b h = nothing_received xs _ h.1
  nothing_received (rolls_back ∷ xs) b h = nothing_received xs _ h.1
  nothing_received (prunes now ∷ xs) b h = nothing_received xs _ h.1
  nothing_received (fetches ∷ xs) b h = nothing_received xs _ h.1
  nothing_received (dispatches ∷ xs) b h = nothing_received xs _ h.1
  nothing_received (registers topic i ∷ xs) b h = nothing_received xs _ h.1
  nothing_received (fixes j f ∷ xs) b h = nothing_received xs _ h.1
  nothing_received (loads j f ∷ xs) b h = nothing_received xs _ h.1
  nothing_received (quits j ∷ xs) b h = nothing_received xs _ h.1
  nothing_received (closes ∷ xs) b h = nothing_received xs _ h.1
