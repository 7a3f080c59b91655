-- ===== src/Telemetry/Balance.antt =====
-- The gauges and counters of the HTTP middleware over whole requests.
use modal_template_fastapi.Common.{
  ℕ, ◌+◌, ◌≤◌, ◌≡◌, refl, ap, sym, ◌∙◌, String, Bool, true, false, Option, none, some, List, [],
  ◌∷◌, arith, if◌then◌else◌,
}
use modal_template_fastapi.Telemetry.{
  Metric, request_entered, request_count, request_duration, error_count, response_size,
  webhook_received, Labels, labels, recorded, observe_webhook, with_outcome, outcome_of, text_of,
}
use modal_template_fastapi.Telemetry.Http.{
  Wire, Exchange, new_exchange, observe_all, End, returns, raises, cancelled, Handled,
  observe_handled, at_end, finally_block, http,
}
use modal_template_fastapi.Telemetry.Tally.{
  tally, is_request_entered, is_request_left, is_request_count, is_stream_entered, is_stream_left,
  is_stream_ended, bit, is_cancelled, starts, tally-append, Apart, observe_all-apart, entered_all,
}

-- A test that passes over what is recorded as the call ends, but perhaps for the count.
record PastEnd (p : Metric → Bool) : Type 0 where
  duration : (lb : Labels) → p (request_duration lb) ≡ false
  error : (lb : Labels) → p (error_count lb) ≡ false
  size : (n : ℕ) (lb : Labels) → p (response_size n lb) ≡ false
  webhook : (a b : String) → p (webhook_received a b) ≡ false

module _ (p : Metric → Bool) (a : PastEnd p) where
  tally_recorded :
      (method route : String) (status bytes : ℕ)
      → tally p (recorded method route status bytes)
        ≡ tally p (request_count (labels method route status) ∷ [])
  unfolding recorded
  tally_recorded method route status bytes =
      let lb = labels method route status in
      ground (arith, a.duration lb, a.error lb, a.size bytes lb)

  tally_outcome : (provider : String) (o : Option String) → tally p (with_outcome provider o) ≡ 0
  tally_outcome provider none = refl
  tally_outcome provider (some outcome) = ground (arith, a.webhook provider outcome)

  tally_webhook :
      (provider : Option String) (status : ℕ) (code : Option String)
      → tally p (observe_webhook provider status code) ≡ 0
  unfolding observe_webhook
  tally_webhook provider status code =
      ground (arith, tally_outcome (text_of provider) (outcome_of status code))

  tally_handled : (h : Handled) (status : ℕ) → tally p (observe_handled h status) ≡ 0
  unfolding observe_handled
  tally_handled h status = ground (arith, tally_webhook h.provider status h.error_code)

  tally_end :
      (method : String) (h : Handled) (end : End) (x : Exchange)
      → (tally p (at_end method h end x).0 ≡ (
          if is_cancelled end
          then 0
          else tally p (request_count (labels method h.route x.status) ∷ [])))
        × ((at_end method h end x).1.sse ≡ x.sse)
  tally_end method h returns x = (
    rw tally-append
        (omega (arith, tally_recorded method h.route x.status x.bytes, tally_handled h x.status)),
    refl,
  )
  tally_end method h raises x = (
    rw tally-append
        (omega (arith, tally_recorded method h.route x.status x.bytes, tally_handled h x.status)),
    refl,
  )
  tally_end method h cancelled x = (refl, refl)

module _ (p : Metric → Bool) (method : String) (h : Handled) (ws : List Wire) (end : End) where
  abbrev wired : Exchange
  wired = (observe_all ws new_exchange).1

  abbrev parts : ℕ
  parts =
      tally p (request_entered method ∷ [])
      + (tally p (observe_all ws new_exchange).0
          + (tally p (at_end method h end wired).0
              + tally p (finally_block method (at_end method h end wired).1)))

  http-parts : tally p (http method h ws end) ≡ parts
  unfolding http
  http-parts = tally-append p (request_entered method ∷ []) _ ∙ rw (tally-append, tally-append) refl

module _ (method : String) (x : Exchange) where
  final_entered : tally is_request_entered (finally_block method x) ≡ 0
  final_entered = ground arith

  final_left : tally is_request_left (finally_block method x) ≡ 1
  final_left = ground arith

  final_count : tally is_request_count (finally_block method x) ≡ 0
  final_count = ground arith

  final_opened : tally is_stream_entered (finally_block method x) ≡ 0
  final_opened = ground arith

  final_closed : tally is_stream_left (finally_block method x) ≡ bit x.sse
  final_closed = ground arith

  final_ended : tally is_stream_ended (finally_block method x) ≡ bit x.sse
  final_ended = ground arith

quiet_end :
    (p : Metric → Bool)
    → PastEnd p
    → ((lb : Labels) → p (request_count lb) ≡ false)
    → (method : String) (h : Handled) (end : End) (x : Exchange)
    → tally p (at_end method h end x).0 ≡ 0
quiet_end p a c method h end x =
    ground (arith, (tally_end p a method h end x).0, c (labels method h.route x.status))

kept_stream :
    (method : String) (h : Handled) (end : End) (x : Exchange)
    → (at_end method h end x).1.sse ≡ x.sse
kept_stream method h returns x = refl
kept_stream method h raises x = refl
kept_stream method h cancelled x = refl

one_count :
    (end : End)
    → 0 + (0 + ((if is_cancelled end then 0 else 1) + 0)) ≡ (if is_cancelled end then 0 else 1)
one_count end = ground arith

request_entered-Apart : Apart is_request_entered
request_entered-Apart = record { entered = λ t. refl; sent = λ t. refl }

request_left-Apart : Apart is_request_left
request_left-Apart = record { entered = λ t. refl; sent = λ t. refl }

request_count-Apart : Apart is_request_count
request_count-Apart = record { entered = λ t. refl; sent = λ t. refl }

stream_left-Apart : Apart is_stream_left
stream_left-Apart = record { entered = λ t. refl; sent = λ t. refl }

stream_ended-Apart : Apart is_stream_ended
stream_ended-Apart = record { entered = λ t. refl; sent = λ t. refl }

request_entered_past : PastEnd is_request_entered
request_entered_past = record {
  duration = λ lb. refl;
  error = λ lb. refl;
  size = λ n lb. refl;
  webhook = λ a b. refl;
}

request_left_past : PastEnd is_request_left
request_left_past = record {
  duration = λ lb. refl;
  error = λ lb. refl;
  size = λ n lb. refl;
  webhook = λ a b. refl;
}

request_count_past : PastEnd is_request_count
request_count_past = record {
  duration = λ lb. refl;
  error = λ lb. refl;
  size = λ n lb. refl;
  webhook = λ a b. refl;
}

stream_entered_past : PastEnd is_stream_entered
stream_entered_past = record {
  duration = λ lb. refl;
  error = λ lb. refl;
  size = λ n lb. refl;
  webhook = λ a b. refl;
}

stream_left_past : PastEnd is_stream_left
stream_left_past = record {
  duration = λ lb. refl;
  error = λ lb. refl;
  size = λ n lb. refl;
  webhook = λ a b. refl;
}

stream_ended_past : PastEnd is_stream_ended
stream_ended_past = record {
  duration = λ lb. refl;
  error = λ lb. refl;
  size = λ n lb. refl;
  webhook = λ a b. refl;
}

closed_count :
    (method : String) (h : Handled) (ws : List Wire) (end : End)
    → (tally is_stream_left (http method h ws end) ≡ bit (observe_all ws new_exchange).1.sse)
      × (tally is_stream_ended (http method h ws end) ≡ bit (observe_all ws new_exchange).1.sse)
closed_count method h ws end =
    let x = (observe_all ws new_exchange).1 in
    let x' = (at_end method h end x).1 in
    let same : bit x'.sse ≡ bit x.sse = ap bit (kept_stream method h end x) in
    (
      omega (
        arith,
        http-parts is_stream_left method h ws end,
        observe_all-apart is_stream_left stream_left-Apart ws new_exchange,
        quiet_end is_stream_left stream_left_past (λ lb. refl) method h end x,
        final_closed method x',
        same,
      ),
      omega (
        arith,
        http-parts is_stream_ended method h ws end,
        observe_all-apart is_stream_ended stream_ended-Apart ws new_exchange,
        quiet_end is_stream_ended stream_ended_past (λ lb. refl) method h end x,
        final_ended method x',
        same,
      ),
    )

bit-small : (b : Bool) → bit b ≤ 1
bit-small true = omega arith
bit-small false = omega arith

-- Whatever a request does and however it ends, by a return, a raise or a cancellation, the gauge of
-- requests in flight goes up once and down once; the request is counted once, unless it was
-- cancelled; and, the response starting at most once, the gauge of open streams goes down as often
-- as it goes up, at most once, each time with one reason.
pub http_balances :
    (method : String) (h : Handled) (ws : List Wire) (end : End)
    → starts ws ≤ 1
    → (let ms = http method h ws end in
        (tally is_request_entered ms ≡ 1)
        × (tally is_request_left ms ≡ 1)
        × (tally is_request_count ms ≡ (if is_cancelled end then 0 else 1))
        × (tally is_stream_entered ms ≡ tally is_stream_left ms)
        × (tally is_stream_ended ms ≡ tally is_stream_left ms)
        × (tally is_stream_left ms ≤ 1))
http_balances method h ws end one =
    let x = (observe_all ws new_exchange).1 in
    let x' = (at_end method h end x).1 in
    let same = kept_stream method h end x in
    let entered = entered_all ws new_exchange (omega (arith, one)) in
    let left = closed_count method h ws end in
    let opened : tally is_stream_entered (http method h ws end) ≡ bit x.sse = omega (
      arith,
      http-parts is_stream_entered method h ws end,
      entered,
      quiet_end is_stream_entered stream_entered_past (λ lb. refl) method h end x,
      final_opened method x',
    ) in
    (
      omega (
        arith,
        http-parts is_request_entered method h ws end,
        observe_all-apart is_request_entered request_entered-Apart ws new_exchange,
        quiet_end is_request_entered request_entered_past (λ lb. refl) method h end x,
        final_entered method x',
      ),
      omega (
        arith,
        http-parts is_request_left method h ws end,
        observe_all-apart is_request_left request_left-Apart ws new_exchange,
        quiet_end is_request_left request_left_past (λ lb. refl) method h end x,
        final_left method x',
      ),
      http-parts is_request_count method h ws end
          ∙ rw
              (
                observe_all-apart is_request_count request_count-Apart ws new_exchange,
                (tally_end is_request_count request_count_past method h end x).0,
                final_count method x',
              )
              (one_count end),
      opened ∙ sym left.0,
      left.1 ∙ sym left.0,
      omega (arith, left.0, bit-small x.sse),
    )
