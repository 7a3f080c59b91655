-- ===== src/Telemetry/Tally.antt =====
-- Counting what the HTTP middleware records while the messages pass.
use modal_template_fastapi.Common.{
  ℕ, ◌+◌, ◌≤◌, ◌≡◌, refl, String, Bool, true, false, List, [], ◌∷◌, ◌++◌, length, length-append,
  keep, keep-append, arith,
}
use modal_template_fastapi.Telemetry.{
  Metric, request_entered, request_left, request_count, stream_entered, stream_left, message_sent,
  stream_ended,
}
use modal_template_fastapi.Telemetry.Http.{
  Wire, disconnect, response_start, response_body, other_message, Exchange, observe, observe_all,
  End, cancelled,
}

-- How many entries of a list pass a test.
abbrev pub tally : (Metric → Bool) → List Metric → ℕ
tally p ms = length (keep p ms)

abbrev pub is_request_entered : Metric → Bool
is_request_entered (request_entered _) = true
is_request_entered _ = false

abbrev pub is_request_left : Metric → Bool
is_request_left (request_left _) = true
is_request_left _ = false

abbrev pub is_request_count : Metric → Bool
is_request_count (request_count _) = true
is_request_count _ = false

abbrev pub is_stream_entered : Metric → Bool
is_stream_entered (stream_entered _) = true
is_stream_entered _ = false

abbrev pub is_stream_left : Metric → Bool
is_stream_left (stream_left _) = true
is_stream_left _ = false

abbrev pub is_stream_ended : Metric → Bool
is_stream_ended (stream_ended _ _) = true
is_stream_ended _ = false

abbrev pub bit : Bool → ℕ
bit true = 1
bit false = 0

abbrev pub is_cancelled : End → Bool
is_cancelled cancelled = true
is_cancelled _ = false

-- How many responses start; ASGI allows one.
abbrev pub starts : List Wire → ℕ
starts [] = 0
starts (response_start status content_type ∷ ws) = starts ws + 1
starts (disconnect ∷ ws) = starts ws
starts (response_body size more ∷ ws) = starts ws
starts (other_message ∷ ws) = starts ws

pub tally-append :
    (p : Metric → Bool) (xs ys : List Metric) → tally p (xs ++ ys) ≡ tally p xs + tally p ys
tally-append p xs ys = rw keep-append (length-append (keep p xs) (keep p ys))

-- A test that passes over what the wrappers record.
pub record Apart (p : Metric → Bool) : Type 0 where
  pub entered : (t : String) → p (stream_entered t) ≡ false
  pub sent : (t : String) → p (message_sent t) ≡ false

module _ (p : Metric → Bool) (a : Apart p) where
  pub observe-apart : (w : Wire) (x : Exchange) → tally p (observe w x).0 ≡ 0
  unfolding observe
  observe-apart disconnect x = refl
  observe-apart (response_start status content_type) x = ground (arith, a.entered "sse")
  observe-apart (response_body size more) x = ground (arith, a.sent "sse")
  observe-apart other_message x = refl

  pub observe_all-apart : (ws : List Wire) (x : Exchange) → tally p (observe_all ws x).0 ≡ 0
  unfolding observe_all
  observe_all-apart [] x = refl
  observe_all-apart (w ∷ ws) x =
      rw tally-append (omega (arith, observe-apart w x, observe_all-apart ws (observe w x).1))

-- One response opens a stream at most once.
pub entered_once :
    (w : Wire) (x : Exchange)
    → starts (w ∷ []) + bit x.sse ≤ 1
    → tally is_stream_entered (observe w x).0 + bit x.sse ≡ bit (observe w x).1.sse
unfolding observe
entered_once disconnect x l = ground arith
entered_once (response_start status content_type) x l = ground (arith, l)
entered_once (response_body size more) x l = ground arith
entered_once other_message x l = omega arith

pub entered_le :
    (w : Wire) (x : Exchange) → tally is_stream_entered (observe w x).0 ≤ starts (w ∷ [])
unfolding observe
entered_le disconnect x = omega arith
entered_le (response_start status content_type) x = ground arith
entered_le (response_body size more) x = ground arith
entered_le other_message x = omega arith

pub starts-cons : (w : Wire) (ws : List Wire) → starts (w ∷ ws) ≡ starts (w ∷ []) + starts ws
starts-cons disconnect ws = omega arith
starts-cons (response_start status content_type) ws = omega arith
starts-cons (response_body size more) ws = omega arith
starts-cons other_message ws = omega arith

pub entered_all :
    (ws : List Wire) (x : Exchange)
    → starts ws + bit x.sse ≤ 1
    → tally is_stream_entered (observe_all ws x).0 + bit x.sse ≡ bit (observe_all ws x).1.sse
unfolding observe_all
entered_all [] x l = omega arith
entered_all (w ∷ ws) x l =
    let here = entered_once w x (omega (arith, l, starts-cons w ws)) in
    let later =
      entered_all ws (observe w x).1 (omega (arith, l, starts-cons w ws, entered_le w x, here)) in
    rw tally-append (omega (arith, here, later))
