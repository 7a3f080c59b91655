-- ===== src/Witnesses.antt =====
-- Concrete inputs: an ASCII table in place of Unicode's, and runs of the theorems at small values.
mod Items
mod Streams
mod Web
mod Schema
mod Postgres
mod Process
use Prim.Native.Char.{Char, code}
use Prim.Native.String
use modal_template_fastapi.Common.{
  ℕ, ◌+◌, ◌-◌, String, Bool, true, false, ◌&&◌, Option, none, some, leb, if◌then◌else◌,
}
use modal_template_fastapi.Common.Text.{Unicode}
use modal_template_fastapi.Domain.{Fields, Event, Failure, other}
use modal_template_fastapi.Domain.Exec.{Outcome, ok, raise}

abbrev alone : Char → String
alone c = String.◌∷◌ c String.[]

abbrev is_ascii_digit : Char → Bool
is_ascii_digit c = leb b'0' (code c) && leb (code c) b'9'

abbrev pub ascii : Unicode
ascii = record {
  fold = alone;
  to_lower = alone;
  to_upper = alone;
  digit = λ c. if is_ascii_digit c then some (code c - b'0') else none;
  has_digit = is_ascii_digit;
}

-- A bus that only counts, and one that is down.
abbrev pub counting : String → String → Fields → ℕ → Outcome Failure Event × ℕ
counting topic type payload n =
    (ok (record { id = n; type = type; payload = payload; ts = 0 }), n + 1)

abbrev pub failing : String → String → Fields → ℕ → Outcome Failure Event × ℕ
failing topic type payload n = (raise (other "down"), n)
