-- ===== src/Api/Webhooks/Provider.antt =====
-- The two patterns of api/webhooks.py, and the secret of a provider.
use Prim.Native.Char.{Char, code}
use mathlib.Core.Bool.{◌||◌}
use modal_template_fastapi.Common.{
  ℕ, zero, suc, String, Bool, true, false, ◌&&◌, Option, none, leb, nat_eq, string_keys,
  if◌then◌else◌,
}
use modal_template_fastapi.Common.Dict
use modal_template_fastapi.Common.Text.{Unicode, ◌⧺◌, map_text}
use modal_template_fastapi.Api.Auth.{Environment, truthy}

-- `$` also matches in front of a last newline.
abbrev at_end : String → Bool
at_end String.[] = true
at_end (String.◌∷◌ c String.[]) = nat_eq (code c) 10
at_end (String.◌∷◌ c (String.◌∷◌ d s)) = false

-- `[class]{0,n}$`
abbrev repeats : (Char → Bool) → ℕ → String → Bool
repeats p zero s = at_end s
repeats p (suc n) String.[] = true
repeats p (suc n) (String.◌∷◌ c s) =
    let more = repeats p n s in if p c then more else at_end (String.◌∷◌ c s)

lower_or_digit : Char → Bool
lower_or_digit c = let n = code c in leb b'a' n && leb n b'z' || leb b'0' n && leb n b'9'

in_provider : Char → Bool
unfolding lower_or_digit
in_provider c = lower_or_digit c || nat_eq (code c) b'_' || nat_eq (code c) b'-'

-- `_PROVIDER_RE.match(provider)`
unfoldable pub provider_ok : String → Bool
unfolding in_provider lower_or_digit
provider_ok String.[] = false
provider_ok (String.◌∷◌ c s) = lower_or_digit c && repeats in_provider 31 s

printable : Char → Bool
printable c = leb 0x21 (code c) && leb (code c) 0x7e

-- `_WEBHOOK_ID_RE.match(webhook_id)`
unfoldable pub webhook_id_ok : String → Bool
unfolding printable
webhook_id_ok String.[] = false
webhook_id_ok (String.◌∷◌ c s) = printable c && repeats printable 127 s

underscored : Char → String
underscored c = if nat_eq (code c) b'-' then "_" else String.◌∷◌ c String.[]

-- `_secret_for`
unfoldable pub secret_for : Unicode → Environment → String → Option String
unfolding provider_ok underscored map_text
secret_for u env provider =
    if provider_ok provider
    then truthy
        (Dict.get ("WEBHOOK_SECRET_" ⧺ map_text underscored (map_text u.to_upper provider)) env)
    else none
