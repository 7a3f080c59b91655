-- ===== src/Deploy/Envfile.antt =====
-- utils/envfile.py: the text of an env file, and what it sets in the environment. The pattern's `\s`
-- and `str.strip` take the same characters as spaces.
use Prim.Native.Char.{Char, code}
use modal_template_fastapi.Common.{
  ℕ, ◌≡◌, String, Bool, true, false, not, ◌&&◌, ◌||◌, Option, none, some, List, [], ◌∷◌, any, leb,
  nat_eq, string_keys, if◌then◌else◌, arith, Bool-cases, inl, inr,
}
use modal_template_fastapi.Common.Dict
use modal_template_fastapi.Common.Dict.{Dict, get-put}
use modal_template_fastapi.Common.Text.{is_space, strip, lstrip, is_empty}
use modal_template_fastapi.Api.Auth.{Environment}

abbrev ends_line : Char → Bool
ends_line c =
    let n = code c in
    leb 10 n && leb n 13
    || leb 28 n && leb n 30
    || nat_eq n 0x85
    || nat_eq n 0x2028
    || nat_eq n 0x2029

abbrev into_first : Char → List String → List String
into_first c [] = String.◌∷◌ c String.[] ∷ []
into_first c (l ∷ ls) = String.◌∷◌ c l ∷ ls

-- The lines of a text. A `\r\n` counts as two boundaries, whose empty line the loop skips.
abbrev lines : String → List String
lines String.[] = []
lines (String.◌∷◌ c s) =
    let rest = lines s in if ends_line c then String.[] ∷ rest else into_first c rest

-- `s[len(prefix):]` if `s.startswith(prefix)`
abbrev after_prefix : String → String → Option String
after_prefix String.[] s = some s
after_prefix (String.◌∷◌ p ps) String.[] = none
after_prefix (String.◌∷◌ p ps) (String.◌∷◌ c s) =
    let rest = after_prefix ps s in if nat_eq (code p) (code c) then rest else none

-- what stands in front of the first character `mark`, and behind it; `none` if there is none
abbrev cut_at : ℕ → String → Option (String × String)
cut_at mark String.[] = none
cut_at mark (String.◌∷◌ c s) =
    let rest = cut_at mark s in
    if nat_eq (code c) mark
    then some (String.[], s)
    else elim rest [ none ↦ none | some (a, b) ↦ some (String.◌∷◌ c a, b) ]

abbrev key_start : Char → Bool
key_start c =
    let n = code c in leb b'A' n && leb n b'Z' || leb b'a' n && leb n b'z' || nat_eq n b'_'

-- `[A-Za-z0-9_]*$`; a stripped key has no newline at its end
abbrev key_rest : String → Bool
key_rest String.[] = true
key_rest (String.◌∷◌ c s) = (key_start c || leb b'0' (code c) && leb (code c) b'9') && key_rest s

-- `_KEY.match(key)`
abbrev key_ok : String → Bool
key_ok String.[] = false
key_ok (String.◌∷◌ c s) = key_start c && key_rest s

abbrev is_hash : String → Bool
is_hash String.[] = false
is_hash (String.◌∷◌ c s) = nat_eq (code c) b'#'

-- `re.split(r"\s+#", value, maxsplit=1)[0].strip()`: the comment begins at a `#` behind a space
abbrev uncommented : String → String
uncommented String.[] = String.[]
uncommented (String.◌∷◌ c s) =
    let rest = uncommented s in if is_space c && is_hash s then String.[] else String.◌∷◌ c rest

abbrev value_of : String → String
value_of String.[] = String.[]
value_of (String.◌∷◌ c s) =
    if nat_eq (code c) b'\'' || nat_eq (code c) b'"'
    then elim (cut_at (code c) s) [ some (inside, _) ↦ inside | none ↦ s ]
    else strip (uncommented (String.◌∷◌ c s))

-- The variable of a line that is stripped, if it sets one.
abbrev entry_of : String → Option (String × String)
entry_of line =
    if is_empty line || is_hash line
    then none
    else (let body : String = elim (after_prefix "export " line) [
      | some rest ↦ lstrip rest
      | none ↦ line
    ] in
        elim (cut_at b'=' body) [
          | none ↦ none
          | some (key, value) ↦
              if key_ok (strip key) then some (strip key, value_of (strip value)) else none
        ])

abbrev add_entry : Option (String × String) → Dict String String → Dict String String
add_entry none values = values
add_entry (some (key, value)) values = Dict.put key value values

abbrev parse_lines : List String → Dict String String → Dict String String
parse_lines [] values = values
parse_lines (l ∷ ls) values = parse_lines ls (add_entry (entry_of (strip l)) values)

-- `parse_env_text`
unfoldable pub parse_env_text : String → Dict String String
parse_env_text text = parse_lines (lines text) []

abbrev starts_with : String → List String → Bool
starts_with key = any (λ p. elim (after_prefix p key) [ some _ ↦ true | none ↦ false ])

-- `include is not None and not key.startswith(include)`
abbrev left_out : Option (List String) → String → Bool
left_out none key = false
left_out (some prefixes) key = not (starts_with key prefixes)

-- the loop of `load_env_file`: the environment, and the names that were set
unfoldable pub load_entries :
    Option (List String)
    → List String
    → Bool
    → Dict String String
    → Environment
    → Environment × List String
load_entries include exclude override [] environ = (environ, [])
load_entries include exclude override ((key, value) ∷ rest) environ =
    if left_out include key || starts_with key exclude || Dict.has key environ && not override
    then load_entries include exclude override rest environ
    else (let r = load_entries include exclude override rest (Dict.put key value environ) in
        (r.0, key ∷ r.1))

-- `load_env_file`, of the text of the file, if it is one
unfoldable pub load_env_file :
    Option (List String)
    → List String
    → Bool
    → Option String
    → Environment
    → Environment × List String
unfolding load_entries parse_env_text
load_env_file include exclude override none environ = (environ, [])
load_env_file include exclude override (some text) environ =
    load_entries include exclude override (parse_env_text text) environ

load_entries-keeps :
    (include : Option (List String)) (exclude : List String) (entries : Dict String String)
    (environ : Environment) (name value : String)
    → Dict.get name environ ≡ some value
    → Dict.get name (load_entries include exclude false entries environ).0 ≡ some value
unfolding load_entries
load_entries-keeps include exclude [] environ name value h = h
load_entries-keeps include exclude ((key, v) ∷ rest) environ name value h =
    elim (Bool-cases
      (left_out include key || starts_with key exclude || Dict.has key environ && not false)) [
        | inl skip ↦
            rw (skip, load_entries) (load_entries-keeps include exclude rest environ name value h)
        | inr set ↦
            rw (set, load_entries)
              (load_entries-keeps include exclude rest (Dict.put key v environ) name value
                (ground (arith, get-put key name v environ, string_keys.agrees_iff key name)))
      ]

-- Without `override`, a variable that the environment has keeps its value, whatever the file holds.
pub load_env_file-keeps :
    (include : Option (List String)) (exclude : List String) (file : Option String)
    (environ : Environment) (name value : String)
    → Dict.get name environ ≡ some value
    → Dict.get name (load_env_file include exclude false file environ).0 ≡ some value
unfolding load_env_file
load_env_file-keeps include exclude none environ name value h = h
load_env_file-keeps include exclude (some text) environ name value h =
    load_entries-keeps include exclude (parse_env_text text) environ name value h
