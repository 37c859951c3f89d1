-- ===== src/Gateway/Provisioning.antt =====
-- The checks of a binding request and the file that it writes: smartparcel-gateway/gateway/provisioning_api.py,
-- `_check_and_record_nonce`, `_validate_local_timestamp` and `_upsert_env_values`. The set of nonces is
-- the list of its items. The text of the file, if there is one, is given, as `read_text` gives it, and the
-- new text is returned; the copy of the old file is left out.
pub mod Nonces
pub mod Env
pub mod File
mod Tests
use Prim.Native.Char.{code}
use Prim.Native.String
use text.Mathlib.Text.{starts_with}
use smart_parcel_station.Prelude.{
  ℕ, ◌+◌, String, Bool, true, false, not, ◌&&◌, ◌||◌, Option, none, some, List, [], ◌∷◌, ◌++◌, map,
  length, str_eq, is_empty, is_present, opt_str_is, or_empty, leb, ltb, ◌==◌, if◌then◌else◌, any,
  filter, find_first,
}
use smart_parcel_station.Prelude.Int.{ℤ, distance}
use smart_parcel_station.Text.{◌&◌, cons_first, strip, int_of_text}
use smart_parcel_station.Runtime.{Runtime}

abbrev pub nonce_window_seconds : ℕ
nonce_window_seconds = 300

abbrev pub max_nonce_cache : ℕ
max_nonce_cache = 2048

-- `nonce in _seen_nonces`
unfoldable pub is_seen : String → List String → Bool
is_seen nonce seen = any (λ n. str_eq n nonce) seen

-- `_seen_nonces.discard(oldest)`
unfoldable pub discard : String → List String → List String
discard oldest seen = filter (λ n. not (str_eq n oldest)) seen

-- the X-Local headers
pub record LocalHeaders : Type 0 where
  pub timestamp : Option String
  pub nonce : Option String
  pub body_sha256 : Option String

-- `pick` is the order of the set: `next(iter(seen))`
module _ (pick : List String → String) where
  -- the answer, and the set after it
  unfoldable pub check_and_record_nonce : String → List String → Bool × List String
  check_and_record_nonce nonce seen =
      let added = seen ++ nonce ∷ [] in
      if is_seen nonce seen
      then (false, seen)
      else (true, if ltb max_nonce_cache (length added) then discard (pick added) added else added)

  -- whether the body has the hash that the header names, if it names one
  abbrev pub body_matches : Runtime → LocalHeaders → String → Bool
  body_matches rt h body =
      not (is_present h.body_sha256) || str_eq (or_empty h.body_sha256) (rt.sha256 body)

  -- the last two tests
  unfoldable pub check_nonce :
      Runtime → LocalHeaders → String → List String → (Bool × Option String) × List String
  check_nonce rt h body seen =
      let (fresh, after) = check_and_record_nonce (or_empty h.nonce) seen in
      if not fresh
      then ((false, some "nonce replayed"), after)
      else if not (body_matches rt h body)
      then ((false, some "body hash mismatch"), after)
      else ((true, none), after)

  -- by the number that the header holds
  unfoldable pub check_time :
      Runtime
      → ℕ
      → LocalHeaders
      → String
      → List String
      → Option ℤ
      → (Bool × Option String) × List String
  check_time rt now h body seen none =
      ((false, some "invalid X-Local-Timestamp (must be unix seconds)"), seen)
  check_time rt now h body seen (some ts) =
      if ltb nonce_window_seconds (distance now ts)
      then ((false, some "timestamp out of window (>300s)"), seen)
      else check_nonce rt h body seen

  -- `now` is the reading of the clock
  unfoldable pub validate_local_timestamp :
      Runtime → ℕ → LocalHeaders → String → List String → (Bool × Option String) × List String
  validate_local_timestamp rt now h body seen =
      if not (is_present h.timestamp && is_present h.nonce)
      then ((false, some "missing X-Local-Timestamp or X-Local-Nonce header"), seen)
      else check_time rt now h body seen (int_of_text (or_empty h.timestamp))

-- `line.split("=", 1)[0]`
unfoldable pub before_equals : String → String
before_equals String.[] = ""
before_equals (String.◌∷◌ c s) =
    let rest = before_equals s in if code c == b'=' then "" else String.◌∷◌ c rest

unfoldable pub has_equals : String → Bool
has_equals String.[] = false
has_equals (String.◌∷◌ c s) = (code c == b'=') || has_equals s

-- the key that a line of the file sets; a comment, an empty line and a line without `=` set none
unfoldable pub line_key : String → Option String
line_key line =
    let stripped = strip line in
    if is_empty stripped || starts_with stripped "#" || not (has_equals line)
    then none
    else some (strip (before_equals line))

-- `values`, a dict, in its order
abbrev pub Values : Type 0
Values = List (String × String)

unfoldable pub value_of : String → Values → Option String
value_of key [] = none
value_of key ((k, v) ∷ rest) =
    let found = value_of key rest in if str_eq k key then some v else found

abbrev pub setting : String → String → String
setting key value = key & "=" & value

abbrev pub put_value : String → String → Option String → String
put_value line key none = line
put_value line key (some value) = setting key value

-- the line for a key that the dict has
unfoldable pub put_line : Values → String → Option String → String
put_line values line none = line
put_line values line (some key) = put_value line key (value_of key values)

-- whether a line of the file sets the key
unfoldable pub has_key : String → List String → Bool
has_key key lines = any (λ line. opt_str_is (line_key line) key) lines

-- the lines for the keys that no line sets
unfoldable pub missing_lines : List String → Values → List String
missing_lines lines [] = []
missing_lines lines ((k, v) ∷ rest) =
    let later = missing_lines lines rest in if has_key k lines then later else setting k v ∷ later

-- the lines that are written for those that are read
unfoldable pub put_values : Values → List String → List String
put_values values lines =
    map (λ line. put_line values line (line_key line)) lines ++ missing_lines lines values

-- the breaks of `str.splitlines`
abbrev pub is_break : ℕ → Bool
is_break c = leb 10 c && leb c 13 || leb 28 c && leb c 30 || c == 133 || c == 8232 || c == 8233

-- a line feed follows
abbrev pub at_feed : String → Bool
at_feed String.[] = false
at_feed (String.◌∷◌ c s) = code c == 10

-- `str.splitlines`; a carriage return and a line feed after it are one break
unfoldable pub splitlines : String → List String
splitlines String.[] = []
splitlines (String.◌∷◌ c s) =
    let rest = splitlines s in
    if is_break (code c)
    then (if code c == 13 && at_feed s then rest else "" ∷ rest)
    else cons_first c rest

-- `"\n".join(lines)`
unfoldable pub join_lines : List String → String
join_lines [] = ""
join_lines (line ∷ []) = line
join_lines (line ∷ next ∷ lines) = line & "\n" & join_lines (next ∷ lines)

-- the lines of a file that is there or not
unfoldable pub read_lines : Option String → List String
read_lines none = []
read_lines (some content) = splitlines content

-- `_upsert_env_values`: the text that is written to the file
unfoldable pub upsert_env_values : Values → Option String → String
upsert_env_values values file = join_lines (put_values values (read_lines file)) & "\n"
