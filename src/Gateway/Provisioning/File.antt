-- ===== src/Gateway/Provisioning/File.antt =====
-- The file that `_upsert_env_values` writes, read again.
use Prim.Native.Char.{Char, code}
use text.Mathlib.TextLemmas.{nil-append, cons-append, append_assoc}
use smart_parcel_station.Prelude.{
  String, Bool, true, false, not, ◌&&◌, Option, none, some, inl, inr, List, [], ◌∷◌, map, ◌≡◌, refl,
  ap, ◌∙◌, All, ◌==◌, any, filter, opt_str_is, Bool-cases, arith,
}
use smart_parcel_station.Text.{◌&◌, cons_first}
use smart_parcel_station.Gateway.Provisioning.{
  Values, line_key, value_of, setting, put_value, put_line, has_key, missing_lines, put_values,
  is_break, at_feed, splitlines, join_lines, read_lines, upsert_env_values,
}
use smart_parcel_station.Gateway.Provisioning.Env.{
  IsEnv, All-value_of, All-append, put_values-IsEnv,
}

-- a text of one line
unfoldable pub no_break : String → Bool
no_break String.[] = true
no_break (String.◌∷◌ c s) = not (is_break (code c)) && no_break s

abbrev pub IsLine : String → Type 0
IsLine s = no_break s ≡ true

splitlines-line : (l t : String) → IsLine l → splitlines (l & ("\n" & t)) ≡ l ∷ splitlines t
unfolding splitlines no_break
splitlines-line String.[] t h =
    ap splitlines
      (nil-append ("\n" & t) ∙ cons-append "\n" "" t ∙ ap (String.◌∷◌ "\n") (nil-append t))
splitlines-line (String.◌∷◌ c s) t h =
    let rest = splitlines-line s t (ground (arith, h)) in
    let plain : is_break (code c) ≡ false = ground (arith, h) in
    ap splitlines (cons-append c s ("\n" & t)) ∙ rw (plain, rest) refl

cons_first-IsLine :
    (c : Char) (parts : List String)
    → is_break (code c) ≡ false
    → All IsLine parts
    → All IsLine (cons_first c parts)
unfolding no_break
cons_first-IsLine c [] plain all = (ground (arith, plain), tt)
cons_first-IsLine c (part ∷ parts) plain (here, rest) = (ground (arith, plain, here), rest)

-- no line has a break in it
splitlines-IsLine : (s : String) → All IsLine (splitlines s)
unfolding splitlines no_break
splitlines-IsLine String.[] = tt
splitlines-IsLine (String.◌∷◌ c s) =
    let rest = splitlines-IsLine s in
    elim (Bool-cases (is_break (code c))) [
      | inr plain ↦ rw plain (cons_first-IsLine c (splitlines s) plain rest)
      | inl break ↦ elim (Bool-cases (code c == 13 && at_feed s)) [
        | inl pair ↦ rw (break, pair) rest
        | inr single ↦ rw (break, single) (refl, rest)
      ]
    ]

-- lines that are joined and closed by a line feed are read as they were
splitlines-join_lines :
    (l : String) (lines : List String)
    → All IsLine (l ∷ lines)
    → splitlines (join_lines (l ∷ lines) & "\n") ≡ l ∷ lines
unfolding join_lines splitlines
splitlines-join_lines l [] (here, all) = splitlines-line l "" here
splitlines-join_lines l (next ∷ lines) (here, all) =
    ap splitlines (
      append_assoc l ("\n" & join_lines (next ∷ lines)) "\n"
      ∙ ap (λ t. l & t) (append_assoc "\n" (join_lines (next ∷ lines)) "\n"))
    ∙ splitlines-line l (join_lines (next ∷ lines) & "\n") here
    ∙ ap (λ rest. l ∷ rest) (splitlines-join_lines next lines all)

splitlines-written :
    (key : String) (lines : List String)
    → has_key key lines ≡ true
    → All IsLine lines
    → splitlines (join_lines lines & "\n") ≡ lines
unfolding has_key any
splitlines-written key [] h all = absurd (ground (arith, h))
splitlines-written key (l ∷ lines) h all = splitlines-join_lines l lines all

read_lines-IsLine : (file : Option String) → All IsLine (read_lines file)
unfolding read_lines
read_lines-IsLine none = tt
read_lines-IsLine (some content) = splitlines-IsLine content

module _ (values : Values) (env : IsEnv values)
    (whole : All (λ (p : String × String). IsLine (setting p.0 p.1)) values) where
  put_value-IsLine :
      (line key : String) (found : Option String)
      → value_of key values ≡ found
      → IsLine line
      → IsLine (put_value line key found)
  put_value-IsLine line key none e h = h
  put_value-IsLine line key (some v) e h =
      All-value_of (λ (p : String × String). IsLine (setting p.0 p.1)) values key whole e

  put_line-IsLine :
      (line : String) (key : Option String) → IsLine line → IsLine (put_line values line key)
  unfolding put_line
  put_line-IsLine line none h = h
  put_line-IsLine line (some key) h = put_value-IsLine line key (value_of key values) refl h

  kept-IsLine :
      (lines : List String)
      → All IsLine lines
      → All IsLine (map (λ line. put_line values line (line_key line)) lines)
  kept-IsLine [] all = tt
  kept-IsLine (l ∷ lines) (here, all) = (put_line-IsLine l (line_key l) here, kept-IsLine lines all)

  missing-IsLine :
      (lines : List String) (vs : Values)
      → All (λ (p : String × String). IsLine (setting p.0 p.1)) vs
      → All IsLine (missing_lines lines vs)
  unfolding missing_lines
  missing-IsLine lines [] all = tt
  missing-IsLine lines ((k, v) ∷ rest) (here, all) =
      let later = missing-IsLine lines rest all in
      elim (Bool-cases (has_key k lines)) [
        | inl set ↦ rw set later
        | inr unset ↦ rw unset (here, later)
      ]

  put_values-IsLine :
      (lines : List String) → All IsLine lines → All IsLine (put_values values lines)
  unfolding put_values
  put_values-IsLine lines all =
      All-append values env IsLine (map (λ line. put_line values line (line_key line)) lines)
        (missing_lines lines values) (kept-IsLine lines all) (missing-IsLine lines values whole)

  -- The file that is written, for a dict whose keys are different and can be set by a line, and whose lines
  -- have no line break in them, whatever the file was: read again, a key of the dict is set by some line, and
  -- every line that sets it is exactly the key, an equals sign and the value. Writing the same dict again
  -- gives the same file.
  pub upsert_env_values-IsEnv :
      (file : Option String) (key v : String)
      → value_of key values ≡ some v
      → (has_key key (splitlines (upsert_env_values values file)) ≡ true)
        × All
            (λ line. line ≡ setting key v)
            (filter
              (λ line. opt_str_is (line_key line) key)
              (splitlines (upsert_env_values values file)))
        × (upsert_env_values values (some (upsert_env_values values file))
            ≡ upsert_env_values values file)
  unfolding upsert_env_values read_lines
  upsert_env_values-IsEnv file key v there =
      let lines = read_lines file in
      let (set, exact, again) = put_values-IsEnv values env lines key v there in
      let read : splitlines (join_lines (put_values values lines) & "\n")
          ≡ put_values values lines =
        splitlines-written key (put_values values lines) set
          (put_values-IsLine lines (read_lines-IsLine file)) in
      rw read (set, exact, ap (λ l. join_lines l & "\n") again)
