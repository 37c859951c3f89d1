-- ===== src/Gateway/Provisioning/Env.antt =====
-- The lines that `_put_values` writes.
use mathlib.Core.List.{append-nil}
use smart_parcel_station.Prelude.{
  String, true, ◌||◌, Option, none, some, inl, inr, List, [], ◌∷◌, ◌++◌, map, ◌≡◌, refl, sym, ap,
  ◌∙◌, subst, All, str_eq, str_eq_iff, if◌then◌else◌, any, filter, opt_str_is, Bool-cases, arith,
}
use smart_parcel_station.Gateway.Provisioning.{
  Values, line_key, value_of, setting, put_value, put_line, has_key, missing_lines, put_values,
}

-- A dict whose keys a line can set: no key is there twice, and the line for a key sets this key.
abbrev pub IsEnv : Values → Type 0
IsEnv values =
    All
      (λ (p : String × String).
        (line_key (setting p.0 p.1) ≡ some p.0) × (value_of p.0 values ≡ some p.1))
      values

-- what `_put_values` does to one line
abbrev rewritten : Values → String → String
rewritten values line = put_line values line (line_key line)

pub All-value_of :
    (P : String × String → Type 0) (values : Values) (key : String) {v : String}
    → All P values
    → value_of key values ≡ some v
    → P (key, v)
unfolding value_of
All-value_of P [] key all e = ground (arith, e)
All-value_of P ((k, w) ∷ rest) key {v} (here, there) e = elim (Bool-cases (str_eq k key)) [
  | inl same ↦
      let value : w ≡ v = ground (arith, e, same) in
      subst (λ (v : String). P (key, v)) value
        (subst (λ (k : String). P (k, w)) ((str_eq_iff k key).0 same) here)
  | inr other ↦ All-value_of P rest key there (ground (arith, e, other))
]

All-keys :
    (P Q : String × String → Type 0) (values : Values) → All (λ p. P p × Q p) values → All P values
All-keys P Q [] all = tt
All-keys P Q (p ∷ rest) ((here, _), there) = (here, All-keys P Q rest there)

has_key-append :
    (key : String) (xs ys : List String) → has_key key (xs ++ ys) ≡ has_key key xs || has_key key ys
unfolding has_key any
has_key-append key [] ys = refl
has_key-append key (x ∷ xs) ys = ground (arith, has_key-append key xs ys)

module _ (values : Values) (env : IsEnv values) where
  -- entries of the dict, with keys that a line can set
  abbrev IsPart : Values → Type 0
  IsPart vs =
      All
        (λ (p : String × String).
          (line_key (setting p.0 p.1) ≡ some p.0) × (value_of p.0 values ≡ some p.1))
        vs

  env_key :
      (key : String) {v : String}
      → value_of key values ≡ some v
      → line_key (setting key v) ≡ some key
  env_key key there =
      All-value_of (λ (p : String × String). line_key (setting p.0 p.1) ≡ some p.0) values key
        (All-keys (λ (p : String × String). line_key (setting p.0 p.1) ≡ some p.0)
          (λ (p : String × String). value_of p.0 values ≡ some p.1) values env)
        there

  -- a line that is written sets the key that it set before, and is written the same again
  pub rewritten-key :
      (line : String) (key : Option String)
      → line_key line ≡ key
      → (line_key (put_line values line key) ≡ key)
        × (put_line values (put_line values line key) key ≡ put_line values line key)
  unfolding put_line
  rewritten-key line none e = (e, refl)
  rewritten-key line (some key) e = put_value-key (value_of key values) refl
    where
      put_value-key :
          (found : Option String)
          → value_of key values ≡ found
          → (line_key (put_value line key found) ≡ some key)
            × (put_value (put_value line key found) key found ≡ put_value line key found)
      put_value-key none absent = (e, refl)
      put_value-key (some v) there = (env_key key there, refl)

  twice : (line : String) → rewritten values (rewritten values line) ≡ rewritten values line
  twice line =
      let (same, again) = rewritten-key line (line_key line) refl in
      ap (put_line values (rewritten values line)) same ∙ again

  twice_all :
      (lines : List String)
      → map (rewritten values) (map (rewritten values) lines) ≡ map (rewritten values) lines
  twice_all [] = refl
  twice_all (l ∷ lines) = rw (twice l, twice_all lines) refl

  has_key-rewritten :
      (key : String) (lines : List String)
      → has_key key (map (rewritten values) lines) ≡ has_key key lines
  unfolding has_key any
  has_key-rewritten key [] = refl
  has_key-rewritten key (l ∷ lines) =
      rw ((rewritten-key l (line_key l) refl).0, has_key-rewritten key lines) refl

  -- a line for a key of the dict is written as it is
  rewritten-setting :
      (key v : String)
      → value_of key values ≡ some v
      → rewritten values (setting key v) ≡ setting key v
  unfolding put_line
  rewritten-setting key v there = rw (env_key key there, there) refl

  -- the lines that are added, for a part of the dict
  module _ (lines : List String) where
    missing-rewritten :
        (vs : Values)
        → All (λ (p : String × String). value_of p.0 values ≡ some p.1) vs
        → map (rewritten values) (missing_lines lines vs) ≡ missing_lines lines vs
    unfolding missing_lines
    missing-rewritten [] all = refl
    missing-rewritten ((k, v) ∷ rest) (here, there) =
        let later = missing-rewritten rest there in
        let same = rewritten-setting k v here in
        elim (Bool-cases (has_key k lines)) [
          | inl set ↦ rw set later
          | inr unset ↦ rw (unset, same, later) refl
        ]

    missing-has_key :
        (vs : Values) (key : String) {v : String}
        → All (λ (p : String × String). line_key (setting p.0 p.1) ≡ some p.0) vs
        → value_of key vs ≡ some v
        → (has_key key lines || has_key key (missing_lines lines vs)) ≡ true
    unfolding missing_lines value_of has_key any
    missing-has_key [] key keys e = ground (arith, e)
    missing-has_key ((k, w) ∷ rest) key {v} (own, keys) e = elim (Bool-cases (str_eq k key)) [
      | inl same ↦
          let at : has_key k lines ≡ has_key key lines =
            ap (λ k. has_key k lines) ((str_eq_iff k key).0 same) in
          ground (arith, own, same, at)
      | inr other ↦
          let later = missing-has_key rest key {v = v} keys (ground (arith, e, other)) in
          ground (arith, later, own, other)
    ]

    nothing_missing :
        (vs : Values)
        → All (λ (p : String × String). has_key p.0 lines ≡ true) vs
        → missing_lines lines vs ≡ []
    unfolding missing_lines
    nothing_missing [] all = refl
    nothing_missing ((k, v) ∷ rest) (here, there) = rw here (nothing_missing rest there)

    added-value :
        (key : String) {v : String} (vs : Values)
        → value_of key values ≡ some v
        → IsPart vs
        → All (λ line. line_key line ≡ some key → line ≡ setting key v) (missing_lines lines vs)
    unfolding missing_lines
    added-value key [] there all = tt
    added-value key {v} ((k, w) ∷ rest) there ((own, value), all) =
        let later = added-value key {v = v} rest there all in
        let line : line_key (setting k w) ≡ some key → setting k w ≡ setting key v = (λ e.
          let same : k ≡ key = ground (arith, own, e) in
          let moved : value_of k values ≡ value_of key values = ap (λ k. value_of k values) same in
          let held : w ≡ v = ground (arith, value, moved, there) in rw (same, held) refl) in
        elim (Bool-cases (has_key k lines)) [
          | inl set ↦ rw set later
          | inr unset ↦ rw unset (line, later)
        ]

  written-value :
      (key : String) {v : String} (lines : List String)
      → value_of key values ≡ some v
      → All (λ line. line_key line ≡ some key → line ≡ setting key v) (map (rewritten values) lines)
  unfolding put_line
  written-value key [] there = tt
  written-value key {v} (l ∷ lines) there = (line, written-value key lines there)
    where
      line : line_key (rewritten values l) ≡ some key → rewritten values l ≡ setting key v
      line e =
          let before = sym (rewritten-key l (line_key l) refl).0 ∙ e in
          ap (put_line values l) before ∙ ap (put_value l key) there

  map-append :
      (xs ys : List String)
      → map (rewritten values) (xs ++ ys) ≡ map (rewritten values) xs ++ map (rewritten values) ys
  map-append [] ys = refl
  map-append (x ∷ xs) ys = ap (λ l. rewritten values x ∷ l) (map-append xs ys)

  pub All-append :
      (P : String → Type 0) (xs ys : List String) → All P xs → All P ys → All P (xs ++ ys)
  All-append P [] ys p q = q
  All-append P (x ∷ xs) ys (here, there) q = (here, All-append P xs ys there q)

  env_keys : All (λ (p : String × String). line_key (setting p.0 p.1) ≡ some p.0) values
  env_keys =
      All-keys (λ (p : String × String). line_key (setting p.0 p.1) ≡ some p.0)
        (λ (p : String × String). value_of p.0 values ≡ some p.1) values env

  upsert-has_key :
      (key : String) {v : String} (lines : List String)
      → value_of key values ≡ some v
      → has_key key (put_values values lines) ≡ true
  unfolding put_values
  upsert-has_key key {v} lines there =
      has_key-append key (map (rewritten values) lines) (missing_lines lines values)
      ∙ ap (λ b. b || has_key key (missing_lines lines values)) (has_key-rewritten key lines)
      ∙ missing-has_key lines values key {v = v} env_keys there

  all_set :
      (lines : List String) (vs : Values)
      → IsPart vs
      → All (λ (p : String × String). has_key p.0 (put_values values lines) ≡ true) vs
  all_set lines [] all = tt
  all_set lines ((k, v) ∷ rest) ((own, there), all) =
      (upsert-has_key k {v = v} lines there, all_set lines rest all)

  values_held :
      (vs : Values) → IsPart vs → All (λ (p : String × String). value_of p.0 values ≡ some p.1) vs
  values_held [] all = tt
  values_held (p ∷ rest) ((_, here), there) = (here, values_held rest there)

  setting_lines :
      (key v : String) (out : List String)
      → All (λ line. line_key line ≡ some key → line ≡ setting key v) out
      → All (λ line. line ≡ setting key v) (filter (λ line. opt_str_is (line_key line) key) out)
  unfolding filter
  setting_lines key v [] all = tt
  setting_lines key v (l ∷ out) (here, there) =
      setting_line (line_key l) here (setting_lines key v out there)
    where
      setting_line :
          (k : Option String)
          → (k ≡ some key → l ≡ setting key v)
          → All (λ line. line ≡ setting key v) (filter (λ line. opt_str_is (line_key line) key) out)
          → All
              (λ line. line ≡ setting key v)
              (if opt_str_is k key
                then l ∷ filter (λ line. opt_str_is (line_key line) key) out
                else filter (λ line. opt_str_is (line_key line) key) out)
      setting_line none h rest = rest
      setting_line (some k) h rest = elim (Bool-cases (str_eq k key)) [
        | inl same ↦ rw same (h (ap some ((str_eq_iff k key).0 same)), rest)
        | inr other ↦ rw other rest
      ]

  -- The lines that are written: a key of the dict is set by some line, and every line that sets it is exactly
  -- the key, an equals sign and the value. Writing the same dict again leaves them as they are.
  pub put_values-IsEnv :
      (lines : List String) (key v : String)
      → value_of key values ≡ some v
      → (has_key key (put_values values lines) ≡ true)
        × All
            (λ line. line ≡ setting key v)
            (filter (λ line. opt_str_is (line_key line) key) (put_values values lines))
        × (put_values values (put_values values lines) ≡ put_values values lines)
  unfolding put_values
  put_values-IsEnv lines key v there = (
    upsert-has_key key {v = v} lines there,
    setting_lines key v out (
        All-append (λ line. line_key line ≡ some key → line ≡ setting key v)
          (map (rewritten values) lines) (missing_lines lines values)
          (written-value key lines there) (added-value lines key values there env)),
    again,
  )
    where
      out : List String
      out = map (rewritten values) lines ++ missing_lines lines values

      again : map (rewritten values) out ++ missing_lines out values ≡ out
      again =
          rw
            (
              map-append (map (rewritten values) lines) (missing_lines lines values),
              twice_all lines,
              missing-rewritten lines values (values_held values env),
              nothing_missing out values (all_set lines values env),
            )
            (append-nil out)
