-- ===== src/Json.antt =====
-- JSON values as the event payloads hold them. Numbers are integers; the program reads no others.
use smart_parcel_station.Prelude.{
  String, Bool, true, false, not, Option, none, some, List, [], ◌∷◌, ◌≡◌, refl, inl, inr, str_eq,
  str_eq_refl, Bool-cases, is_empty, ◌==◌, if◌then◌else◌,
}
use smart_parcel_station.Prelude.Int.{ℤ, pos, negsuc}

mutual
  pub data Json : Type 0 where
    null : Json
    flag : Bool → Json
    number : ℤ → Json
    text : String → Json
    array : Items → Json
    object : Fields → Json

  pub data Items : Type 0 where
    nil : Items
    cons : Json → Items → Items

  -- a dict, in insertion order
  pub data Fields : Type 0 where
    end : Fields
    entry : String → Json → Fields → Fields

-- `payload.get(key)`; `none` is a missing key
unfoldable pub get : String → Fields → Option Json
get k end = none
get k (entry j v rest) = let found = get k rest in if str_eq j k then some v else found

-- `payload[key] = v`, and `{**payload, key: v}`
unfoldable pub put : String → Json → Fields → Fields
put k v end = entry k v end
put k v (entry j w rest) =
    let later = put k v rest in if str_eq j k then entry j v rest else entry j w later

pub get-put : (k : String) (v : Json) (fields : Fields) → get k (put k v fields) ≡ some v
unfolding get put
get-put k v end = rw (str_eq_refl k) refl
get-put k v (entry j w rest) = elim (Bool-cases (str_eq j k)) [
  | inl same ↦ rw same (rw same refl)
  | inr other ↦ rw other (rw other (get-put k v rest))
]

-- `str | None` as JSON
abbrev pub opt_text : Option String → Json
opt_text none = null
opt_text (some s) = text s

unfoldable pub texts : List String → Items
texts [] = nil
texts (s ∷ rest) = cons (text s) (texts rest)

-- `bool(value)`, where a missing key reads as `None`
unfoldable pub truthy : Option Json → Bool
truthy none = false
truthy (some null) = false
truthy (some (flag b)) = b
truthy (some (number (pos n))) = not (n == 0)
truthy (some (number (negsuc n))) = true
truthy (some (text s)) = not (is_empty s)
truthy (some (array nil)) = false
truthy (some (array (cons _ _))) = true
truthy (some (object end)) = false
truthy (some (object (entry _ _ _))) = true

-- `value is not None`, where a missing key reads as `None`
unfoldable pub is_given : Option Json → Bool
is_given none = false
is_given (some null) = false
is_given (some _) = true
