-- ===== src/Server/Payload.antt =====
-- How the services read the payload of an event: Python's `str` and `int` of a JSON value, `or`, and
-- `optional_int` of smartparcel-server/app/services/services.py. An array or an object that is
-- given for a text column raises, as the database driver does.
use smart_parcel_station.Prelude.{
  ℕ, zero, ◌+◌, String, true, false, Option, none, some, List, [], ◌∷◌, is_empty, if◌then◌else◌,
}
use smart_parcel_station.Prelude.Int.{ℤ, pos, negsuc}
use smart_parcel_station.Text.{◌&◌, strip, str_of, int_of_text}
use smart_parcel_station.Json.{
  Json, null, flag, number, text, array, object, Fields, get, truthy, is_given,
}
use smart_parcel_station.Session.{crash, Action, Result, ok, err}
use smart_parcel_station.Runtime.{Runtime}

-- a number in decimal
unfoldable pub str_of_int : ℤ → String
str_of_int (pos n) = str_of n
str_of_int (negsuc n) = "-" & str_of (n + 1)

-- `str(value)`
unfoldable pub str_of_json : Runtime → Json → String
str_of_json rt null = "None"
str_of_json rt (flag true) = "True"
str_of_json rt (flag false) = "False"
str_of_json rt (number z) = str_of_int z
str_of_json rt (text s) = s
str_of_json rt (array items) = rt.repr (array items)
str_of_json rt (object fields) = rt.repr (object fields)

-- `payload.get(first) or payload.get(second) … or default`
unfoldable pub first_truthy : List String → Fields → Json → Json
first_truthy [] payload default = default
first_truthy (k ∷ ks) payload default =
    let rest = first_truthy ks payload default in
    elim (get k payload) [ none ↦ rest | some v ↦ if truthy (some v) then v else rest ]

-- `next(str(payload[key]).strip() for key in keys if …)`
unfoldable pub first_text : Runtime → List String → Fields → Option String
first_text rt [] payload = none
first_text rt (k ∷ ks) payload =
    let rest = first_text rt ks payload in
    elim (get k payload) [
      | none ↦ rest
      | some v ↦
          let s = strip (str_of_json rt v) in
          if is_given (some v) then (if is_empty s then rest else some s) else rest
    ]

-- a computation that raises or returns, and reads no state
abbrev pub lift : {D A : Type 0} → Result A → Action D A
lift r s = (r, s)

-- a value for a text column, as it is stored: the driver writes a number in decimal and a truth value as 1 or 0
unfoldable pub text_value : Option Json → Result (Option String)
text_value none = ok none
text_value (some null) = ok none
text_value (some (text s)) = ok (some s)
text_value (some (flag true)) = ok (some "1")
text_value (some (flag false)) = ok (some "0")
text_value (some (number z)) = ok (some (str_of_int z))
text_value (some (array items)) = err (crash "DataError")
text_value (some (object fields)) = err (crash "DataError")

-- a value for a text column that is read by `value or …` or `if value`
unfoldable pub truthy_text : Option Json → Result (Option String)
truthy_text v = if truthy v then text_value v else ok none

parsed : Option ℤ → Result ℤ
parsed none = err (crash "ValueError")
parsed (some z) = ok z

-- `int(value)`
unfoldable pub int_value : Json → Result ℤ
unfolding parsed
int_value null = err (crash "TypeError")
int_value (flag true) = ok (pos 1)
int_value (flag false) = ok (pos 0)
int_value (number z) = ok z
int_value (text s) = parsed (int_of_text s)
int_value (array items) = err (crash "TypeError")
int_value (object fields) = err (crash "TypeError")

given : {A : Type 0} → Result A → Result (Option A)
given (ok a) = ok (some a)
given (err e) = err e

-- `optional_int`
unfoldable pub optional_int : Option Json → Result (Option ℤ)
unfolding int_value given
optional_int none = ok none
optional_int (some null) = ok none
optional_int (some (text s)) = if is_empty s then ok none else given (int_value (text s))
optional_int (some (flag b)) = given (int_value (flag b))
optional_int (some (number n)) = given (int_value (number n))
optional_int (some (array items)) = given (int_value (array items))
optional_int (some (object fields)) = given (int_value (object fields))

-- the key of a row; no row has a key below 0
unfoldable pub key_value : ℤ → Result ℕ
key_value (pos n) = ok n
key_value (negsuc n) = err (crash "IntegrityError")

unfoldable pub opt_key : Option ℤ → Result (Option ℕ)
unfolding given
opt_key none = ok none
opt_key (some z) = given (key_value z)

-- `optional_int(…) or kept`
abbrev pub or_key : Option ℤ → Option ℕ → Option ℤ
or_key none none = none
or_key none (some k) = some (pos k)
or_key (some (pos zero)) none = none
or_key (some (pos zero)) (some k) = some (pos k)
or_key (some z) _ = some z
