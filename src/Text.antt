-- ===== src/Text.antt =====
-- What the program uses of Python's text type: `strip`, `upper` (letters a to z), `str` and `int` of
-- a number.
pub mod Digits
use Prim.Native.Char.{Char, code}
use Prim.Native.String
use smart_parcel_station.Prelude.{
  ℕ, zero, suc, ◌+◌, ◌-◌, ◌*◌, ◌/◌, ◌%◌, String, Bool, true, false, ◌&&◌, ◌||◌, Option, none, some,
  List, [], ◌∷◌, leb, ltb, ◌==◌, is_empty, str_eq, if◌then◌else◌,
}
use smart_parcel_station.Prelude.Int.{ℤ, pos, negsuc}

infixr 66 ◌&◌
abbrev pub ◌&◌ : String → String → String
s & t = String.◌++◌ s t

-- a character put in front of the first part of a text that is split
abbrev pub cons_first : Char → List String → List String
cons_first c [] = String.◌∷◌ c "" ∷ []
cons_first c (part ∷ parts) = String.◌∷◌ c part ∷ parts

-- the character that stands in `to` where `c` stands in `from`
translate : String → String → Char → Char
translate String.[] to c = c
translate (String.◌∷◌ a from) String.[] c = c
translate (String.◌∷◌ a from) (String.◌∷◌ b to) c =
    let rest = translate from to c in if code c == code a then b else rest

-- `str.upper`
unfoldable pub upper : String → String
unfolding translate
upper String.[] = ""
upper (String.◌∷◌ c s) =
    String.◌∷◌ (translate "abcdefghijklmnopqrstuvwxyz" "ABCDEFGHIJKLMNOPQRSTUVWXYZ" c) (upper s)

-- `str.isascii`
unfoldable pub is_ascii : String → Bool
is_ascii String.[] = true
is_ascii (String.◌∷◌ c s) = ltb (code c) 128 && is_ascii s

-- `str.isspace` of one character
is_space : ℕ → Bool
is_space c =
    leb 9 c && leb c 13
    || leb 28 c && leb c 32
    || c == 133
    || c == 160
    || c == 5760
    || leb 8192 c && leb c 8202
    || c == 8232
    || c == 8233
    || c == 8239
    || c == 8287
    || c == 12288

lstrip : String → String
unfolding is_space
lstrip String.[] = ""
lstrip (String.◌∷◌ c s) = let rest = lstrip s in if is_space (code c) then rest else String.◌∷◌ c s

rstrip : String → String
unfolding is_space
rstrip String.[] = ""
rstrip (String.◌∷◌ c s) =
    let rest = rstrip s in if is_empty rest && is_space (code c) then "" else String.◌∷◌ c rest

-- `str.strip`
unfoldable pub strip : String → String
unfolding lstrip rstrip str_eq
strip s = rstrip (lstrip s)

is_digit : ℕ → Bool
is_digit c = leb b'0' c && leb c b'9'

-- digits, with a single `_` between two of them; `after` tells that a digit stands just before
int_digits : ℕ → Bool → String → Option ℕ
unfolding is_digit
int_digits acc after String.[] = if after then some acc else none
int_digits acc after (String.◌∷◌ c s) =
    let rest =
      int_digits (if is_digit (code c) then acc * 10 + (code c - b'0') else acc) (is_digit (code c))
        s in
    if is_digit (code c) || after && code c == b'_' then rest else none

negated : ℕ → ℤ
negated zero = pos 0
negated (suc n) = negsuc n

as_pos : Option ℕ → Option ℤ
as_pos none = none
as_pos (some n) = some (pos n)

as_neg : Option ℕ → Option ℤ
unfolding negated
as_neg none = none
as_neg (some n) = some (negated n)

int_signed : String → Option ℤ
unfolding int_digits as_pos as_neg
int_signed String.[] = none
int_signed (String.◌∷◌ c s) =
    let plus = as_pos (int_digits 0 false s) in
    let minus = as_neg (int_digits 0 false s) in
    let plain = as_pos (int_digits 0 false (String.◌∷◌ c s)) in
    if code c == b'-' then minus else if code c == b'+' then plus else plain

-- `int(text)`; `none` is the ValueError
unfoldable pub int_of_text : String → Option ℤ
unfolding int_signed strip
int_of_text s = int_signed (strip s)

digit_text : ℕ → String
digit_text d = String.slice "0123456789" d (d + 1)

str_digits : ℕ → ℕ → String
unfolding digit_text
str_digits zero n = ""
str_digits (suc f) n =
    let front = str_digits f (n / 10) in
    if ltb n 10 then digit_text n else front & digit_text (n % 10)

-- `str(n)` of a number that is not negative; the fuel is above the number of digits
unfoldable pub str_of : ℕ → String
unfolding str_digits
str_of n = str_digits (suc n) n
