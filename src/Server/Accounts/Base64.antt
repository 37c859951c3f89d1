-- ===== src/Server/Accounts/Base64.antt =====
-- The padding of base64 texts, which `_b64url_encode` takes off and `_b64url_decode` puts back.
use Prim.Native.Char.{code}
use text.Mathlib.TextLemmas.{nil-append, cons-append, append-nil}
use smart_parcel_station.Prelude.{
  ℕ, zero, suc, ◌+◌, ◌-◌, ◌%◌, ◌≤◌, String, Bool, true, false, ◌&&◌, ◌||◌, some, ◌≡◌, refl, sym, ap,
  ◌∙◌, leb, ◌==◌, str_eq, arith,
}
use smart_parcel_station.Text.{◌&◌}
use smart_parcel_station.Server.Accounts.{
  Codec, equals_signs, rstrip_equals, len, padded, b64url_encode, b64url_decode,
}

-- a letter, a digit, `-` or `_`
abbrev is_url_code : ℕ → Bool
is_url_code c =
    leb b'A' c && leb c b'Z'
    || leb b'a' c && leb c b'z'
    || leb b'0' c && leb c b'9'
    || c == b'-'
    || c == b'_'

unfoldable pub is_url_text : String → Bool
is_url_text String.[] = true
is_url_text (String.◌∷◌ c s) = is_url_code (code c) && is_url_text s

-- A base64 text with the URL alphabet, as RFC 4648 has it: its length is a multiple of four, and it ends in
-- at most two signs of padding.
pub record IsBase64 (encoded : String) : Type 0 where
  pub body : String
  pub signs : ℕ
  pub split : encoded ≡ body & equals_signs signs
  pub few : signs ≤ 2
  pub whole : len encoded % 4 ≡ 0
  pub alphabet : is_url_text body ≡ true

equals_signs-suc : (n : ℕ) → equals_signs (suc n) ≡ String.◌∷◌ "=" (equals_signs n)
unfolding equals_signs
equals_signs-suc n =
    cons-append "=" "" (equals_signs n) ∙ ap (String.◌∷◌ "=") (nil-append (equals_signs n))

len-equals_signs : (n : ℕ) → len (equals_signs n) ≡ n
unfolding len equals_signs
len-equals_signs zero = refl
len-equals_signs (suc n) = ap len (equals_signs-suc n) ∙ omega (arith, len-equals_signs n)

len-append : (s t : String) → len (s & t) ≡ len s + len t
unfolding len
len-append String.[] t = ap len (nil-append t) ∙ omega arith
len-append (String.◌∷◌ c s) t = ap len (cons-append c s t) ∙ omega (arith, len-append s t)

rstrip_equals-signs : (n : ℕ) → rstrip_equals (equals_signs n) ≡ ""
unfolding rstrip_equals equals_signs str_eq
rstrip_equals-signs zero = refl
rstrip_equals-signs (suc n) =
    ap rstrip_equals (equals_signs-suc n) ∙ rw (rstrip_equals-signs n) refl

rstrip_equals-append :
    (s : String) (n : ℕ) → is_url_text s ≡ true → rstrip_equals (s & equals_signs n) ≡ s
unfolding rstrip_equals is_url_text
rstrip_equals-append String.[] n h =
    ap rstrip_equals (nil-append (equals_signs n)) ∙ rstrip_equals-signs n
rstrip_equals-append (String.◌∷◌ c s) n h =
    let rest = rstrip_equals-append s n (ground (arith, h)) in
    let other : (code c == b'=') ≡ false = ground (arith, h) in
    ap rstrip_equals (cons-append c s (equals_signs n)) ∙ rw (rest, other) (ground arith)

-- the padding of a text that lacks it
padded-body : (s : String) (n : ℕ) → n ≤ 2 → (len s + n) % 4 ≡ 0 → padded s ≡ s & equals_signs n
unfolding padded equals_signs
padded-body s zero few whole =
    let none_left : (4 - len s % 4 == 4) ≡ true = ground (arith, whole) in
    rw none_left (sym (append-nil s))
padded-body s (suc n) few whole =
    let size : 4 - len s % 4 ≡ suc n = omega (arith, few, whole) in
    let some_left : (suc n == 4) ≡ false = ground (arith, few) in rw (size, some_left) refl

-- a text that is encoded is decoded from what is left without its padding
pub b64url_decode-encode :
    (codec : Codec) (data_ : String)
    → IsBase64 (codec.urlsafe_b64encode data_)
    → codec.urlsafe_b64decode (codec.urlsafe_b64encode data_) ≡ some data_
    → (b64url_decode codec (b64url_encode codec data_) ≡ some data_)
      × (is_url_text (b64url_encode codec data_) ≡ true)
unfolding b64url_decode b64url_encode
b64url_decode-encode codec data_ b back =
    let bare : rstrip_equals (codec.urlsafe_b64encode data_) ≡ b.body =
      ap rstrip_equals b.split ∙ rstrip_equals-append b.body b.signs b.alphabet in
    let size : len (codec.urlsafe_b64encode data_) ≡ len b.body + b.signs =
      ap len b.split
      ∙ len-append b.body (equals_signs b.signs)
      ∙ ap (λ n. len b.body + n) (len-equals_signs b.signs) in
    let whole : padded b.body ≡ codec.urlsafe_b64encode data_ =
      padded-body b.body b.signs b.few (sym (ap (λ n. n % 4) size) ∙ b.whole) ∙ sym b.split in
    (ap codec.urlsafe_b64decode (ap padded bare ∙ whole) ∙ back, ap is_url_text bare ∙ b.alphabet)
