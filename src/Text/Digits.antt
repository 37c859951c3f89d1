-- ===== src/Text/Digits.antt =====
-- `int(str(n))` is `n`.
use Prim.Native.Char.{Char, code}
use smart_parcel_station.Prelude.{
  ℕ, zero, suc, ◌+◌, ◌-◌, ◌*◌, ◌/◌, ◌%◌, ◌≤◌, ◌<◌, String, Bool, true, false, ◌&&◌, some, ◌≡◌, refl,
  sym, ap, ◌∙◌, leb, ltb, ◌==◌, is_empty, str_eq, str_eq_iff, ltb→lt, all_below, all_below_lem,
  Bool-cases, inl, inr, arith,
}
use text.Mathlib.TextLemmas.{nil-append, cons-append, append-nil, append_assoc}
use smart_parcel_station.Prelude.Int.{pos}
use smart_parcel_station.Text.{
  ◌&◌, is_space, lstrip, rstrip, strip, is_digit, int_digits, as_pos, int_signed, int_of_text,
  digit_text, str_digits, str_of,
}

-- every character is a digit
digits_only : String → Bool
digits_only String.[] = true
digits_only (String.◌∷◌ c s) = is_digit (code c) && digits_only s

digit_test : ℕ → Bool
unfolding digit_text
digit_test d = elim (digit_text d) [
  | String.[] ↦ false
  | String.◌∷◌ c s ↦ is_empty s && (code c == b'0' + d)
]

digit_char-test :
    (d : ℕ) (t : String)
    → elim t [ String.[] ↦ false | String.◌∷◌ c s ↦ is_empty s && (code c == b'0' + d) ] ≡ true
    → (c : Char) × (t ≡ String.◌∷◌ c "") × (code c ≡ b'0' + d)
digit_char-test d String.[] h = ground arith
digit_char-test d (String.◌∷◌ c s) h =
    (c, ap (String.◌∷◌ c) ((str_eq_iff s "").0 (ground (arith, h))), ground (arith, h))

-- the character of a digit
digit_char : (d : ℕ) → d < 10 → (c : Char) × (digit_text d ≡ String.◌∷◌ c "") × (code c ≡ b'0' + d)
unfolding digit_test all_below str_eq digit_text
digit_char d h = digit_char-test d (digit_text d) (all_below_lem 10 digit_test d refl h)

digit-append : (c : Char) (s : String) → String.◌∷◌ c "" & s ≡ String.◌∷◌ c s
digit-append c s = cons-append c "" s ∙ ap (String.◌∷◌ c) (nil-append s)

int_digits-cons :
    (c : Char) (d acc : ℕ) (after : Bool) (s : String)
    → code c ≡ b'0' + d
    → d < 10
    → int_digits acc after (String.◌∷◌ c s) ≡ int_digits (acc * 10 + d) true s
unfolding int_digits is_digit
int_digits-cons c d acc after s e h =
    let test : (leb b'0' (code c) && leb (code c) b'9') ≡ true = ground (arith, e, h) in
    let value : code c - b'0' ≡ d = omega (arith, e) in rw (test, value) refl

int_digits-digit :
    (d acc : ℕ) (after : Bool) (s : String)
    → d < 10
    → int_digits acc after (digit_text d & s) ≡ int_digits (acc * 10 + d) true s
int_digits-digit d acc after s h =
    let (c, text, number) = digit_char d h in
    ap (λ t. int_digits acc after (t & s)) text
    ∙ ap (int_digits acc after) (digit-append c s)
    ∙ int_digits-cons c d acc after s number h

int_digits-str_digits :
    (f n : ℕ) (after : Bool) (s : String)
    → n < f
    → int_digits 0 after (str_digits f n & s) ≡ int_digits n true s
unfolding str_digits
int_digits-str_digits zero n after s h = absurd (omega arith)
int_digits-str_digits (suc f) n after s h = elim (Bool-cases (ltb n 10)) [
  | inl small ↦ rw small (
      int_digits-digit n 0 after s (ltb→lt n 10 small)
      ∙ ap (λ k. int_digits k true s) (omega arith))
  | inr large ↦
      let more : 10 ≤ n = ground (arith, large) in
      rw (large, append_assoc (str_digits f (n / 10)) (digit_text (n % 10)) s)
        (int_digits-str_digits f (n / 10) after (digit_text (n % 10) & s) (omega arith)
          ∙ int_digits-digit (n % 10) (n / 10) true s (omega arith)
          ∙ ap (λ k. int_digits k true s) (omega arith))
]

digits_only-append : (s t : String) → digits_only (s & t) ≡ digits_only s && digits_only t
unfolding digits_only
digits_only-append String.[] t = ap digits_only (nil-append t)
digits_only-append (String.◌∷◌ c s) t =
    ap digits_only (cons-append c s t) ∙ ground (arith, digits_only-append s t)

digits_only-digit : (d : ℕ) → d < 10 → digits_only (digit_text d) ≡ true
unfolding digits_only is_digit
digits_only-digit d h =
    let (c, text, number) = digit_char d h in rw text (ground (arith, number, h))

digits_only-str_digits : (f n : ℕ) → digits_only (str_digits f n) ≡ true
unfolding str_digits digits_only
digits_only-str_digits zero n = refl
digits_only-str_digits (suc f) n = elim (Bool-cases (ltb n 10)) [
  | inl small ↦ rw small (digits_only-digit n (ltb→lt n 10 small))
  | inr large ↦
      rw
        (
          large,
          digits_only-append (str_digits f (n / 10)) (digit_text (n % 10)),
          digits_only-str_digits f (n / 10),
          digits_only-digit (n % 10) (omega arith),
        )
        refl
]

lstrip-digits : (s : String) → digits_only s ≡ true → lstrip s ≡ s
unfolding lstrip digits_only is_digit is_space
lstrip-digits String.[] h = refl
lstrip-digits (String.◌∷◌ c s) h = ground (arith, h)

rstrip-digits : (s : String) → digits_only s ≡ true → rstrip s ≡ s
unfolding rstrip digits_only is_digit is_space
rstrip-digits String.[] h = refl
rstrip-digits (String.◌∷◌ c s) h = ground (arith, h, rstrip-digits s)

int_signed-digits :
    (s : String) (n : ℕ)
    → digits_only s ≡ true
    → int_digits 0 false s ≡ some n
    → int_signed s ≡ some (pos n)
unfolding int_signed digits_only is_digit as_pos int_digits
int_signed-digits String.[] n h e = ground (arith, e)
int_signed-digits (String.◌∷◌ c s) n h e = ground (arith, h, e)

-- `int(str(n))`
pub int_of_text-str_of : (n : ℕ) → int_of_text (str_of n) ≡ some (pos n)
unfolding int_of_text str_of strip int_digits
int_of_text-str_of n =
    let text = str_digits (suc n) n in
    let only = digits_only-str_digits (suc n) n in
    let value : int_digits 0 false text ≡ some n =
      ap (int_digits 0 false) (sym (append-nil text))
      ∙ int_digits-str_digits (suc n) n false "" (omega arith) in
    let stripped : rstrip (lstrip text) ≡ text =
      ap rstrip (lstrip-digits text only) ∙ rstrip-digits text only in
    ap int_signed stripped ∙ int_signed-digits text n only value
