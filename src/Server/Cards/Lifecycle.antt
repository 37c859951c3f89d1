-- ===== src/Server/Cards/Lifecycle.antt =====
-- The life of the rows of `user_access_credentials`: what one operation may change.
use smart_parcel_station.Prelude.{
  ℕ, Bool, true, false, some, List, [], ◌∷◌, ◌++◌, map, ◌≡◌, refl, sym, ap, ◌∙◌, ◌||◌, ◌⊎◌, inl,
  inr, ◌==◌, ==→≡, ==-refl, Bool-cases, if◌then◌else◌, filter, any, find_first, update_where, All,
  arith, subst,
}
use smart_parcel_station.Runtime.{Runtime, AssignsFresh}
use smart_parcel_station.Server.Models.{UserAccessCredential}
use smart_parcel_station.Server.Cards.{is_active}

-- A row stays as it is, or an active card stops being active and stays the same card.
pub record IsRetired (c d : UserAccessCredential) : Type 0 where
  pub was_active : is_active c.status ≡ true
  pub not_active : is_active d.status ≡ false
  pub same_id : d.id ≡ c.id
  pub same_user : d.user_id ≡ c.user_id
  pub same_station : d.station_id ≡ c.station_id
  pub same_type : d.credential_type ≡ c.credential_type
  pub same_value : d.credential_value ≡ c.credential_value

abbrev pub CardStep : UserAccessCredential → UserAccessCredential → Type 0
CardStep c d = (d ≡ c) ⊎ IsRetired c d

-- Every row of the first table is in the second, as it was or retired, in its place; behind them
-- stand new active cards.
abbrev pub Evolves : List UserAccessCredential → List UserAccessCredential → Type 0
Evolves [] ys = All (λ c. is_active c.status ≡ true) ys
Evolves (x ∷ xs) [] = ⊥
Evolves (x ∷ xs) (y ∷ ys) = CardStep x y × Evolves xs ys

-- the primary key
abbrev pub IsKeyed : List UserAccessCredential → Type 0
IsKeyed [] = Unit
IsKeyed (x ∷ xs) = (any (λ c. c.id == x.id) xs ≡ false) × IsKeyed xs

pub Evolves-refl : (xs : List UserAccessCredential) → Evolves xs xs
Evolves-refl [] = tt
Evolves-refl (x ∷ xs) = (inl refl, Evolves-refl xs)

pub Evolves-concat :
    (xs ys : List UserAccessCredential) (card : UserAccessCredential)
    → is_active card.status ≡ true
    → Evolves xs ys
    → Evolves xs (ys ++ card ∷ [])
Evolves-concat [] [] card a e = (a, tt)
Evolves-concat [] (y ∷ ys) card a e = (e.0, Evolves-concat [] ys card a e.1)
Evolves-concat (x ∷ xs) [] card a e = absurd e
Evolves-concat (x ∷ xs) (y ∷ ys) card a e = (e.0, Evolves-concat xs ys card a e.1)

module _ (k : ℕ) (f : UserAccessCredential → UserAccessCredential) where
  -- an update of rows that are not there
  pub update_where-absent :
      (xs : List UserAccessCredential)
      → any (λ c. c.id == k) xs ≡ false
      → update_where (λ c. c.id == k) f xs ≡ xs
  unfolding any update_where
  update_where-absent [] h = refl
  update_where-absent (x ∷ xs) h = ground (arith, update_where-absent xs)

  -- The update of one card is a step of that row.
  pub update_where-Evolves :
      (xs : List UserAccessCredential) {card : UserAccessCredential}
      → IsKeyed xs
      → find_first (λ c. c.id == k) xs ≡ some card
      → CardStep card (f card)
      → Evolves xs (update_where (λ c. c.id == k) f xs)
  unfolding find_first update_where
  update_where-Evolves [] keyed e st = tt
  update_where-Evolves (x ∷ xs) {card} keyed e st = elim (Bool-cases (x.id == k)) [
    | inl here ↦
        let same : x ≡ card = ground arith in
        let gone : any (λ c. c.id == k) xs ≡ false =
          subst (λ (i : ℕ). any (λ c. c.id == i) xs ≡ false) (==→≡ x.id k here) keyed.0 in
        rw (here, update_where-absent xs gone)
          (subst (λ (c : UserAccessCredential). CardStep c (f c)) (sym same) st, Evolves-refl xs)
    | inr later ↦ rw later (inl refl, update_where-Evolves xs keyed.1 (ground arith) st)
  ]

  -- The same where a card is added behind the table.
  pub update_where-concat :
      (xs : List UserAccessCredential) (card : UserAccessCredential)
      → (card.id == k) ≡ false
      → update_where (λ c. c.id == k) f (xs ++ card ∷ [])
        ≡ update_where (λ c. c.id == k) f xs ++ card ∷ []
  unfolding update_where
  update_where-concat [] card h = rw h
  update_where-concat (x ∷ xs) card h =
      ap (λ l. (if x.id == k then f x else x) ∷ l) (update_where-concat xs card h)

-- The only row of a selection is found by its key.
filter-any :
    (p : UserAccessCredential → Bool) (xs : List UserAccessCredential) (old : UserAccessCredential)
    → filter p xs ≡ old ∷ []
    → any (λ c. c.id == old.id) xs ≡ true
unfolding filter any
filter-any p [] old e = cc
filter-any p (x ∷ xs) old e = elim (Bool-cases (p x)) [
  | inl here ↦ let same : x ≡ old = ground arith in rw same (rw (==-refl old.id) refl)
  | inr later ↦ ground (arith, filter-any p xs old)
]

pub find_first-filter :
    (p : UserAccessCredential → Bool) (xs : List UserAccessCredential) {old : UserAccessCredential}
    → IsKeyed xs
    → filter p xs ≡ old ∷ []
    → find_first (λ c. c.id == old.id) xs ≡ some old
unfolding filter find_first
find_first-filter p [] keyed e = cc
find_first-filter p (x ∷ xs) {old} keyed e = elim (Bool-cases (p x)) [
  | inl here ↦ let same : x ≡ old = ground arith in rw same (rw (==-refl old.id) refl)
  | inr later ↦
      let rest : filter p xs ≡ old ∷ [] = ground arith in
      let other : (x.id == old.id) ≡ false = elim (Bool-cases (x.id == old.id)) [
        | inl clash ↦
            let gone : any (λ c. c.id == old.id) xs ≡ false =
              subst (λ (i : ℕ). any (λ c. c.id == i) xs ≡ false) (==→≡ x.id old.id clash) keyed.0 in
            let there = filter-any p xs old rest in cc
        | inr differ ↦ differ
      ] in
      rw other (find_first-filter p xs keyed.1 rest)
]

any-map :
    (k : ℕ) (xs : List UserAccessCredential)
    → any (λ i. i == k) (map (λ c. c.id) xs) ≡ any (λ c. c.id == k) xs
unfolding any
any-map k [] = refl
any-map k (x ∷ xs) = ap (λ b. (x.id == k) || b) (any-map k xs)

-- a fresh key is the key of no row
pub fresh-absent :
    (rt : Runtime) (xs : List UserAccessCredential)
    → AssignsFresh rt
    → any (λ c. c.id == rt.next_id (map (λ c. c.id) xs)) xs ≡ false
fresh-absent rt xs fresh =
    sym (any-map (rt.next_id (map (λ c. c.id) xs)) xs) ∙ fresh (map (λ c. c.id) xs)

any-concat :
    (k : ℕ) (xs : List UserAccessCredential) (card : UserAccessCredential)
    → any (λ c. c.id == k) xs ≡ false
    → (card.id == k) ≡ false
    → any (λ c. c.id == k) (xs ++ card ∷ []) ≡ false
unfolding any
any-concat k [] card h e = rw e
any-concat k (x ∷ xs) card h e = ground (arith, any-concat k xs card)

pub IsKeyed-concat :
    (xs : List UserAccessCredential) (card : UserAccessCredential)
    → IsKeyed xs
    → any (λ c. c.id == card.id) xs ≡ false
    → IsKeyed (xs ++ card ∷ [])
unfolding any
IsKeyed-concat [] card k a = (refl, tt)
IsKeyed-concat (x ∷ xs) card k a =
    (any-concat x.id xs card k.0 (ground arith), IsKeyed-concat xs card k.1 (ground arith))

module _ (q : UserAccessCredential → Bool) (f : UserAccessCredential → UserAccessCredential)
    (keeps : (c : UserAccessCredential) → (f c).id ≡ c.id) where
  any-update_where :
      (k : ℕ) (xs : List UserAccessCredential)
      → any (λ c. c.id == k) (update_where q f xs) ≡ any (λ c. c.id == k) xs
  unfolding any update_where
  any-update_where k [] = refl
  any-update_where k (x ∷ xs) = ground (arith, any-update_where k xs, keeps x)

  pub IsKeyed-update_where :
      (xs : List UserAccessCredential) → IsKeyed xs → IsKeyed (update_where q f xs)
  unfolding update_where
  IsKeyed-update_where [] k = tt
  IsKeyed-update_where (x ∷ xs) k =
      (ground (arith, any-update_where x.id xs, keeps x, k.0), IsKeyed-update_where xs k.1)

module _ (p : UserAccessCredential → Bool) (f : UserAccessCredential → UserAccessCredential)
    (gone : (c : UserAccessCredential) → p (f c) ≡ false) where
  filter-empty :
      (q : UserAccessCredential → Bool) (xs : List UserAccessCredential)
      → filter p xs ≡ []
      → filter p (update_where q f xs) ≡ []
  unfolding filter update_where
  filter-empty q [] e = refl
  filter-empty q (x ∷ xs) e = ground (arith, filter-empty q xs, gone x)

  -- The only row of a selection leaves it by the update; no other row enters.
  pub filter-retired :
      (xs : List UserAccessCredential) (old : UserAccessCredential)
      → filter p xs ≡ old ∷ []
      → filter p (update_where (λ c. c.id == old.id) f xs) ≡ []
  unfolding filter update_where
  filter-retired [] old e = refl
  filter-retired (x ∷ xs) old e = elim (Bool-cases (p x)) [
    | inl here ↦
        let same : x ≡ old = ground arith in
        let rest : filter p xs ≡ [] = ground arith in
        let left = filter-empty (λ c. c.id == old.id) xs rest in
        let hit : (x.id == old.id) ≡ true = rw same (==-refl old.id) in rw (hit, gone x) left
    | inr later ↦ ground (arith, filter-retired xs old, gone x)
  ]

pub filter-concat :
    (p : UserAccessCredential → Bool) (xs : List UserAccessCredential) (card : UserAccessCredential)
    → filter p xs ≡ []
    → p card ≡ true
    → filter p (xs ++ card ∷ []) ≡ card ∷ []
unfolding filter
filter-concat p [] card e h = rw h
filter-concat p (x ∷ xs) card e h = ground (arith, filter-concat p xs card)
