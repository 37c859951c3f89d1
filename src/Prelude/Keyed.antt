-- ===== src/Prelude/Keyed.antt =====
-- Tables with a primary key, and updates of the one row with a key.
use Prim.Native.Nat.{ℕ}
use mathlib.Core.Path.{◌≡◌, refl, sym, ap, ◌∙◌, subst}
use mathlib.Core.Logic.{inl, inr}
use mathlib.Core.Bool.{Bool, true, false, not, ◌||◌}
use mathlib.Core.Option.{none, some}
use mathlib.Core.List.{List, [], ◌∷◌, ◌++◌, map}
use native.Mathlib.Omega.{arith}
use smart_parcel_station.Prelude.Tests.{◌==◌, ==-refl, Bool-cases, if◌then◌else◌}
use smart_parcel_station.Prelude.Rows.{any, all, filter, find_first, update_where}

module _ {A : Type 0} where
  pub any-append :
      (p : A → Bool) (xs : List A) (x : A) → any p xs ≡ true → any p (xs ++ x ∷ []) ≡ true
  unfolding any
  any-append p [] x h = ground arith
  any-append p (y ∷ ys) x h = ground (arith, any-append p ys x)

  pub all-append :
      (p : A → Bool) (xs : List A) (x : A)
      → all p xs ≡ true
      → p x ≡ true
      → all p (xs ++ x ∷ []) ≡ true
  unfolding all
  all-append p [] x h e = ground arith
  all-append p (y ∷ ys) x h e = ground (arith, all-append p ys x)

  pub find_first-none : (p : A → Bool) (xs : List A) → find_first p xs ≡ none → any p xs ≡ false
  unfolding any find_first
  find_first-none p [] h = refl
  find_first-none p (x ∷ xs) h = ground (arith, find_first-none p xs)

  pub all-find_first :
      (p q : A → Bool) (xs : List A) {row : A}
      → all q xs ≡ true
      → find_first p xs ≡ some row
      → q row ≡ true
  unfolding all find_first
  all-find_first p q [] a e = ground arith
  all-find_first p q (x ∷ xs) {row} a e = ground (arith, all-find_first p q xs {row = row})

  any-absent_append :
      (p : A → Bool) (xs : List A) (x : A)
      → any p xs ≡ false
      → p x ≡ false
      → any p (xs ++ x ∷ []) ≡ false
  unfolding any
  any-absent_append p [] x h e = ground arith
  any-absent_append p (y ∷ ys) x h e = ground (arith, any-absent_append p ys x)

  pub find_first-only :
      (p : A → Bool) (xs : List A) {row : A} → filter p xs ≡ row ∷ [] → find_first p xs ≡ some row
  unfolding filter find_first
  find_first-only p [] e = cc
  find_first-only p (x ∷ xs) {row} e = ground (arith, find_first-only p xs {row = row})

  pub find_first-any :
      (p : A → Bool) (xs : List A) {row : A} → find_first p xs ≡ some row → any p xs ≡ true
  unfolding any find_first
  find_first-any p [] e = ground arith
  find_first-any p (x ∷ xs) {row} e = ground (arith, find_first-any p xs {row = row})

  pub all-unselected :
      (p t : A → Bool) (xs : List A) → filter p xs ≡ [] → all (λ x. not (p x) || t x) xs ≡ true
  unfolding filter all
  all-unselected p t [] e = refl
  all-unselected p t (x ∷ xs) e = ground (arith, all-unselected p t xs)

  -- what holds of the only row of a selection
  pub all-only :
      (p t : A → Bool) (xs : List A) {row : A}
      → filter p xs ≡ row ∷ []
      → t row ≡ true
      → all (λ x. not (p x) || t x) xs ≡ true
  unfolding filter all
  all-only p t [] e h = refl
  all-only p t (x ∷ xs) {row} e h = elim (Bool-cases (p x)) [
    | inl here ↦
        let same : x ≡ row = ground arith in
        let held : t x ≡ true = subst (λ (r : A). t r ≡ true) (sym same) h in
        let rest : filter p xs ≡ [] = ground arith in
        ground (arith, held, all-unselected p t xs rest)
    | inr later ↦
        let rest : filter p xs ≡ row ∷ [] = ground arith in
        ground (arith, later, all-only p t xs {row = row} rest h)
  ]

module _ {A : Type 0} (key : A → ℕ) where
  -- the keys are distinct
  abbrev pub IsKeyedBy : List A → Type 0
  IsKeyedBy [] = Unit
  IsKeyedBy (x ∷ xs) = (any (λ y. key y == key x) xs ≡ false) × IsKeyedBy xs

  pub update_where-absent :
      (k : ℕ) (f : A → A) (xs : List A)
      → any (λ y. key y == k) xs ≡ false
      → update_where (λ y. key y == k) f xs ≡ xs
  unfolding any update_where
  update_where-absent k f [] h = refl
  update_where-absent k f (x ∷ xs) h = ground (arith, update_where-absent k f xs)

  pub find_first-absent :
      (p : A → Bool) (k : ℕ) (xs : List A) {row : A}
      → any (λ y. key y == k) xs ≡ false
      → find_first p xs ≡ some row
      → (key row == k) ≡ false
  unfolding any find_first
  find_first-absent p k [] h e = ground arith
  find_first-absent p k (x ∷ xs) {row} h e = ground (arith, find_first-absent p k xs {row = row})

  -- what holds of all rows holds after an update of one, where it holds of that one
  pub all-update_where :
      (p q : A → Bool) (f : A → A) (xs : List A) {row : A}
      → IsKeyedBy xs
      → find_first p xs ≡ some row
      → q (f row) ≡ true
      → all q xs ≡ true
      → all q (update_where (λ y. key y == key row) f xs) ≡ true
  unfolding find_first all update_where
  all-update_where p q f [] keyed e h a = refl
  all-update_where p q f (x ∷ xs) {row} keyed e h a = elim (Bool-cases (p x)) [
    | inl here ↦
        let same : x ≡ row = ground arith in
        let hit : (key x == key row) ≡ true =
          subst (λ (r : A). (key x == key r) ≡ true) same (==-refl (key x)) in
        let held : q (f x) ≡ true = subst (λ (r : A). q (f r) ≡ true) (sym same) h in
        let gone =
          update_where-absent (key row) f xs
            (subst (λ (r : A). any (λ y. key y == key r) xs ≡ false) same keyed.0) in
        rw (hit, gone) (ground (arith, held))
    | inr later ↦
        let other : (key row == key x) ≡ false =
          find_first-absent p (key x) xs keyed.0 (ground arith) in
        let differ : (key x == key row) ≡ false = ground arith in
        rw differ (
          ground
            (arith, all-update_where p q f xs {row = row} keyed.1 (ground arith) h (ground arith)))
  ]

  pub any-update_where :
      (p q : A → Bool) (f : A → A) (xs : List A)
      → ((x : A) → p (f x) ≡ p x)
      → any p (update_where q f xs) ≡ any p xs
  unfolding any update_where
  any-update_where p q f [] h = refl
  any-update_where p q f (x ∷ xs) h = ground (arith, any-update_where p q f xs h, h x)

  pub IsKeyedBy-update :
      (q : A → Bool) (f : A → A) (xs : List A)
      → ((x : A) → key (f x) ≡ key x)
      → IsKeyedBy xs
      → IsKeyedBy (update_where q f xs)
  unfolding any update_where
  IsKeyedBy-update q f [] h keyed = tt
  IsKeyedBy-update q f (x ∷ xs) h keyed =
      let same : key (if q x then f x else x) ≡ key x = elim (Bool-cases (q x)) [
        | inl on ↦ rw on (h x)
        | inr off ↦ rw off refl
      ] in
      (
        subst (λ (k : ℕ). any (λ y. key y == k) (update_where q f xs) ≡ false) (sym same)
            (any-update_where (λ y. key y == key x) q f xs (λ y. ap (λ k. k == key x) (h y))
              ∙ keyed.0),
        IsKeyedBy-update q f xs h keyed.1,
      )

  pub IsKeyedBy-append :
      (xs : List A) (x : A)
      → IsKeyedBy xs
      → any (λ y. key y == key x) xs ≡ false
      → IsKeyedBy (xs ++ x ∷ [])
  unfolding any
  IsKeyedBy-append [] x keyed h = (refl, tt)
  IsKeyedBy-append (y ∷ ys) x keyed h = (
    any-absent_append (λ z. key z == key y) ys x keyed.0 (ground arith),
    IsKeyedBy-append ys x keyed.1 (ground arith),
  )

  pub any-map : (k : ℕ) (xs : List A) → any (λ i. i == k) (map key xs) ≡ any (λ y. key y == k) xs
  unfolding any
  any-map k [] = refl
  any-map k (x ∷ xs) = ap (λ b. (key x == k) || b) (any-map k xs)

  -- an update of the only row of a selection decides what holds of the rows that are selected
  pub all-update_only :
      (p t : A → Bool) (f : A → A) (xs : List A) {row : A}
      → IsKeyedBy xs
      → filter p xs ≡ row ∷ []
      → t (f row) ≡ true
      → all (λ x. not (p x) || t x) (update_where (λ y. key y == key row) f xs) ≡ true
  unfolding filter all update_where
  all-update_only p t f [] keyed e h = refl
  all-update_only p t f (x ∷ xs) {row} keyed e h = elim (Bool-cases (p x)) [
    | inl here ↦
        let same : x ≡ row = ground arith in
        let none_left : filter p xs ≡ [] = ground arith in
        let hit : (key x == key row) ≡ true =
          subst (λ (r : A). (key x == key r) ≡ true) same (==-refl (key x)) in
        let held : t (f x) ≡ true = subst (λ (r : A). t (f r) ≡ true) (sym same) h in
        let gone =
          update_where-absent (key row) f xs
            (subst (λ (r : A). any (λ y. key y == key r) xs ≡ false) same keyed.0) in
        rw (hit, gone) (ground (arith, held, all-unselected p t xs none_left))
    | inr later ↦
        let rest : filter p xs ≡ row ∷ [] = ground arith in
        let other : (key row == key x) ≡ false =
          find_first-absent p (key x) xs keyed.0 (find_first-only p xs rest) in
        let differ : (key x == key row) ≡ false = ground arith in
        rw (differ, later) (all-update_only p t f xs {row = row} keyed.1 rest h)
  ]
