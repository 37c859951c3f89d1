-- ===== src/Session/Laws.antt =====
-- Inversion of actions that succeed, and what each step leaves unchanged.
use smart_parcel_station.Prelude.{
  Bool, false, Option, none, some, List, [], ◌∷◌, ◌≡◌, refl, ap, ◌⊎◌, inl, inr, arith,
}
use smart_parcel_station.Session.{
  Error, Result, ok, err, Session, Action, or_raise, raise_if, one_or_none, continue, ◌>>=◌,
}

module _ {D A B : Type 0} where
  pub continue-ok :
      (r : Result A × Session D) (f : A → Action D B) {b : B} {t : Session D}
      → continue r f ≡ (ok b, t)
      → (a : A) × (s' : Session D) × (r ≡ (ok a, s')) × (f a s' ≡ (ok b, t))
  continue-ok (ok a, s) f h = (a, s, refl, h)
  continue-ok (err e, s) f h = cc

  -- A block that succeeds has succeeded at its first step, and at the rest.
  pub bind-ok :
      (m : Action D A) (f : A → Action D B) (s : Session D) {b : B} {t : Session D}
      → (m >>= f) s ≡ (ok b, t)
      → (a : A) × (s' : Session D) × (m s ≡ (ok a, s')) × (f a s' ≡ (ok b, t))
  bind-ok m f s {b} {t} h = continue-ok (m s) f h

  -- A block computes its first step, then the rest.
  pub bind-step :
      (m : Action D A) (f : A → Action D B) (s : Session D) {a : A} {s' : Session D}
      → m s ≡ (ok a, s')
      → (m >>= f) s ≡ f a s'
  bind-step m f s e = ap (λ r. continue r f) e

module _ {D A : Type 0} where
  pub or_raise-ok :
      (o : Option A) (e : Error) (s : Session D) {a : A} {t : Session D}
      → or_raise o e s ≡ (ok a, t)
      → (o ≡ some a) × (t ≡ s)
  or_raise-ok none e s h = cc
  or_raise-ok (some a) e s h = ground arith

  -- `scalar_one_or_none` returns a row only where it is the only one.
  pub one_or_none-ok_some :
      (rows : List A) (s : Session D) {a : A} {t : Session D}
      → one_or_none rows s ≡ (ok (some a), t)
      → (rows ≡ a ∷ []) × (t ≡ s)
  one_or_none-ok_some [] s h = ground arith
  one_or_none-ok_some (x ∷ []) s h = ground arith
  one_or_none-ok_some (x ∷ y ∷ rows) s h = ground arith

  pub one_or_none-ok_none :
      (rows : List A) (s : Session D) {t : Session D}
      → one_or_none rows s ≡ (ok none, t)
      → (rows ≡ []) × (t ≡ s)
  one_or_none-ok_none [] s h = ground arith
  one_or_none-ok_none (x ∷ []) s h = ground arith
  one_or_none-ok_none (x ∷ y ∷ rows) s h = ground arith

pub raise_if-ok :
    {D : Type 0} (b : Bool) (e : Error) (s : Session D) {u : Unit {0}} {t : Session D}
    → raise_if b e s ≡ (ok u, t)
    → (b ≡ false) × (t ≡ s)
raise_if-ok b e s h = ground arith

pub Result-cases :
    {A : Type 0} (r : Result A) → ((a : A) × (r ≡ ok a)) ⊎ ((e : Error) × (r ≡ err e))
Result-cases (ok a) = inl (a, refl)
Result-cases (err e) = inr (e, refl)
