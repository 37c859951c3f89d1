-- ===== src/Session.antt =====
-- A SQLAlchemy session as the program uses it: what is committed, the uncommitted state that the
-- code reads and writes, and exceptions. `draws` counts the readings of the clock and the random
-- values that were taken so far.
pub mod Laws
use smart_parcel_station.Prelude.{
  ℕ, suc, ◌+◌, String, Bool, true, false, Option, none, some, List, [], ◌∷◌, ◌≡◌, refl,
  if◌then◌else◌, any, filter,
}

-- HTTPException with its status code and detail; `crash` is any other exception
pub data Error : Type 0 where
  http : ℕ → String → Error
  crash : String → Error

pub data Result (A : Type 0) : Type 0 where
  ok : A → Result A
  err : Error → Result A

pub record Session (D : Type 0) : Type 0 where
  pub saved : D
  pub work : D
  pub draws : ℕ

abbrev pub Action : Type 0 → Type 0 → Type 0
Action D A = Session D → Result A × Session D

module _ {D A : Type 0} where
  abbrev pub pure : A → Action D A
  pure a s = (ok a, s)

  abbrev pub raise : Error → Action D A
  raise e s = (err e, s)

  -- a value read off the uncommitted state
  abbrev pub gets : (D → A) → Action D A
  gets f s = (ok (f s.work), s)

  abbrev pub or_raise : Option A → Error → Action D A
  or_raise none e = raise e
  or_raise (some a) _ = pure a

  -- the next reading of a source of times or of random texts
  abbrev pub draw : (ℕ → A) → Action D A
  draw f s = (ok (f s.draws), record s { draws = s.draws + 1 })

  abbrev pub handled : Result A × Session D → (Error → Action D A) → Result A × Session D
  handled (ok a, s) h = (ok a, s)
  handled (err e, s) h = h e s

  -- `try: m; except: h`
  abbrev pub catch : Action D A → (Error → Action D A) → Action D A
  catch m h s = handled (m s) h

abbrev pub continue :
    {D A B : Type 0} → Result A × Session D → (A → Action D B) → Result B × Session D
continue (ok a, s) f = f a s
continue (err e, s) f = (err e, s)

infixl 5 ◌>>=◌ ◌>>◌
abbrev pub ◌>>=◌ : {D A B : Type 0} → Action D A → (A → Action D B) → Action D B
◌>>=◌ m f s = continue (m s) f

abbrev pub ◌>>◌ : {D A B : Type 0} → Action D A → Action D B → Action D B
m >> k = m >>= λ _. k

module _ {D : Type 0} where
  abbrev pub raise_if : Bool → Error → Action D (Unit {0})
  raise_if c e s = (if c then err e else ok tt, s)

  abbrev pub modify : (D → D) → Action D (Unit {0})
  modify f s = (ok tt, record s { work = f s.work })

  abbrev pub commit : Action D (Unit {0})
  commit s = (ok tt, record s { saved = s.work })

  abbrev pub rollback : Action D (Unit {0})
  rollback s = (ok tt, record s { work = s.saved })

  abbrev pub when : Bool → Action D (Unit {0}) → Action D (Unit {0})
  when b m = if b then m else pure tt

  -- a `for` loop
  unfoldable pub for_each : {A : Type 0} → List A → (A → Action D (Unit {0})) → Action D (Unit {0})
  for_each [] f = pure tt
  for_each (x ∷ xs) f = f x >>= λ _. for_each xs f

-- a session that is just opened, after a number of draws
abbrev pub opened : {D : Type 0} → D → ℕ → Session D
opened db n = record { saved = db; work = db; draws = n }

-- nothing is uncommitted
abbrev pub IsClosed : {D : Type 0} → Session D → Type 0
IsClosed s = s.work ≡ s.saved

-- the end of a request, which discards what was not committed
abbrev pub closed : {D A : Type 0} → Result A × Session D → Session D
closed (_, s) = record s { work = s.saved }

-- `scalar_one_or_none` on the rows of a selection
abbrev pub one_or_none : {D A : Type 0} → List A → Action D (Option A)
one_or_none [] = pure none
one_or_none (x ∷ []) = pure (some x)
one_or_none (_ ∷ _ ∷ _) = raise (crash "MultipleResultsFound")
