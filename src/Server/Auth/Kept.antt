-- ===== src/Server/Auth/Kept.antt =====
-- The nonces that `remember_gateway_nonce` keeps, and what the check makes of one that is kept.
use smart_parcel_station.Prelude.{
  ℕ, ◌+◌, ◌≤◌, ◌<◌, String, Bool, true, false, not, ◌&&◌, Option, List, [], ◌∷◌, ◌++◌, ◌≡◌, ◌≢◌,
  sym, subst, ◌⊎◌, inl, inr, Bool-cases, str_eq_refl, or_empty, ◌==◌, filter, any, arith,
}
use smart_parcel_station.Prelude.Int.{ℤ, pos, negsuc, pos_part, neg_part, ltb_ℤ, sub_ℕ, distance}
use smart_parcel_station.Session.{Session}
use smart_parcel_station.Runtime.{Runtime, IsMonotone}
use smart_parcel_station.Server.Models.{Db, Gateway, GatewayNonce}
use smart_parcel_station.Server.Config.{Settings}
use smart_parcel_station.Server.Auth.{Request, Headers, is_old, same_nonce}
use smart_parcel_station.Server.Auth.Accept.{IsAccepted, recent, new_nonce}

abbrev eq_ℤ : ℤ → ℤ → Bool
eq_ℤ a b = (pos_part a == pos_part b) && (neg_part a == neg_part b)

eq_ℤ_refl : (a : ℤ) → eq_ℤ a a ≡ true
eq_ℤ_refl (pos n) = ground arith
eq_ℤ_refl (negsuc n) = ground arith

module _ {ℓ} {A : Type ℓ} (p : A → Bool) where
  any-append_left : (xs ys : List A) → any p xs ≡ true → any p (xs ++ ys) ≡ true
  unfolding any
  any-append_left [] ys h = cc
  any-append_left (x ∷ xs) ys h = ground (arith, any-append_left xs ys)

  any-append_last : (xs : List A) (x : A) → p x ≡ true → any p (xs ++ x ∷ []) ≡ true
  unfolding any
  any-append_last [] x h = ground arith
  any-append_last (y ∷ xs) x h = ground (arith, any-append_last xs x h)

old-far :
    (c d tolerance : ℕ) (v : ℤ)
    → c ≤ d
    → ltb_ℤ v (sub_ℕ c tolerance) ≡ true
    → ¬ (distance d v ≤ tolerance)
old-far c d tolerance (pos n) le o near = ground arith
old-far c d tolerance (negsuc n) le o near = ground arith

near-young :
    (c tolerance : ℕ) (v : ℤ) → distance c v ≤ tolerance → ltb_ℤ v (sub_ℕ c tolerance) ≡ false
near-young c tolerance (pos n) near = ground arith
near-young c tolerance (negsuc n) near = ground arith

module _ (rt : Runtime) (settings : Settings) where
  module _ (gateway_id : ℕ) (nonce : String) (value : ℤ) where
    abbrev tolerance : ℕ
    tolerance = settings.gateway_signature_tolerance_seconds

    abbrev is_marked : GatewayNonce → Bool
    is_marked row = same_nonce rt gateway_id nonce row && eq_ℤ row.timestamp value

    -- the time stamp is before the cutoff of a reading of the clock that was made
    abbrev IsPast : ℕ → Type 0
    IsPast n = (j : ℕ) × (j < n) × (ltb_ℤ value (sub_ℕ (rt.clock j) tolerance) ≡ true)

    -- The nonce is stored, or its time stamp has run out.
    abbrev pub IsKept : List GatewayNonce → ℕ → Type 0
    IsKept rows n = (any is_marked rows ≡ true) ⊎ IsPast n

    pub IsKept-mono : (rows : List GatewayNonce) {m n : ℕ} → m ≤ n → IsKept rows m → IsKept rows n
    IsKept-mono rows le (inl x) = inl x
    IsKept-mono rows le (inr (j, b, o)) = inr (j, omega arith, o)

    any-recent :
        (rows : List GatewayNonce) (j : ℕ)
        → any is_marked rows ≡ true
        → ltb_ℤ value (sub_ℕ (rt.clock j) tolerance) ≡ false
        → any is_marked (filter (λ row. not (is_old rt (rt.clock j) tolerance row)) rows) ≡ true
    unfolding any filter
    any-recent [] j h o = cc
    any-recent (r ∷ rows) j h o = ground (arith, any-recent rows j)

    any-same :
        (rows : List GatewayNonce)
        → any is_marked rows ≡ true
        → any (same_nonce rt gateway_id nonce) rows ≡ true
    unfolding any
    any-same [] h = cc
    any-same (r ∷ rows) h = ground (arith, any-same rows)

    recent-IsKept :
        (req : Request) (h : Headers) (rows : List GatewayNonce) (n j : ℕ)
        → j < n
        → IsKept rows j
        → IsKept (recent rt settings req h (rt.clock j) tolerance rows) n
    recent-IsKept req h rows n j lt (inr (i, b, o)) = inr (i, omega arith, o)
    recent-IsKept req h rows n j lt (inl m) =
        elim (Bool-cases (ltb_ℤ value (sub_ℕ (rt.clock j) tolerance))) [
          | inl o ↦ inr (j, lt, o)
          | inr o ↦ inl (any-recent rows j m o)
        ]

    IsKept-append :
        (rows : List GatewayNonce) (x : GatewayNonce) (n : ℕ)
        → IsKept rows n
        → IsKept (rows ++ x ∷ []) n
    IsKept-append rows x n (inl m) = inl (any-append_left is_marked rows (x ∷ []) m)
    IsKept-append rows x n (inr p) = inr p

    -- An accepted request keeps what is kept.
    pub accept-IsKept :
        (req : Request) (h : Headers) (expected : Option String) (s : Session Db) (v : ℤ)
        (g : Gateway) (t : Session Db)
        → IsAccepted rt settings req h expected s v g t
        → IsKept s.work.gateway_nonces s.draws
        → IsKept t.work.gateway_nonces t.draws
    accept-IsKept req h expected s v g t a k =
        let j = s.draws + 1 in
        let rows = recent rt settings req h (rt.clock j) tolerance s.work.gateway_nonces in
        subst (λ (u : Session Db). IsKept u.work.gateway_nonces u.draws) (sym a.result)
          (IsKept-append rows (new_nonce rt settings req h g v rows) (j + 1) (
            recent-IsKept req h s.work.gateway_nonces (j + 1) j (omega arith)
              (IsKept-mono s.work.gateway_nonces (omega arith) k)))

    -- With the clock still in the second of the time stamp check, what is kept is refused.
    pub kept-refused :
        (req : Request) (h : Headers) (expected : Option String) (s : Session Db) (g : Gateway)
        (t : Session Db)
        → IsMonotone rt
        → rt.clock (s.draws + 1) ≡ rt.clock s.draws
        → IsAccepted rt settings req h expected s value g t
        → or_empty h.nonce ≡ nonce
        → IsKept s.work.gateway_nonces s.draws
        → g.id ≢ gateway_id
    kept-refused req h expected s g t mono tick a named (inr (j, b, o)) same =
        old-far (rt.clock j) (rt.clock s.draws) tolerance value (mono j s.draws (omega arith)) o
          a.fresh
    kept-refused req h expected s g t mono tick a named (inl m) same =
        let young : ltb_ℤ value (sub_ℕ (rt.clock (s.draws + 1)) tolerance) ≡ false =
          rw tick (near-young (rt.clock s.draws) tolerance value a.fresh) in
        let left = any-recent s.work.gateway_nonces (s.draws + 1) m young in
        let found =
          any-same
            (recent rt settings req h (rt.clock (s.draws + 1)) tolerance s.work.gateway_nonces)
            left in
        let unseen =
          subst
            (λ (i : ℕ).
              any (same_nonce rt i (or_empty h.nonce))
                (recent rt settings req h (rt.clock (s.draws + 1)) tolerance s.work.gateway_nonces)
              ≡ false)
            same a.unseen in
        let unseen' =
          subst
            (λ (n : String).
              any (same_nonce rt gateway_id n)
                (recent rt settings req h (rt.clock (s.draws + 1)) tolerance s.work.gateway_nonces)
              ≡ false)
            named unseen in
        cc

  -- the nonce that the check of an accepted request records
  pub accepted-IsKept :
      (req : Request) (h : Headers) (expected : Option String) (s : Session Db) (v : ℤ)
      (g : Gateway) (t : Session Db)
      → IsAccepted rt settings req h expected s v g t
      → IsKept g.id (or_empty h.nonce) v t.work.gateway_nonces t.draws
  accepted-IsKept req h expected s v g t a =
      let rows =
        recent rt settings req h (rt.clock (s.draws + 1))
          settings.gateway_signature_tolerance_seconds s.work.gateway_nonces in
      subst (λ (u : Session Db). IsKept g.id (or_empty h.nonce) v u.work.gateway_nonces u.draws)
        (sym a.result)
        (inl (
          any-append_last (is_marked g.id (or_empty h.nonce) v) rows
            (new_nonce rt settings req h g v rows)
            (ground (arith, str_eq_refl (or_empty h.nonce), eq_ℤ_refl v))))
