-- ===== src/Gateway/SecurityAudit/Redacted.antt =====
-- The secrets of an event do not reach its audit row.
use smart_parcel_station.Prelude.{
  String, true, false, Option, some, ◌≡◌, refl, subst, inl, inr, Bool-cases,
}
use smart_parcel_station.Json.{Fields, end, entry}
use smart_parcel_station.Session.{Session}
use smart_parcel_station.Runtime.{Runtime}
use smart_parcel_station.Gateway.Entities.{LocalDb}
use smart_parcel_station.Gateway.Outside.{Outside}
use smart_parcel_station.Gateway.SecurityAudit.{
  is_sensitive, safe_fields, safe_detail, record_event,
}

-- the same keys in the same order, and the same values except at sensitive keys
abbrev pub SamePublic : Fields → Fields → Type 0
SamePublic end end = Unit
SamePublic end (entry _ _ _) = ⊥
SamePublic (entry _ _ _) end = ⊥
SamePublic (entry j v p) (entry k w q) = (j ≡ k) × (is_sensitive j ≡ false → v ≡ w) × SamePublic p q

module _ (rt : Runtime) where
  safe_fields-SamePublic : (p q : Fields) → SamePublic p q → safe_fields rt p ≡ safe_fields rt q
  unfolding safe_fields
  safe_fields-SamePublic end end h = refl
  safe_fields-SamePublic end (entry k w q) h = absurd h
  safe_fields-SamePublic (entry j v p) end h = absurd h
  safe_fields-SamePublic (entry j v p) (entry k w q) (key, value, rest) =
      let later = safe_fields-SamePublic p q rest in
      elim (Bool-cases (is_sensitive j)) [
        | inl secret ↦
            let too : is_sensitive k ≡ true =
              subst (λ (k : String). is_sensitive k ≡ true) key secret in
            rw (secret, too, key, later) refl
        | inr public ↦
            let too : is_sensitive k ≡ false =
              subst (λ (k : String). is_sensitive k ≡ false) key public in
            rw (public, too, key, value public, later) refl
      ]

  -- What stands under a sensitive key does not reach the audit. For two details with the same keys in
  -- the same order, and the same values except under keys that are sensitive, the same row is written:
  -- `record` has the same result and leaves the same tables.
  pub record_event-SamePublic :
      (out : Outside) (event : String) (ip actor_type actor_id path reason : Option String)
      (p q : Fields) (s : Session LocalDb)
      → SamePublic p q
      → record_event rt out event ip actor_type actor_id path reason (some p) s
        ≡ record_event rt out event ip actor_type actor_id path reason (some q) s
  unfolding record_event safe_detail
  record_event-SamePublic out event ip actor_type actor_id path reason p q s same =
      rw (safe_fields-SamePublic p q same) refl
