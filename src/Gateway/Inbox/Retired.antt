-- ===== src/Gateway/Inbox/Retired.antt =====
-- What the events of access cards do to the rows of a card that is lost, replaced or disabled.
use smart_parcel_station.Prelude.{
  String, Bool, true, false, not, ◌||◌, Option, none, some, List, [], ◌∷◌, ◌++◌, ◌≡◌, refl, ap, ◌∙◌,
  subst, any, all, find_first, update_where, str_eq, str_eq_iff, ◌==◌, Bool-cases, inl, inr,
}
use smart_parcel_station.Prelude.Keyed.{
  IsKeyedBy, IsKeyedBy-append, IsKeyedBy-update, any-append, all-append, any-update_where,
  all-update_where, find_first-none,
}
use smart_parcel_station.Session.{Result, ok, err}
use smart_parcel_station.Gateway.Inbox.Frame.{Policy}
use smart_parcel_station.Gateway.Enums.{CredentialStatus}
use smart_parcel_station.Gateway.Entities.{LocalNfcCredential}
use smart_parcel_station.Gateway.Inbox.Credentials.{is_terminal, has_value}

-- the status is LOST, REPLACED or DISABLED, or none that is known
abbrev pub is_final : Result CredentialStatus → Bool
is_final (ok status) = is_terminal status
is_final (err e) = true

-- the status is not EXPIRED
abbrev pub is_not_expired : Result CredentialStatus → Bool
is_not_expired (ok CredentialStatus.expired) = false
is_not_expired _ = true

module _ (value : String) where
  -- a row of this card is lost, replaced or disabled
  abbrev pub stays_off : LocalNfcCredential → Bool
  stays_off c = not (has_value (some value) c) || is_terminal c.status

  -- the gateway knows the card, and no row of it can open the gate; the primary keys are distinct
  pub record IsRetired (rows : List LocalNfcCredential) : Type 0 where
    pub keyed : IsKeyedBy (λ c. c.id) rows
    pub known : any (has_value (some value)) rows ≡ true
    pub off : all stays_off rows ≡ true

  pub IsRetired-append :
      (rows : List LocalNfcCredential) (row : LocalNfcCredential)
      → any (λ c. c.id == row.id) rows ≡ false
      → find_first (has_value (some row.credential_value)) rows ≡ none
      → IsRetired rows
      → IsRetired (rows ++ row ∷ [])
  IsRetired-append rows row fresh new r = record {
    keyed = IsKeyedBy-append (λ c. c.id) rows row r.keyed fresh;
    known = any-append (has_value (some value)) rows row r.known;
    off =
        all-append stays_off rows row r.off (elim (Bool-cases (str_eq row.credential_value value)) [
          | inl same ↦
              let gone : any (has_value (some value)) rows ≡ false =
                subst (λ (v : String). any (has_value (some v)) rows ≡ false)
                  ((str_eq_iff row.credential_value value).0 same)
                  (find_first-none (has_value (some row.credential_value)) rows new) in
              let there = r.known in cc
          | inr other ↦ rw other refl
        ]);
  }

  pub IsRetired-update :
      (key : Option String) (f : LocalNfcCredential → LocalNfcCredential)
      (rows : List LocalNfcCredential) (row : LocalNfcCredential)
      → find_first (has_value key) rows ≡ some row
      → ((c : LocalNfcCredential) → (f c).id ≡ c.id)
      → ((c : LocalNfcCredential) → (f c).credential_value ≡ c.credential_value)
      → stays_off (f row) ≡ true
      → IsRetired rows
      → IsRetired (update_where (λ c. c.id == row.id) f rows)
  IsRetired-update key f rows row found same_id same_value held r = record {
    keyed = IsKeyedBy-update (λ c. c.id) _ f rows same_id r.keyed;
    known =
        any-update_where (λ c. c.id) (has_value (some value)) _ f rows
          (λ c. ap (λ v. str_eq v value) (same_value c))
        ∙ r.known;
    off = all-update_where (λ c. c.id) (has_value key) stays_off f rows r.keyed found held r.off;
  }

  -- the same of the cards that are committed, where this is asked for
  abbrev IsRetiredWhen : Bool → List LocalNfcCredential → Type 0
  IsRetiredWhen true rows = IsRetired rows
  IsRetiredWhen false rows = Unit

  pub IsRetiredWhen-carry :
      (both : Bool) (rows : List LocalNfcCredential) → IsRetired rows → IsRetiredWhen both rows
  IsRetiredWhen-carry true rows r = r
  IsRetiredWhen-carry false rows r = tt

  -- the card is retired in the uncommitted state, and with `both` in the committed one
  abbrev pub retired_card : Bool → Policy
  retired_card both = record {
    in_work = IsRetired;
    in_saved = IsRetiredWhen both;
    carry = IsRetiredWhen-carry both;
  }
