-- ===== src/Server/Listing.antt =====
-- How the services order and limit the rows that they list.
use smart_parcel_station.Prelude.{ℕ, zero, suc, List, [], ◌∷◌, leb, if◌then◌else◌}

module _ {A : Type 0} (key : A → ℕ) where
  insert_by : A → List A → List A
  insert_by r [] = r ∷ []
  insert_by r (x ∷ rest) =
      let later = x ∷ insert_by r rest in if leb (key x) (key r) then r ∷ x ∷ rest else later

  -- `order_by(T.id.desc())`
  unfoldable pub newest_first : List A → List A
  unfolding insert_by
  newest_first [] = []
  newest_first (r ∷ rest) = insert_by r (newest_first rest)

-- `limit(n)`
unfoldable pub first_rows : {A : Type 0} → ℕ → List A → List A
first_rows zero rows = []
first_rows (suc n) [] = []
first_rows (suc n) (r ∷ rows) = r ∷ first_rows n rows
