-- ===== src/Server/Registration/Spent.antt =====
-- The rows of registration tokens with one hash, where one of them is spent: not pending any more.
use smart_parcel_station.Prelude.{
  String, Bool, true, false, not, ◌&&◌, List, [], ◌∷◌, ◌++◌, ◌≡◌, refl, ap, inl, inr, str_eq, ◌==◌,
  ==-refl, Bool-cases, filter, any, update_where, arith,
}
use smart_parcel_station.Server.Models.{GatewayRegistrationToken}
use smart_parcel_station.Server.Registration.{is_pending}

module _ (hash : String) where
  -- a token with this hash that is not pending
  abbrev pub is_spent : GatewayRegistrationToken → Bool
  is_spent r = str_eq r.token_hash hash && not (is_pending r.status)

  abbrev pub IsSpent : List GatewayRegistrationToken → Type 0
  IsSpent rows = any is_spent rows ≡ true

  pub IsSpent-concat : (xs ys : List GatewayRegistrationToken) → IsSpent xs → IsSpent (xs ++ ys)
  unfolding any
  IsSpent-concat [] ys h = cc
  IsSpent-concat (x ∷ xs) ys h = ground (arith, IsSpent-concat xs ys)

  pub IsSpent-update_where :
      (q : GatewayRegistrationToken → Bool)
      (f : GatewayRegistrationToken → GatewayRegistrationToken)
      (keeps : (r : GatewayRegistrationToken) → is_spent r ≡ true → is_spent (f r) ≡ true)
      (xs : List GatewayRegistrationToken)
      → IsSpent xs
      → IsSpent (update_where q f xs)
  unfolding any update_where
  IsSpent-update_where q f keeps [] h = h
  IsSpent-update_where q f keeps (x ∷ xs) h =
      ground (arith, IsSpent-update_where q f keeps xs, keeps x)

  -- the only row with the hash is marked
  pub IsSpent-marked :
      (f : GatewayRegistrationToken → GatewayRegistrationToken) (xs : List GatewayRegistrationToken)
      {row : GatewayRegistrationToken}
      → ((r : GatewayRegistrationToken) → str_eq r.token_hash hash ≡ true → is_spent (f r) ≡ true)
      → filter (λ r. str_eq r.token_hash hash) xs ≡ row ∷ []
      → IsSpent (update_where (λ r. r.id == row.id) f xs)
  unfolding any update_where filter
  IsSpent-marked f [] {row} marks e = cc
  IsSpent-marked f (x ∷ xs) {row} marks e = elim (Bool-cases (str_eq x.token_hash hash)) [
    | inl here ↦
        let same : x ≡ row = ground arith in
        let hit : (x.id == row.id) ≡ true = rw same (==-refl row.id) in
        ground (arith, hit, marks x here)
    | inr later ↦
        let rest : filter (λ r. str_eq r.token_hash hash) xs ≡ row ∷ [] = ground arith in
        let marked = IsSpent-marked f xs marks rest in ground (arith, marked)
  ]

  none-spent :
      (xs : List GatewayRegistrationToken)
      → filter (λ r. str_eq r.token_hash hash) xs ≡ []
      → any is_spent xs ≡ false
  unfolding any filter
  none-spent [] e = refl
  none-spent (x ∷ xs) e = ground (arith, none-spent xs)

  -- where a token is spent, the only row with its hash is not pending
  pub spent-alone :
      (xs : List GatewayRegistrationToken) {row : GatewayRegistrationToken}
      → IsSpent xs
      → filter (λ r. str_eq r.token_hash hash) xs ≡ row ∷ []
      → is_pending row.status ≡ false
  unfolding any filter
  spent-alone [] {row} h e = cc
  spent-alone (x ∷ xs) {row} h e = elim (Bool-cases (str_eq x.token_hash hash)) [
    | inl here ↦
        let same : x ≡ row = ground arith in
        let rest : filter (λ r. str_eq r.token_hash hash) xs ≡ [] = ground arith in
        let gone = none-spent xs rest in
        ground (arith, gone, ap (λ (r : GatewayRegistrationToken). is_pending r.status) same)
    | inr later ↦
        let rest : filter (λ r. str_eq r.token_hash hash) xs ≡ row ∷ [] = ground arith in
        let there : IsSpent xs = ground arith in spent-alone xs there rest
  ]
