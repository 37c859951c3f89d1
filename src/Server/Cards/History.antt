-- ===== src/Server/Cards/History.antt =====
-- Any sequence of requests that change cards.
use smart_parcel_station.Prelude.{
  ℕ, String, false, Option, some, List, [], ◌∷◌, ◌≡◌, refl, sym, ◌==◌, find_first, subst, arith,
}
use smart_parcel_station.Session.{Session, opened, closed}
use smart_parcel_station.Runtime.{Runtime, AssignsFresh}
use smart_parcel_station.Server.Enums.{AccessCredentialType}
use smart_parcel_station.Server.Models.{Db, User, UserAccessCredential}
use smart_parcel_station.Server.Cards.{
  is_active, bind_user_card, report_card_lost, disable_user_card,
}
use smart_parcel_station.Server.Cards.Lifecycle.{Evolves, IsKeyed}
use smart_parcel_station.Server.Cards.Safety.{bind_user_card-Evolves}
use smart_parcel_station.Server.Cards.Retiring.{report_card_lost-Evolves, disable_user_card-Evolves}

-- the requests that write to the table of cards
pub data CardRequest : Type 0 where
  bind : ℕ → ℕ → AccessCredentialType → String → Option String → User → CardRequest
  report_lost : User → ℕ → String → CardRequest
  disable : ℕ → ℕ → String → User → CardRequest

module _ (k : ℕ) where
  -- A card that is not active keeps its whole row.
  Evolves-find :
      (xs ys : List UserAccessCredential) (c : UserAccessCredential)
      → Evolves xs ys
      → is_active c.status ≡ false
      → find_first (λ c. c.id == k) xs ≡ some c
      → find_first (λ c. c.id == k) ys ≡ some c
  unfolding find_first
  Evolves-find [] ys c e h f = cc
  Evolves-find (x ∷ xs) [] c e h f = absurd e
  Evolves-find (x ∷ xs) (y ∷ ys) c e h f = ground (arith, e.0, Evolves-find xs ys c e.1 h)

module _ (rt : Runtime) where
  -- one request, at the end of which what is not committed is gone
  serve : CardRequest → Session Db → Session Db
  serve (bind u st ty v reason admin) s = closed (bind_user_card rt u st ty v reason admin s)
  serve (report_lost user card reason) s = closed (report_card_lost rt user card reason s)
  serve (disable u card reason staff) s = closed (disable_user_card rt u card reason staff s)

  unfoldable pub serve_all : List CardRequest → Session Db → Session Db
  unfolding serve
  serve_all [] s = s
  serve_all (r ∷ rs) s = serve_all rs (serve r s)

module _ (rt : Runtime) (fresh : AssignsFresh rt) where
  -- what a request leaves behind: a table that evolved, and nothing pending
  module _ (db : Db) (n : ℕ) (keyed : IsKeyed db.user_access_credentials) where
    serve-Evolves :
        (r : CardRequest)
        → let t = serve rt r (opened db n) in
          Evolves db.user_access_credentials t.saved.user_access_credentials
          × IsKeyed t.saved.user_access_credentials
          × (t.work ≡ t.saved)
    unfolding serve
    serve-Evolves (bind u st ty v reason admin) =
        let (e, k) = bind_user_card-Evolves rt fresh u st v reason admin ty db n keyed in
        (e, k, refl)
    serve-Evolves (report_lost user card reason) =
        let (e, k) = report_card_lost-Evolves rt reason db n keyed user card in (e, k, refl)
    serve-Evolves (disable u card reason staff) =
        let (e, k) = disable_user_card-Evolves rt reason db n keyed u card staff in (e, k, refl)

  -- A card that is lost, replaced, disabled or expired keeps its whole row, whatever requests
  -- to bind, to report and to disable cards follow, in whatever order and whether they succeed
  -- or fail: it never becomes active again. The primary keys of the table must be distinct, and
  -- new ones fresh.
  pub retired_stays :
      (rs : List CardRequest) (db : Db) (n k : ℕ) (card : UserAccessCredential)
      → IsKeyed db.user_access_credentials
      → is_active card.status ≡ false
      → find_first (λ c. c.id == k) db.user_access_credentials ≡ some card
      → find_first (λ c. c.id == k) (serve_all rt rs (opened db n)).saved.user_access_credentials
        ≡ some card
  unfolding serve_all
  retired_stays [] db n k card keyed off here = here
  retired_stays (r ∷ rs) db n k card keyed off here =
      let (evolves, unique, clean) = serve-Evolves db n keyed r in
      let t = serve rt r (opened db n) in
      subst
        (λ (d : Db).
          find_first (λ c. c.id == k)
            (serve_all rt rs (record t { work = d })).saved.user_access_credentials
          ≡ some card)
        (sym clean)
        (retired_stays rs t.saved t.draws k card unique off (
          Evolves-find k db.user_access_credentials t.saved.user_access_credentials card evolves off
            here))
