-- ===== src/Server/Auth/Tick.antt =====
-- Where the two readings of the clock in one check of a request fall in different seconds.
use mathlib.Core.Option.{some-injective}
use smart_parcel_station.Prelude.{
  ◌+◌, ◌≤◌, String, Bool, true, false, not, Option, some, List, [], ◌∷◌, ◌++◌, ◌≡◌, refl, sym, ap,
  subst, ◌∙◌, or_empty, str_eq, filter, any, arith,
}
use smart_parcel_station.Prelude.Int.{ℤ, ltb_ℤ, sub_ℕ, distance}
use smart_parcel_station.Text.{int_of_text}
use smart_parcel_station.Session.{ok, Session}
use smart_parcel_station.Runtime.{Runtime}
use smart_parcel_station.Server.Models.{Db, Gateway, GatewayNonce}
use smart_parcel_station.Server.Config.{Settings}
use smart_parcel_station.Server.Auth.{Request, Headers, is_old, same_nonce, verify_gateway_request}
use smart_parcel_station.Server.Auth.Accept.{
  recent, new_nonce, with_nonce, verify_gateway_request-ok, verify_gateway_request_complete,
}

any-filter-concat {ℓ} :
    {A : Type ℓ} (p q : A → Bool) (xs : List A) (x : A)
    → any p xs ≡ false
    → q x ≡ false
    → any p (filter q (xs ++ x ∷ [])) ≡ false
unfolding any filter
any-filter-concat p q [] x h k = ground arith
any-filter-concat p q (y ∷ xs) x h k = ground (arith, any-filter-concat p q xs x)

module _ (rt : Runtime) (settings : Settings) (req : Request) (h : Headers)
    (expected : Option String) where
  -- A request is accepted a second time, with its nonce still stored, where its time stamp is just
  -- within the tolerance at the first reading of the clock and before the cutoff at the second: the
  -- stored nonce is dropped between the two tests. The gateways must not have changed in between.
  pub replay_at_tick :
      (s t u : Session Db) (g : Gateway) (value : ℤ)
      → verify_gateway_request rt settings req h expected s ≡ (ok g, t)
      → int_of_text (or_empty h.timestamp) ≡ some value
      → u.work.gateways ≡ s.work.gateways
      → u.work.gateway_nonces ≡ t.work.gateway_nonces
      → distance (rt.clock u.draws) value ≤ settings.gateway_signature_tolerance_seconds
      → ltb_ℤ value (sub_ℕ (rt.clock (u.draws + 1)) settings.gateway_signature_tolerance_seconds)
        ≡ true
      → (u' : Session Db) × (verify_gateway_request rt settings req h expected u ≡ (ok g, u'))
  replay_at_tick s t u g value e parsed gateways nonces near old =
      let (v, a) = verify_gateway_request-ok rt settings req h expected s e in
      let rows =
        recent rt settings req h (rt.clock (s.draws + 1))
          settings.gateway_signature_tolerance_seconds s.work.gateway_nonces in
      let same : v ≡ value = some-injective v value (sym a.parsed ∙ parsed) in
      let kept : u.work.gateway_nonces ≡ rows ++ new_nonce rt settings req h g v rows ∷ [] =
        nonces ∙ ap (λ (x : Session Db). x.work.gateway_nonces) a.result in
      let gone =
        any-filter-concat (same_nonce rt g.id (or_empty h.nonce))
          (λ row.
            not
              (is_old rt (rt.clock (u.draws + 1)) settings.gateway_signature_tolerance_seconds row))
          rows (new_nonce rt settings req h g v rows) a.unseen
          (subst
            (λ (z : ℤ).
              not (
                ltb_ℤ z
                  (sub_ℕ (rt.clock (u.draws + 1)) settings.gateway_signature_tolerance_seconds))
              ≡ false)
            (sym same) (ap not old)) in
      let u' = with_nonce rt settings req h g value (record u { draws = u.draws + 1 }) in
      (
        u',
        verify_gateway_request_complete rt settings req h expected u value g u' (record {
          headers = a.headers;
          listed =
              subst
                (λ (l : List Gateway).
                  filter (λ g'. str_eq g'.gateway_code (or_empty h.gateway_code)) l ≡ g ∷ [])
                (sym gateways) a.listed;
          named = a.named;
          enabled = a.enabled;
          parsed = parsed;
          fresh = near;
          body = a.body;
          signed = a.signed;
          unseen =
              subst
                (λ (l : List GatewayNonce).
                  any (same_nonce rt g.id (or_empty h.nonce)) (
                    recent rt settings req h (rt.clock (u.draws + 1))
                      settings.gateway_signature_tolerance_seconds l)
                  ≡ false)
                (sym kept) gone;
          result = refl;
        }),
      )
