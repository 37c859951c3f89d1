-- ===== src/Server/Auth/Replay.antt =====
-- Replay protection of `verify_gateway_request`, over any interleaving of later requests.
use mathlib.Core.Option.{some-injective}
use smart_parcel_station.Prelude.{
  ℕ, ◌+◌, ◌≤◌, String, Option, some, List, ◌≡◌, ◌≢◌, refl, sym, ap, ◌∙◌, subst, ◌⊎◌, inl, inr,
  or_empty, arith,
}
use smart_parcel_station.Prelude.Int.{ℤ}
use smart_parcel_station.Text.{int_of_text}
use smart_parcel_station.Session.{Result, ok, err, Session, Action, closed, continue, ◌>>=◌}
use smart_parcel_station.Runtime.{Runtime, IsMonotone}
use smart_parcel_station.Server.Models.{Db, Gateway, GatewayNonce}
use smart_parcel_station.Server.Config.{Settings}
use smart_parcel_station.Server.Auth.{
  Request, Headers, validate_gateway_timestamp, remember_gateway_nonce, verify_gateway_request,
}
use smart_parcel_station.Server.Auth.Accept.{IsAccepted, verify_gateway_request-ok}
use smart_parcel_station.Server.Auth.Kept.{
  IsKept, IsKept-mono, accept-IsKept, accepted-IsKept, kept-refused,
}

-- A handler that follows the check leaves the nonces alone, apart from committing them or not.
abbrev pub IsCommitOnly : Action Db (Unit {0}) → Type 0
IsCommitOnly m =
    (s : Session Db)
    → ((m s).1.saved.gateway_nonces ≡ s.saved.gateway_nonces)
      ⊎ ((m s).1.saved.gateway_nonces ≡ s.work.gateway_nonces)

abbrev pub IsForward : Action Db (Unit {0}) → Type 0
IsForward m = (s : Session Db) → s.draws ≤ (m s).1.draws

module _ (rt : Runtime) (settings : Settings) where
  -- The sessions that the server reaches from `s` by serving requests: those of gateways, each the
  -- check and then a handler, and those of others.
  pub data Later (s : Session Db) : Session Db → Type 0 where
    here : Later s s
    gateway_request :
        {t : Session Db}
        → Later s t
        → (req : Request) (h : Headers) (expected : Option String)
          (k : Gateway → Action Db (Unit {0}))
        → ((g : Gateway) → IsCommitOnly (k g))
        → ((g : Gateway) → IsForward (k g))
        → Later s (closed ((verify_gateway_request rt settings req h expected >>= k) t))
    other_request :
        {t : Session Db}
        → Later s t
        → (m : Action Db (Unit {0})) → IsCommitOnly m
        → IsForward m
        → Later s (closed (m t))

  module _ (req : Request) (h : Headers) (expected : Option String) (s : Session Db) where
    -- The check commits nothing, whatever its result.
    verify-saved : (verify_gateway_request rt settings req h expected s).1.saved ≡ s.saved
    unfolding verify_gateway_request validate_gateway_timestamp remember_gateway_nonce
    verify-saved = ground arith

    verify-forward : s.draws ≤ (verify_gateway_request rt settings req h expected s).1.draws
    unfolding verify_gateway_request validate_gateway_timestamp remember_gateway_nonce
    verify-forward = ground arith

  module _ (gateway_id : ℕ) (nonce : String) (value : ℤ) where
    -- Between two requests the nonce is kept, in the committed state.
    abbrev IsKeptSession : Session Db → Type 0
    IsKeptSession s =
        (s.work ≡ s.saved)
        × IsKept rt settings gateway_id nonce value s.saved.gateway_nonces s.draws

    handler-IsKept :
        (m : Action Db (Unit {0})) (s : Session Db)
        → IsCommitOnly m
        → IsForward m
        → IsKept rt settings gateway_id nonce value s.saved.gateway_nonces s.draws
        → IsKept rt settings gateway_id nonce value s.work.gateway_nonces s.draws
        → IsKeptSession (closed (m s))
    handler-IsKept m s only forward ks kw = (refl, go (only s))
      where
        go :
            ((m s).1.saved.gateway_nonces ≡ s.saved.gateway_nonces)
              ⊎ ((m s).1.saved.gateway_nonces ≡ s.work.gateway_nonces)
            → IsKept rt settings gateway_id nonce value (m s).1.saved.gateway_nonces (m s).1.draws
        go (inl e) =
            subst (λ rows. IsKept rt settings gateway_id nonce value rows (m s).1.draws) (sym e)
              (IsKept-mono rt settings gateway_id nonce value _ (forward s) ks)
        go (inr e) =
            subst (λ rows. IsKept rt settings gateway_id nonce value rows (m s).1.draws) (sym e)
              (IsKept-mono rt settings gateway_id nonce value _ (forward s) kw)

    IsKept-work :
        (s : Session Db)
        → IsKeptSession s
        → IsKept rt settings gateway_id nonce value s.work.gateway_nonces s.draws
    IsKept-work s (e, k) =
        subst (λ (db : Db). IsKept rt settings gateway_id nonce value db.gateway_nonces s.draws)
          (sym e) k

    gateway_request-IsKept :
        (req : Request) (h : Headers) (expected : Option String)
        (k : Gateway → Action Db (Unit {0})) (s : Session Db)
        → ((g : Gateway) → IsCommitOnly (k g))
        → ((g : Gateway) → IsForward (k g))
        → IsKeptSession s
        → IsKeptSession (closed ((verify_gateway_request rt settings req h expected >>= k) s))
    gateway_request-IsKept req h expected k s only forward kept =
        go (verify_gateway_request rt settings req h expected s) refl
      where
        go :
            (r : Result Gateway × Session Db)
            → verify_gateway_request rt settings req h expected s ≡ r
            → IsKeptSession (closed (continue r k))
        go (ok g, t) e =
            let saved : t.saved ≡ s.saved =
              ap (λ (x : Result Gateway × Session Db). x.1.saved) (sym e)
              ∙ verify-saved req h expected s in
            let forth : s.draws ≤ t.draws =
              subst (λ (x : Result Gateway × Session Db). s.draws ≤ x.1.draws) e
                (verify-forward req h expected s) in
            let (v, a) = verify_gateway_request-ok rt settings req h expected s e in
            handler-IsKept (k g) t (only g) (forward g)
              (subst
                (λ (db : Db). IsKept rt settings gateway_id nonce value db.gateway_nonces t.draws)
                (sym saved) (IsKept-mono rt settings gateway_id nonce value _ forth kept.1))
              (accept-IsKept rt settings gateway_id nonce value req h expected s v g t a
                (IsKept-work s kept))
        go (err x, t) e =
            let saved : t.saved ≡ s.saved =
              ap (λ (x : Result Gateway × Session Db). x.1.saved) (sym e)
              ∙ verify-saved req h expected s in
            let forth : s.draws ≤ t.draws =
              subst (λ (x : Result Gateway × Session Db). s.draws ≤ x.1.draws) e
                (verify-forward req h expected s) in
            (
              refl,
              subst
                  (λ (db : Db). IsKept rt settings gateway_id nonce value db.gateway_nonces t.draws)
                  (sym saved) (IsKept-mono rt settings gateway_id nonce value _ forth kept.1),
            )

    Later-IsKept : {s t : Session Db} → IsKeptSession s → Later s t → IsKeptSession t
    Later-IsKept kept here = kept
    Later-IsKept kept (gateway_request {t} l req h expected k only forward) =
        gateway_request-IsKept req h expected k t only forward (Later-IsKept kept l)
    Later-IsKept kept (other_request {t} l m only forward) =
        let (e, k) = Later-IsKept kept l in handler-IsKept m t only forward k (IsKept-work t (e, k))

  -- No request is accepted twice. Once a request was accepted and its nonce committed, then
  -- after any later requests, of gateways and others, whose handlers do not write nonces
  -- themselves, a request with the same nonce and the same time stamp is not accepted as coming
  -- from the same gateway, whatever its body, path and signature. The clock must not go back,
  -- and the two readings of the later check must fall in one second.
  pub replay_rejected :
      (req req' : Request) (h h' : Headers) (expected expected' : Option String)
      (s t u w w' : Session Db) (g g' : Gateway)
      → IsMonotone rt
      → verify_gateway_request rt settings req h expected s ≡ (ok g, t)
      → u.work ≡ u.saved
      → u.saved.gateway_nonces ≡ t.work.gateway_nonces
      → t.draws ≤ u.draws
      → Later u w
      → h'.nonce ≡ h.nonce
      → h'.timestamp ≡ h.timestamp
      → rt.clock (w.draws + 1) ≡ rt.clock w.draws
      → verify_gateway_request rt settings req' h' expected' w ≡ (ok g', w')
      → g'.id ≢ g.id
  replay_rejected req req' h h' expected expected' s t u w w' g g' mono e clean kept le later nonce
        timestamp tick e' =
      let (v, a) = verify_gateway_request-ok rt settings req h expected s e in
      let (v', a') = verify_gateway_request-ok rt settings req' h' expected' w e' in
      let texts : some v' ≡ some v =
        sym a'.parsed ∙ ap (λ (x : Option String). int_of_text (or_empty x)) timestamp ∙ a.parsed in
      let same : v' ≡ v = some-injective v' v texts in
      let stored =
        subst
          (λ (rows : List GatewayNonce). IsKept rt settings g.id (or_empty h.nonce) v rows t.draws)
          (sym kept) (accepted-IsKept rt settings req h expected s v g t a) in
      let start =
        IsKept-mono rt settings g.id (or_empty h.nonce) v u.saved.gateway_nonces le stored in
      let last = Later-IsKept g.id (or_empty h.nonce) v (clean, start) later in
      kept-refused rt settings g.id (or_empty h.nonce) v req' h' expected' w g' w' mono tick
        (subst (λ (z : ℤ). IsAccepted rt settings req' h' expected' w z g' w') same a')
        (ap or_empty nonce) (IsKept-work g.id (or_empty h.nonce) v w last)
