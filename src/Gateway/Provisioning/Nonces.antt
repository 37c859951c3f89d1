-- ===== src/Gateway/Provisioning/Nonces.antt =====
-- The set of nonces is bounded, and refuses what it holds.
use smart_parcel_station.Prelude.{
  ℕ, ◌+◌, ◌≤◌, ◌<◌, String, true, false, ◌||◌, Option, none, some, List, [], ◌∷◌, ◌++◌, ◌≡◌, ◌⊎◌,
  inl, inr, refl, length, str_eq, str_eq_iff, is_present, or_empty, any, filter, Bool-cases, arith,
}
use smart_parcel_station.Prelude.Int.{ℤ, distance}
use smart_parcel_station.Text.{int_of_text}
use smart_parcel_station.Runtime.{Runtime}
use smart_parcel_station.Gateway.Provisioning.{
  nonce_window_seconds, max_nonce_cache, is_seen, discard, LocalHeaders, check_and_record_nonce,
  body_matches, check_nonce, check_time, validate_local_timestamp,
}

-- the order of a set names one of its items
abbrev pub PicksItem : (List String → String) → Type 0
PicksItem pick =
    (n : String) (seen : List String) → is_seen (pick (seen ++ n ∷ [])) (seen ++ n ∷ []) ≡ true

length-append : (seen : List String) (n : String) → length (seen ++ n ∷ []) ≡ length seen + 1
length-append [] n = refl
length-append (x ∷ seen) n = omega (arith, length-append seen n)

length-discard_le : (x : String) (seen : List String) → length (discard x seen) ≤ length seen
unfolding discard filter
length-discard_le x [] = omega arith
length-discard_le x (n ∷ seen) = ground (arith, length-discard_le x seen)

length-discard :
    (x : String) (seen : List String)
    → is_seen x seen ≡ true
    → length (discard x seen) < length seen
unfolding discard filter is_seen any
length-discard x [] h = ground (arith, h)
length-discard x (n ∷ seen) h = elim (Bool-cases (str_eq n x)) [
  | inl same ↦ rw same (omega (arith, length-discard_le x seen))
  | inr other ↦
      let rest = length-discard x seen (ground (arith, h, other)) in rw other (omega (arith, rest))
]

is_seen-append :
    (x n : String) (seen : List String) → is_seen x (seen ++ n ∷ []) ≡ is_seen x seen || str_eq n x
unfolding is_seen any
is_seen-append x n [] = ground arith
is_seen-append x n (m ∷ seen) = ground (arith, is_seen-append x n seen)

module _ (pick : List String → String) where
  -- The set of nonces never has more than 2048 items: where it has at most that many, it has at most
  -- that many after any nonce, if the order of the set names an item of it.
  pub check_and_record_nonce-length :
      (nonce : String) (seen : List String)
      → PicksItem pick
      → length seen ≤ max_nonce_cache
      → length (check_and_record_nonce pick nonce seen).1 ≤ max_nonce_cache
  unfolding check_and_record_nonce
  check_and_record_nonce-length nonce seen picks short =
      let added = seen ++ nonce ∷ [] in
      ground (
        arith,
        length-append seen nonce,
        length-discard (pick added) added (picks nonce seen),
        short,
      )

  -- a sequence of requests
  unfoldable pub record_all : List String → List String → List String
  record_all [] seen = seen
  record_all (n ∷ ns) seen = record_all ns (check_and_record_nonce pick n seen).1

  grows :
      (x n : String) (seen : List String)
      → length seen < max_nonce_cache
      → (is_seen x seen ≡ true) ⊎ (n ≡ x)
      → (is_seen x (check_and_record_nonce pick n seen).1 ≡ true)
        × (length (check_and_record_nonce pick n seen).1 ≤ length seen + 1)
  unfolding check_and_record_nonce
  grows x n seen room h =
      ground (arith, length-append seen n, is_seen-append x n seen, str_eq_iff n x, room, h)

  record_all-seen :
      (x : String) (ns seen : List String)
      → length seen + length ns ≤ max_nonce_cache
      → (is_seen x seen ≡ true) ⊎ (is_seen x ns ≡ true)
      → is_seen x (record_all ns seen) ≡ true
  unfolding record_all is_seen any
  record_all-seen x [] seen room h = ground (arith, h)
  record_all-seen x (n ∷ ns) seen room h = elim (Bool-cases (is_seen x seen)) [
    | inl old ↦
        let (kept, size) = grows x n seen (omega (arith, room)) (inl old) in
        record_all-seen x ns _ (omega (arith, room, size)) (inl kept)
    | inr new ↦ elim (Bool-cases (str_eq n x)) [
      | inl now ↦
          let (kept, size) = grows x n seen (omega (arith, room)) (inr ((str_eq_iff n x).0 now)) in
          record_all-seen x ns _ (omega (arith, room, size)) (inl kept)
      | inr later ↦
          let (_, size) = grows n n seen (omega (arith, room)) (inr refl) in
          record_all-seen x ns _ (omega (arith, room, size)) (inr (ground (arith, h, new, later)))
    ]
  ]

  -- A nonce that was recorded is refused as long as the set is not full: after any sequence of
  -- nonces that, with those that were there, are at most 2048, the check of a nonce that was there or came in the
  -- sequence answers false and leaves the set as it is.
  pub check_and_record_nonce-replayed :
      (x : String) (ns seen : List String)
      → length seen + length ns ≤ max_nonce_cache
      → (is_seen x seen ≡ true) ⊎ (is_seen x ns ≡ true)
      → check_and_record_nonce pick x (record_all ns seen) ≡ (false, record_all ns seen)
  unfolding check_and_record_nonce
  check_and_record_nonce-replayed x ns seen room h = rw (record_all-seen x ns seen room h) refl

  module _ (rt : Runtime) (h : LocalHeaders) (body : String) where
    -- What an accepted request has.
    pub record IsFresh (now : ℕ) (seen after : List String) : Type 0 where
      pub window :
          (ts : ℤ) × (int_of_text (or_empty h.timestamp) ≡ some ts)
          × (distance now ts ≤ nonce_window_seconds)
      pub named : is_present h.nonce ≡ true
      pub new : is_seen (or_empty h.nonce) seen ≡ false
      pub same_body : (is_present h.body_sha256 ≡ false) ⊎ (rt.sha256 body ≡ or_empty h.body_sha256)
      pub recorded :
          ((length seen < max_nonce_cache) × (after ≡ seen ++ or_empty h.nonce ∷ []))
          ⊎ ((max_nonce_cache ≤ length seen)
              × (after
                  ≡ discard (pick (seen ++ or_empty h.nonce ∷ [])) (seen ++ or_empty h.nonce ∷ [])))

    -- the set after a nonce that is new
    recorded-cases :
        (nonce : String) (seen : List String) {after : List String}
        → check_and_record_nonce pick nonce seen ≡ (true, after)
        → ((length seen < max_nonce_cache) × (after ≡ seen ++ nonce ∷ []))
          ⊎ ((max_nonce_cache ≤ length seen)
              × (after ≡ discard (pick (seen ++ nonce ∷ [])) (seen ++ nonce ∷ [])))
    unfolding check_and_record_nonce
    recorded-cases nonce seen e = ground (arith, e, length-append seen nonce)

    check_nonce-IsFresh :
        (seen : List String) {reason : Option String} {after : List String}
        → check_nonce pick rt h body seen ≡ ((true, reason), after)
        → (is_seen (or_empty h.nonce) seen ≡ false)
          × (body_matches pick rt h body ≡ true)
          × (check_and_record_nonce pick (or_empty h.nonce) seen ≡ (true, after))
    unfolding check_nonce check_and_record_nonce
    check_nonce-IsFresh seen e = (ground (arith, e), ground (arith, e), ground (arith, e))

    check_time-IsFresh :
        (now : ℕ) (seen : List String) (value : Option ℤ) {reason : Option String}
        {after : List String}
        → int_of_text (or_empty h.timestamp) ≡ value
        → is_present h.nonce ≡ true
        → check_time pick rt now h body seen value ≡ ((true, reason), after)
        → IsFresh now seen after
    unfolding check_time
    check_time-IsFresh now seen none at named e = ground (arith, e)
    check_time-IsFresh now seen (some ts) {reason} {after} at named e =
        let (new, body_ok, recorded) =
          check_nonce-IsFresh seen {reason = reason} {after = after} (ground (arith, e)) in
        record {
          window = (ts, at, ground (arith, e));
          named = named;
          new = new;
          same_body = ground (arith, body_ok, str_eq_iff (or_empty h.body_sha256) (rt.sha256 body));
          recorded = recorded-cases (or_empty h.nonce) seen recorded;
        }

    -- A binding request is accepted only where its timestamp is a number within 300 seconds of the
    -- clock, its nonce is there and not in the set, and the body has the hash that the
    -- header names, if it names one. The set after it has the nonce added where it had fewer than 2048
    -- items; where it was full, the item of it that comes first in its order, which may be the new nonce, is
    -- taken out again.
    pub validate_local_timestamp-IsFresh :
        (now : ℕ) (seen : List String) {reason : Option String} {after : List String}
        → validate_local_timestamp pick rt now h body seen ≡ ((true, reason), after)
        → IsFresh now seen after
    unfolding validate_local_timestamp
    validate_local_timestamp-IsFresh now seen {reason} {after} e =
        check_time-IsFresh now seen (int_of_text (or_empty h.timestamp)) {reason = reason}
          {after = after} refl (ground (arith, e)) (ground (arith, e))
