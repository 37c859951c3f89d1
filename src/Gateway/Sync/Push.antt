-- ===== src/Gateway/Sync/Push.antt =====
-- What `sync_push_once` does to the upload queue.
use mathlib.Core.List.{append_assoc}
use smart_parcel_station.Prelude.{
  ℕ, ◌+◌, true, false, List, [], ◌∷◌, ◌++◌, ◌≡◌, refl, sym, ap, ◌∙◌, inl, inr, ◌==◌, ==-refl,
  Bool-cases, filter, any, update_where, All, if◌then◌else◌, arith,
}
use smart_parcel_station.Session.{ok, Session, opened}
use smart_parcel_station.Runtime.{Runtime}
use smart_parcel_station.Gateway.Entities.{LocalDb, SyncQueue}
use smart_parcel_station.Gateway.Outside.{Outside}
use smart_parcel_station.Gateway.Sync.{
  is_due, acked, push_failed, push_row, push_rows, sync_push_once,
}

-- the primary key
abbrev pub IsKeyed : List SyncQueue → Type 0
IsKeyed [] = Unit
IsKeyed (x ∷ xs) = (any (λ r. r.id == x.id) xs ≡ false) × IsKeyed xs

-- no row of the second list has the key of a row of the first
abbrev IsApart : List SyncQueue → List SyncQueue → Type 0
IsApart xs ys = All (λ y. any (λ r. r.id == y.id) xs ≡ false) ys

update-absent :
    (k : ℕ) (f : SyncQueue → SyncQueue) (ys : List SyncQueue)
    → any (λ r. r.id == k) ys ≡ false
    → update_where (λ r. r.id == k) f ys ≡ ys
unfolding any update_where
update-absent k f [] h = refl
update-absent k f (y ∷ ys) h = ground (arith, update-absent k f ys)

update-middle :
    (f : SyncQueue → SyncQueue) (xs ys : List SyncQueue) (y : SyncQueue)
    → any (λ r. r.id == y.id) xs ≡ false
    → any (λ r. r.id == y.id) ys ≡ false
    → update_where (λ r. r.id == y.id) f (xs ++ y ∷ ys) ≡ xs ++ f y ∷ ys
unfolding any update_where
update-middle f [] ys y a b = rw (==-refl y.id, update-absent y.id f ys b) refl
update-middle f (x ∷ xs) ys y a b = ground (arith, update-middle f xs ys y)

any-last :
    (k : ℕ) (xs : List SyncQueue) (x : SyncQueue)
    → any (λ r. r.id == k) xs ≡ false
    → (x.id == k) ≡ false
    → any (λ r. r.id == k) (xs ++ x ∷ []) ≡ false
unfolding any
any-last k [] x a b = rw b refl
any-last k (y ∷ xs) x a b = ground (arith, any-last k xs x)

IsApart-last :
    (xs ys : List SyncQueue) (x : SyncQueue)
    → IsApart xs ys
    → any (λ r. r.id == x.id) ys ≡ false
    → IsApart (xs ++ x ∷ []) ys
unfolding any
IsApart-last xs [] x a b = tt
IsApart-last xs (y ∷ ys) x a b =
    (any-last y.id xs x a.0 (ground arith), IsApart-last xs ys x a.1 (ground arith))

IsApart-nil : (ys : List SyncQueue) → IsApart [] ys
unfolding any
IsApart-nil [] = tt
IsApart-nil (y ∷ ys) = (refl, IsApart-nil ys)

module _ (rt : Runtime) (out : Outside) where
  -- The queue after a push: each row that is due was offered once, in order, and is marked by the
  -- answer; the others are as before.
  unfoldable pub pushed : ℕ → List SyncQueue → List SyncQueue
  pushed n [] = []
  pushed n (r ∷ rs) =
      let later = pushed (n + 1) rs in
      let rest = pushed n rs in
      if is_due r
      then (if out.sync_push n r.payload_json then acked r else push_failed r) ∷ later
      else r ∷ rest

  -- the number of rows that the server takes
  pub taken_count : ℕ → List SyncQueue → ℕ
  taken_count n [] = 0
  taken_count n (r ∷ rs) =
      let later = taken_count (n + 1) rs in
      let rest = taken_count n rs in
      if is_due r then (if out.sync_push n r.payload_json then 1 + later else 0 + later) else rest

  push_rows_lem :
      (xs ys : List SyncQueue) (s : Session LocalDb)
      → s.work.sync_queue ≡ xs ++ ys
      → IsApart xs ys
      → IsKeyed ys
      → (t : Session LocalDb) × (push_rows rt out (filter is_due ys) s
          ≡ (ok (taken_count s.draws ys), t))
        × (t.work.sync_queue ≡ xs ++ pushed s.draws ys)
  unfolding push_rows push_row filter pushed taken_count
  push_rows_lem xs [] s q apart keyed = (s, refl, q)
  push_rows_lem xs (y ∷ ys) s q apart keyed = elim (Bool-cases (is_due y)) [
    | inr later ↦
        let (t, e, r) =
          push_rows_lem (xs ++ y ∷ []) ys s (q ∙ sym (append_assoc xs (y ∷ []) ys))
            (IsApart-last xs ys y apart.1 keyed.0) keyed.1 in
        rw later (t, e, r ∙ append_assoc xs (y ∷ []) (pushed s.draws ys))
    | inl due ↦ elim (Bool-cases (out.sync_push s.draws y.payload_json)) [
      | inl accepted ↦
          let t1 = (push_row rt out y true (record s { draws = s.draws + 1 })).1 in
          let (t, e, r) =
            push_rows_lem (xs ++ acked y ∷ []) ys t1 (step acked)
              (IsApart-last xs ys (acked y) apart.1 keyed.0) keyed.1 in
          rw (due, accepted)
            (rw e (t, refl, r ∙ append_assoc xs (acked y ∷ []) (pushed (s.draws + 1) ys)))
      | inr refused ↦
          let t1 = (push_row rt out y false (record s { draws = s.draws + 1 })).1 in
          let (t, e, r) =
            push_rows_lem (xs ++ push_failed y ∷ []) ys t1 (step push_failed)
              (IsApart-last xs ys (push_failed y) apart.1 keyed.0) keyed.1 in
          rw (due, refused)
            (rw e (t, refl, r ∙ append_assoc xs (push_failed y ∷ []) (pushed (s.draws + 1) ys)))
    ]
  ]
    where
      step :
          (f : SyncQueue → SyncQueue)
          → update_where (λ r. r.id == y.id) f s.work.sync_queue ≡ (xs ++ f y ∷ []) ++ ys
      step f =
          ap (update_where (λ r. r.id == y.id) f) q
          ∙ update-middle f xs ys y apart.0 keyed.0
          ∙ sym (append_assoc xs (f y ∷ []) ys)

  -- Where the rows of the upload queue have distinct keys, a push offers every upload that is pending
  -- or failed to the server exactly once and in order, commits it as acknowledged or as failed with one
  -- more retry by the answer, leaves all other rows as they are, and returns the number taken.
  pub sync_push_once_lem :
      (db : LocalDb) (n : ℕ)
      → IsKeyed db.sync_queue
      → let (r, t) = sync_push_once rt out (opened db n) in
        (r ≡ ok (taken_count n db.sync_queue)) × (t.saved.sync_queue ≡ pushed n db.sync_queue)
  unfolding sync_push_once
  sync_push_once_lem db n keyed =
      let (t, e, r) =
        push_rows_lem [] db.sync_queue (opened db n) refl (IsApart-nil db.sync_queue) keyed in
      rw e (refl, r)
