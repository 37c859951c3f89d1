-- ===== src/Runtime.antt =====
-- What the program takes from outside its own code: the clock, random texts, keyed and plain hashes,
-- and the primary keys that the database assigns. `clock n` and the random texts are those of the
-- n-th draw; the laws that a theorem relies on are hypotheses of that theorem.
use smart_parcel_station.Json.{Json}
use smart_parcel_station.Prelude.{ℕ, String, List, ◌≤◌, ◌≡◌, any, ◌==◌, false}

pub record Runtime : Type 0 where
  -- seconds since the epoch
  pub clock : ℕ → ℕ
  pub uuid_hex : ℕ → String
  -- `secrets.token_urlsafe(byte_count)`, `secrets.token_hex(byte_count)`
  pub token_urlsafe : ℕ → ℕ → String
  pub token_hex : ℕ → ℕ → String
  -- the hex digests of SHA-256 and of HMAC-SHA-256 (key, message), and the base64 digest of PBKDF2 with
  -- SHA-256 (password, salt, rounds)
  pub sha256 : String → String
  pub hmac_sha256 : String → String → String
  pub pbkdf2_sha256 : String → String → ℕ → String
  -- `datetime.isoformat` of a time
  pub isoformat : ℕ → String
  -- `str` of a list or a dict
  pub repr : Json → String
  -- the primary key of a new row, given those in use
  pub next_id : List ℕ → ℕ

-- the clock does not go back
abbrev pub IsMonotone : Runtime → Type 0
IsMonotone rt = (m n : ℕ) → m ≤ n → rt.clock m ≤ rt.clock n

-- a new primary key is not in use
abbrev pub AssignsFresh : Runtime → Type 0
AssignsFresh rt = (ids : List ℕ) → any (λ i. i == rt.next_id ids) ids ≡ false
