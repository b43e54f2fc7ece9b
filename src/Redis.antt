-- ===== src/Redis.antt =====
-- What src/redis.ts relies on of a Redis database: SET with an expiry, GET and DEL, at a time in
-- milliseconds. The server is not part of the repository: these are its documented laws.
use novatip_backend.Prelude.{
  ℕ, ◌+◌, ◌*◌, ◌≤◌, ◌≡◌, String, Option, none, some, ltb, str_eq, if◌then◌else◌, Result, ok, err,
}

pub record Kv (V : Type 0) : Type 1 where
  pub Keys : Type 0
  pub empty : Keys
  -- GET at a time
  pub get : ℕ → String → Keys → Option V
  -- SET key value EX seconds, at a time
  pub set : ℕ → String → V → ℕ → Keys → Keys
  pub del : String → Keys → Keys
  pub get-empty : (now : ℕ) (k : String) → get now k empty ≡ none
  pub get-set :
      (t now : ℕ) (k j : String) (v : V) (ttl : ℕ) (s : Keys)
      → now ≤ t
      → get t k (set now j v ttl s)
        ≡ (if str_eq j k then (if ltb t (now + ttl * 1000) then some v else none) else get t k s)
  pub get-del :
      (t : ℕ) (k j : String) (s : Keys)
      → get t k (del j s) ≡ (if str_eq j k then none else get t k s)

module _ {V : Type 0} (kv : Kv V) (now : ℕ) (key : String) (ttl : ℕ) where
  abbrev after_miss : Result V → kv.Keys → Result V × kv.Keys
  after_miss (err e) keys = (err e, keys)
  after_miss (ok v) keys = (ok v, kv.set now key v ttl keys)

  abbrev after_read : Result V → Option V → kv.Keys → Result V × kv.Keys
  after_read fresh (some cached) keys = (ok cached, keys)
  after_read fresh none keys = after_miss fresh keys

  -- the answer from the cache, or else a fresh one, which is cached unless it is an error
  unfoldable pub read_through : Result V → kv.Keys → Result V × kv.Keys
  read_through fresh keys = after_read fresh (kv.get now key keys) keys
