-- ===== src/SignIn/Account.antt =====
-- The record of a new wallet: the loop of verifyChallenge in src/modules/auth/auth.service.ts. What
-- other requests do to the database between its reads and its writes is an argument.
pub mod Attempts
use Prim.Native.String
use novatip_backend.Prelude.{
  ℕ, zero, suc, ◌+◌, ◌-◌, String, Bool, true, false, ◌||◌, Option, none, some, List, [], ◌∷◌, ◌++◌,
  str_eq, ltb, if◌then◌else◌, any, find?, Error, unique_violation, thrown, fault, Result, ok, err,
}
use novatip_backend.Store.{Creator, splits_json, Db}
use novatip_backend.Creator.Slug.{jar_id_for_slug}

abbrev pub max_creator_create_attempts : ℕ
max_creator_create_attempts = 5

abbrev pub creator_by_wallet : String → Db → Option Creator
creator_by_wallet wallet db = find? (λ c. str_eq c.wallet_address wallet) db.creators

-- the row of `db.creator.create`, with the defaults of the schema
abbrev pub bare_creator : ℕ → String → String → String → Creator
bare_creator now id wallet slug = record {
  id = id;
  wallet_address = wallet;
  slug = slug;
  display_name = none;
  bio = none;
  avatar_url = none;
  email = none;
  email_verified_at = none;
  email_enabled = true;
  webhook_enabled = true;
  jar_id = jar_id_for_slug slug;
  splits = splits_json [];
  created_at = now;
}

abbrev pub taken : (Creator → String) → Creator → Db → Bool
taken column row db = any (λ c. str_eq (column c) (column row)) db.creators

-- the insertion, under the unique constraints in the order of the schema
unfoldable pub create_creator : Creator → Db → Result Creator × Db
create_creator row db =
    if taken (λ c. c.id) row db
    then (err (unique_violation ("id" ∷ [])), db)
    else if taken (λ c. c.wallet_address) row db
    then (err (unique_violation ("walletAddress" ∷ [])), db)
    else if taken (λ c. c.slug) row db
    then (err (unique_violation ("slug" ∷ [])), db)
    else if taken (λ c. c.jar_id) row db
    then (err (unique_violation ("jarId" ∷ [])), db)
    else (ok row, record db { creators = db.creators ++ row ∷ [] })

-- What the rounds of the loop draw and find: a row id and a suffix of hexadecimal digits for each, and
-- the change that other requests make to the database before its insertion.
pub record Draws : Type 0 where
  pub new_id : ℕ → String
  pub suffix : ℕ → String
  pub others : ℕ → Db → Db

abbrev pub placeholder_slug : String → String
placeholder_slug suffix = String.◌++◌ "user_" suffix

-- the record that a concurrent sign-in of the wallet made, if that is what the insertion met
abbrev pub race_winner : String → List String → Db → Option Creator
race_winner wallet target db =
    if any (λ column. str_eq column "walletAddress") target
    then creator_by_wallet wallet db
    else none

-- after a violation: the record of the race, or the next round unless this was the last one
abbrev pub after_conflict :
    Option Creator → ℕ → List String → Db → (Db → Result Creator × Db) → Result Creator × Db
after_conflict (some existing) attempt target db retry = (ok existing, db)
after_conflict none attempt target db retry =
    if ltb attempt (max_creator_create_attempts - 1)
    then retry db
    else (err (unique_violation target), db)

-- what follows the insertion of a round; `retry` is the next round
abbrev pub after_create :
    String → ℕ → Result Creator × Db → (Db → Result Creator × Db) → Result Creator × Db
after_create wallet attempt (ok row, db) retry = (ok row, db)
after_create wallet attempt (err (unique_violation target), db) retry =
    after_conflict (race_winner wallet target db) attempt target db retry
after_create wallet attempt (err (thrown status code), db) retry = (err (thrown status code), db)
after_create wallet attempt (err (fault code), db) retry = (err (fault code), db)

module _ (draws : Draws) (now : ℕ) (wallet : String) where
  abbrev pub drawn_creator : ℕ → Creator
  drawn_creator attempt =
      bare_creator now (draws.new_id attempt) wallet (placeholder_slug (draws.suffix attempt))

  -- the rounds that are left, from one of them on
  unfoldable pub create_from : ℕ → ℕ → Db → Result Creator × Db
  unfolding create_creator
  create_from zero attempt db = (err (fault "Failed to create creator record."), db)
  create_from (suc left) attempt db =
      after_create wallet attempt (create_creator (drawn_creator attempt) (draws.others attempt db))
        (create_from left (attempt + 1))

  unfoldable pub create_account : Db → Result Creator × Db
  unfolding create_from
  create_account db = create_from max_creator_create_attempts 0 db
