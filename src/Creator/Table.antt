-- ===== src/Creator/Table.antt =====
-- The table of creators with the constraints of prisma/schema.prisma, and the state that the creator
-- services work on.
use novatip_backend.Prelude.{
  ℕ, String, Bool, ◌&&◌, not, Option, none, some, List, [], ◌∷◌, str_eq, if◌then◌else◌, find?, any,
  update_where, fault, unique_violation, Result, ok, err,
}
use novatip_backend.Store.{Creator, Json, Db}

-- PublicCreator
pub record PublicCreator : Type 0 where
  pub id : String
  pub slug : String
  pub display_name : Option String
  pub bio : Option String
  pub avatar_url : Option String
  pub jar_id : String
  pub splits : Json
  pub created_at : ℕ

-- The database, and the keys of Redis that hold public profiles and the revocations of tokens.
pub record Site (C R : Type 0) : Type 0 where
  pub db : Db
  pub cache : C
  pub revoked : R

-- what a request finds around it: the clock, whether Redis answers, and the configuration
pub record Env : Type 0 where
  pub now : ℕ
  pub redis_up : Bool
  pub slug_hold_days : ℕ
  pub jwt_expires_in_seconds : ℕ

abbrev pub creator_by_id : String → Db → Option Creator
creator_by_id id db = find? (λ c. str_eq c.id id) db.creators

abbrev pub creator_by_slug : String → Db → Option Creator
creator_by_slug slug db = find? (λ c. str_eq c.slug slug) db.creators

abbrev pub creator_by_jar : String → Db → Option Creator
creator_by_jar jar_id db = find? (λ c. str_eq c.jar_id jar_id) db.creators

-- whether another row has the value of `row` in a unique column
abbrev pub clashes : (Creator → String) → Creator → List Creator → Bool
clashes column row creators =
    any (λ c. not (str_eq c.id row.id) && str_eq (column c) (column row)) creators

-- Writing a row over the one of its id, under the constraints on slug and jarId, which the updates of
-- the services can violate. Where both are violated the first in the order of the schema is reported.
unfoldable pub store_row : Creator → Db → Result Creator × Db
store_row row db =
    if clashes (λ c. c.slug) row db.creators
    then (err (unique_violation ("slug" ∷ [])), db)
    else if clashes (λ c. c.jar_id) row db.creators
    then (err (unique_violation ("jarId" ∷ [])), db)
    else (
      ok row,
      record db { creators = update_where (λ c. str_eq c.id row.id) (λ _. row) db.creators },
    )

-- `db.creator.update` on an id; no service changes the id
unfoldable pub update_creator : String → (Creator → Creator) → Db → Result Creator × Db
update_creator id change db = elim (creator_by_id id db) [
  | none ↦ (err (fault "P2025"), db)
  | some old ↦ store_row (change old) db
]
