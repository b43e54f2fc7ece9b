-- ===== src/Creator/Unique.antt =====
-- What the unique constraints on Creator say of a table.
use novatip_backend.Prelude.{◌≢◌, String, List, [], ◌∷◌, All}
use novatip_backend.Store.{Creator, Db}

-- no two rows have the same value in a column
abbrev pub IsUnique : (Creator → String) → List Creator → Type 0
IsUnique column [] = Unit
IsUnique column (c ∷ cs) = All (λ d. column d ≢ column c) cs × IsUnique column cs

pub record IsConsistent (db : Db) : Type 0 where
  pub ids : IsUnique (λ c. c.id) db.creators
  pub slugs : IsUnique (λ c. c.slug) db.creators
  pub jars : IsUnique (λ c. c.jar_id) db.creators
