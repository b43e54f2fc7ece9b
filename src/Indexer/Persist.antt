-- ===== src/Indexer/Persist.antt =====
-- src/indexer/persist.ts: storing an event as a tip, and the cursor row.
pub mod Idempotent
use novatip_backend.Prelude.{
  ℕ, ◌+◌, ◌-◌, ◌*◌, ◌≡◌, String, Bool, true, false, ◌&&◌, not, Option, none, some, List, [], ◌∷◌,
  ◌++◌, ltb, leb, ◌==◌, if◌then◌else◌, str_eq, opt_is, is_some, or_else, find?, filter, count_where,
}
use novatip_backend.Store.{Creator, Tip, Db}

-- TipEvent of @novatip/sdk; `timestamp` is the time that its ISO text names
pub record TipEvent : Type 0 where
  pub tx_hash : String
  pub ledger : ℕ
  pub timestamp : ℕ
  pub jar_id : String
  pub from_address : String
  pub amount : ℕ
  pub message : String

unfoldable pub creator_of_jar : String → List Creator → Option Creator
creator_of_jar jar_id = find? (λ c. str_eq c.jar_id jar_id)

unfoldable pub tip_of_tx : String → List Tip → Option Tip
tip_of_tx tx_hash = find? (λ t. str_eq t.tx_hash tx_hash)

abbrev owner_id : Option Creator → Option String
owner_id none = none
owner_id (some c) = some c.id

-- the `create` branch of the upsert; `messageHidden` has the default false
unfoldable pub new_tip : String → ℕ → TipEvent → String → Option Creator → Tip
new_tip id now event tx_hash creator = record {
  id = id;
  tx_hash = tx_hash;
  ledger = event.ledger;
  ledger_at = event.timestamp;
  from_address = event.from_address;
  amount = event.amount;
  message = event.message;
  message_hidden = false;
  jar_id = some event.jar_id;
  creator_id = owner_id creator;
  created_at = now;
}

-- the upsert on txHash with an empty update, and the row that it returns
unfoldable pub upsert_tip : Tip → List Tip → Tip × List Tip
upsert_tip row tips = elim (tip_of_tx row.tx_hash tips) [
  | none ↦ (row, tips ++ row ∷ [])
  | some old ↦ (old, tips)
]

-- `id` and `now` are the id and the `createdAt` that the database gives a new row
unfoldable pub persist_tip : String → ℕ → TipEvent → String → Db → Bool × Db
unfolding upsert_tip new_tip creator_of_jar tip_of_tx
persist_tip id now event tx_hash db =
    let creator = creator_of_jar event.jar_id db.creators in
    let (result, tips) = upsert_tip (new_tip id now event tx_hash creator) db.tips in
    (result.created_at == result.ledger_at, record db { tips = tips })

unfoldable pub update_cursor : ℕ → Db → Db
update_cursor ledger db = record db { indexer_cursor = some ledger }

unfoldable pub read_cursor : Db → ℕ
read_cursor db = or_else db.indexer_cursor 0

-- A tip that no creator owns and that is older than the cutoff. A cutoff before 1970, which no
-- `ledgerAt` is below, is 0.
abbrev pub is_prunable : ℕ → Tip → Bool
is_prunable cutoff t = not (is_some t.creator_id) && ltb t.ledger_at cutoff

-- the number of days is a natural number: `olderThanDays <= 0` is `olderThanDays` = 0
unfoldable pub prune_unowned_tips : ℕ → ℕ → Db → ℕ × Db
prune_unowned_tips now older_than_days db =
    if leb older_than_days 0
    then (0, db)
    else let cutoff = now - older_than_days * 86400000 in
      (
        count_where (is_prunable cutoff) db.tips,
        record db { tips = filter (λ t. not (is_prunable cutoff t)) db.tips },
      )
