-- ===== src/Indexer/Persist/Idempotent.antt =====
-- One row for each transaction, whatever is replayed, and what `persistTip` answers.
use novatip_backend.Prelude.{
  ℕ, ◌≡◌, ◌↔◌, refl, inl, inr, String, true, none, some, List, [], ◌∷◌, ◌++◌, arith, eq_iff,
  eq_refl, str_eq, is_some, or_else, if◌then◌else◌, Option-cases,
}
use novatip_backend.Store.{Tip, Db}
use novatip_backend.Indexer.Persist.{
  TipEvent, persist_tip, tip_of_tx, upsert_tip, new_tip, creator_of_jar,
}

find?-append :
    (tx : String) (tips : List Tip) (row : Tip)
    → tip_of_tx tx (tips ++ row ∷ []) ≡ (
        if is_some (tip_of_tx tx tips)
        then tip_of_tx tx tips
        else if str_eq row.tx_hash tx
        then some row
        else none)
unfolding tip_of_tx
find?-append tx [] row = refl
find?-append tx (t ∷ tips) row = ground (arith, find?-append tx tips row)

upsert_tip-found :
    (row : Tip) (tips : List Tip) (old : Tip)
    → tip_of_tx row.tx_hash tips ≡ some old
    → upsert_tip row tips ≡ (old, tips)
unfolding upsert_tip
upsert_tip-found row tips old h = rw (h, upsert_tip)

module _ (row : Tip) (tips : List Tip) where
  tip_of_tx-upsert_tip :
      (other : String)
      → tip_of_tx other (upsert_tip row tips).1
        ≡ (if str_eq row.tx_hash other then some (upsert_tip row tips).0 else tip_of_tx other tips)
  unfolding upsert_tip
  tip_of_tx-upsert_tip other = elim (Option-cases (tip_of_tx row.tx_hash tips)) [
    | inl missing ↦ ground (arith, find?-append other tips row, eq_iff row.tx_hash other, missing)
    | inr (old, found) ↦ ground (arith, eq_iff row.tx_hash other, found)
  ]

  upsert_tip-again :
      (row' : Tip)
      → row'.tx_hash ≡ row.tx_hash
      → upsert_tip row' (upsert_tip row tips).1 ≡ upsert_tip row tips
  upsert_tip-again row' e =
      let stored : tip_of_tx row'.tx_hash (upsert_tip row tips).1 ≡ some (upsert_tip row tips).0 =
        rw (e, tip_of_tx-upsert_tip, eq_refl) in
      upsert_tip-found row' (upsert_tip row tips).1 (upsert_tip row tips).0 stored

-- After an event is persisted its transaction has a row, the one that was there or the new one, and
-- the rows of all other transactions are what they were.
pub persist_tip-lookup :
    (id : String) (now : ℕ) (event : TipEvent) (tx other : String) (db : Db)
    → tip_of_tx other (persist_tip id now event tx db).1.tips ≡ (
        if str_eq tx other
        then some (
            or_else
              (tip_of_tx tx db.tips)
              (new_tip id now event tx (creator_of_jar event.jar_id db.creators)))
        else tip_of_tx other db.tips)
unfolding persist_tip
persist_tip-lookup id now event tx other db = rw tip_of_tx-upsert_tip (ground arith)

-- Persisting the same transaction again, at whatever time, changes nothing, and gives the answer
-- that it gave the first time: the answer does not tell a new tip from a replayed one.
pub persist_tip-replay :
    (id id' : String) (now now' : ℕ) (event event' : TipEvent) (tx : String) (db : Db)
    → persist_tip id' now' event' tx (persist_tip id now event tx db).1
      ≡ persist_tip id now event tx db
unfolding persist_tip
persist_tip-replay id id' now now' event event' tx db =
    rw
      (upsert_tip-again (new_tip id now event tx (creator_of_jar event.jar_id db.creators)) db.tips)

-- For a transaction that has no row yet, the answer is whether the row is written in the very
-- millisecond in which the ledger closed.
pub persist_tip-answer_new :
    (id : String) (now : ℕ) (event : TipEvent) (tx : String) (db : Db)
    → tip_of_tx tx db.tips ≡ none
    → ((persist_tip id now event tx db).0 ≡ true) ↔ (now ≡ event.timestamp)
unfolding persist_tip
persist_tip-answer_new id now event tx db h = ground (arith, h)
