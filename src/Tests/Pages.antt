-- ===== src/Tests/Pages.antt =====
-- The theorems on feeds at concrete inputs.
use novatip_backend.Prelude.{
  ◌≡◌, ◌≢◌, refl, String, true, false, none, some, List, [], ◌∷◌, ◌++◌, map, filter, arith, eq_iff,
  ok,
}
use novatip_backend.Tests.Platforms.{by_code, plain, text_lt, unary, count_codes}
use novatip_backend.Store.{Tip, tip_received, Db}
use novatip_backend.Tests.{empty_db, tip_with, notice_at}
use novatip_backend.Feeds.Cursor.{
  cursor_filter, encode_cursor, decode_cursor, decode_cursor-encode_cursor,
}
use novatip_backend.Feeds.Select.{
  FeedPage, order_rows, insert_row, is_after, read_feed, decode_if_given,
}
use novatip_backend.Feeds.Select.Growth.{read_feed-growth}
use novatip_backend.Feeds.Follow.{follow, read_feed-follow}
use novatip_backend.Feeds.Tips.{PublicTip, recent_tip, public_tip, is_tip_of}

abbrev table : List Tip
table = tip_with "t1" "x1" 3 false ∷ tip_with "t2" "x2" 5 true ∷ tip_with "t3" "x3" 5 false ∷ []

abbrev with_tips : Db
with_tips = record empty_db { tips = table }

decode_cursor-encode_cursor_example :
    decode_cursor plain (encode_cursor plain 3 "t1") ≡ ok (record { timestamp = 3; key = "t1" })
decode_cursor-encode_cursor_example = decode_cursor-encode_cursor plain 3 "t1" refl

read_feed-follow_example :
    follow
      (λ cursor.
        read_feed plain by_code
          (λ t. t.ledger_at)
          (λ t. t.id)
          recent_tip
          (is_tip_of "c1")
          2
          cursor
          table)
      4
      none
    ≡ ok (
        map recent_tip
          (order_rows by_code (λ t. t.ledger_at) (λ t. t.id) (filter (is_tip_of "c1") table)))
unfolding order_rows insert_row is_after cursor_filter text_lt
read_feed-follow_example =
    read_feed-follow plain by_code (λ t. t.ledger_at) (λ t. t.id) recent_tip (is_tip_of "c1") 2
      table 4 refl (refl, (refl, (refl, tt))) (omega arith) (omega arith)

read_feed-growth_example :
    read_feed plain by_code
      (λ t. t.ledger_at)
      (λ t. t.id)
      recent_tip
      (is_tip_of "c1")
      2
      (some (encode_cursor plain 5 "t2"))
      (table ++ tip_with "t4" "x4" 9 false ∷ [])
    ≡ read_feed plain by_code
        (λ t. t.ledger_at)
        (λ t. t.id)
        recent_tip
        (is_tip_of "c1")
        2
        (some (encode_cursor plain 5 "t2"))
        table
unfolding decode_if_given decode_cursor encode_cursor unary count_codes cursor_filter text_lt
read_feed-growth_example =
    read_feed-growth plain by_code (λ t. t.ledger_at) (λ t. t.id) recent_tip (is_tip_of "c1") 2
      (encode_cursor plain 5 "t2") (tip_with "t2" "x2" 5 true) table (tip_with "t4" "x4" 9 false)
      refl refl

abbrev first_page : FeedPage PublicTip
first_page = record {
  items =
      public_tip (tip_with "t3" "x3" 5 false)
      ∷ public_tip (tip_with "t2" "x2" 5 true)
      ∷ public_tip (tip_with "t1" "x1" 3 false)
      ∷ [];
  next_cursor = none;
}

c1≢c2_ : ◌≢◌ {A = String} "c1" "c2"
c1≢c2_ e = ground (arith, e, eq_iff "c1" "c2")

abbrev notices : Db
notices = record empty_db {
  notifications = notice_at "n1" (tip_received 5) 10 ∷ notice_at "n2" (tip_received 6) 20 ∷ [];
}
