-- ===== src/Store.antt =====
-- prisma/schema.prisma: the tables, as lists of rows in the order of insertion. A column with a
-- default takes it at the insertion; a time is a number of milliseconds. Row ids are texts that the
-- database mints, so that the functions that insert take the new id as an argument.
use novatip_backend.Prelude.{
  ℕ, String, Bool, Option, none, some, List, [], ◌∷◌, str_eq, if◌then◌else◌,
}

-- a number of JavaScript, by what the code asks of it: `negative_integer n` is -(n + 1)
pub data JsNumber : Type 0 where
  integer : ℕ → JsNumber
  negative_integer : ℕ → JsNumber
  not_an_integer : JsNumber

-- a value of a Json column
mutual
  pub data Json : Type 0 where
    null : Json
    boolean : Bool → Json
    number : JsNumber → Json
    text : String → Json
    array : JsonItems → Json
    object : JsonFields → Json

  pub data JsonItems : Type 0 where
    no_items : JsonItems
    item : Json → JsonItems → JsonItems

  pub data JsonFields : Type 0 where
    no_fields : JsonFields
    field : String → Json → JsonFields → JsonFields

-- `value[name]` of an object
abbrev pub get_field : String → JsonFields → Option Json
get_field name no_fields = none
get_field name (field key value fields) =
    if str_eq key name then some value else get_field name fields

-- a value that is a string, and one that is a number that is a whole one and not negative
abbrev pub text_of : Option Json → Option String
text_of (some (text t)) = some t
text_of _ = none

abbrev pub natural_of : Option Json → Option ℕ
natural_of (some (number (integer n))) = some n
natural_of _ = none

-- { to, bps }, as the requests and the services have it
pub record Split : Type 0 where
  pub to : String
  pub bps : ℕ

-- a list of splits as it is written to the Json column `splits`
unfoldable pub split_items : List Split → JsonItems
split_items [] = no_items
split_items (s ∷ splits) =
    item (object (field "to" (text s.to) (field "bps" (number (integer s.bps)) no_fields)))
      (split_items splits)

unfoldable pub splits_json : List Split → Json
unfolding split_items
splits_json splits = array (split_items splits)

pub record Creator : Type 0 where
  pub id : String
  pub wallet_address : String
  pub slug : String
  pub display_name : Option String
  pub bio : Option String
  pub avatar_url : Option String
  pub email : Option String
  pub email_verified_at : Option ℕ
  pub email_enabled : Bool
  pub webhook_enabled : Bool
  pub jar_id : String
  pub splits : Json
  pub created_at : ℕ

pub record ReleasedSlug : Type 0 where
  pub slug : String
  pub previous_owner_id : Option String
  pub released_at : ℕ

pub record Tip : Type 0 where
  pub id : String
  pub tx_hash : String
  pub ledger : ℕ
  pub ledger_at : ℕ
  pub from_address : String
  pub amount : ℕ
  pub message : String
  pub message_hidden : Bool
  pub jar_id : Option String
  pub creator_id : Option String
  pub created_at : ℕ

pub record Webhook : Type 0 where
  pub id : String
  pub creator_id : String
  pub url : String
  pub secret : String
  pub enabled : Bool
  pub created_at : ℕ

pub record WebhookDelivery : Type 0 where
  pub id : String
  pub webhook_id : String
  pub status_code : Option ℕ
  pub success : Bool
  pub response : Option String
  pub attempted_at : ℕ

-- the two values of `NotificationType`, with the part of the payload that the code reads back
pub data NotificationKind : Type 0 where
  tip_received : ℕ → NotificationKind
  webhook_failed : String → NotificationKind

pub record Notification : Type 0 where
  pub id : String
  pub creator_id : String
  pub kind : NotificationKind
  pub sent_at : Option ℕ
  pub read_at : Option ℕ
  pub created_at : ℕ

pub record Db : Type 0 where
  pub creators : List Creator
  pub released_slugs : List ReleasedSlug
  pub tips : List Tip
  pub webhooks : List Webhook
  pub webhook_deliveries : List WebhookDelivery
  pub notifications : List Notification
  -- the row of IndexerCursor with id 1, if it was written
  pub indexer_cursor : Option ℕ
