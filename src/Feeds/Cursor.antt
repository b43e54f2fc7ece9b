-- ===== src/Feeds/Cursor.antt =====
-- src/utils/cursor.ts and src/modules/analytics/cursor.ts, which have the same functions. The
-- encodings of the platform are a parameter: the ISO text of a time, and base64url.
use Prim.Native.String
use Prim.Native.String.append
use Prim.Native.Char.{code}
use mathlib.Core.Option
use text.Mathlib.TextLemmas.{cons≢nil}
use novatip_backend.Prelude.{
  ℕ, ◌≡◌, ◌≢◌, refl, sym, ◌∙◌, ap, String, Bool, true, false, ◌&&◌, ◌||◌, Option, none, some, ltb,
  ◌==◌, str_eq, if◌then◌else◌, thrown, Result, ok, err, arith, Bool-cases, inl, inr, eq_refl,
  eq_iff,
}

-- `TipCursor`, and `Cursor` of src/utils/cursor.ts
pub record Cursor : Type 0 where
  pub timestamp : ℕ
  pub key : String

-- `<` of the database on a column of texts
pub record KeyOrder : Type 0 where
  pub lt : String → String → Bool
  pub lt-irrefl : (a : String) → lt a a ≡ false
  pub lt-trans : (a b c : String) → lt a b ≡ true → lt b c ≡ true → lt a c ≡ true
  pub lt-total : (a b : String) → lt a b ≡ false → lt b a ≡ false → a ≡ b

-- `cursorFilter`, on a row's time and key
unfoldable pub cursor_filter : KeyOrder → Cursor → ℕ → String → Bool
cursor_filter o cursor timestamp key =
    ltb timestamp cursor.timestamp || (timestamp == cursor.timestamp && o.lt key cursor.key)

-- `indexOf("|")` and the two slices
abbrev pub split_once : String → Option (String × String)
split_once String.[] = none
split_once (String.◌∷◌ c s) =
    let rest = split_once s in
    if code c == b'|'
    then some (String.[], s)
    else Option.map (λ (head, tail). (String.◌∷◌ c head, tail)) rest

-- What the code uses of Date and Buffer, with their documented laws: an ISO text has digits, signs
-- and letters only, and both encodings can be read back.
pub record Platform : Type 0 where
  pub to_iso : ℕ → String
  -- `new Date(text)`, none for an invalid date
  pub parse_date : String → Option ℕ
  pub to_base64url : String → String
  pub from_base64url : String → String
  -- `raw.trim() === ""`
  pub is_blank : String → Bool
  pub parse-to_iso : (t : ℕ) → parse_date (to_iso t) ≡ some t
  pub to_iso-split : (t : ℕ) → split_once (to_iso t) ≡ none
  pub from-to_base64url : (s : String) → from_base64url (to_base64url s) ≡ s
  pub empty-is_blank : is_blank "" ≡ true
  pub base64url-is_blank : (s : String) → s ≢ "" → is_blank (to_base64url s) ≡ false

abbrev bad_cursor : {A : Type 0} → Result A
bad_cursor = err (thrown 400 "INVALID_CURSOR")

module _ (p : Platform) where
  unfoldable pub encode_cursor : ℕ → String → String
  encode_cursor timestamp key =
      p.to_base64url (String.◌++◌ (p.to_iso timestamp) (String.◌++◌ "|" key))

  -- the checks that follow the search for the separator
  abbrev check_parts : Option (String × String) → Result Cursor
  check_parts none = bad_cursor
  check_parts (some (iso, key)) = elim (p.parse_date iso) [
    | none ↦ bad_cursor
    | some timestamp ↦
        if str_eq key ""
        then bad_cursor
        else if str_eq (p.to_iso timestamp) iso
        then ok (record { timestamp = timestamp; key = key })
        else bad_cursor
  ]

  unfoldable pub decode_cursor : String → Result Cursor
  decode_cursor raw =
      if p.is_blank raw then bad_cursor else check_parts (split_once (p.from_base64url raw))

  bar_found : (c : _) (s : String) → code c == b'|' ≡ true → split_once (String.◌∷◌ c s) ≡ none → ⊥
  bar_found c s bar h = ground arith

  none_rest :
      (c : _) (s : String)
      → code c == b'|' ≡ false
      → split_once (String.◌∷◌ c s) ≡ none
      → split_once s ≡ none
  none_rest c s other h = ground arith

  split_once-append :
      (s key : String)
      → split_once s ≡ none
      → split_once (String.◌++◌ s (String.◌++◌ "|" key)) ≡ some (s, key)
  split_once-append String.[] key h =
      rw (append.nil (String.◌++◌ "|" key), append.cons "|" "" key, append.nil key) refl
  split_once-append (String.◌∷◌ c s) key h = elim (Bool-cases (code c == b'|')) [
    | inl bar ↦ elim (bar_found c s bar h) [ ]
    | inr other ↦
        let ih = split_once-append s key (none_rest c s other h) in
        rw (append.cons c s (String.◌++◌ "|" key), other, ih) refl
  ]

  append_bar≢nil : (s key : String) → String.◌++◌ s (String.◌++◌ "|" key) ≢ ""
  append_bar≢nil String.[] key e =
      cons≢nil (sym (append.nil (String.◌++◌ "|" key) ∙ append.cons "|" "" key) ∙ e)
  append_bar≢nil (String.◌∷◌ c s) key e = cons≢nil (sym (append.cons c s (String.◌++◌ "|" key)) ∙ e)

  issued_not_blank :
      (timestamp : ℕ) (key : String) → p.is_blank (encode_cursor timestamp key) ≡ false
  unfolding encode_cursor
  issued_not_blank timestamp key = p.base64url-is_blank _ (append_bar≢nil (p.to_iso timestamp) key)

  pub issued_not_empty :
      (timestamp : ℕ) (key : String) → str_eq (encode_cursor timestamp key) "" ≡ false
  issued_not_empty timestamp key = elim (Bool-cases (str_eq (encode_cursor timestamp key) "")) [
    | inr h ↦ h
    | inl h ↦
        let empty : encode_cursor timestamp key ≡ "" =
          (eq_iff (encode_cursor timestamp key) "").0 h in
        ground (arith, ap p.is_blank empty, issued_not_blank timestamp key, p.empty-is_blank)
  ]

  -- A cursor that was issued for a row with a key can be read back: it names the row's time and key.
  pub decode_cursor-encode_cursor :
      (timestamp : ℕ) (key : String)
      → str_eq key "" ≡ false
      → decode_cursor (encode_cursor timestamp key)
        ≡ ok (record { timestamp = timestamp; key = key })
  unfolding decode_cursor encode_cursor
  decode_cursor-encode_cursor timestamp key h =
      let raw = String.◌++◌ (p.to_iso timestamp) (String.◌++◌ "|" key) in
      rw
        (
          issued_not_blank timestamp key,
          p.from-to_base64url raw,
          split_once-append (p.to_iso timestamp) key (p.to_iso-split timestamp),
          check_parts,
          p.parse-to_iso timestamp,
          h,
          eq_refl (p.to_iso timestamp),
        )
        refl
