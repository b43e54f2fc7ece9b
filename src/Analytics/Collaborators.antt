-- ===== src/Analytics/Collaborators.antt =====
-- src/modules/analytics/collaborators.ts. A text of an amount is the list of its code points.
use novatip_backend.Prelude.{
  ℕ, zero, suc, ◌-◌, ◌/◌, ◌%◌, String, ◌&&◌, Bool, Option, none, some, List, [], ◌∷◌, ◌++◌, ltb,
  ◌==◌, if◌then◌else◌, length, Error, thrown, Result, ok, err, ℤ, pos, negate_ℕ, ◌-ℤ◌, decimal,
  value_from, is_digits,
}
use novatip_backend.Store.{
  Json, object, array, JsonItems, no_items, item, get_field, text_of, natural_of, Split,
}

pub record CollaboratorEarnings : Type 0 where
  pub to : String
  pub bps : ℕ
  pub share_percent : List ℕ
  pub total_earned_raw : List ℕ

abbrev pub bps_total : ℕ
bps_total = 10000

-- whatever index and field the text of the error names
abbrev pub malformed_splits : Error
malformed_splits = thrown 500 "MALFORMED_SPLITS"

-- `to.trim() === ""`
module _ (is_blank : String → Bool) where
  -- the checks of `to` and `bps`; a negative number is as malformed as one that is too large
  unfoldable pub check_split : Option String → Option ℕ → Result Split
  check_split (some to) (some bps) =
      if is_blank to
      then err malformed_splits
      else if ltb bps_total bps
      then err malformed_splits
      else ok (record { to = to; bps = bps })
  check_split _ _ = err malformed_splits

  -- an array is an object without the two fields, and as malformed as what is no object
  unfoldable pub parse_split : Json → Result Split
  unfolding check_split
  parse_split (object members) =
      check_split (text_of (get_field "to" members)) (natural_of (get_field "bps" members))
  parse_split _ = err malformed_splits

  unfoldable pub and_splits : Result Split → Result (List Split) → Result (List Split)
  and_splits (ok split) (ok splits) = ok (split ∷ splits)
  and_splits (ok split) (err e) = err e
  and_splits (err e) _ = err e

  unfoldable pub parse_items : JsonItems → Result (List Split)
  unfolding parse_split and_splits
  parse_items no_items = ok []
  parse_items (item entry rest) = and_splits (parse_split entry) (parse_items rest)

  unfoldable pub parse_splits : Json → Result (List Split)
  unfolding parse_items
  parse_splits (array entries) = parse_items entries
  parse_splits _ = err malformed_splits

-- `padStart(width, "0")`
abbrev pad_zeros : ℕ → List ℕ → List ℕ
pad_zeros zero s = s
pad_zeros (suc n) s = b'0' ∷ pad_zeros n s

unfoldable pub bps_to_percent : ℕ → List ℕ
bps_to_percent bps =
    let hundredths = decimal (bps % 100) in
    decimal (bps / 100) ++ b'.' ∷ pad_zeros (2 - length hundredths) hundredths

-- null and undefined are both none
unfoldable pub parse_stroops : Option (List ℕ) → Result ℤ
parse_stroops none = ok (pos 0)
parse_stroops (some []) = ok (pos 0)
parse_stroops (some (c ∷ s)) =
    if c == b'-' && is_digits s
    then ok (negate_ℕ (value_from 0 s))
    else if is_digits (c ∷ s)
    then ok (pos (value_from 0 (c ∷ s)))
    else err (thrown 500 "NON_INTEGRAL_STROOPS")

unfoldable pub unallocated : ℤ → List ℤ → ℤ
unallocated rest [] = rest
unallocated rest (share ∷ shares) = unallocated (rest -ℤ share) shares
