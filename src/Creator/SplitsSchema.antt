-- ===== src/Creator/SplitsSchema.antt =====
-- CreatorSplitsSchema of src/modules/creator/creator-splits.schema.ts. What it accepts is what the
-- routes pass to claimSlug and updateCreatorSplits.
pub mod Accepted
use novatip_backend.Prelude.{
  ℕ, ◌+◌, ◌≤◌, ◌≡◌, String, Bool, true, false, ◌&&◌, not, Option, none, some, List, [], ◌∷◌, leb,
  str_eq, if◌then◌else◌, any, All, arith,
}
use novatip_backend.Store.{
  Json, object, array, JsonItems, no_items, item, get_field, text_of, natural_of, Split,
}

-- `isValidAccountId` of the SDK
module _ (is_valid_account_id : String → Bool) where
  -- the two fields of an object
  unfoldable pub split_of_fields : Option String → Option ℕ → Option Split
  split_of_fields (some to) (some bps) =
      if is_valid_account_id to && leb 1 bps && leb bps 10000
      then some (record { to = to; bps = bps })
      else none
  split_of_fields _ _ = none

  unfoldable pub split_object : Json → Option Split
  unfolding split_of_fields
  split_object (object members) =
      split_of_fields (text_of (get_field "to" members)) (natural_of (get_field "bps" members))
  split_object _ = none

  unfoldable pub cons_split : Option Split → Option (List Split) → Option (List Split)
  cons_split (some split) (some splits) = some (split ∷ splits)
  cons_split _ _ = none

  unfoldable pub split_array : JsonItems → Option (List Split)
  unfolding split_object cons_split
  split_array no_items = some []
  split_array (item entry rest) = cons_split (split_object entry) (split_array rest)

-- the loop of superRefine: no recipient may be in the set already, and the total must fit
unfoldable pub refine_splits : List String → ℕ → List Split → Bool
refine_splits recipients total_bps [] = leb total_bps 10000
refine_splits recipients total_bps (split ∷ splits) =
    not (any (λ to. str_eq to split.to) recipients)
    && refine_splits (split.to ∷ recipients) (total_bps + split.bps) splits

unfoldable pub refined : Option (List Split) → Option (List Split)
refined none = none
refined (some splits) = if refine_splits [] 0 splits then some splits else none

-- the splits of a request body, none if it is refused
unfoldable pub creator_splits_schema : (String → Bool) → Json → Option (List Split)
unfolding split_array refine_splits refined
creator_splits_schema is_valid_account_id (array entries) =
    refined (split_array is_valid_account_id entries)
creator_splits_schema is_valid_account_id _ = none
