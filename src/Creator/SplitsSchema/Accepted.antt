-- ===== src/Creator/SplitsSchema/Accepted.antt =====
-- What is known of splits that the schema accepts.
use novatip_backend.Prelude.{
  ℕ, ◌+◌, ◌≤◌, ◌≡◌, refl, ap, String, Bool, true, Option, none, some, List, [], ◌∷◌, arith,
  if-eq-some, All, sum_of,
}
use mathlib.Core.Path.{subst}
use mathlib.Core.Option.{some-injective}
use novatip_backend.Store.{
  Json, null, boolean, number, text, array, object, JsonItems, item, no_items, Split, get_field,
  text_of, natural_of,
}
use novatip_backend.Creator.SplitsSchema.{
  creator_splits_schema, split_array, split_object, split_of_fields, cons_split, refined,
  refine_splits,
}

-- a split that the schema lets through
pub record IsAccepted (is_valid_account_id : String → Bool) (split : Split) : Type 0 where
  pub valid : is_valid_account_id split.to ≡ true
  pub bps_le : split.bps ≤ 10000

refine_splits-le :
    (recipients : List String) (total : ℕ) (splits : List Split)
    → refine_splits recipients total splits ≡ true
    → total + sum_of (λ s. s.bps) splits ≤ 10000
unfolding refine_splits
refine_splits-le recipients total [] h = ground arith
refine_splits-le recipients total (s ∷ splits) h =
    ground (arith, refine_splits-le (s.to ∷ recipients) (total + s.bps) splits)

module _ (is_valid_account_id : String → Bool) where
  split_of_fields-IsAccepted :
      (to : Option String) (bps : Option ℕ) (split : Split)
      → split_of_fields is_valid_account_id to bps ≡ some split
      → IsAccepted is_valid_account_id split
  unfolding split_of_fields
  split_of_fields-IsAccepted none bps split h = cc
  split_of_fields-IsAccepted (some to) none split h = cc
  split_of_fields-IsAccepted (some to) (some bps) split h =
      let (k, e) = if-eq-some _ _ _ h in
      subst (IsAccepted is_valid_account_id) e
        (record { valid = ground arith; bps_le = ground arith })

  split_object-IsAccepted :
      (entry : Json) (split : Split)
      → split_object is_valid_account_id entry ≡ some split
      → IsAccepted is_valid_account_id split
  unfolding split_object
  split_object-IsAccepted (object members) split h =
      split_of_fields-IsAccepted (text_of (get_field "to" members))
        (natural_of (get_field "bps" members)) split h
  split_object-IsAccepted null split h = cc
  split_object-IsAccepted (boolean b) split h = cc
  split_object-IsAccepted (number n) split h = cc
  split_object-IsAccepted (text t) split h = cc
  split_object-IsAccepted (array entries) split h = cc

  cons_split-IsAccepted :
      (head : Option Split) (tail : Option (List Split)) (splits : List Split)
      → cons_split is_valid_account_id head tail ≡ some splits
      → ((s : Split) → head ≡ some s → IsAccepted is_valid_account_id s)
      → ((rest : List Split) → tail ≡ some rest → All (IsAccepted is_valid_account_id) rest)
      → All (IsAccepted is_valid_account_id) splits
  unfolding cons_split
  cons_split-IsAccepted none tail splits e h k = cc
  cons_split-IsAccepted (some s) none splits e h k = cc
  cons_split-IsAccepted (some s) (some rest) splits e h k =
      subst (All (IsAccepted is_valid_account_id)) (some-injective _ _ e) (h s refl, k rest refl)

  split_array-IsAccepted :
      (entries : JsonItems) (splits : List Split)
      → split_array is_valid_account_id entries ≡ some splits
      → All (IsAccepted is_valid_account_id) splits
  unfolding split_array
  split_array-IsAccepted no_items splits h =
      subst (All (IsAccepted is_valid_account_id)) (some-injective _ _ h) tt
  split_array-IsAccepted (item entry rest) splits h =
      cons_split-IsAccepted (split_object is_valid_account_id entry)
        (split_array is_valid_account_id rest) splits h (split_object-IsAccepted entry)
        (split_array-IsAccepted rest)

  refined-eq-some :
      (found : Option (List Split)) (splits : List Split)
      → refined found ≡ some splits
      → (found ≡ some splits) × (refine_splits [] 0 splits ≡ true)
  unfolding refined
  refined-eq-some none splits h = cc
  refined-eq-some (some found) splits h =
      let (k, e) = if-eq-some _ _ _ h in (ap some e, subst (λ s. refine_splits [] 0 s ≡ true) e k)

  pub creator_splits_schema-IsAccepted :
      (body : Json) (splits : List Split)
      → creator_splits_schema is_valid_account_id body ≡ some splits
      → All (IsAccepted is_valid_account_id) splits × (sum_of (λ s. s.bps) splits ≤ 10000)
  unfolding creator_splits_schema
  creator_splits_schema-IsAccepted (array entries) splits h =
      let (e, r) = refined-eq-some (split_array is_valid_account_id entries) splits h in
      (split_array-IsAccepted entries splits e, omega (arith, refine_splits-le [] 0 splits r))
  creator_splits_schema-IsAccepted null splits h = cc
  creator_splits_schema-IsAccepted (boolean b) splits h = cc
  creator_splits_schema-IsAccepted (number n) splits h = cc
  creator_splits_schema-IsAccepted (text t) splits h = cc
  creator_splits_schema-IsAccepted (object members) splits h = cc
