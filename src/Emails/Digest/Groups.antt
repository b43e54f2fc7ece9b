-- ===== src/Emails/Digest/Groups.antt =====
-- The groups are the pending rows, by creator and hour.
use novatip_backend.Prelude.{
  ℕ, ◌<◌, ◌≡◌, refl, sym, ap, ◌∙◌, Bool, true, false, ◌||◌, List, [], ◌∷◌, ◌++◌, any, filter, All,
  inl, inr, Bool-cases, arith, eq_iff, eq_refl,
}
use mathlib.Core.Path.{subst}
use mathlib.Core.List.{append_assoc, append-nil}
use novatip_backend.Store.{Notification}
use novatip_backend.Emails.Tip.{hour_of}
use novatip_backend.Emails.Digest.{
  GroupKey, Group, key_of, same_key, is_pending, add_row, group_rows,
}

-- the rows of a key
abbrev pub rows_with : GroupKey → List Notification → List Notification
rows_with k rows = filter (λ n. same_key k (key_of n)) rows

-- whether a group has the key
abbrev pub has_key : GroupKey → List Group → Bool
has_key k groups = any (λ g. same_key g.key k) groups

abbrev pub AreDistinct : List Group → Type 0
AreDistinct [] = Unit
AreDistinct (g ∷ groups) = (has_key g.key groups ≡ false) × AreDistinct groups

same_key-eq : (k j : GroupKey) → same_key k j ≡ true → k ≡ j
same_key-eq k j h =
    let c : k.creator_id ≡ j.creator_id = ground (arith, h, eq_iff k.creator_id j.creator_id) in
    let w : k.window_start ≡ j.window_start = ground (arith, h) in
    λ i. record { creator_id = c i; window_start = w i }

same_key_refl : (k : GroupKey) → same_key k k ≡ true
same_key_refl k = ground (arith, eq_refl k.creator_id)

same_key-other : (k j : GroupKey) → same_key k j ≡ false → same_key j k ≡ false
same_key-other k j h = elim (Bool-cases (same_key j k)) [
  | inr other ↦ other
  | inl same ↦
      let e : same_key k j ≡ true = ap (same_key k) (same_key-eq j k same) ∙ same_key_refl k in
      ground (arith, e, h)
]

-- the rows of a group are those of its key
abbrev pub IsGroup : List Notification → Group → Type 0
IsGroup seen g = g.rows ≡ rows_with g.key seen

rows_with-hit :
    (k : GroupKey) (seen : List Notification) (r : Notification)
    → same_key k (key_of r) ≡ true
    → rows_with k (seen ++ r ∷ []) ≡ rows_with k seen ++ r ∷ []
rows_with-hit k [] r h = rw h refl
rows_with-hit k (n ∷ seen) r h = ground (arith, rows_with-hit k seen r h)

rows_with-miss :
    (k : GroupKey) (seen : List Notification) (r : Notification)
    → same_key k (key_of r) ≡ false
    → rows_with k (seen ++ r ∷ []) ≡ rows_with k seen
rows_with-miss k [] r h = rw h refl
rows_with-miss k (n ∷ seen) r h = ground (arith, rows_with-miss k seen r h)

-- groups that do not get the row
missed-IsGroup :
    (seen : List Notification) (r : Notification) (groups : List Group)
    → has_key (key_of r) groups ≡ false
    → All (IsGroup seen) groups
    → All (IsGroup (seen ++ r ∷ [])) groups
missed-IsGroup seen r [] h _ = tt
missed-IsGroup seen r (g ∷ groups) h (e, es) = (
  e ∙ sym (rows_with-miss g.key seen r (ground arith)),
  missed-IsGroup seen r groups (ground arith) es,
)

add_row-IsGroup :
    (seen : List Notification) (r : Notification) (groups : List Group)
    → AreDistinct groups
    → (has_key (key_of r) groups ≡ false → rows_with (key_of r) seen ≡ [])
    → All (IsGroup seen) groups
    → All (IsGroup (seen ++ r ∷ [])) (add_row r groups)
unfolding add_row
add_row-IsGroup seen r [] d new _ = (
  sym (
      rows_with-hit (key_of r) seen r (same_key_refl (key_of r))
      ∙ ap (λ xs. xs ++ r ∷ []) (new refl)),
  tt,
)
add_row-IsGroup seen r (g ∷ groups) (d, ds) new (e, es) =
    elim (Bool-cases (same_key g.key (key_of r))) [
      | inl hit ↦
          let others = subst (λ k. has_key k groups ≡ false) (same_key-eq g.key (key_of r) hit) d in
          rw hit (
            ap (λ xs. xs ++ r ∷ []) e ∙ sym (rows_with-hit g.key seen r hit),
            missed-IsGroup seen r groups others es,
          )
      | inr miss ↦ rw miss (
        e ∙ sym (rows_with-miss g.key seen r miss),
        add_row-IsGroup seen r groups ds (λ h. new (ground (arith, h, miss))) es,
      )
    ]

has_key-add_row :
    (k : GroupKey) (r : Notification) (groups : List Group)
    → has_key k (add_row r groups) ≡ (has_key k groups || same_key (key_of r) k)
unfolding add_row
has_key-add_row k r [] = ground arith
has_key-add_row k r (g ∷ groups) = elim (Bool-cases (same_key g.key (key_of r))) [
  | inl hit ↦
      let same = ap (λ j. same_key j k) (same_key-eq g.key (key_of r) hit) in
      rw hit (ground (arith, same))
  | inr miss ↦ rw miss (ground (arith, has_key-add_row k r groups))
]

add_row-AreDistinct :
    (r : Notification) (groups : List Group) → AreDistinct groups → AreDistinct (add_row r groups)
unfolding add_row
add_row-AreDistinct r [] _ = (refl, tt)
add_row-AreDistinct r (g ∷ groups) (d, ds) = elim (Bool-cases (same_key g.key (key_of r))) [
  | inl hit ↦ rw hit (d, ds)
  | inr miss ↦ rw miss (
    has_key-add_row g.key r groups ∙ ground (arith, d, same_key-other g.key (key_of r) miss),
    add_row-AreDistinct r groups ds,
  )
]

-- a key that no group has has no rows
abbrev Covers : List Notification → List Group → Type 0
Covers seen groups = (k : GroupKey) → has_key k groups ≡ false → rows_with k seen ≡ []

add_row-Covers :
    (seen : List Notification) (r : Notification) (groups : List Group)
    → Covers seen groups
    → Covers (seen ++ r ∷ []) (add_row r groups)
add_row-Covers seen r groups c k h =
    let parts = sym (has_key-add_row k r groups) ∙ h in
    let other : same_key (key_of r) k ≡ false = ground (arith, parts) in
    rows_with-miss k seen r (same_key-other (key_of r) k other) ∙ c k (ground (arith, parts))

-- What the loop over the rows makes: groups of different keys, each with the rows of its key in their
-- order.
pub group_rows-IsGroup :
    (seen rows : List Notification) (groups : List Group)
    → AreDistinct groups
    → All (IsGroup seen) groups
    → Covers seen groups
    → AreDistinct (group_rows groups rows) × All (IsGroup (seen ++ rows)) (group_rows groups rows)
unfolding group_rows
group_rows-IsGroup seen [] groups d e c =
    (d, subst (λ s. All (IsGroup s) groups) (sym (append-nil seen)) e)
group_rows-IsGroup seen (r ∷ rows) groups d e c =
    let (d', e') =
      group_rows-IsGroup (seen ++ r ∷ []) rows (add_row r groups) (add_row-AreDistinct r groups d)
        (add_row-IsGroup seen r groups d (c (key_of r)) e) (add_row-Covers seen r groups c) in
    (
      d',
      subst (λ s. All (IsGroup s) (group_rows (add_row r groups) rows))
          (append_assoc seen (r ∷ []) rows) e',
    )

-- the hour of a key is closed
abbrev pub IsClosed : ℕ → GroupKey → Type 0
IsClosed now k = (hour_of k.window_start ≡ k.window_start) × (k.window_start < hour_of now)

add_row-IsClosed :
    (now : ℕ) (r : Notification) (groups : List Group)
    → is_pending now r ≡ true
    → All (λ g. IsClosed now g.key) groups
    → All (λ g. IsClosed now g.key) (add_row r groups)
unfolding add_row
add_row-IsClosed now r [] h _ = ((omega arith, ground (arith, h)), tt)
add_row-IsClosed now r (g ∷ groups) h (k, ks) = elim (Bool-cases (same_key g.key (key_of r))) [
  | inl hit ↦ rw hit (k, ks)
  | inr miss ↦ rw miss (k, add_row-IsClosed now r groups h ks)
]

pub group_rows-IsClosed :
    (now : ℕ) (rows : List Notification) (groups : List Group)
    → All (λ r. is_pending now r ≡ true) rows
    → All (λ g. IsClosed now g.key) groups
    → All (λ g. IsClosed now g.key) (group_rows groups rows)
unfolding group_rows
group_rows-IsClosed now [] groups _ k = k
group_rows-IsClosed now (r ∷ rows) groups (h, hs) k =
    group_rows-IsClosed now rows (add_row r groups) hs (add_row-IsClosed now r groups h k)
