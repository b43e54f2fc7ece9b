-- ===== src/Emails/Digest/Once.antt =====
-- Every tip that a run of the digests marks is counted by exactly one digest that was accepted.
use novatip_backend.Prelude.{
  or_else, ◌+◌, codes, decimal, sum_of, length, find?, str_eq, ◌++◌, ℕ, ◌≡◌, refl, sym, ap, ◌∙◌,
  String, Bool, true, false, ◌&&◌, Option, none, some, List, [], ◌∷◌, if◌then◌else◌, any, filter,
  update_where, All, Bool-cases, inl, inr, arith, eq_iff,
}
use mathlib.Core.Path.{subst}
use mathlib.Core.Option.{some-injective}
use mathlib.Core.List.{append_assoc}
use novatip_backend.Store.{Creator, Notification, Db}
use novatip_backend.Creator.Table.{creator_by_id}
use novatip_backend.Emails.Tip.{Email, Mailer, address_of, hour_ms, dashboard_url}
use novatip_backend.Emails.Tip.Address.{IsReachable, address_of-IsReachable}
use novatip_backend.Emails.Digest.{
  digest_email, email_at, amount_of, GroupKey, Group, Digest, key_of, same_key, is_pending,
  group_rows, is_marked, mark_group, group_email, after_group, outcome_of, send_groups,
  send_pending_tip_digests,
}
use novatip_backend.Emails.Digest.Groups.{
  rows_with, has_key, AreDistinct, IsGroup, IsClosed, group_rows-IsGroup, group_rows-IsClosed,
}

-- whether a digest has the key
abbrev pub has_digest : GroupKey → List Digest → Bool
has_digest k digests = any (λ d. same_key d.key k) digests

abbrev pub AreOnce : List Digest → Type 0
AreOnce [] = Unit
AreOnce (d ∷ digests) = (has_digest d.key digests ≡ false) × AreOnce digests

module _ (mailer : Mailer) (to_iso : ℕ → String) (deliver : Email → Option Bool) (now : ℕ) where
  -- the table with the rows of some digests marked
  abbrev marked : List Digest → List Notification → List Notification
  marked digests rows =
      update_where (λ n. any (λ d. is_marked mailer to_iso d.key n) digests)
        (λ n. record n { sent_at = some now }) rows

  marked-nil : (rows : List Notification) → marked [] rows ≡ rows
  marked-nil [] = refl
  marked-nil (n ∷ rows) = ap (λ xs. n ∷ xs) (marked-nil rows)

  -- a row that is marked is not marked again
  not_again :
      (digests : List Digest) (n : Notification)
      → any (λ d. is_marked mailer to_iso d.key (record n { sent_at = some now })) digests ≡ false
  not_again [] n = refl
  not_again (d ∷ digests) n = ground (arith, not_again digests n)

  marked-cons :
      (d : Digest) (digests : List Digest) (rows : List Notification)
      → marked digests
          (update_where (is_marked mailer to_iso d.key) (λ n. record n { sent_at = some now }) rows)
        ≡ marked (d ∷ digests) rows
  marked-cons d digests [] = refl
  marked-cons d digests (n ∷ rows) = elim (Bool-cases (is_marked mailer to_iso d.key n)) [
    | inl here ↦
        let again = not_again digests n in
        rw (here, again)
          (ap (λ xs. record n { sent_at = some now } ∷ xs) (marked-cons d digests rows))
    | inr other ↦ rw other (
        ap
          (λ xs.
            (if any (λ d. is_marked mailer to_iso d.key n) digests
              then record n { sent_at = some now }
              else n)
            ∷ xs)
          (marked-cons d digests rows))
  ]

  -- the email says how many tips there are, and what they sum up to
  pub record IsOf (rows : List Notification) (email : Email) : Type 0 where
    pub subject :
        email.subject
        ≡ codes "💸 You received " ++ (decimal (length rows) ++ codes " tips on Novatip!")
    pub before : List ℕ
    pub after : List ℕ
    pub text :
        email.text
        ≡ before
          ++ ((codes "You received "
                ++ (decimal (length rows)
                    ++ (codes " tips totaling $"
                        ++ (mailer.format_usdc (sum_of amount_of rows)
                            ++ codes " USDC on Novatip."))))
              ++ after)

  -- the email is for these rows, and goes to the address of the creator of the key
  pub record IsSentTo (creators : List Creator) (k : GroupKey) (rows : List Notification)
      (email : Email) : Type 0 where
    pub counted : IsOf rows email
    pub creator : Creator
    pub found : find? (λ c. str_eq c.id k.creator_id) creators ≡ some creator
    pub reachable : IsReachable creator email.to

  digest_email-IsOf :
      (creator : Creator) (email : String) (k : GroupKey) (rows : List Notification)
      → IsOf rows (digest_email mailer to_iso creator email k rows)
  unfolding digest_email
  digest_email-IsOf creator email k rows =
      let greeting =
        codes "Hey " ++ (codes (or_else creator.display_name creator.slug) ++ codes "!") in
      let window =
        codes "Digest window: "
        ++ (codes (to_iso k.window_start)
            ++ (codes " – " ++ codes (to_iso (k.window_start + hour_ms)))) in
      let rest = 10 ∷ window ++ 10 ∷ 10 ∷ (codes "View your dashboard: " ++ dashboard_url mailer) in
      record {
        subject = refl;
        before = greeting ++ 10 ∷ 10 ∷ [];
        after = rest;
        text = sym (append_assoc greeting (10 ∷ 10 ∷ []) _);
      }

  email_at-IsSentTo :
      (creators : List Creator) (creator : Creator) (g : Group) (address : Option String)
      (email : Email)
      → find? (λ c. str_eq c.id g.key.creator_id) creators ≡ some creator
      → address_of creator ≡ address
      → email_at mailer to_iso address creator g ≡ some email
      → IsSentTo creators g.key g.rows email
  email_at-IsSentTo creators creator g none email found address h = cc
  email_at-IsSentTo creators creator g (some a) email found address h =
      subst (IsSentTo creators g.key g.rows) (some-injective _ _ h) (record {
        counted = digest_email-IsOf creator a g.key g.rows;
        creator = creator;
        found = found;
        reachable = unfold digest_email in address_of-IsReachable creator a address;
      })

  group_email-IsSentTo :
      (creators : List Creator) (o : Option Creator) (g : Group) (email : Email)
      → find? (λ c. str_eq c.id g.key.creator_id) creators ≡ o
      → group_email mailer to_iso o g ≡ some email
      → IsSentTo creators g.key g.rows email
  group_email-IsSentTo creators none g email found h = cc
  group_email-IsSentTo creators (some creator) g email found h =
      email_at-IsSentTo creators creator g (address_of creator) email found refl h

  module _ (P : GroupKey → List Notification → Type 0) (creators : List Creator) where
    -- what the loop over some groups comes to
    record AreSent (groups : List Group) (db : Db) (result : List Digest × Db) : Type 0 where
      pub each :
          All
            (λ d.
              P d.key d.rows
              × (deliver d.email ≡ some true)
              × IsSentTo creators d.key d.rows d.email)
            result.0
      pub from : (k : GroupKey) → has_key k groups ≡ false → has_digest k result.0 ≡ false
      pub once : AreOnce result.0
      pub rows : result.1.notifications ≡ marked result.0 db.notifications

    skipped-AreSent :
        (g : Group) (groups : List Group) (db : Db) (result : List Digest × Db)
        → AreSent groups db result
        → AreSent (g ∷ groups) db result
    skipped-AreSent g groups db result s = record {
      each = s.each;
      from = λ k h. s.from k (ground arith);
      once = s.once;
      rows = s.rows;
    }

    after_group-AreSent :
        (email : Option Email) (outcome : Option Bool) (g : Group) (groups : List Group) (db : Db)
        (later : Db → List Digest × Db)
        → outcome ≡ outcome_of mailer to_iso deliver now email
        → has_key g.key groups ≡ false
        → P g.key g.rows
        → ((m : Email) → email ≡ some m → IsSentTo creators g.key g.rows m)
        → db.creators ≡ creators
        → ((d : Db) → d.creators ≡ creators → AreSent groups d (later d))
        → AreSent (g ∷ groups) db (after_group mailer to_iso deliver now email outcome g db later)
    after_group-AreSent none o g groups db later e d p a c s =
        skipped-AreSent g groups db (later db) (s db c)
    after_group-AreSent (some m) none g groups db later e d p a c s =
        skipped-AreSent g groups db (later db) (s db c)
    after_group-AreSent (some m) (some false) g groups db later e d p a c s =
        skipped-AreSent g groups db (later db) (s db c)
    after_group-AreSent (some m) (some true) g groups db later e d p a c s =
        let db' = mark_group mailer to_iso now g.key db in
        let rest = s db' c in
        record {
          each = ((p, sym e, a m refl), rest.each);
          from = λ k h. ground (arith, h, rest.from k);
          once = (rest.from g.key d, rest.once);
          rows =
              rest.rows
              ∙ marked-cons (record { key = g.key; rows = g.rows; email = m }) (later db').0
                  db.notifications;
        }

    send_groups-AreSent :
        (groups : List Group) (db : Db)
        → AreDistinct groups
        → All (λ g. P g.key g.rows) groups
        → db.creators ≡ creators
        → AreSent groups db (send_groups mailer to_iso deliver now groups db)
    unfolding send_groups
    send_groups-AreSent [] db _ _ _ = record {
      each = tt;
      from = λ k h. refl;
      once = tt;
      rows = sym (marked-nil db.notifications);
    }
    send_groups-AreSent (g ∷ groups) db (d, ds) (p, ps) c =
        after_group-AreSent (group_email mailer to_iso (creator_by_id g.key.creator_id db) g)
          (outcome_of mailer to_iso deliver now
            (group_email mailer to_iso (creator_by_id g.key.creator_id db) g))
          g groups db (send_groups mailer to_iso deliver now groups) refl d p
          (λ m.
            group_email-IsSentTo creators (creator_by_id g.key.creator_id db) g m
              (ap (find? (λ c. str_eq c.id g.key.creator_id)) (sym c)))
          c (λ db'. send_groups-AreSent groups db' ds ps)

  -- a digest of a closed hour, with all pending rows of its key
  abbrev Counts : List Notification → GroupKey → List Notification → Type 0
  Counts pending k rows = IsClosed now k × (rows ≡ rows_with k pending)

  closed_marked :
      (k : GroupKey) (n : Notification)
      → IsClosed now k
      → is_marked mailer to_iso k n ≡ (is_pending now n && same_key k (key_of n))
  closed_marked k n (whole, closed) =
      ground
        (arith, whole, closed, eq_iff n.creator_id k.creator_id, eq_iff k.creator_id n.creator_id)

  any_marked :
      (creators : List Creator) (pending : List Notification) (digests : List Digest)
      (n : Notification)
      → All
          (λ d.
            Counts pending d.key d.rows
            × (deliver d.email ≡ some true)
            × IsSentTo creators d.key d.rows d.email)
          digests
      → any (λ d. is_marked mailer to_iso d.key n) digests
        ≡ (is_pending now n && has_digest (key_of n) digests)
  any_marked creators pending [] n _ = ground arith
  any_marked creators pending (d ∷ digests) n (((closed, _), _, _), ds) =
      ground (arith, closed_marked d.key n closed, any_marked creators pending digests n ds)

  -- the table with the pending rows marked whose key has a digest
  abbrev pub announced : List Digest → List Notification → List Notification
  announced digests rows =
      update_where (λ n. is_pending now n && has_digest (key_of n) digests)
        (λ n. record n { sent_at = some now }) rows

  marked-announced :
      (creators : List Creator) (pending : List Notification) (digests : List Digest)
      (rows : List Notification)
      → All
          (λ d.
            Counts pending d.key d.rows
            × (deliver d.email ≡ some true)
            × IsSentTo creators d.key d.rows d.email)
          digests
      → marked digests rows ≡ announced digests rows
  marked-announced creators pending digests [] h = refl
  marked-announced creators pending digests (n ∷ rows) h =
      let rest = marked-announced creators pending digests rows h in
      ap (λ b. (if b then record n { sent_at = some now } else n) ∷ marked digests rows)
        (any_marked creators pending digests n h)
      ∙ ap
          (λ xs.
            (if is_pending now n && has_digest (key_of n) digests
              then record n { sent_at = some now }
              else n)
            ∷ xs)
          rest

  filter-pending :
      (rows : List Notification) → All (λ n. is_pending now n ≡ true) (filter (is_pending now) rows)
  filter-pending [] = tt
  filter-pending (n ∷ rows) = elim (Bool-cases (is_pending now n)) [
    | inl h ↦ rw h (h, filter-pending rows)
    | inr h ↦ rw h (filter-pending rows)
  ]

  -- What a run of the digests does to the table of the notifications.
  pub record IsRun (db : Db) (result : List Digest × Db) : Type 0 where
    pub marks : result.1.notifications ≡ announced result.0 db.notifications
    pub counts :
        All
          (λ d.
            (d.rows
              ≡ filter (λ n. same_key d.key (key_of n)) (filter (is_pending now) db.notifications))
            × (deliver d.email ≡ some true)
            × IsSentTo db.creators d.key d.rows d.email)
          result.0
    pub once : AreOnce result.0

  announced-nil : (rows : List Notification) → rows ≡ announced [] rows
  announced-nil [] = refl
  announced-nil (n ∷ rows) = ground (arith, announced-nil rows)

  counted :
      (creators : List Creator) (pending : List Notification) (digests : List Digest)
      → All
          (λ d.
            Counts pending d.key d.rows
            × (deliver d.email ≡ some true)
            × IsSentTo creators d.key d.rows d.email)
          digests
      → All
          (λ d.
            (d.rows ≡ rows_with d.key pending)
            × (deliver d.email ≡ some true)
            × IsSentTo creators d.key d.rows d.email)
          digests
  counted creators pending [] _ = tt
  counted creators pending (d ∷ digests) (((_, e), a, t), ds) =
      ((e, a, t), counted creators pending digests ds)

  both :
      (pending : List Notification) (groups : List Group)
      → All (λ g. IsClosed now g.key) groups
      → All (IsGroup pending) groups
      → All (λ g. Counts pending g.key g.rows) groups
  both pending [] _ _ = tt
  both pending (g ∷ groups) (c, cs) (e, es) = ((c, e), both pending groups cs es)

  send_groups-IsRun :
      (db : Db)
      → IsRun db (
          send_groups mailer to_iso deliver now
            (group_rows [] (filter (is_pending now) db.notifications))
            db)
  send_groups-IsRun db =
      let pending = filter (is_pending now) db.notifications in
      let groups = group_rows [] pending in
      let (distinct, grouped) = group_rows-IsGroup [] pending [] tt tt (λ k _. refl) in
      let closed = group_rows-IsClosed now pending [] (filter-pending db.notifications) tt in
      let sent =
        send_groups-AreSent (Counts pending) db.creators groups db distinct
          (both pending groups closed grouped) refl in
      let digests = (send_groups mailer to_iso deliver now groups db).0 in
      record {
        marks = sent.rows ∙ marked-announced db.creators pending digests db.notifications sent.each;
        counts = counted db.creators pending digests sent.each;
        once = sent.once;
      }

  -- Whatever emails are accepted, rejected or lost in a run: the rows that it marks are the pending tips
  -- of closed hours for whose creator and hour a digest was accepted, all other rows stay as they are;
  -- each digest was accepted; its subject and text give the number of the pending rows of its creator
  -- and hour and the sum of their amounts, and it went to the verified address of that creator, who has
  -- emails on; and no two digests have the same creator and hour.
  pub send_pending_tip_digests-IsRun :
      (db : Db) → IsRun db (send_pending_tip_digests mailer to_iso deliver now db)
  unfolding send_pending_tip_digests
  send_pending_tip_digests-IsRun db = elim (Bool-cases mailer.has_api_key) [
    | inl key ↦ subst (IsRun db) (sym (ap choose key)) (send_groups-IsRun db)
    | inr no_key ↦
        subst (IsRun db) (sym (ap choose no_key))
          (record { marks = announced-nil db.notifications; counts = tt; once = tt })
  ]
    where
      choose : Bool → List Digest × Db
      choose b =
          if b
          then send_groups mailer to_iso deliver now
              (group_rows [] (filter (is_pending now) db.notifications)) db
          else ([], db)
