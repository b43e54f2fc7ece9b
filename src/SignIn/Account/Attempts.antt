-- ===== src/SignIn/Account/Attempts.antt =====
-- Which of the five drawn slugs a new account gets.
use novatip_backend.Prelude.{
  ℕ, zero, suc, ◌+◌, ◌<◌, ◌≡◌, refl, sym, ap, ◌∙◌, String, Bool, true, false, ◌&&◌, not, Option,
  none, some, List, [], ◌∷◌, ◌++◌, str_eq, ltb, if◌then◌else◌, any, find?, Bool-cases, inl, inr,
  arith, Result, ok, err, unique_violation,
}
use mathlib.Core.Path.{subst}
use novatip_backend.Store.{Creator, Db}
use novatip_backend.SignIn.Account.{
  Draws, taken, creator_by_wallet, create_creator, race_winner, after_conflict, after_create,
  drawn_creator, create_from, create_account,
}

wallet_free :
    (wallet : String) (cs : List Creator)
    → find? (λ c. str_eq c.wallet_address wallet) cs ≡ none
    → any (λ c. str_eq c.wallet_address wallet) cs ≡ false
wallet_free wallet [] h = refl
wallet_free wallet (c ∷ cs) h = ground (arith, wallet_free wallet cs)

module _ (draws : Draws) (now : ℕ) (wallet : String) where
  -- no creator has the id or the slug that a round draws, nor the jar id of the slug
  abbrev pub is_free : ℕ → Db → Bool
  is_free attempt db =
      let row = drawn_creator draws now wallet attempt in
      not (taken (λ c. c.id) row db)
      && not (taken (λ c. c.slug) row db)
      && not (taken (λ c. c.jar_id) row db)

  -- the first of so many rounds whose draw is free
  abbrev pub first_free : ℕ → ℕ → Db → Option ℕ
  first_free zero attempt db = none
  first_free (suc left) attempt db =
      let later = first_free left (attempt + 1) db in
      if is_free attempt db then some attempt else later

  -- what the loop comes to: the row of the first free draw, or else the violation of a constraint
  abbrev pub ComesTo : Option ℕ → Db → Result Creator × Db → Type 0
  ComesTo (some attempt) db result =
      let row = drawn_creator draws now wallet attempt in
      result ≡ (ok row, record db { creators = db.creators ++ row ∷ [] })
  ComesTo none db result = (target : List String) × (result ≡ (err (unique_violation target), db))

  free_round :
      (attempt : ℕ) (db : Db)
      → taken (λ c. c.wallet_address) (drawn_creator draws now wallet attempt) db ≡ false
      → is_free attempt db ≡ true
      → create_creator (drawn_creator draws now wallet attempt) db ≡ (
        ok (drawn_creator draws now wallet attempt),
        record db { creators = db.creators ++ drawn_creator draws now wallet attempt ∷ [] },
      )
  unfolding create_creator
  free_round attempt db w f =
      let row = drawn_creator draws now wallet attempt in
      let i : taken (λ c. c.id) row db ≡ false = ground arith in
      let s : taken (λ c. c.slug) row db ≡ false = ground arith in
      let j : taken (λ c. c.jar_id) row db ≡ false = ground arith in rw (i, w, s, j) refl

  -- a violation that is not of the wallet
  taken_round :
      (attempt : ℕ) (db : Db)
      → taken (λ c. c.wallet_address) (drawn_creator draws now wallet attempt) db ≡ false
      → is_free attempt db ≡ false
      → (column : String) × (str_eq column "walletAddress" ≡ false)
        × (create_creator (drawn_creator draws now wallet attempt) db
            ≡ (err (unique_violation (column ∷ [])), db))
  unfolding create_creator
  taken_round attempt db w f =
      let row = drawn_creator draws now wallet attempt in
      elim (Bool-cases (taken (λ c. c.id) row db)) [
        | inl i ↦ ("id", refl, rw i refl)
        | inr i ↦ elim (Bool-cases (taken (λ c. c.slug) row db)) [
          | inl s ↦ ("slug", refl, rw (i, w, s) refl)
          | inr s ↦
              let j : taken (λ c. c.jar_id) row db ≡ true = ground arith in
              ("jarId", refl, rw (i, w, s, j) refl)
        ]
      ]

  -- after a violation that is not of the wallet, while rounds are left and in the last one
  after_taken :
      (attempt : ℕ) (column : String) (db : Db) (retry : Db → Result Creator × Db)
      → str_eq column "walletAddress" ≡ false
      → after_create wallet attempt (err (unique_violation (column ∷ [])), db) retry
        ≡ (if ltb attempt 4 then retry db else (err (unique_violation (column ∷ [])), db))
  after_taken attempt column db retry h =
      let no_race : race_winner wallet (column ∷ []) db ≡ none = ground (arith, h) in
      ap (λ o. after_conflict o attempt (column ∷ []) db retry) no_race

  create_from-ComesTo :
      (left attempt : ℕ) (db : Db)
      → ((i : ℕ) → draws.others i db ≡ db)
      → any (λ c. str_eq c.wallet_address wallet) db.creators ≡ false
      → left + attempt ≡ 5
      → 0 < left
      → ComesTo (first_free left attempt db) db (create_from draws now wallet left attempt db)
  unfolding create_from
  create_from-ComesTo zero attempt db quiet w n pos = ground arith
  create_from-ComesTo (suc left) attempt db quiet w n pos =
      let row = drawn_creator draws now wallet attempt in
      let retry = create_from draws now wallet left (attempt + 1) in
      let here =
        ap (λ d. after_create wallet attempt (create_creator row d) retry) (quiet attempt) in
      elim (Bool-cases (is_free attempt db)) [
        | inl free ↦
            rw free
              (here ∙ ap (λ r. after_create wallet attempt r retry) (free_round attempt db w free))
        | inr not_free ↦
            let (column, other, e) = taken_round attempt db w not_free in
            let round =
              after_create wallet attempt (create_creator row (draws.others attempt db)) retry in
            let violated : Result Creator × Db = (err (unique_violation (column ∷ [])), db) in
            let after : round ≡ (if ltb attempt 4 then retry db else violated) =
              here
              ∙ ap (λ r. after_create wallet attempt r retry) e
              ∙ after_taken attempt column db retry other in
            rw not_free (elim (Bool-cases (ltb attempt 4)) [
              | inl more ↦
                  let next : round ≡ retry db = rw more at after in
                  subst (ComesTo (first_free left (attempt + 1) db) db) (sym next)
                    (create_from-ComesTo left (attempt + 1) db quiet w (omega arith) (ground arith))
              | inr last ↦
                  let end : round ≡ violated = rw last at after in
                  let no_left : 0 ≡ left = ground arith in
                  subst (λ n. ComesTo (first_free n (attempt + 1) db) db round) no_left
                    (column ∷ [], end)
            ])
      ]

  -- For a wallet without a record, when no other request comes between: the account gets the first of
  -- the five draws whose row id, slug and jar id are not taken, and its row is added to the table; if
  -- there is none, the violation of a unique constraint is thrown on and nothing is written.
  pub create_account-ComesTo :
      (db : Db)
      → ((i : ℕ) → draws.others i db ≡ db)
      → creator_by_wallet wallet db ≡ none
      → ComesTo (first_free 5 0 db) db (create_account draws now wallet db)
  unfolding create_account
  create_account-ComesTo db quiet missing =
      create_from-ComesTo 5 0 db quiet (wallet_free wallet db.creators missing) (omega arith)
        (omega arith)
