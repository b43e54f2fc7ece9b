-- ===== src/SignIn/Challenge/Authentic.antt =====
-- What a session that was given proves.
use novatip_backend.Prelude.{
  ◌⊎◌, ◌≤◌, length, Bool, ℕ, zero, suc, ◌+◌, ◌≡◌, refl, sym, ap, ◌∙◌, String, true, false, not,
  Option, none, some, is_some, List, [], ◌∷◌, ◌++◌, codes, str_eq, ltb, any, find?, In, inl, inr,
  Bool-cases, arith, eq_iff, Result, ok, err, Error, unique_violation, thrown, fault,
}
use mathlib.Core.Option.{some-injective}
use novatip_backend.Store.{Creator, Db}
use novatip_backend.Redis.{Kv}
use novatip_backend.SignIn.Message.{nonce_label, expires_label, includes, match_line}
use novatip_backend.SignIn.Account.{
  Draws, taken, creator_by_wallet, create_creator, race_winner, after_conflict, after_create,
  drawn_creator, create_from, create_account,
}
use novatip_backend.SignIn.Challenge.{
  Crypto, Auth, SessionClaims, VerifyResult, nonce_key, verify_ed25519, sep53_digest, is_true,
  is_expired, consume_auth_nonce, check_message, new_session, resolve_creator, after_check,
  verify_challenge,
}

-- the row stands in the table and has the wallet
abbrev pub IsAccountOf : String → Db → Creator → Type 0
IsAccountOf wallet db creator = In creator db.creators × (creator.wallet_address ≡ wallet)

-- a result that is no error is an account of the wallet
abbrev IsAccount : String → Result Creator × Db → Type 0
IsAccount wallet (ok creator, db) = IsAccountOf wallet db creator
IsAccount wallet (err e, db) = Unit

found-IsAccount :
    (wallet : String) (cs : List Creator) (c : Creator)
    → find? (λ d. str_eq d.wallet_address wallet) cs ≡ some c
    → In c cs × (c.wallet_address ≡ wallet)
found-IsAccount wallet [] c h = cc
found-IsAccount wallet (d ∷ cs) c h = elim (Bool-cases (str_eq d.wallet_address wallet)) [
  | inl same ↦
      let e : d ≡ c = some-injective _ _ (rw same at h) in
      (inl (sym e), ap (λ x. x.wallet_address) (sym e) ∙ (eq_iff d.wallet_address wallet).0 same)
  | inr other ↦ let (m, e) = found-IsAccount wallet cs c (rw other at h) in (inr m, e)
]

last-In : (cs : List Creator) (c : Creator) → In c (cs ++ c ∷ [])
last-In [] c = inl refl
last-In (d ∷ cs) c = inr (last-In cs c)

created-IsAccount : (row : Creator) (db : Db) → IsAccount row.wallet_address (create_creator row db)
unfolding create_creator
created-IsAccount row db = elim (Bool-cases (taken (λ c. c.id) row db)) [
  | inl clash ↦ rw clash tt
  | inr i ↦ elim (Bool-cases (taken (λ c. c.wallet_address) row db)) [
    | inl clash ↦ rw (i, clash) tt
    | inr w ↦ elim (Bool-cases (taken (λ c. c.slug) row db)) [
      | inl clash ↦ rw (i, w, clash) tt
      | inr s ↦ elim (Bool-cases (taken (λ c. c.jar_id) row db)) [
        | inl clash ↦ rw (i, w, s, clash) tt
        | inr j ↦ rw (i, w, s, j) (last-In db.creators row, refl)
      ]
    ]
  ]
]

raced-IsAccount :
    (wallet : String) (target : List String) (db : Db) (c : Creator)
    → race_winner wallet target db ≡ some c
    → IsAccountOf wallet db c
raced-IsAccount wallet target db c h =
    elim (Bool-cases (any (λ column. str_eq column "walletAddress") target)) [
      | inl w ↦ found-IsAccount wallet db.creators c (rw w at h)
      | inr other ↦ elim (none_some c (rw other at h)) [ ]
    ]
  where
    none_some : (c : Creator) → none ≡ some c → ⊥
    none_some c h = cc

after_conflict-IsAccount :
    (wallet : String) (o : Option Creator) (attempt : ℕ) (target : List String) (db : Db)
    (retry : Db → Result Creator × Db)
    → ((c : Creator) → o ≡ some c → IsAccountOf wallet db c)
    → IsAccount wallet (retry db)
    → IsAccount wallet (after_conflict o attempt target db retry)
after_conflict-IsAccount wallet (some c) attempt target db retry h k = h c refl
after_conflict-IsAccount wallet none attempt target db retry h k =
    elim (Bool-cases (ltb attempt 4)) [ inl more ↦ rw more k | inr last ↦ rw last tt ]

after_create-IsAccount :
    (wallet : String) (attempt : ℕ) (made : Result Creator × Db) (retry : Db → Result Creator × Db)
    → IsAccount wallet made
    → ((db : Db) → IsAccount wallet (retry db))
    → IsAccount wallet (after_create wallet attempt made retry)
after_create-IsAccount wallet attempt (ok row, db) retry h k = h
after_create-IsAccount wallet attempt (err (unique_violation target), db) retry h k =
    after_conflict-IsAccount wallet (race_winner wallet target db) attempt target db retry
      (raced-IsAccount wallet target db) (k db)
after_create-IsAccount wallet attempt (err (thrown status code), db) retry h k = tt
after_create-IsAccount wallet attempt (err (fault code), db) retry h k = tt

create_from-IsAccount :
    (draws : Draws) (now : ℕ) (wallet : String) (left attempt : ℕ) (db : Db)
    → IsAccount wallet (create_from draws now wallet left attempt db)
unfolding create_from
create_from-IsAccount draws now wallet zero attempt db = tt
create_from-IsAccount draws now wallet (suc left) attempt db =
    after_create-IsAccount wallet attempt
      (create_creator (drawn_creator draws now wallet attempt) (draws.others attempt db))
      (create_from draws now wallet left (attempt + 1))
      (created-IsAccount (drawn_creator draws now wallet attempt) (draws.others attempt db))
      (create_from-IsAccount draws now wallet left (attempt + 1))

create_account-IsAccount :
    (draws : Draws) (now : ℕ) (wallet : String) (db : Db)
    → IsAccount wallet (create_account draws now wallet db)
unfolding create_account
create_account-IsAccount draws now wallet db = create_from-IsAccount draws now wallet 5 0 db

ok-injective : {a b : VerifyResult} → ok a ≡ ok b → a ≡ b
ok-injective h = cc

module _ (lib : Crypto) (kv : Kv String) (sign_jwt : SessionClaims → String) (now : ℕ)
    (draws : Draws) (wallet : String) (message : List ℕ) (signature : String) where
  -- the checks that a message passed, with the nonce that was stored
  pub record IsChecked (found : Option String) : Type 0 where
    pub nonce : String
    pub stored : found ≡ some nonce
    pub not_empty : str_eq nonce "" ≡ false
    pub included : includes (nonce_label ++ codes nonce) message ≡ true
    -- it names no time of expiry, or one that is no date, or one that is not over
    pub fresh :
        (match_line expires_label message ≡ none)
        ⊎ ((text : List ℕ) × (match_line expires_label message ≡ some text)
            × ((lib.parse_date text ≡ none)
                ⊎ ((expires_at : ℕ) × (lib.parse_date text ≡ some expires_at)
                    × (now ≤ expires_at))))
    -- the signature of 64 bytes is one of the digest that SEP-53 prescribes
    pub key_length : length (lib.public_key wallet) ≡ 32
    pub signature_length : length (lib.from_hex signature) ≡ 64
    pub signed :
        lib.detached_verify
          (lib.sha256 (lib.utf8 (codes "Stellar Signed Message:\n") ++ lib.utf8 message))
          (lib.from_hex signature)
          (lib.public_key wallet)
        ≡ some true

  date_lem :
      (text : List ℕ) (date : Option ℕ)
      → lib.parse_date text ≡ date
      → is_expired lib now (some text) ≡ false
      → (lib.parse_date text ≡ none)
        ⊎ ((expires_at : ℕ) × (lib.parse_date text ≡ some expires_at) × (now ≤ expires_at))
  date_lem text none e h = inl e
  date_lem text (some expires_at) e h = inr (expires_at, e, ground (arith, rw (e, is_expired) at h))

  fresh_lem :
      (line : Option (List ℕ))
      → match_line expires_label message ≡ line
      → is_expired lib now line ≡ false
      → (match_line expires_label message ≡ none)
        ⊎ ((text : List ℕ) × (match_line expires_label message ≡ some text)
            × ((lib.parse_date text ≡ none)
                ⊎ ((expires_at : ℕ) × (lib.parse_date text ≡ some expires_at)
                    × (now ≤ expires_at))))
  fresh_lem none e h = inl e
  fresh_lem (some text) e h = inr (text, e, date_lem text (lib.parse_date text) refl h)

  true_lem : (o : Option Bool) → is_true lib o ≡ true → o ≡ some true
  true_lem none h = cc
  true_lem (some b) h = ap some h

  signed_lem :
      verify_ed25519 lib message signature (lib.public_key wallet) ≡ true
      → (length (lib.public_key wallet) ≡ 32)
        × (length (lib.from_hex signature) ≡ 64)
        × (lib.detached_verify
              (lib.sha256 (lib.utf8 (codes "Stellar Signed Message:\n") ++ lib.utf8 message))
              (lib.from_hex signature)
              (lib.public_key wallet)
            ≡ some true)
  unfolding verify_ed25519 sep53_digest
  signed_lem h = (ground (arith, h), ground (arith, h), true_lem _ (ground (arith, h)))

  checked :
      (found : Option String)
      → check_message lib now wallet message signature found ≡ ok tt
      → IsChecked found
  unfolding check_message
  checked none h = cc
  checked (some nonce) h =
      let expired : is_expired lib now (match_line expires_label message) ≡ false =
        ground (arith, h) in
      let verified : verify_ed25519 lib message signature (lib.public_key wallet) ≡ true =
        ground (arith, h) in
      let (key_length, signature_length, signed) = signed_lem verified in
      record {
        nonce = nonce;
        stored = refl;
        not_empty = ground (arith, h);
        included = ground (arith, h);
        fresh = fresh_lem (match_line expires_label message) refl expired;
        key_length = key_length;
        signature_length = signature_length;
        signed = signed;
      }

  -- the session names an account of the wallet that stands in the database
  abbrev pub IsSessionOf : VerifyResult → Auth kv.Keys → Creator → Type 0
  IsSessionOf v s creator =
      IsAccountOf wallet s.db creator
      × (v.jwt ≡ sign_jwt (record { sub = creator.id; wallet = wallet; slug = creator.slug }))

  new_session-IsSessionOf :
      (made : Result Creator × Db) (s : Auth kv.Keys) (v : VerifyResult)
      → IsAccount wallet made
      → (new_session lib kv sign_jwt wallet made s).0 ≡ ok v
      → (creator : Creator) × IsSessionOf v (new_session lib kv sign_jwt wallet made s).1 creator
        × (v.is_new_user ≡ true)
  new_session-IsSessionOf (ok c, db) s v a h =
      let e = ok-injective h in (c, (a, ap (λ r. r.jwt) (sym e)), ap (λ r. r.is_new_user) (sym e))
  new_session-IsSessionOf (err e, db) s v a h = cc

  resolve_creator-IsSessionOf :
      (found : Option Creator) (s : Auth kv.Keys) (v : VerifyResult)
      → ((c : Creator) → found ≡ some c → IsAccountOf wallet s.db c)
      → (resolve_creator lib kv sign_jwt now draws wallet found s).0 ≡ ok v
      → (creator : Creator) × IsSessionOf v
          (resolve_creator lib kv sign_jwt now draws wallet found s).1
          creator
        × (v.is_new_user ≡ not (is_some found))
  resolve_creator-IsSessionOf (some c) s v a h =
      let e = ok-injective h in
      (c, (a c refl, ap (λ r. r.jwt) (sym e)), ap (λ r. r.is_new_user) (sym e))
  resolve_creator-IsSessionOf none s v a h =
      new_session-IsSessionOf (create_account draws now wallet s.db) s v
        (create_account-IsAccount draws now wallet s.db) h

  after_check-IsSessionOf :
      (found : Option String) (s : Auth kv.Keys) (v : VerifyResult) (r : Result (Unit {0}))
      → check_message lib now wallet message signature found ≡ r
      → (after_check lib kv sign_jwt now draws wallet r s).0 ≡ ok v
      → IsChecked found
        × (creator : Creator) × IsSessionOf v
            (after_check lib kv sign_jwt now draws wallet r s).1
            creator
        × (v.is_new_user ≡ not (is_some (creator_by_wallet wallet s.db)))
  after_check-IsSessionOf found s v (err e) c h = cc
  after_check-IsSessionOf found s v (ok _) c h =
      let (creator, named, new) =
        resolve_creator-IsSessionOf (creator_by_wallet wallet s.db) s v
          (found-IsAccount wallet s.db.creators) h in
      (checked found c, creator, named, new)

  -- A verification that gives a session has consumed a nonce that is not empty and was stored for that
  -- wallet; the signed message contains it and names no date of expiry that is over, and the signature is one of its
  -- SEP-53 digest by the key of the wallet. The token names an account of the wallet that stands in the database
  -- afterwards, and it is called new exactly if the wallet had none.
  pub verify_challenge-authentic :
      (s : Auth kv.Keys) (v : VerifyResult)
      → (verify_challenge lib kv sign_jwt now draws wallet message signature s).0 ≡ ok v
      → IsChecked (kv.get now (nonce_key wallet) s.nonces)
        × (creator : Creator) × IsSessionOf v
            (verify_challenge lib kv sign_jwt now draws wallet message signature s).1
            creator
        × (v.is_new_user ≡ not (is_some (creator_by_wallet wallet s.db)))
  unfolding verify_challenge consume_auth_nonce
  verify_challenge-authentic s v h = elim (Bool-cases (lib.is_valid_account_id wallet)) [
    | inr invalid ↦ elim (refused (rw invalid at h)) [ ]
    | inl valid ↦ rw valid (
        after_check-IsSessionOf (kv.get now (nonce_key wallet) s.nonces)
          (record s { nonces = kv.del (nonce_key wallet) s.nonces }) v
          (check_message lib now wallet message signature (kv.get now (nonce_key wallet) s.nonces))
          refl (rw valid at h))
  ]
    where
      refused : {e : Error} → err e ≡ ok v → ⊥
      refused h = cc
