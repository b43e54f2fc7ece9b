-- ===== src/SignIn/Challenge/SingleUse.antt =====
-- A nonce serves for one verification, whatever comes of it.
use text.Mathlib.TextLemmas.{append_cancel_left}
use novatip_backend.Prelude.{
  ℕ, ◌≤◌, ◌≡◌, ◌≢◌, refl, ap, ◌∙◌, String, true, false, Option, none, some, List, [], ◌∷◌, str_eq,
  Result, ok, err, arith, eq_iff, eq_refl, Bool-cases, inl, inr,
}
use novatip_backend.Store.{Creator, Db}
use novatip_backend.Redis.{Kv}
use novatip_backend.SignIn.Account.{Draws, create_account, creator_by_wallet}
use novatip_backend.SignIn.Challenge.{
  Crypto, Auth, SessionClaims, unauthorized, nonce_key, nonce_ttl_seconds, generate_challenge,
  consume_auth_nonce, check_message, after_check, resolve_creator, new_session, verify_challenge,
}

-- a request for a challenge, and one to verify a signed message
pub data AuthRequest : Type 0 where
  challenge : String → String → String → AuthRequest
  verify : Draws → String → List ℕ → String → AuthRequest

-- the request is no request of the wallet for a challenge
abbrev pub IsNoChallengeFor : String → AuthRequest → Type 0
IsNoChallengeFor wallet (challenge other domain nonce) = other ≢ wallet
IsNoChallengeFor wallet (verify draws other message signature) = Unit

nonce_key-other : (v w : String) → v ≢ w → str_eq (nonce_key v) (nonce_key w) ≡ false
unfolding nonce_key
nonce_key-other v w h = elim (Bool-cases (str_eq (nonce_key v) (nonce_key w))) [
  | inr other ↦ other
  | inl same ↦
      absurd (h (append_cancel_left "nonce:" v w ((eq_iff (nonce_key v) (nonce_key w)).0 same)))
]

module _ (lib : Crypto) (kv : Kv String) (sign_jwt : SessionClaims → String) where
  -- a request at a time
  unfoldable pub perform : ℕ → AuthRequest → Auth kv.Keys → Auth kv.Keys
  unfolding generate_challenge verify_challenge
  perform now (challenge wallet domain nonce) s =
      (generate_challenge lib kv now wallet domain nonce s).1
  perform now (verify draws wallet message signature) s =
      (verify_challenge lib kv sign_jwt now draws wallet message signature s).1

  unfoldable pub perform_all : List (ℕ × AuthRequest) → Auth kv.Keys → Auth kv.Keys
  unfolding perform
  perform_all [] s = s
  perform_all ((now, request) ∷ requests) s = perform_all requests (perform now request s)

  -- requests between two times, in order, none of which asks for a challenge of the wallet
  abbrev pub AreBetween : String → ℕ → ℕ → List (ℕ × AuthRequest) → Type 0
  AreBetween wallet first last [] = first ≤ last
  AreBetween wallet first last ((now, request) ∷ requests) =
      (first ≤ now) × IsNoChallengeFor wallet request × AreBetween wallet now last requests

  -- from a time on the wallet has no nonce
  abbrev IsSpent : String → ℕ → Auth kv.Keys → Type 0
  IsSpent wallet from s = (t : ℕ) → from ≤ t → kv.get t (nonce_key wallet) s.nonces ≡ none

  nonces-resolve_creator :
      (now : ℕ) (draws : Draws) (wallet : String) (found : Option Creator) (s : Auth kv.Keys)
      → (resolve_creator lib kv sign_jwt now draws wallet found s).1.nonces ≡ s.nonces
  nonces-resolve_creator now draws wallet (some c) s = refl
  nonces-resolve_creator now draws wallet none s =
      nonces-new_session (create_account draws now wallet s.db)
    where
      nonces-new_session :
          (r : Result Creator × Db) → (new_session lib kv sign_jwt wallet r s).1.nonces ≡ s.nonces
      nonces-new_session (ok c, db) = refl
      nonces-new_session (err e, db) = refl

  nonces-after_check :
      (now : ℕ) (draws : Draws) (wallet : String) (r : Result (Unit {0})) (s : Auth kv.Keys)
      → (after_check lib kv sign_jwt now draws wallet r s).1.nonces ≡ s.nonces
  nonces-after_check now draws wallet (err e) s = refl
  nonces-after_check now draws wallet (ok _) s =
      nonces-resolve_creator now draws wallet (creator_by_wallet wallet s.db) s

  -- a verification of a valid address leaves the nonces without that of the address
  nonces-verify_challenge :
      (now : ℕ) (draws : Draws) (wallet : String) (message : List ℕ) (signature : String)
      (s : Auth kv.Keys)
      → lib.is_valid_account_id wallet ≡ true
      → (verify_challenge lib kv sign_jwt now draws wallet message signature s).1.nonces
        ≡ kv.del (nonce_key wallet) s.nonces
  unfolding verify_challenge consume_auth_nonce
  nonces-verify_challenge now draws wallet message signature s valid = rw valid (
      nonces-after_check now draws wallet
        (check_message lib now wallet message signature (kv.get now (nonce_key wallet) s.nonces))
        (record s { nonces = kv.del (nonce_key wallet) s.nonces }))

  del-IsSpent :
      (wallet other : String) (from : ℕ) (s s' : Auth kv.Keys)
      → s'.nonces ≡ kv.del (nonce_key other) s.nonces
      → IsSpent wallet from s
      → IsSpent wallet from s'
  del-IsSpent wallet other from s s' e h t le =
      ap (kv.get t (nonce_key wallet)) e
      ∙ kv.get-del t (nonce_key wallet) (nonce_key other) s.nonces
      ∙ ground (arith, h t le)

  -- a request for an invalid address changes nothing
  invalid-generate_challenge :
      (now : ℕ) (wallet domain nonce : String) (s : Auth kv.Keys)
      → lib.is_valid_account_id wallet ≡ false
      → (generate_challenge lib kv now wallet domain nonce s).1 ≡ s
  unfolding generate_challenge
  invalid-generate_challenge now wallet domain nonce s h = rw h refl

  invalid-verify_challenge :
      (now : ℕ) (draws : Draws) (wallet : String) (message : List ℕ) (signature : String)
      (s : Auth kv.Keys)
      → lib.is_valid_account_id wallet ≡ false
      → (verify_challenge lib kv sign_jwt now draws wallet message signature s).1 ≡ s
  unfolding verify_challenge
  invalid-verify_challenge now draws wallet message signature s h = rw h refl

  nonces-generate_challenge :
      (now : ℕ) (wallet domain nonce : String) (s : Auth kv.Keys)
      → lib.is_valid_account_id wallet ≡ true
      → (generate_challenge lib kv now wallet domain nonce s).1.nonces
        ≡ kv.set now (nonce_key wallet) nonce nonce_ttl_seconds s.nonces
  unfolding generate_challenge
  nonces-generate_challenge now wallet domain nonce s h = rw h refl

  perform-IsSpent :
      (wallet : String) (from now : ℕ) (request : AuthRequest) (s : Auth kv.Keys)
      → from ≤ now
      → IsNoChallengeFor wallet request
      → IsSpent wallet from s
      → IsSpent wallet now (perform now request s)
  unfolding perform
  perform-IsSpent wallet from now (challenge other domain nonce) s le ne h t le' =
      let read : Auth kv.Keys → Option String = λ a. kv.get t (nonce_key wallet) a.nonces in
      let before = h t (omega (arith, le, le')) in
      elim (Bool-cases (lib.is_valid_account_id other)) [
        | inr invalid ↦
            ap read (invalid-generate_challenge now other domain nonce s invalid) ∙ before
        | inl valid ↦
            ap (kv.get t (nonce_key wallet))
              (nonces-generate_challenge now other domain nonce s valid)
            ∙ kv.get-set t now (nonce_key wallet) (nonce_key other) nonce nonce_ttl_seconds s.nonces
                le'
            ∙ ground (arith, nonce_key-other other wallet ne, before)
      ]
  perform-IsSpent wallet from now (verify draws other message signature) s le _ h t le' =
      let read : Auth kv.Keys → Option String = λ a. kv.get t (nonce_key wallet) a.nonces in
      let before = h t (omega (arith, le, le')) in
      elim (Bool-cases (lib.is_valid_account_id other)) [
        | inr invalid ↦
            ap read (invalid-verify_challenge now draws other message signature s invalid) ∙ before
        | inl valid ↦
            del-IsSpent wallet other from s
              (verify_challenge lib kv sign_jwt now draws other message signature s).1
              (nonces-verify_challenge now draws other message signature s valid) h t
              (omega (arith, le, le'))
      ]

  perform_all-IsSpent :
      (wallet : String) (from last : ℕ) (requests : List (ℕ × AuthRequest)) (s : Auth kv.Keys)
      → AreBetween wallet from last requests
      → IsSpent wallet from s
      → IsSpent wallet last (perform_all requests s)
  unfolding perform_all
  perform_all-IsSpent wallet from last [] s le h = λ t le'. h t (omega (arith, le, le'))
  perform_all-IsSpent wallet from last ((now, request) ∷ requests) s (le, ne, rest) h =
      perform_all-IsSpent wallet now last requests (perform now request s) rest
        (perform-IsSpent wallet from now request s le ne h)

  -- a verification without a nonce
  verify_challenge-without :
      (now : ℕ) (draws : Draws) (wallet : String) (message : List ℕ) (signature : String)
      (s : Auth kv.Keys)
      → lib.is_valid_account_id wallet ≡ true
      → kv.get now (nonce_key wallet) s.nonces ≡ none
      → let answer = verify_challenge lib kv sign_jwt now draws wallet message signature s in
        (answer.0 ≡ err unauthorized) × (answer.1.db ≡ s.db)
  unfolding verify_challenge consume_auth_nonce check_message
  verify_challenge-without now draws wallet message signature s valid gone =
      rw (valid, gone) (refl, refl)

  -- Once the message of a valid address was verified, with success or without, a later verification
  -- for that address is refused with 401 and changes nothing in the database, whatever other requests
  -- come between, as long as none of them asks for a new challenge of the address.
  pub verify_challenge-single_use :
      (first last : ℕ) (wallet : String) (requests : List (ℕ × AuthRequest)) (s : Auth kv.Keys)
      (draws draws' : Draws) (message message' : List ℕ) (signature signature' : String)
      → lib.is_valid_account_id wallet ≡ true
      → AreBetween wallet first last requests
      → let verified =
          (verify_challenge lib kv sign_jwt first draws wallet message signature s).1 in
        let later = perform_all requests verified in
        let answer =
          verify_challenge lib kv sign_jwt last draws' wallet message' signature' later in
        (answer.0 ≡ err unauthorized) × (answer.1.db ≡ later.db)
  verify_challenge-single_use first last wallet requests s draws draws' message message' signature
        signature' valid between =
      let verified = (verify_challenge lib kv sign_jwt first draws wallet message signature s).1 in
      let spent : IsSpent wallet first verified = λ t le.
        ap (kv.get t (nonce_key wallet))
          (nonces-verify_challenge first draws wallet message signature s valid)
        ∙ kv.get-del t (nonce_key wallet) (nonce_key wallet) s.nonces
        ∙ ground (arith, eq_refl (nonce_key wallet)) in
      verify_challenge-without last draws' wallet message' signature'
        (perform_all requests verified) valid
        (perform_all-IsSpent wallet first last requests verified between spent last (omega arith))
