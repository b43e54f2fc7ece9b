-- ===== src/Tests/Access.antt =====
-- The theorems on the sign-in at concrete inputs.
use novatip_backend.Prelude.{
  ℕ, zero, suc, ◌+◌, ◌*◌, ◌/◌, ◌≤◌, ◌<◌, ◌≡◌, ◌≢◌, refl, String, Bool, true, false, not, Option,
  none, some, List, [], ◌∷◌, codes, ltb, str_eq, if◌then◌else◌, arith, eq_iff, Result, ok, err,
}
use novatip_backend.Store.{Creator, Db}
use novatip_backend.Redis.{Kv}
use novatip_backend.Tests.{empty_db, creator_with}
use novatip_backend.Creator.Table.{PublicCreator, Site, Env}
use novatip_backend.Creator.Service.{
  delete_creator, delete_in_db, revoke_creator_tokens, cache_invalidate,
}
use novatip_backend.SignIn.Message.{includes, match_line}
use novatip_backend.SignIn.Account.{Draws, create_account}
use novatip_backend.SignIn.Account.Attempts.{ComesTo, first_free, create_account-ComesTo}
use novatip_backend.SignIn.Challenge.{
  Crypto, Auth, SessionClaims, VerifyResult, unauthorized, nonce_key, consume_auth_nonce,
  check_message, verify_ed25519, verify_challenge,
}
use novatip_backend.SignIn.Challenge.SingleUse.{challenge, perform_all, verify_challenge-single_use}
use novatip_backend.SignIn.Challenge.Authentic.{IsChecked, IsSessionOf, verify_challenge-authentic}
use novatip_backend.SignIn.Session.{User, Jwt, authenticate}
use novatip_backend.SignIn.Session.Revoked.{at_time, delete_creator-authenticate}

-- Redis as the answer at each time
abbrev timed : (V : Type 0) → Kv V
timed V = record {
  Keys = ℕ → String → Option V;
  empty = λ t k. none;
  get = λ t k s. s t k;
  set = λ now j v ttl s t k.
      if str_eq j k then (if ltb t (now + ttl * 1000) then some v else none) else s t k;
  del = λ j s t k. if str_eq j k then none else s t k;
  get-empty = λ now k. refl;
  get-set = λ t now k j v ttl s le. refl;
  get-del = λ t k j s. refl;
}

zeros : ℕ → List ℕ
zeros zero = []
zeros (suc n) = 0 ∷ zeros n

-- every signature is valid
abbrev lenient : Crypto
lenient = record {
  is_valid_account_id = λ s. not (str_eq s "");
  public_key = λ _. zeros 32;
  utf8 = λ s. s;
  sha256 = λ s. s;
  from_hex = λ _. zeros 64;
  detached_verify = λ _ _ _. some true;
  to_iso = λ _. "";
  parse_date = λ _. none;
}

abbrev draws : Draws
draws = record { new_id = λ _. "c9"; suffix = λ _. "0123abcd"; others = λ _ db. db }

abbrev token_of : SessionClaims → String
token_of claims = claims.sub

abbrev alice : Creator
alice = record (creator_with "c1" "alice" "@alice") { wallet_address = "GA" }

abbrev with_alice : Db
with_alice = record empty_db { creators = alice ∷ [] }

-- a nonce of GA was issued at time 1
abbrev challenged : Auth (ℕ → String → Option String)
challenged = record {
  db = with_alice;
  nonces = (timed String).set 1 (nonce_key "GA") "ab" 300 (λ t k. none);
}

gb≢ga_ : ◌≢◌ {A = String} "GB" "GA"
gb≢ga_ e = ground (arith, e, eq_iff "GB" "GA")

verify_challenge-single_use_example :
    let verified =
      (verify_challenge lenient (timed String) token_of 2 draws "GA" (codes "x") "" challenged).1 in
    let later =
      perform_all lenient (timed String) token_of ((3, challenge "GB" "d" "n") ∷ []) verified in
    let answer =
      verify_challenge lenient (timed String) token_of 4 draws "GA" (codes "Nonce: ab") "" later in
    (answer.0 ≡ err unauthorized) × (answer.1.db ≡ later.db)
verify_challenge-single_use_example =
    verify_challenge-single_use lenient (timed String) token_of 2 4 "GA"
      ((3, challenge "GB" "d" "n") ∷ []) challenged draws draws (codes "x") (codes "Nonce: ab") ""
      "" refl (omega arith, gb≢ga_, omega arith)

abbrev answered : Result VerifyResult × Auth (ℕ → String → Option String)
answered =
    verify_challenge lenient (timed String) token_of 2 draws "GA" (codes "Nonce: ab") "" challenged

abbrev signed_in : VerifyResult
signed_in = record { jwt = "c1"; is_new_user = false }

verify_challenge-authentic_example :
    IsChecked lenient (timed String) token_of 2 draws "GA" (codes "Nonce: ab") "" (some "ab")
    × (creator : Creator) × IsSessionOf lenient
        (timed String)
        token_of
        2
        draws
        "GA"
        (codes "Nonce: ab")
        ""
        signed_in
        answered.1
        creator
    × (◌≡◌ {A = Bool} false false)
unfolding verify_challenge consume_auth_nonce check_message verify_ed25519 includes match_line
    nonce_key zeros
verify_challenge-authentic_example =
    verify_challenge-authentic lenient (timed String) token_of 2 draws "GA" (codes "Nonce: ab") ""
      challenged signed_in refl

create_account-ComesTo_example :
    ComesTo draws 5 "GB"
      (first_free draws 5 "GB" 5 0 with_alice)
      with_alice
      (create_account draws 5 "GB" with_alice)
create_account-ComesTo_example = create_account-ComesTo draws 5 "GB" with_alice (λ i. refl) refl

abbrev env : Env
env = record { now = 5000; redis_up = true; slug_hold_days = 30; jwt_expires_in_seconds = 60 }

abbrev claims : SessionClaims
claims = record { sub = "c1"; wallet = "GA"; slug = "alice" }

user_of : SessionClaims → User
user_of c = record { sub = c.sub; wallet = c.wallet; slug = c.slug; purpose = none }

fresh :
    (issued now : ℕ) (c : SessionClaims)
    → now / 1000 < issued / 1000 + 60
    → (if ltb (now / 1000) (issued / 1000 + 60) then some (user_of c) else none)
      ≡ some (record { sub = c.sub; wallet = c.wallet; slug = c.slug; purpose = none })
unfolding user_of
fresh issued now c h = ground (arith, h)

stale :
    (issued now : ℕ) (c : SessionClaims)
    → issued / 1000 + 60 ≤ now / 1000
    → (if ltb (now / 1000) (issued / 1000 + 60) then some (user_of c) else none) ≡ none
stale issued now c h = ground (arith, h)

abbrev site : Site (ℕ → String → Option PublicCreator) (ℕ → String → Option String)
site = record { db = with_alice; cache = λ t k. none; revoked = λ t k. none }

-- a token that carries its claims and its time of issue, valid for 60 seconds
abbrev open_tokens : Jwt
open_tokens = record {
  Token = ℕ × SessionClaims;
  lifetime_seconds = 60;
  sign = λ issued c. (issued, c);
  verify =
      λ now (issued, c). if ltb (now / 1000) (issued / 1000 + 60) then some (user_of c) else none;
  verify-sign = λ issued now c le h. fresh issued now c h;
  verify-expired = λ issued now c h. stale issued now c h;
}

delete_creator-authenticate_example :
    authenticate open_tokens
      (timed PublicCreator)
      (timed String)
      (at_time env 9000)
      (1000, claims)
      (delete_creator (timed PublicCreator) (timed String) env "c1" site).1
    ≡ ok none
unfolding delete_creator delete_in_db revoke_creator_tokens cache_invalidate
delete_creator-authenticate_example =
    delete_creator-authenticate open_tokens (timed PublicCreator) (timed String) env site claims
      1000 9000 refl refl refl (omega arith) (omega arith)
