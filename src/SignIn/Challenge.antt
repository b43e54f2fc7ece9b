-- ===== src/SignIn/Challenge.antt =====
-- generateChallenge and verifyChallenge of src/modules/auth/auth.service.ts, and the nonces of
-- src/redis.ts. The libraries for keys, hashes and signatures are a parameter.
pub mod SingleUse
pub mod Authentic
use Prim.Native.String
use novatip_backend.Prelude.{
  ℕ, ◌+◌, ◌*◌, String, Bool, true, false, not, Option, none, some, List, [], ◌∷◌, ◌++◌, codes,
  length, ltb, ◌==◌, str_eq, if◌then◌else◌, Error, thrown, Result, ok, err,
}
use novatip_backend.Store.{Creator, Db}
use novatip_backend.Redis.{Kv}
use novatip_backend.SignIn.Message.{
  nonce_label, expires_label, nonce_lifetime_ms, includes, match_line, challenge_message,
}
use novatip_backend.SignIn.Account.{creator_by_wallet, Draws, create_account}

-- the SDK, tweetnacl, crypto and Date, as far as the sign-in uses them; bytes are numbers
pub record Crypto : Type 0 where
  pub is_valid_account_id : String → Bool
  -- `StrKey.decodeEd25519PublicKey` of a valid address
  pub public_key : String → List ℕ
  pub utf8 : List ℕ → List ℕ
  pub sha256 : List ℕ → List ℕ
  -- `Buffer.from(text, "hex")`
  pub from_hex : String → List ℕ
  -- `nacl.sign.detached.verify(message, signature, key)`; none if it throws
  pub detached_verify : List ℕ → List ℕ → List ℕ → Option Bool
  pub to_iso : ℕ → String
  -- `new Date(text).getTime()`, none for NaN
  pub parse_date : List ℕ → Option ℕ

pub record ChallengeMessage : Type 0 where
  pub message : List ℕ
  pub nonce : String

pub record SessionClaims : Type 0 where
  pub sub : String
  pub wallet : String
  pub slug : String

pub record VerifyResult : Type 0 where
  pub jwt : String
  pub is_new_user : Bool

-- the database and the nonces
pub record Auth (N : Type 0) : Type 0 where
  pub db : Db
  pub nonces : N

abbrev pub nonce_ttl_seconds : ℕ
nonce_ttl_seconds = 300

unfoldable pub nonce_key : String → String
nonce_key wallet = String.◌++◌ "nonce:" wallet

abbrev pub unauthorized : Error
unauthorized = thrown 401 ""

abbrev pub sep53_prefix : List ℕ
sep53_prefix = codes "Stellar Signed Message:\n"

module _ (lib : Crypto) where
  unfoldable pub sep53_digest : List ℕ → List ℕ
  sep53_digest message = lib.sha256 (lib.utf8 sep53_prefix ++ lib.utf8 message)

  abbrev pub is_true : Option Bool → Bool
  is_true none = false
  is_true (some b) = b

  unfoldable pub verify_ed25519 : List ℕ → String → List ℕ → Bool
  unfolding sep53_digest
  verify_ed25519 message signature_hex public_key =
      let signature = lib.from_hex signature_hex in
      if not (length public_key == 32)
      then false
      else if not (length signature == 64)
      then false
      else is_true (lib.detached_verify (sep53_digest message) signature public_key)

  -- `Date.now() > expiresAt.getTime()`, for the date behind "Expires At: "; never for NaN
  abbrev pub is_expired : ℕ → Option (List ℕ) → Bool
  is_expired now none = false
  is_expired now (some text) = elim (lib.parse_date text) [
    | none ↦ false
    | some expires_at ↦ ltb expires_at now
  ]

  -- the checks of `verifyChallenge` that follow the consumption of the nonce
  unfoldable pub check_message : ℕ → String → List ℕ → String → Option String → Result (Unit {0})
  unfolding verify_ed25519
  check_message now wallet message signature_hex none = err unauthorized
  check_message now wallet message signature_hex (some nonce) =
      if str_eq nonce ""
      then err unauthorized
      else if not (includes (nonce_label ++ codes nonce) message)
      then err unauthorized
      else if is_expired now (match_line expires_label message)
      then err unauthorized
      else if not (verify_ed25519 message signature_hex (lib.public_key wallet))
      then err unauthorized
      else ok tt

  module _ (kv : Kv String) where
    -- `nonce` are the random bytes in hexadecimal
    unfoldable pub generate_challenge :
        ℕ → String → String → String → Auth kv.Keys → Result ChallengeMessage × Auth kv.Keys
    unfolding nonce_key
    generate_challenge now wallet domain nonce s =
        if not (lib.is_valid_account_id wallet) then (err (thrown 400 ""), s) else (
          ok (record {
            message =
                challenge_message domain wallet nonce (lib.to_iso now)
                  (lib.to_iso (now + nonce_lifetime_ms));
            nonce = nonce;
          }),
          record s { nonces = kv.set now (nonce_key wallet) nonce nonce_ttl_seconds s.nonces },
        )

    -- GETDEL
    unfoldable pub consume_auth_nonce : ℕ → String → Auth kv.Keys → Option String × Auth kv.Keys
    unfolding nonce_key
    consume_auth_nonce now wallet s = (
      kv.get now (nonce_key wallet) s.nonces,
      record s { nonces = kv.del (nonce_key wallet) s.nonces },
    )

    module _ (sign_jwt : SessionClaims → String) where
      abbrev pub session : String → Bool → Creator → VerifyResult
      session wallet is_new_user creator = record {
        jwt = sign_jwt (record { sub = creator.id; wallet = wallet; slug = creator.slug });
        is_new_user = is_new_user;
      }

      abbrev pub new_session :
          String → Result Creator × Db → Auth kv.Keys → Result VerifyResult × Auth kv.Keys
      new_session wallet (ok creator, db) s =
          (ok (session wallet true creator), record s { db = db })
      new_session wallet (err e, db) s = (err e, record s { db = db })

      -- the record of the wallet, which is created if there is none
      abbrev pub resolve_creator :
          ℕ → Draws → String → Option Creator → Auth kv.Keys → Result VerifyResult × Auth kv.Keys
      resolve_creator now draws wallet (some creator) s = (ok (session wallet false creator), s)
      resolve_creator now draws wallet none s =
          new_session wallet (create_account draws now wallet s.db) s

      abbrev pub after_check :
          ℕ → Draws → String → Result (Unit {0}) → Auth kv.Keys → Result VerifyResult × Auth kv.Keys
      after_check now draws wallet (err e) s = (err e, s)
      after_check now draws wallet (ok _) s =
          resolve_creator now draws wallet (creator_by_wallet wallet s.db) s

      unfoldable pub verify_challenge :
          ℕ → Draws → String → List ℕ → String → Auth kv.Keys → Result VerifyResult × Auth kv.Keys
      unfolding consume_auth_nonce check_message
      verify_challenge now draws wallet message signature_hex s =
          if not (lib.is_valid_account_id wallet)
          then (err (thrown 400 ""), s)
          else (let (nonce, burned) = consume_auth_nonce now wallet s in
              after_check now draws wallet (check_message now wallet message signature_hex nonce)
                burned)
