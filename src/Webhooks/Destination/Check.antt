-- ===== src/Webhooks/Destination/Check.antt =====
-- assertWebhookUrlForRegistration, assertAddressesArePublic and assertWebhookDestinationAllowed of
-- src/modules/webhooks/webhook-url.ts. isIP, the parser of URLs, the resolver of names and
-- `allowPrivateHosts` are parameters.
use novatip_backend.Prelude.{
  ℕ, ◌+◌, String, Bool, true, false, ◌&&◌, ◌||◌, not, Option, none, some, List, [], ◌∷◌, codes, leb,
  ◌==◌, str_eq, if◌then◌else◌, any, map, Error, thrown, fault, Result, ok, err,
}
use novatip_backend.Webhooks.Destination.Address.{is_unsafe_webhook_address}

-- the part of a URL that is read
pub record Url : Type 0 where
  pub protocol : String
  pub hostname : List ℕ

abbrev pub not_public : Error
not_public = thrown 400 "WEBHOOK_URL_NOT_PUBLIC"

abbrev pub drop_first : ℕ → List ℕ → List ℕ
drop_first c [] = []
drop_first c (x ∷ s) = if x == c then s else x ∷ s

abbrev pub drop_last : ℕ → List ℕ → List ℕ
drop_last c [] = []
drop_last c (x ∷ []) = if x == c then [] else x ∷ []
drop_last c (x ∷ y ∷ s) = x ∷ drop_last c (y ∷ s)

-- a hostname of a parsed URL is ASCII
abbrev pub to_lower : ℕ → ℕ
to_lower c = if leb b'A' c && leb c b'Z' then c + 32 else c

unfoldable pub normalized_hostname : List ℕ → List ℕ
normalized_hostname hostname =
    map to_lower (drop_last b'.' (drop_last b']' (drop_first b'[' hostname)))

abbrev same_text : List ℕ → List ℕ → Bool
same_text [] [] = true
same_text (x ∷ s) (y ∷ t) = x == y && same_text s t
same_text _ _ = false

abbrev ends_with : List ℕ → List ℕ → Bool
ends_with suffix [] = same_text [] suffix
ends_with suffix (x ∷ s) = same_text (x ∷ s) suffix || ends_with suffix s

unfoldable pub is_local_name : List ℕ → Bool
is_local_name host =
    same_text host (codes "localhost")
    || ends_with (codes ".localhost") host
    || same_text host (codes "localhost.localdomain")

module _ (is_ip : List ℕ → ℕ) where
  unfoldable pub assert_hostname_is_not_local : List ℕ → Result (Unit {0})
  unfolding normalized_hostname
  assert_hostname_is_not_local hostname =
      let host = normalized_hostname hostname in
      if is_local_name host
      then err not_public
      else if not (is_ip host == 0) && is_unsafe_webhook_address is_ip host
      then err not_public
      else ok tt

  unfoldable pub assert_addresses_are_public : List (List ℕ) → Result (Unit {0})
  assert_addresses_are_public [] = err (fault "resolved to no addresses")
  assert_addresses_are_public (a ∷ addresses) =
      if any (is_unsafe_webhook_address is_ip) (a ∷ addresses)
      then err (fault "resolves to a private or reserved address")
      else ok tt

  module _ (parse_url : String → Option Url) (allow_private_hosts : Bool) where
    abbrev pub https_only : Option Url → Result Url
    https_only none = err not_public
    https_only (some url) = if str_eq url.protocol "https:" then ok url else err not_public

    unfoldable pub parse_https_url : String → Result Url
    parse_https_url raw_url = https_only (parse_url raw_url)

    abbrev register : Result Url → Result (Unit {0})
    register (err e) = err e
    register (ok url) =
        if allow_private_hosts then ok tt else assert_hostname_is_not_local url.hostname

    unfoldable pub assert_webhook_url_for_registration : String → Result (Unit {0})
    unfolding parse_https_url assert_hostname_is_not_local
    assert_webhook_url_for_registration raw_url = register (parse_https_url raw_url)

    module _ (resolve_addresses : List ℕ → Result (List (List ℕ))) where
      abbrev pub after_resolve : Result (List (List ℕ)) → Result (Unit {0})
      after_resolve (err e) = err e
      after_resolve (ok addresses) = assert_addresses_are_public addresses

      abbrev pub after_name : List ℕ → Result (Unit {0}) → Result (Unit {0})
      after_name hostname (err e) = err e
      after_name hostname (ok tt) =
          if not (is_ip hostname == 0) then ok tt else after_resolve (resolve_addresses hostname)

      abbrev pub allowed_at : List ℕ → Result (Unit {0})
      allowed_at hostname = after_name hostname (assert_hostname_is_not_local hostname)

      abbrev pub allow : Result Url → Result (Unit {0})
      allow (err e) = err e
      allow (ok url) =
          if allow_private_hosts then ok tt else allowed_at (normalized_hostname url.hostname)

      unfoldable pub assert_webhook_destination_allowed : String → Result (Unit {0})
      unfolding parse_https_url assert_hostname_is_not_local assert_addresses_are_public
          normalized_hostname
      assert_webhook_destination_allowed raw_url = allow (parse_https_url raw_url)
