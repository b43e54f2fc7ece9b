-- ===== src/Webhooks/Destination/Public.antt =====
-- What destinations are refused: assertWebhookDestinationAllowed of
-- src/modules/webhooks/webhook-url.ts.
use novatip_backend.Prelude.{
  ℕ, ◌≡◌, refl, sym, String, true, false, ◌||◌, not, Option, none, some, List, [], ◌∷◌, ◌==◌,
  str_eq, any, Result, ok, err, Bool-cases, inl, inr, ◌⊎◌, ◌<◌, ap, In, ◌∙◌, Error, In-any,
  if◌then◌else◌,
}
use native.Mathlib.Omega.{arith}
use mathlib.Core.Path.{subst}
use mathlib.Core.Option.{some-injective}
use novatip_backend.Webhooks.Destination.Address.{
  is_unsafe_webhook_address, is_unsafe_ipv4, join_dots,
}
use novatip_backend.Webhooks.Destination.Ranges.{number, in_range, reserved}
use novatip_backend.Webhooks.Destination.Dotted.{is_unsafe_ipv4-reserved}
use novatip_backend.Webhooks.Destination.Check.{
  Url, normalized_hostname, is_local_name, assert_hostname_is_not_local,
  assert_addresses_are_public, parse_https_url, assert_webhook_destination_allowed, https_only,
  after_resolve, after_name, allow,
}

ok-injective {ℓ} : {A : Type ℓ} {a b : A} → ok a ≡ ok b → a ≡ b
ok-injective h = cc

Result-cases {ℓ} :
    {A : Type ℓ} (r : Result A) → ((a : A) × (r ≡ ok a)) ⊎ ((e : Error) × (r ≡ err e))
Result-cases (ok a) = inl (a, refl)
Result-cases (err e) = inr (e, refl)

module _ (is_ip : List ℕ → ℕ) where
  -- the address as a text is reserved for no public use
  pub record IsReserved (address : List ℕ) : Type 0 where
    pub a : ℕ
    pub b : ℕ
    pub c : ℕ
    pub d : ℕ
    pub bytes : (a < 256) × (b < 256) × (c < 256) × (d < 256)
    pub text : address ≡ join_dots (a ∷ b ∷ c ∷ d ∷ [])
    pub known : is_ip address ≡ 4
    pub reserves : any (in_range (number a b c d)) reserved ≡ true

  pub reserved_unsafe :
      (address : List ℕ) → IsReserved address → is_unsafe_webhook_address is_ip address ≡ true
  unfolding is_unsafe_webhook_address
  reserved_unsafe address r =
      let (a_byte, b_byte, c_byte, d_byte) = r.bytes in
      rw r.known (
        ap is_unsafe_ipv4 r.text
        ∙ is_unsafe_ipv4-reserved r.a r.b r.c r.d a_byte b_byte c_byte d_byte
        ∙ r.reserves)

  some_unsafe :
      (address : List ℕ) (addresses : List (List ℕ))
      → In address addresses
      → IsReserved address
      → any (is_unsafe_webhook_address is_ip) addresses ≡ true
  some_unsafe address addresses m r =
      In-any (is_unsafe_webhook_address is_ip) addresses address m (reserved_unsafe address r)

module _ (is_ip : List ℕ → ℕ) (parse_url : String → Option Url)
    (resolve_addresses : List ℕ → Result (List (List ℕ))) where
  -- a host that is an address, or whose name resolves to addresses that are all public
  pub data IsResolved (host : List ℕ) : Type 0 where
    literal : is_ip host == 0 ≡ false → IsResolved host
    resolved :
        (a : List ℕ) (addresses : List (List ℕ))
        → resolve_addresses host ≡ ok (a ∷ addresses)
        → any (is_unsafe_webhook_address is_ip) (a ∷ addresses) ≡ false
        → IsResolved host

  -- a host that is no name of the machine itself, nor an unsafe address
  pub record IsPublic (host : List ℕ) : Type 0 where
    pub name : is_local_name (normalized_hostname host) ≡ false
    pub address :
        (is_ip (normalized_hostname host) == 0
          || not (is_unsafe_webhook_address is_ip (normalized_hostname host)))
        ≡ true
    pub resolution : IsResolved host

  pub data IsAllowed (raw_url : String) : Type 0 where
    allowed :
        (url : Url)
        → parse_url raw_url ≡ some url
        → str_eq url.protocol "https:" ≡ true
        → IsPublic (normalized_hostname url.hostname)
        → IsAllowed raw_url

  resolved_lem :
      (host : List ℕ) (answer : Result (List (List ℕ)))
      → answer ≡ resolve_addresses host
      → after_resolve is_ip parse_url false resolve_addresses answer ≡ ok tt
      → IsResolved host
  unfolding assert_addresses_are_public
  resolved_lem host (ok []) e h = ground arith
  resolved_lem host (ok (a ∷ addresses)) e h = resolved a addresses (sym e) (ground arith)
  resolved_lem host (err x) e h = ground arith

  name_lem :
      (host : List ℕ)
      → assert_hostname_is_not_local is_ip host ≡ ok tt
      → (is_local_name (normalized_hostname host) ≡ false)
        × ((is_ip (normalized_hostname host) == 0
              || not (is_unsafe_webhook_address is_ip (normalized_hostname host)))
            ≡ true)
  unfolding assert_hostname_is_not_local
  name_lem host h = (ground arith, ground arith)

  answer_lem :
      (host : List ℕ)
      → (if not (is_ip host == 0)
          then ok tt
          else after_resolve is_ip parse_url false resolve_addresses (resolve_addresses host))
        ≡ ok tt
      → IsResolved host
  answer_lem host h = elim (Bool-cases (is_ip host == 0)) [
    | inr n ↦ literal n
    | inl y ↦ resolved_lem host (resolve_addresses host) refl (rw y at h)
  ]

  host_lem :
      (host : List ℕ) (r : Result (Unit {0}))
      → r ≡ assert_hostname_is_not_local is_ip host
      → after_name is_ip parse_url false resolve_addresses host r ≡ ok tt
      → IsPublic host
  host_lem host (err x) e h = ground arith
  host_lem host (ok tt) e h =
      let (name, address) = name_lem host (sym e) in
      record { name = name; address = address; resolution = answer_lem host h }

  url_lem :
      (raw_url : String) (answer : Option Url)
      → answer ≡ parse_url raw_url
      → allow is_ip parse_url false resolve_addresses (https_only is_ip parse_url false answer)
        ≡ ok tt
      → IsAllowed raw_url
  url_lem raw_url none e h = ground arith
  url_lem raw_url (some url) e h = elim (Bool-cases (str_eq url.protocol "https:")) [
    | inr n ↦ absurd (ground arith)
    | inl y ↦ allowed url (sym e) y (
        host_lem (normalized_hostname url.hostname)
          (assert_hostname_is_not_local is_ip (normalized_hostname url.hostname)) refl (rw y at h))
  ]

  -- what an accepted destination comes to
  allowed_lem :
      (raw_url : String)
      → assert_webhook_destination_allowed is_ip parse_url false resolve_addresses raw_url ≡ ok tt
      → IsAllowed raw_url
  unfolding assert_webhook_destination_allowed parse_https_url
  allowed_lem raw_url h = url_lem raw_url (parse_url raw_url) refl h

  refused_lem :
      (raw_url : String) (url : Url) (address : List ℕ) (addresses : List (List ℕ))
      → parse_url raw_url ≡ some url
      → is_ip (normalized_hostname url.hostname) ≡ 0
      → resolve_addresses (normalized_hostname url.hostname) ≡ ok addresses
      → In address addresses
      → IsReserved is_ip address
      → IsAllowed raw_url
      → ⊥
  refused_lem raw_url url address addresses parsed name answer m r (allowed u p _ public) =
      let same : u ≡ url = some-injective _ _ (sym p ∙ parsed) in
      elim (subst (λ v. IsResolved (normalized_hostname v.hostname)) same public.resolution) [
        | literal l ↦ ground (arith, l, name)
        | resolved a as_ e safe ↦
            let known : addresses ≡ a ∷ as_ = ok-injective (sym answer ∙ e) in
            ground (arith, safe, rw known at (some_unsafe is_ip address addresses m r))
      ]

  -- Where private hosts are not allowed: a URL whose host is a name is refused if its normalized name
  -- resolves to addresses one of which is the text of an IPv4 address in a reserved range, wherever
  -- that stands among them.
  pub assert_webhook_destination_allowed-refuses :
      (raw_url : String) (url : Url) (address : List ℕ) (addresses : List (List ℕ))
      → parse_url raw_url ≡ some url
      → is_ip (normalized_hostname url.hostname) ≡ 0
      → resolve_addresses (normalized_hostname url.hostname) ≡ ok addresses
      → In address addresses
      → IsReserved is_ip address
      → (e : Error) × (assert_webhook_destination_allowed is_ip parse_url false resolve_addresses
            raw_url
          ≡ err e)
  assert_webhook_destination_allowed-refuses raw_url url address addresses parsed name answer m r =
      elim (Result-cases
        (assert_webhook_destination_allowed is_ip parse_url false resolve_addresses raw_url)) [
          | inl (tt, h) ↦
              elim (refused_lem raw_url url address addresses parsed name answer m r
                (allowed_lem raw_url h)) [ ]
          | inr h ↦ h
        ]
