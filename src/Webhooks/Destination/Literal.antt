-- ===== src/Webhooks/Destination/Literal.antt =====
-- URLs whose host is itself an address, in src/modules/webhooks/webhook-url.ts.
use novatip_backend.Prelude.{
  ℕ, ◌≡◌, refl, sym, ap, ◌∙◌, String, Bool, true, false, ◌||◌, ◌==◌, Option, some, List, [], ◌∷◌,
  ◌++◌, all, map, str_eq, decimal, decimal-is_digits, is_digit, is_digits, Bool-cases, inl, inr,
  arith, Result, err,
}
use novatip_backend.Webhooks.Destination.Address.{join_dots}
use novatip_backend.Webhooks.Destination.Dotted.{all-digits}
use novatip_backend.Webhooks.Destination.Check.{
  Url, not_public, drop_first, drop_last, to_lower, normalized_hostname, is_local_name,
  assert_hostname_is_not_local, parse_https_url, assert_webhook_url_for_registration,
  assert_webhook_destination_allowed,
}
use novatip_backend.Webhooks.Destination.Public.{IsReserved, reserved_unsafe}

-- digits and dots
abbrev is_dotted : ℕ → Bool
is_dotted c = is_digit c || c == b'.'

all-append :
    (p s : List ℕ) → all is_dotted p ≡ true → all is_dotted s ≡ true → all is_dotted (p ++ s) ≡ true
all-append [] s h k = k
all-append (x ∷ p) s h k = ground (arith, all-append p s (ground arith) k)

dotted_digits : (p : List ℕ) → all is_digit p ≡ true → all is_dotted p ≡ true
dotted_digits [] h = refl
dotted_digits (x ∷ p) h = ground (arith, dotted_digits p)

map-to_lower : (t : List ℕ) → all is_dotted t ≡ true → map to_lower t ≡ t
map-to_lower [] h = refl
map-to_lower (x ∷ t) h =
    let same : to_lower x ≡ x = ground (arith, h) in
    let ih = map-to_lower t (ground arith) in rw (same, ih) refl

drop_first-dotted : (t : List ℕ) → all is_dotted t ≡ true → drop_first b'[' t ≡ t
drop_first-dotted [] h = refl
drop_first-dotted (x ∷ t) h = ground arith

drop_last-bracket : (t : List ℕ) → all is_dotted t ≡ true → drop_last b']' t ≡ t
drop_last-bracket [] h = refl
drop_last-bracket (x ∷ []) h = ground arith
drop_last-bracket (x ∷ y ∷ t) h = ap (λ s. x ∷ s) (drop_last-bracket (y ∷ t) (ground arith))

drop_last-digits : (p : List ℕ) → all is_digit p ≡ true → drop_last b'.' p ≡ p
drop_last-digits [] h = refl
drop_last-digits (x ∷ []) h = ground arith
drop_last-digits (x ∷ y ∷ p) h = ap (λ s. x ∷ s) (drop_last-digits (y ∷ p) (ground arith))

abbrev is_nil : List ℕ → Bool
is_nil [] = true
is_nil (_ ∷ _) = false

-- a text that does not end in a dot
abbrev IsKept : List ℕ → Type 0
IsKept s = (drop_last b'.' s ≡ s) × (is_nil s ≡ false)

IsKept-digits : (p : List ℕ) → is_digits p ≡ true → IsKept p
IsKept-digits [] h = ground arith
IsKept-digits (x ∷ p) h = (drop_last-digits (x ∷ p) h, refl)

IsKept-append : (p s : List ℕ) → IsKept s → IsKept (p ++ b'.' ∷ s)
IsKept-append [] [] (h, k) = ground arith
IsKept-append [] (x ∷ s) (h, k) = (ap (λ t. b'.' ∷ t) h, refl)
IsKept-append (y ∷ []) s h = (ap (λ t. y ∷ t) (IsKept-append [] s h).0, refl)
IsKept-append (y ∷ z ∷ p) s h = (ap (λ t. y ∷ t) (IsKept-append (z ∷ p) s h).0, refl)

digits : (n : ℕ) → all is_digit (decimal n) ≡ true
digits n = all-digits (decimal n) (decimal-is_digits n)

join_dots-dotted : (a b c d : ℕ) → all is_dotted (join_dots (a ∷ b ∷ c ∷ d ∷ [])) ≡ true
join_dots-dotted a b c d =
    let part = λ (n : ℕ). dotted_digits (decimal n) (digits n) in
    all-append (decimal a) _ (part a)
      (all-append (decimal b) _ (part b) (all-append (decimal c) _ (part c) (part d)))

join_dots-IsKept : (a b c d : ℕ) → IsKept (join_dots (a ∷ b ∷ c ∷ d ∷ []))
join_dots-IsKept a b c d = IsKept-append (decimal a) _ (
    IsKept-append (decimal b) _
      (IsKept-append (decimal c) _ (IsKept-digits (decimal d) (decimal-is_digits d))))

-- the normalization of a hostname leaves the text of an address as it is
normalized_hostname-join_dots :
    (a b c d : ℕ)
    → normalized_hostname (join_dots (a ∷ b ∷ c ∷ d ∷ [])) ≡ join_dots (a ∷ b ∷ c ∷ d ∷ [])
unfolding normalized_hostname
normalized_hostname-join_dots a b c d =
    let t = join_dots (a ∷ b ∷ c ∷ d ∷ []) in
    let dotted = join_dots-dotted a b c d in
    ap (λ s. map to_lower (drop_last b'.' (drop_last b']' s))) (drop_first-dotted t dotted)
    ∙ ap (λ s. map to_lower (drop_last b'.' s)) (drop_last-bracket t dotted)
    ∙ ap (map to_lower) (join_dots-IsKept a b c d).0
    ∙ map-to_lower t dotted

module _ (is_ip : List ℕ → ℕ) (parse_url : String → Option Url)
    (resolve_addresses : List ℕ → Result (List (List ℕ))) where
  refused_host :
      (host : List ℕ)
      → IsReserved is_ip host
      → assert_hostname_is_not_local is_ip host ≡ err not_public
  unfolding assert_hostname_is_not_local
  refused_host host r =
      let same : normalized_hostname host ≡ host =
        ap normalized_hostname r.text
        ∙ normalized_hostname-join_dots r.a r.b r.c r.d
        ∙ sym r.text in
      let unsafe = reserved_unsafe is_ip host r in
      elim (Bool-cases (is_local_name host)) [
        | inl local ↦ rw (same, local) refl
        | inr other ↦ rw (same, other, r.known, unsafe) refl
      ]

  -- Where private hosts are not allowed: an https URL whose host is the text of an IPv4 address in a reserved
  -- range is refused with WEBHOOK_URL_NOT_PUBLIC, at its registration and before each delivery.
  pub reserved_address-refused :
      (raw_url : String) (url : Url)
      → parse_url raw_url ≡ some url
      → str_eq url.protocol "https:" ≡ true
      → IsReserved is_ip url.hostname
      → (assert_webhook_destination_allowed is_ip parse_url false resolve_addresses raw_url
          ≡ err not_public)
        × (assert_webhook_url_for_registration is_ip parse_url false raw_url ≡ err not_public)
  unfolding assert_webhook_destination_allowed assert_webhook_url_for_registration parse_https_url
  reserved_address-refused raw_url url parsed https r =
      let same : normalized_hostname url.hostname ≡ url.hostname =
        ap normalized_hostname r.text
        ∙ normalized_hostname-join_dots r.a r.b r.c r.d
        ∙ sym r.text in
      let refused = refused_host url.hostname r in
      (rw (parsed, https, same, refused) refl, rw (parsed, https, refused) refl)
