-- ===== src/Creator/Slug.antt =====
-- Slugs and jar ids: CREATOR_SLUG_REGEX of src/utils/validation.ts, PLACEHOLDER_SLUG_REGEX and
-- RESERVED_SLUGS of src/modules/creator/creator.service.ts, and src/modules/creator/jar-id.ts.
use novatip_backend.Prelude.{
  ℕ, ◌≡◌, refl, String, Bool, true, false, ◌&&◌, ◌||◌, Option, none, some, List, [], ◌∷◌, leb, ◌==◌,
  str_eq, if◌then◌else◌, length, any, all, codes, is_lower, is_digit, is_lower_hex, Result, ok, err,
  thrown,
}

-- [a-z0-9_-]
is_slug_code : ℕ → Bool
is_slug_code c = is_lower c || is_digit c || c == b'_' || c == b'-'

unfoldable pub is_creator_slug : String → Bool
unfolding is_slug_code
is_creator_slug slug =
    let cs = codes slug in all is_slug_code cs && leb 3 (length cs) && leb (length cs) 32

-- `user_` and the tests that remain for the rest of the pattern
is_placeholder_codes : List ℕ → List ℕ → Bool
is_placeholder_codes [] cs = all is_lower_hex cs && length cs == 8
is_placeholder_codes (p ∷ prefix) [] = false
is_placeholder_codes (p ∷ prefix) (c ∷ cs) = p == c && is_placeholder_codes prefix cs

unfoldable pub is_placeholder_slug : String → Bool
unfolding is_placeholder_codes
is_placeholder_slug slug = is_placeholder_codes (codes "user_") (codes slug)

abbrev reserved_slugs : List String
reserved_slugs =
    "api" ∷ "admin" ∷ "dashboard" ∷ "onboarding" ∷ "settings" ∷ "login" ∷ "logout" ∷ "auth"
    ∷ "support" ∷ "help" ∷ "about" ∷ "terms" ∷ "privacy" ∷ "static" ∷ "_next" ∷ "novatip" ∷ []

-- RESERVED_SLUGS.has
unfoldable pub is_reserved_slug : String → Bool
is_reserved_slug slug = any (λ r. str_eq r slug) reserved_slugs

unfoldable pub jar_id_for_slug : String → String
jar_id_for_slug slug = String.◌∷◌ "@" slug

-- a `jarId` that is undefined is `none`
unfoldable pub resolve_jar_id : String → Option String → Result String
resolve_jar_id slug none = ok (jar_id_for_slug slug)
resolve_jar_id slug (some jar_id) =
    if str_eq jar_id (jar_id_for_slug slug) then ok (jar_id_for_slug slug) else err (thrown 400 "")

pub jar_id_for_slug-injective : (s t : String) → jar_id_for_slug s ≡ jar_id_for_slug t → s ≡ t
unfolding jar_id_for_slug
jar_id_for_slug-injective s t h = cc

test_slugs :
    (is_creator_slug "al-ice_9" ≡ true)
    × (is_creator_slug "ab" ≡ false)
    × (is_creator_slug "Alice" ≡ false)
    × (is_placeholder_slug "user_0123abcd" ≡ true)
    × (is_placeholder_slug "user_1234abc" ≡ false)
    × (is_reserved_slug "_next" ≡ true)
unfolding is_creator_slug is_placeholder_slug is_reserved_slug
test_slugs = (refl, refl, refl, refl, refl, refl)
