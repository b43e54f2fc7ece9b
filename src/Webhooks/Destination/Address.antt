-- ===== src/Webhooks/Destination/Address.antt =====
-- ipv4Bytes, ipv6Bytes, isUnsafeIpv4 and isUnsafeWebhookAddress of
-- src/modules/webhooks/webhook-url.ts, on texts of code points. The masks of single bytes are
-- written as quotients: `(b & 0xe0) === 0x20` is `b / 32 == 1`.
use novatip_backend.Prelude.{
  ℕ, zero, suc, ◌+◌, ◌-◌, ◌*◌, ◌/◌, ◌%◌, Bool, true, false, ◌&&◌, ◌||◌, not, Option, none, some,
  List, [], ◌∷◌, ◌++◌, length, all, any, map, take, drop, leb, ◌==◌, if◌then◌else◌, is_digit,
  is_digits, value_from, decimal,
}

first_before : ℕ → List (List ℕ) → List (List ℕ)
first_before x [] = (x ∷ []) ∷ []
first_before x (p ∷ parts) = (x ∷ p) ∷ parts

-- `text.split(c)` for one character
unfoldable pub split_on : ℕ → List ℕ → List (List ℕ)
unfolding first_before
split_on c [] = [] ∷ []
split_on c (x ∷ s) = let rest = split_on c s in if x == c then [] ∷ rest else first_before x rest

-- `text.split("::")`
unfoldable pub split_halves : List ℕ → List (List ℕ)
unfolding first_before
split_halves [] = [] ∷ []
split_halves (x ∷ []) = (x ∷ []) ∷ []
split_halves (x ∷ y ∷ s) =
    let after = split_halves s in
    let rest = split_halves (y ∷ s) in
    if x == b':' && y == b':' then [] ∷ after else first_before x rest

unfoldable pub ipv4_bytes : List ℕ → Option (List ℕ)
unfolding split_on
ipv4_bytes address =
    let parts = split_on b'.' address in
    let bytes = map (value_from 0) parts in
    if length parts == 4 && all is_digits parts && all (λ b. leb b 255) bytes
    then some bytes
    else none

-- the ranges, on the bytes of an address
unfoldable pub unsafe_bytes : List ℕ → Bool
unsafe_bytes (a ∷ b ∷ c ∷ rest) =
    a == 0
    || a == 10
    || a == 127
    || (a == 100 && leb 64 b && leb b 127)
    || (a == 169 && b == 254)
    || (a == 172 && leb 16 b && leb b 31)
    || (a == 192 && (b == 0 || b == 168 || (b == 88 && c == 99) || (b == 0 && c == 2)))
    || (a == 198 && (b == 18 || b == 19 || (b == 51 && c == 100)))
    || (a == 203 && b == 0 && c == 113)
    || leb 224 a
unsafe_bytes _ = false

abbrev unsafe_or_bad : Option (List ℕ) → Bool
unsafe_or_bad none = true
unsafe_or_bad (some bytes) = unsafe_bytes bytes

unfoldable pub is_unsafe_ipv4 : List ℕ → Bool
unfolding ipv4_bytes unsafe_bytes
is_unsafe_ipv4 address = unsafe_or_bad (ipv4_bytes address)

-- [0-9a-f] with the flag i
abbrev is_hex : ℕ → Bool
is_hex c = is_digit c || (leb b'a' c && leb c b'f') || (leb b'A' c && leb c b'F')

abbrev hex_digit : ℕ → ℕ
hex_digit c = if is_digit c then c - b'0' else if leb b'a' c then c - 87 else c - 55

-- `Number.parseInt(group, 16)`, after a number that was already read
abbrev hex_from : ℕ → List ℕ → ℕ
hex_from n [] = n
hex_from n (c ∷ s) = hex_from (n * 16 + hex_digit c) s

abbrev two_groups : Option (List ℕ) → Option (List ℕ)
two_groups (some (a ∷ b ∷ c ∷ d ∷ _)) = some ((a * 256 + b) ∷ (c * 256 + d) ∷ [])
two_groups _ = none

-- the one or two numbers of a part between colons
unfoldable pub group_numbers : List ℕ → Option (List ℕ)
unfolding ipv4_bytes
group_numbers group =
    if any (λ c. c == b'.') group
    then two_groups (ipv4_bytes group)
    else if all is_hex group && leb 1 (length group) && leb (length group) 4
    then some (hex_from 0 group ∷ [])
    else none

abbrev append : Option (List ℕ) → Option (List ℕ) → Option (List ℕ)
append (some xs) (some ys) = some (xs ++ ys)
append _ _ = none

all_groups : List (List ℕ) → Option (List ℕ)
unfolding group_numbers
all_groups [] = some []
all_groups (g ∷ groups) = append (group_numbers g) (all_groups groups)

unfoldable pub parse_groups : List ℕ → Option (List ℕ)
unfolding all_groups split_on
parse_groups [] = some []
parse_groups (x ∷ s) = all_groups (split_on b':' (x ∷ s))

abbrev to_bytes : List ℕ → List ℕ
to_bytes [] = []
to_bytes (g ∷ groups) = g / 256 ∷ g % 256 ∷ to_bytes groups

abbrev zeros : ℕ → List ℕ
zeros zero = []
zeros (suc n) = 0 ∷ zeros n

abbrev filled : List ℕ → List ℕ → Option (List ℕ)
filled left right =
    if leb (length left + length right) 8
    then some (to_bytes (left ++ zeros (8 - (length left + length right)) ++ right))
    else none

abbrev filled_groups : Option (List ℕ) → Option (List ℕ) → Option (List ℕ)
filled_groups (some left) (some right) = filled left right
filled_groups _ _ = none

abbrev whole : Option (List ℕ) → Option (List ℕ)
whole none = none
whole (some groups) = if length groups == 8 then some (to_bytes groups) else none

abbrev bytes_of_halves : List (List ℕ) → Option (List ℕ)
bytes_of_halves (left ∷ []) = whole (parse_groups left)
bytes_of_halves (left ∷ right ∷ []) = filled_groups (parse_groups left) (parse_groups right)
bytes_of_halves _ = none

unfoldable pub ipv6_bytes : List ℕ → Option (List ℕ)
unfolding split_halves parse_groups
ipv6_bytes address = bytes_of_halves (split_halves address)

abbrev pub join_dots : List ℕ → List ℕ
join_dots [] = []
join_dots (b ∷ []) = decimal b
join_dots (b ∷ c ∷ bytes) = decimal b ++ b'.' ∷ join_dots (c ∷ bytes)

abbrev all_zero : List ℕ → Bool
all_zero bytes = all (λ b. b == 0) bytes

-- whether the bytes from an index on begin so
abbrev has_at : ℕ → List ℕ → List ℕ → Bool
has_at i [] bytes = true
has_at zero (x ∷ xs) [] = false
has_at zero (x ∷ xs) (b ∷ bytes) = b == x && has_at zero xs bytes
has_at (suc i) (x ∷ xs) [] = false
has_at (suc i) (x ∷ xs) (b ∷ bytes) = has_at i (x ∷ xs) bytes

-- uniqueLocal, linkLocal, multicast, globalUnicast and documentation, on the first two bytes
abbrev unsafe_prefix : List ℕ → Bool
unsafe_prefix (a ∷ b ∷ rest) =
    (a / 2 == 126)
    || (a == 254 && b / 64 == 2)
    || a == 255
    || not (a / 32 == 1)
    || has_at 0 (32 ∷ 1 ∷ 13 ∷ 184 ∷ []) (a ∷ b ∷ rest)
unsafe_prefix _ = true

unfoldable pub unsafe_ipv6_bytes : List ℕ → Bool
unfolding is_unsafe_ipv4
unsafe_ipv6_bytes bytes =
    if all_zero (take 10 bytes) && has_at 10 (255 ∷ 255 ∷ []) bytes
    then is_unsafe_ipv4 (join_dots (drop 12 bytes))
    else all_zero bytes
      || (all_zero (take 15 bytes) && has_at 15 (1 ∷ []) bytes)
      || unsafe_prefix bytes

abbrev unsafe_ipv6_or_bad : Option (List ℕ) → Bool
unsafe_ipv6_or_bad none = true
unsafe_ipv6_or_bad (some bytes) = unsafe_ipv6_bytes bytes

unfoldable pub is_unsafe_webhook_address : (List ℕ → ℕ) → List ℕ → Bool
unfolding ipv6_bytes unsafe_ipv6_bytes is_unsafe_ipv4
is_unsafe_webhook_address is_ip address =
    if is_ip address == 4
    then is_unsafe_ipv4 address
    else if is_ip address == 6
    then unsafe_ipv6_or_bad (ipv6_bytes address)
    else true
