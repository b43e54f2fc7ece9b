-- ===== src/Webhooks/Destination/Dotted.antt =====
-- The text of an IPv4 address and what isUnsafeIpv4 of src/modules/webhooks/webhook-url.ts says of it.
use novatip_backend.Prelude.{
  ℕ, ◌<◌, ◌≡◌, refl, ap, ◌∙◌, true, false, some, List, [], ◌∷◌, ◌++◌, all, any, leb, ◌==◌, decimal,
  decimal-is_digits, is_digit, is_digits, value_from-decimal,
}
use native.Mathlib.Omega.{arith}
use novatip_backend.Webhooks.Destination.Address.{split_on, ipv4_bytes, is_unsafe_ipv4, join_dots}
use novatip_backend.Webhooks.Destination.Ranges.{number, in_range, reserved, unsafe_bytes-reserved}

split_on-digits : (p : List ℕ) → all is_digit p ≡ true → split_on b'.' p ≡ p ∷ []
unfolding split_on
split_on-digits [] h = refl
split_on-digits (x ∷ p) h =
    let ih = split_on-digits p (ground arith) in
    let other : x == b'.' ≡ false = ground arith in rw (other, ih) refl

split_on-append :
    (p s : List ℕ) → all is_digit p ≡ true → split_on b'.' (p ++ b'.' ∷ s) ≡ p ∷ split_on b'.' s
unfolding split_on
split_on-append [] s h = refl
split_on-append (x ∷ p) s h =
    let ih = split_on-append p s (ground arith) in
    let other : x == b'.' ≡ false = ground arith in rw (other, ih) refl

pub all-digits : (p : List ℕ) → is_digits p ≡ true → all is_digit p ≡ true
all-digits [] h = refl
all-digits (x ∷ p) h = h

module _ (a b c d : ℕ) (a_byte : a < 256) (b_byte : b < 256) (c_byte : c < 256)
    (d_byte : d < 256) where
  digits : (n : ℕ) → all is_digit (decimal n) ≡ true
  digits n = all-digits (decimal n) (decimal-is_digits n)

  split_on-join_dots :
      split_on b'.' (join_dots (a ∷ b ∷ c ∷ d ∷ []))
      ≡ decimal a ∷ decimal b ∷ decimal c ∷ decimal d ∷ []
  split_on-join_dots =
      split_on-append (decimal a) (join_dots (b ∷ c ∷ d ∷ [])) (digits a)
      ∙ ap (λ s. decimal a ∷ s)
          (split_on-append (decimal b) (join_dots (c ∷ d ∷ [])) (digits b)
            ∙ ap (λ s. decimal b ∷ s)
                (split_on-append (decimal c) (decimal d) (digits c)
                  ∙ ap (λ s. decimal c ∷ s) (split_on-digits (decimal d) (digits d))))

  ipv4_bytes-join_dots : ipv4_bytes (join_dots (a ∷ b ∷ c ∷ d ∷ [])) ≡ some (a ∷ b ∷ c ∷ d ∷ [])
  unfolding ipv4_bytes
  ipv4_bytes-join_dots =
      let small : (n : ℕ) → n < 256 → leb n 255 ≡ true = λ n h. ground arith in
      rw
        (
          split_on-join_dots,
          decimal-is_digits a,
          decimal-is_digits b,
          decimal-is_digits c,
          decimal-is_digits d,
          value_from-decimal a,
          value_from-decimal b,
          value_from-decimal c,
          value_from-decimal d,
          small a a_byte,
          small b b_byte,
          small c c_byte,
          small d d_byte,
        )
        refl

  -- The text of an IPv4 address is unsafe exactly if the address, as a 32-bit number, lies in one of
  -- the reserved ranges.
  pub is_unsafe_ipv4-reserved :
      is_unsafe_ipv4 (join_dots (a ∷ b ∷ c ∷ d ∷ [])) ≡ any (in_range (number a b c d)) reserved
  unfolding is_unsafe_ipv4
  is_unsafe_ipv4-reserved =
      rw ipv4_bytes-join_dots (unsafe_bytes-reserved a b c d a_byte b_byte c_byte d_byte)
