-- ===== src/Webhooks/Destination/Ranges.antt =====
-- The addresses that isUnsafeIpv4 of src/modules/webhooks/webhook-url.ts refuses, as ranges of 32-bit numbers.
use novatip_backend.Prelude.{
  ℕ, ◌+◌, ◌*◌, ◌<◌, ◌≡◌, Bool, false, ◌&&◌, ◌||◌, List, [], ◌∷◌, any, ltb, leb, ◌==◌,
}
use native.Mathlib.Omega.{arith}
use novatip_backend.Webhooks.Destination.Address.{unsafe_bytes}

-- the 32-bit number of an address
abbrev pub number : ℕ → ℕ → ℕ → ℕ → ℕ
number a b c d = a * 16777216 + b * 65536 + c * 256 + d

-- the first address of a range, and the first after it
pub record Range : Type 0 where
  pub first : ℕ
  pub after : ℕ

abbrev pub in_range : ℕ → Range → Bool
in_range n r = leb r.first n && ltb n r.after

-- the ranges that are not public: 0/8, 10/8, 127/8, 100.64/10, 169.254/16, 172.16/12, 192.0/16,
-- 192.168/16, 192.88.99/24, 198.18/15, 198.51.100/24, 203.0.113/24, and all from 224 on
abbrev pub reserved : List Range
reserved =
    record { first = number 0 0 0 0; after = number 1 0 0 0 }
    ∷ record { first = number 10 0 0 0; after = number 11 0 0 0 }
    ∷ record { first = number 127 0 0 0; after = number 128 0 0 0 }
    ∷ record { first = number 100 64 0 0; after = number 100 128 0 0 }
    ∷ record { first = number 169 254 0 0; after = number 169 255 0 0 }
    ∷ record { first = number 172 16 0 0; after = number 172 32 0 0 }
    ∷ record { first = number 192 0 0 0; after = number 192 1 0 0 }
    ∷ record { first = number 192 168 0 0; after = number 192 169 0 0 }
    ∷ record { first = number 192 88 99 0; after = number 192 88 100 0 }
    ∷ record { first = number 198 18 0 0; after = number 198 20 0 0 }
    ∷ record { first = number 198 51 100 0; after = number 198 51 101 0 }
    ∷ record { first = number 203 0 113 0; after = number 203 0 114 0 }
    ∷ record { first = number 224 0 0 0; after = number 256 0 0 0 }
    ∷ []

-- the disjuncts of the code, one by one
disjuncts :
    (p q r s t u v w b x y z e f g i j h : Bool)
    → (p
        || q
        || r
        || s
        || t
        || u
        || (v && (w || b || x || (w && y)))
        || (z && (e || f))
        || (g && i && j)
        || h)
      ≡ (p
          || (q
              || (r
                  || (s
                      || (t
                          || (u
                              || ((v && w)
                                  || ((v && b)
                                      || ((v && x)
                                          || ((z && e)
                                              || ((z && f)
                                                  || ((g && (i && j)) || (h || false)))))))))))))
disjuncts p q r s t u v w b x y z e f g i j h = ground arith

module _ (a b c d : ℕ) (a_byte : a < 256) (b_byte : b < 256) (c_byte : c < 256)
    (d_byte : d < 256) where
  in_byte :
      (k : ℕ)
      → in_range (number a b c d) (record { first = number k 0 0 0; after = number (k + 1) 0 0 0 })
        ≡ (a == k)
  in_byte k = ground arith

  in_span :
      (k l m : ℕ)
      → m < 256
      → l < 256
      → in_range (number a b c d) (record { first = number k l 0 0; after = number k (m + 1) 0 0 })
        ≡ (a == k && leb l b && leb b m)
  in_span k l m = ground arith

  in_pair :
      (k l : ℕ)
      → l < 256
      → in_range (number a b c d) (record { first = number k l 0 0; after = number k (l + 1) 0 0 })
        ≡ (a == k && b == l)
  in_pair k l = ground arith

  in_pairs :
      (k l : ℕ)
      → l < 255
      → in_range (number a b c d) (record { first = number k l 0 0; after = number k (l + 2) 0 0 })
        ≡ (a == k && (b == l || b == l + 1))
  in_pairs k l = ground arith

  in_triple :
      (k l m : ℕ)
      → l < 256
      → m < 256
      → in_range (number a b c d) (record { first = number k l m 0; after = number k l (m + 1) 0 })
        ≡ (a == k && (b == l && c == m))
  in_triple k l m = ground arith

  in_rest :
      in_range (number a b c d) (record { first = number 224 0 0 0; after = number 256 0 0 0 })
      ≡ leb 224 a
  in_rest = ground arith

  -- The ranges of the code are those of the list, for every address of four bytes.
  pub unsafe_bytes-reserved :
      unsafe_bytes (a ∷ b ∷ c ∷ d ∷ []) ≡ any (in_range (number a b c d)) reserved
  unfolding unsafe_bytes
  unsafe_bytes-reserved =
      rw
        (
          in_byte 0,
          in_byte 10,
          in_byte 127,
          in_span 100 64 127 (omega arith) (omega arith),
          in_pair 169 254 (omega arith),
          in_span 172 16 31 (omega arith) (omega arith),
          in_pair 192 0 (omega arith),
          in_pair 192 168 (omega arith),
          in_triple 192 88 99 (omega arith) (omega arith),
          in_pairs 198 18 (omega arith),
          in_triple 198 51 100 (omega arith) (omega arith),
          in_triple 203 0 113 (omega arith) (omega arith),
          in_rest,
        )
        (disjuncts (a == 0) (a == 10) (a == 127) (a == 100 && leb 64 b && leb b 127)
          (a == 169 && b == 254) (a == 172 && leb 16 b && leb b 31) (a == 192) (b == 0) (b == 168)
          (b == 88 && c == 99) (c == 2) (a == 198) (b == 18 || b == 19) (b == 51 && c == 100)
          (a == 203) (b == 0) (c == 113) (leb 224 a))
