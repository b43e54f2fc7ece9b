-- ===== src/SignIn/Message.antt =====
-- The text that a wallet signs, in src/modules/auth/auth.service.ts, as a list of code points.
use novatip_backend.Prelude.{
  ℕ, ◌*◌, ◌≡◌, refl, String, Bool, true, false, ◌&&◌, ◌||◌, Option, none, some, List, [], ◌∷◌, ◌++◌,
  codes, ◌==◌, if◌then◌else◌, arith,
}

-- `startsWith`
abbrev pub has_prefix : List ℕ → List ℕ → Bool
has_prefix [] s = true
has_prefix (c ∷ pre) [] = false
has_prefix (c ∷ pre) (d ∷ s) = c == d && has_prefix pre s

-- `includes`
unfoldable pub includes : List ℕ → List ℕ → Bool
includes part [] = has_prefix part []
includes part (c ∷ s) = has_prefix part (c ∷ s) || includes part s

-- a code point that `.` of a regular expression does not match
abbrev pub is_line_end : ℕ → Bool
is_line_end c = c == 10 || c == 13 || c == 8232 || c == 8233

-- `.*`
abbrev pub line_of : List ℕ → List ℕ
line_of [] = []
line_of (c ∷ s) = let rest = line_of s in if is_line_end c then [] else c ∷ rest

-- what is left behind a prefix
abbrev pub after_prefix : List ℕ → List ℕ → Option (List ℕ)
after_prefix [] s = some s
after_prefix (c ∷ pre) [] = none
after_prefix (c ∷ pre) (d ∷ s) = let rest = after_prefix pre s in if c == d then rest else none

-- the group of /prefix(.+)/ if it matches here
abbrev pub captured : Option (List ℕ) → Option (List ℕ)
captured none = none
captured (some rest) = elim (line_of rest) [ [] ↦ none | c ∷ line ↦ some (c ∷ line) ]

abbrev pub or_later : Option (List ℕ) → Option (List ℕ) → Option (List ℕ)
or_later none later = later
or_later (some found) later = some found

-- the group of the first match of /prefix(.+)/
unfoldable pub match_line : List ℕ → List ℕ → Option (List ℕ)
match_line pre [] = captured (after_prefix pre [])
match_line pre (c ∷ s) = or_later (captured (after_prefix pre (c ∷ s))) (match_line pre s)

abbrev pub nonce_label : List ℕ
nonce_label = codes "Nonce: "

abbrev pub expires_label : List ℕ
expires_label = codes "Expires At: "

abbrev pub nonce_lifetime_ms : ℕ
nonce_lifetime_ms = 5 * 60 * 1000

-- the message of `generateChallenge`, with the texts of the two times
unfoldable pub challenge_message : String → String → String → String → String → List ℕ
challenge_message domain wallet nonce issued_at expires_at =
    codes domain
    ++ (codes " wants you to sign in with your Stellar account:\n"
        ++ (codes wallet
            ++ (codes "\n\n"
                ++ ((nonce_label ++ codes nonce)
                    ++ (codes "\nIssued At: "
                        ++ (codes issued_at
                            ++ (codes "\n" ++ (expires_label ++ codes expires_at))))))))

has_prefix-append : (part rest : List ℕ) → has_prefix part (part ++ rest) ≡ true
has_prefix-append [] rest = refl
has_prefix-append (c ∷ part) rest = ground (arith, has_prefix-append part rest)

-- A text is included wherever it stands.
pub includes-append : (before part rest : List ℕ) → includes part (before ++ (part ++ rest)) ≡ true
unfolding includes
includes-append [] [] [] = refl
includes-append [] [] (c ∷ rest) = refl
includes-append [] (c ∷ part) rest = ground (arith, has_prefix-append part rest)
includes-append (c ∷ before) part rest = ground (arith, includes-append before part rest)
