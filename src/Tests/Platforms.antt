-- ===== src/Tests/Platforms.antt =====
-- An order of texts and encodings that meet the laws which the feeds ask for.
use Prim.Native.Char.{Char, code}
use text.Mathlib.TextEquality.{Char-path}
use novatip_backend.Prelude.{
  ℕ, zero, suc, ◌≡◌, ◌≢◌, refl, ap, String, Bool, true, false, ◌&&◌, ◌||◌, none, some, ltb, ◌==◌,
  str_eq, arith, eq_iff,
}
use novatip_backend.Feeds.Cursor.{KeyOrder, Platform, split_once}

-- texts in the order of their code points
unfoldable pub text_lt : String → String → Bool
text_lt String.[] String.[] = false
text_lt String.[] (String.◌∷◌ d t) = true
text_lt (String.◌∷◌ c s) String.[] = false
text_lt (String.◌∷◌ c s) (String.◌∷◌ d t) =
    ltb (code c) (code d) || (code c == code d && text_lt s t)

pub text_lt_irrefl : (s : String) → text_lt s s ≡ false
unfolding text_lt
text_lt_irrefl String.[] = refl
text_lt_irrefl (String.◌∷◌ c s) = ground (arith, text_lt_irrefl s)

pub text_lt_trans : (r s t : String) → text_lt r s ≡ true → text_lt s t ≡ true → text_lt r t ≡ true
unfolding text_lt
text_lt_trans String.[] String.[] t h k = cc
text_lt_trans String.[] (String.◌∷◌ d s) String.[] h k = cc
text_lt_trans String.[] (String.◌∷◌ d s) (String.◌∷◌ e t) h k = refl
text_lt_trans (String.◌∷◌ c r) String.[] t h k = cc
text_lt_trans (String.◌∷◌ c r) (String.◌∷◌ d s) String.[] h k = cc
text_lt_trans (String.◌∷◌ c r) (String.◌∷◌ d s) (String.◌∷◌ e t) h k =
    ground (arith, text_lt_trans r s t)

same_head : (c d : Char) (s t : String) → code c ≡ code d → s ≡ t → String.◌∷◌ c s ≡ String.◌∷◌ d t
same_head c d s t h k = cc (Char-path c d h, k)

pub text_lt-total : (s t : String) → text_lt s t ≡ false → text_lt t s ≡ false → s ≡ t
unfolding text_lt
text_lt-total String.[] String.[] h k = refl
text_lt-total String.[] (String.◌∷◌ d t) h k = cc
text_lt-total (String.◌∷◌ c s) String.[] h k = cc
text_lt-total (String.◌∷◌ c s) (String.◌∷◌ d t) h k =
    same_head c d s t (ground arith) (text_lt-total s t (ground arith) (ground arith))

abbrev pub by_code : KeyOrder
by_code = record {
  lt = text_lt;
  lt-irrefl = text_lt_irrefl;
  lt-trans = text_lt_trans;
  lt-total = text_lt-total;
}

-- a time as so many letters
unfoldable pub unary : ℕ → String
unary zero = ""
unary (suc n) = String.◌∷◌ "a" (unary n)

unfoldable pub count_codes : String → ℕ
count_codes String.[] = 0
count_codes (String.◌∷◌ c s) = suc (count_codes s)

pub count_codes-unary : (n : ℕ) → count_codes (unary n) ≡ n
unfolding count_codes unary
count_codes-unary zero = refl
count_codes-unary (suc n) = ap suc (count_codes-unary n)

pub unary-split : (n : ℕ) → split_once (unary n) ≡ none
unfolding unary
unary-split zero = refl
unary-split (suc n) = rw (unary-split n) refl

pub nonempty : (s : String) → s ≢ "" → str_eq s "" ≡ false
nonempty s h = ground (arith, h, eq_iff s "")

abbrev pub plain : Platform
plain = record {
  to_iso = unary;
  parse_date = λ s. some (count_codes s);
  to_base64url = λ s. s;
  from_base64url = λ s. s;
  is_blank = λ s. str_eq s "";
  parse-to_iso = λ t. ap some (count_codes-unary t);
  to_iso-split = unary-split;
  from-to_base64url = λ s. refl;
  empty-is_blank = refl;
  base64url-is_blank = nonempty;
}
