-- ===== src/Emails/Html.antt =====
-- escapeHtml of src/utils/html.ts, on lists of code points, and its inverse.
use novatip_backend.Prelude.{ℕ, List, [], ◌∷◌, ◌++◌, codes, ◌==◌, if◌then◌else◌}

-- HTML_ESCAPE_MAP, and a character that is not in it
abbrev pub escape_code : ℕ → List ℕ
escape_code c =
    if c == b'&'
    then codes "&amp;"
    else if c == b'<'
    then codes "&lt;"
    else if c == b'>'
    then codes "&gt;"
    else if c == b'"'
    then codes "&quot;"
    else if c == 39
    then codes "&#39;"
    else c ∷ []

unfoldable pub escape_html : List ℕ → List ℕ
escape_html [] = []
escape_html (c ∷ s) = escape_code c ++ escape_html s
