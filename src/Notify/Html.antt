-- ===== src/Notify/Html.antt =====
-- html.EscapeString of Go's `html` package.
use mailservice.Prelude.{ℕ, [], ◌∷◌, ◌++◌, ◌==◌, if◌then◌else◌, Bytes, codes}

abbrev pub escape_byte : ℕ → Bytes
escape_byte c =
    if c == b'&'
    then codes "&amp;"
    else if c == b'\''
    then codes "&#39;"
    else if c == b'<'
    then codes "&lt;"
    else if c == b'>'
    then codes "&gt;"
    else if c == b'"'
    then codes "&#34;"
    else c ∷ []

-- html.EscapeString
unfoldable pub escape_string : Bytes → Bytes
escape_string [] = []
escape_string (c ∷ s) = escape_byte c ++ escape_string s
