-- ===== src/Text.antt =====
-- The functions of Go's `strings` and `strconv` packages that the program calls, over byte
-- strings. Letters and white space are those of ASCII, so the model speaks of ASCII texts.
pub mod Laws
pub mod Runes
use mailservice.Prelude.{
  ℕ, zero, suc, ◌+◌, ◌*◌, ◌-◌, Bool, true, false, ◌&&◌, ◌||◌, List, [], ◌∷◌, ◌++◌, map, leb, ◌==◌,
  if◌then◌else◌, Bytes,
}

unfoldable pub lower : ℕ → ℕ
lower c = if leb b'A' c && leb c b'Z' then c + 32 else c

unfoldable pub upper : ℕ → ℕ
upper c = if leb b'a' c && leb c b'z' then c - 32 else c

-- strings.ToLower
unfoldable pub to_lower : Bytes → Bytes
unfolding lower
to_lower s = map lower s

-- strings.ToUpper
unfoldable pub to_upper : Bytes → Bytes
unfolding upper
to_upper s = map upper s

-- unicode.IsSpace, in ASCII: tab, line feed, vertical tab, form feed, carriage return, space
unfoldable pub is_space : ℕ → Bool
is_space c = (leb 9 c && leb c 13) || c == 32

unfoldable pub trim_left : Bytes → Bytes
unfolding is_space
trim_left [] = []
trim_left (c ∷ s) = let rest = trim_left s in if is_space c then rest else c ∷ s

-- What `trim_right` makes of a byte in front of the trimmed rest.
abbrev keep_right : ℕ → Bytes → Bytes
keep_right c [] = if is_space c then [] else c ∷ []
keep_right c (d ∷ r) = c ∷ d ∷ r

unfoldable pub trim_right : Bytes → Bytes
unfolding is_space
trim_right [] = []
trim_right (c ∷ s) = keep_right c (trim_right s)

-- strings.TrimSpace
unfoldable pub trim_space : Bytes → Bytes
unfolding trim_left trim_right
trim_space s = trim_right (trim_left s)

-- strings.TrimSpace(strings.ToLower(s))
unfoldable pub normalize : Bytes → Bytes
unfolding trim_space to_lower
normalize s = trim_space (to_lower s)

-- s == ""
abbrev pub is_empty : Bytes → Bool
is_empty [] = true
is_empty (c ∷ s) = false

-- strings.HasPrefix(s, p)
unfoldable pub has_prefix : Bytes → Bytes → Bool
has_prefix s [] = true
has_prefix [] (d ∷ p) = false
has_prefix (c ∷ s) (d ∷ p) = (c == d) && has_prefix s p

-- strings.Contains(s, sub) for a `sub` of one byte
unfoldable pub contains_byte : Bytes → ℕ → Bool
contains_byte [] d = false
contains_byte (c ∷ s) d = (c == d) || contains_byte s d

-- strings.ReplaceAll(s, old, "") for an `old` of one byte
unfoldable pub remove_byte : Bytes → ℕ → Bytes
remove_byte [] d = []
remove_byte (c ∷ s) d = let rest = remove_byte s d in if c == d then rest else c ∷ rest
