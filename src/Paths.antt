-- ===== src/Paths.antt =====
-- `percent_decode`, `hex_nibble` and `sanitize_path` of crates/proxygit-server/src/lib.rs.
pub mod Safe
use proxygit.Prelude.{
  ℕ, ◌+◌, ◌-◌, ◌*◌, Bool, true, false, ◌&&◌, ◌||◌, List, [], ◌∷◌, ◌++◌, leb, ◌==◌, if◌then◌else◌,
  Option, none, some,
}
use proxygit.Bytes.{Bytes}
use proxygit.Bytes.Utf8.{from_utf8}
use proxygit.Result.{Result, ok, err, path_traversal, not_utf8, ◌>>=◌}
use proxygit.Protocol.Payload.{utf8_or_fail}

unfoldable pub hex_nibble : ℕ → Option ℕ
hex_nibble b =
    if leb b'0' b && leb b b'9'
    then some (b - b'0')
    else if leb b'a' b && leb b b'f'
    then some (b - b'a' + 10)
    else if leb b'A' b && leb b b'F'
    then some (b - b'A' + 10)
    else none

-- `(a << 4) | b` of two nibbles.
unfoldable pub escaped : ℕ → ℕ → ℕ → Option ℕ
unfolding hex_nibble
escaped b h1 h2 =
    if b == b'%'
    then elim (hex_nibble h1) [
      | none ↦ none
      | some x ↦ elim (hex_nibble h2) [ none ↦ none | some y ↦ some (x * 16 + y) ]
    ]
    else none

unfoldable pub decode_escapes : Bytes → Bytes
decode_escapes [] = []
decode_escapes (b ∷ []) = b ∷ []
decode_escapes (b ∷ h1 ∷ []) = b ∷ h1 ∷ []
decode_escapes (b ∷ h1 ∷ h2 ∷ rest) = elim (escaped b h1 h2) [
  | none ↦ b ∷ decode_escapes (h1 ∷ h2 ∷ rest)
  | some c ↦ c ∷ decode_escapes rest
]

unfoldable pub percent_decode : Bytes → Result Bytes
unfolding decode_escapes escaped utf8_or_fail
percent_decode input = utf8_or_fail (decode_escapes input)

unfoldable pub trim_slashes : Bytes → Bytes
trim_slashes [] = []
trim_slashes (b ∷ bs) = if b == b'/' then trim_slashes bs else b ∷ bs

unfoldable pub has_dotdot : Bytes → Bool
has_dotdot [] = false
has_dotdot (x ∷ []) = false
has_dotdot (x ∷ y ∷ rest) = (x == b'.' && y == b'.') || has_dotdot (y ∷ rest)

unfoldable pub sanitize_path : Bytes → Result Bytes
unfolding percent_decode trim_slashes has_dotdot
sanitize_path raw = do
  decoded ← percent_decode raw
  if has_dotdot (trim_slashes decoded) then err (path_traversal raw) else ok (trim_slashes decoded)
