-- ===== src/Auth/Encoding.antt =====
-- The base64url text of a token, against a decoder of RFC 4648.
use proxygit.Prelude.{
  ℕ, zero, suc, ◌+◌, ◌-◌, ◌*◌, ◌/◌, ◌%◌, [], ◌∷◌, Bool, true, ◌&&◌, ◌==◌, leb, if◌then◌else◌,
}
use proxygit.Bytes.{Bytes}
use proxygit.Auth.{sextet}

-- The six bits that a character of the base64url alphabet stands for.
abbrev pub value_of : ℕ → ℕ
value_of c =
    if leb b'a' c
    then (c - b'a') + 26
    else if c == b'_'
    then 63
    else if leb b'A' c
    then c - b'A'
    else if leb b'0' c
    then (c - b'0') + 52
    else 62

-- The three bytes that four characters stand for.
abbrev first : ℕ → ℕ → ℕ
first w x = (value_of w * 4) + (value_of x / 16)

abbrev second : ℕ → ℕ → ℕ
second x y = ((value_of x % 16) * 16) + (value_of y / 4)

abbrev third : ℕ → ℕ → ℕ
third y z = ((value_of y % 4) * 64) + value_of z

-- The bytes of a text without padding: four characters are three bytes, and two or three at the
-- end are one or two.
unfoldable pub decoded : Bytes → Bytes
decoded (w ∷ x ∷ y ∷ z ∷ rest) = first w x ∷ second x y ∷ third y z ∷ decoded rest
decoded (w ∷ x ∷ y ∷ []) = first w x ∷ second x y ∷ []
decoded (w ∷ x ∷ []) = first w x ∷ []
decoded (w ∷ []) = []
decoded [] = []

-- A test holds of every number below a bound if it is found to.
abbrev all_below : (ℕ → Bool) → ℕ → Bool
all_below t zero = true
all_below t (suc k) = t k && all_below t k

abbrev is_inverse : ℕ → Bool
is_inverse k = value_of (sextet k 0) == k
