-- ===== src/Bytes.antt =====
-- Byte strings, and the fixed-width integers in them: Rust's `to_le_bytes`, `from_le_bytes`,
-- `to_be_bytes` and `from_be_bytes`. A `String` is its UTF-8 bytes (Bytes/Utf8).
pub mod Laws
pub mod Utf8
pub mod Ascii
use mathlib.Core.List.{reverse}
use proxygit.Prelude.{
  ℕ, zero, suc, ◌+◌, ◌-◌, ◌*◌, ◌/◌, ◌%◌, ◌<◌, ◌&&◌, ◌==◌, Bool, true, false, List, [], ◌∷◌, take,
  drop,
}

abbrev pub Bytes : Type 0
Bytes = List ℕ

abbrev pub IsByte : ℕ → Type 0
IsByte b = b < 256

-- The low `w` bytes of `n`, lowest first.
unfoldable pub le_bytes : ℕ → ℕ → Bytes
le_bytes zero n = []
le_bytes (suc w) n = (n % 256) ∷ le_bytes w (n / 256)

unfoldable pub from_le : Bytes → ℕ
from_le [] = 0
from_le (b ∷ bs) = b + 256 * from_le bs

unfoldable pub be_bytes : ℕ → ℕ → Bytes
unfolding le_bytes
be_bytes w n = reverse (le_bytes w n)

unfoldable pub from_be : Bytes → ℕ
unfolding from_le
from_be bs = from_le (reverse bs)

-- `bs[from..to]`; the callers check that it is in range.
abbrev pub slice : Bytes → ℕ → ℕ → Bytes
slice bs from to = take (to - from) (drop from bs)

-- Equality of byte strings, as `==` on slices and strings has it.
unfoldable pub bytes_eq : Bytes → Bytes → Bool
bytes_eq [] [] = true
bytes_eq [] (y ∷ ys) = false
bytes_eq (x ∷ xs) [] = false
bytes_eq (x ∷ xs) (y ∷ ys) = x == y && bytes_eq xs ys
