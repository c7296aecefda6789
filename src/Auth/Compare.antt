-- ===== src/Auth/Compare.antt =====
-- `tokens_equal` is equality: its xor and or leave no difference only between equal tokens.
use Prim.Native.Nat.{digits, differ, max, bit_xor-bitwise, bit_or-bitwise}
use proxygit.Prelude.{
  ℕ, zero, suc, ◌/◌, ◌%◌, ◌≤◌, ◌≡◌, refl, sym, ◌∙◌, ap, ◌↔◌, true, [], ◌∷◌, length, ◌==◌, arith,
  bit_or, bit_xor, Bool-cases, inl, inr,
}
use proxygit.Bytes.{Bytes}
use proxygit.Auth.{difference, tokens_equal}

differ-eq : (x y : ℕ) → differ x y ≡ 0 → x ≡ y
differ-eq zero y h = ground (arith, h)
differ-eq (suc x) zero h = ground (arith, h)
differ-eq (suc x) (suc y) h = ap suc (differ-eq x y h)

differ-same : (x : ℕ) → differ x x ≡ 0
differ-same zero = refl
differ-same (suc x) = differ-same x

xor_digits-eq : (n a b : ℕ) → a ≤ n → digits (λ b. b) differ n a b ≡ 0 → a ≡ b
xor_digits-eq zero a b le h = omega arith
xor_digits-eq (suc n) zero b le h = omega arith
xor_digits-eq (suc n) (suc a) b le h =
    let halves : suc a / 2 ≡ b / 2 =
      xor_digits-eq n (suc a / 2) (b / 2) (omega arith) (omega arith) in
    let lows : suc a % 2 ≡ b % 2 = differ-eq (suc a % 2) (b % 2) (omega arith) in omega arith

xor_digits-same : (n a : ℕ) → a ≤ n → digits (λ b. b) differ n a a ≡ 0
xor_digits-same zero a le = omega arith
xor_digits-same (suc n) zero le = refl
xor_digits-same (suc n) (suc a) le =
    omega (arith, xor_digits-same n (suc a / 2) (omega arith), differ-same (suc a % 2))

max-zero : (x y : ℕ) → max x y ≡ 0 → (x ≡ 0) × (y ≡ 0)
max-zero zero y h = (refl, omega arith)
max-zero (suc x) zero h = absurd (omega arith)
max-zero (suc x) (suc y) h = absurd (omega arith)

or_digits-zero : (n a b : ℕ) → a ≤ n → digits (λ b. b) max n a b ≡ 0 → (a ≡ 0) × (b ≡ 0)
or_digits-zero zero a b le h = (omega arith, h)
or_digits-zero (suc n) zero b le h = (refl, h)
or_digits-zero (suc n) (suc a) b le h =
    let (hi, hi') = or_digits-zero n (suc a / 2) (b / 2) (omega arith) (omega arith) in
    let (lo, lo') = max-zero (suc a % 2) (b % 2) (omega arith) in (omega arith, omega arith)

xor_lem : (a b : ℕ) → bit_xor a b ≡ digits (λ b. b) differ a a b
xor_lem a b = λ i. bit_xor-bitwise a b i

or_lem : (a b : ℕ) → bit_or a b ≡ digits (λ b. b) max a a b
or_lem a b = λ i. bit_or-bitwise a b i

xor-eq : (a b : ℕ) → bit_xor a b ≡ 0 → a ≡ b
xor-eq a b h = xor_digits-eq a a b (omega arith) (sym (xor_lem a b) ∙ h)

xor-same : (a : ℕ) → bit_xor a a ≡ 0
xor-same a = xor_lem a a ∙ xor_digits-same a a (omega arith)

or-zero : (a b : ℕ) → bit_or a b ≡ 0 → (a ≡ 0) × (b ≡ 0)
or-zero a b h = or_digits-zero a a b (omega arith) (sym (or_lem a b) ∙ h)

difference-eq :
    (seen : ℕ) (a b : Bytes) → length a ≡ length b → difference seen a b ≡ 0 → (seen ≡ 0) × (a ≡ b)
unfolding difference
difference-eq seen [] [] l h = (h, refl)
difference-eq seen [] (y ∷ ys) l h = absurd (omega arith)
difference-eq seen (x ∷ xs) [] l h = absurd (omega arith)
difference-eq seen (x ∷ xs) (y ∷ ys) l h =
    let (none_here, tails) = difference-eq (bit_or seen (bit_xor x y)) xs ys (omega arith) h in
    let (before, here) = or-zero seen (bit_xor x y) none_here in
    (before, rw (xor-eq x y here, tails) refl)

difference-same : (a : Bytes) → difference 0 a a ≡ 0
unfolding difference
difference-same [] = refl
difference-same (x ∷ xs) = rw (xor-same x) (difference-same xs)

-- Two tokens are found equal exactly if they are the same bytes.
pub tokens_equal_iff : (a b : Bytes) → (tokens_equal a b ≡ true) ↔ (a ≡ b)
unfolding tokens_equal
tokens_equal_iff a b = (
  λ h. elim (Bool-cases (length a == length b)) [
    | inl e ↦ (difference-eq 0 a b (ground (arith, e)) (ground (arith, rw e at h))).1
    | inr e ↦ absurd (cc (rw e at h))
  ],
  λ h. rw h (rw (difference-same b) (ground arith)),
)
