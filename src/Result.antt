-- ===== src/Result.antt =====
-- What a fallible function returns: Rust's `anyhow::Result`, with one constructor of `Error` for
-- each failure that the modelled code raises or passes on.
use proxygit.Prelude.{ℕ, ◌≡◌, refl, Bool, true, false, if◌then◌else◌}
use proxygit.Bytes.{Bytes}

pub data Error : Type 0 where
  -- protocol.rs
  frame_too_short payload_too_large unexpected_eof : ℕ → Error
  payload_truncated : ℕ → ℕ → Error
  write_too_short : Error
  write_truncated : ℕ → ℕ → Error
  not_utf8 : Bytes → Error
  sparse_too_short sparse_no_header sparse_no_expected sparse_no_count : Error
  sparse_truncated chunk_too_large : ℕ → Error
  zstd_failed : Bytes → Error
  hash_list_too_short : ℕ → Error
  hash_list_truncated : ℕ → ℕ → Error
  -- the server
  path_traversal : Bytes → Error
  block_missing : Bytes → Error
  duplicate_row : Bytes → ℕ → Error
  no_backup : Error
  io_failed : ℕ → Error
  -- auth.rs
  no_token : Error
  -- the client
  server_error : Bytes → Error
  unexpected_type : ℕ → Error
  malformed_json : Bytes → Error
  -- of the model only: `process_buffer` always ends
  out_of_fuel : Error

pub data Result {ℓ} (T : Type ℓ) : Type ℓ where
  err : Error → Result T
  ok : T → Result T

-- The operator `?`: what follows runs on the value of an `Ok`, and an error is returned.
infixl 5 ◌>>=◌
abbrev pub ◌>>=◌ {ℓ κ} : {T : Type ℓ} {U : Type κ} → Result T → (T → Result U) → Result U
err failure >>= rest = err failure
ok value >>= rest = rest value

-- A chain that ended in `Ok` had an `Ok` first.
pub >>=-eq-ok {ℓ κ} :
    {T : Type ℓ} {U : Type κ} (first : Result T) (rest : T → Result U) {u : U}
    → (first >>= rest) ≡ ok u
    → (t : T) × (first ≡ ok t) × (rest t ≡ ok u)
>>=-eq-ok (err failure) rest e = cc
>>=-eq-ok (ok value) rest e = (value, refl, e)

pub if_err-eq-ok {ℓ} :
    {B : Type ℓ} (t : Bool) (e : Error) (k : Result B) {b : B}
    → (if t then err e else k) ≡ ok b
    → (t ≡ false) × (k ≡ ok b)
if_err-eq-ok true e k h = cc
if_err-eq-ok false e k h = (refl, h)

pub ok-injective {ℓ} : {A : Type ℓ} {a b : A} → ok a ≡ ok b → a ≡ b
ok-injective h = cc
