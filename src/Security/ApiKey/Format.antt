-- ===== src/Security/ApiKey/Format.antt =====
-- Generated API keys, in src/security/api-key.ts, have the form that
-- src/security/tenant-api-key.guard.ts asks for.
use webhook_engine.Base.{
  ℕ, ◌*◌, ◌/◌, ◌%◌, ◌<◌, ◌≡◌, refl, true, some, List, [], ◌∷◌, ◌++◌, length, All, units, arith,
}
use webhook_engine.Dispatcher.Redaction.{lower, strip_word}
use webhook_engine.Security.ApiKey.{
  hex_digit, hex, generate_api_key, is_hex, all_hex, is_api_key, match_bearer,
}

-- The bytes are below 256.
abbrev pub IsByte : ℕ → Type 0
IsByte b = b < 256

is_hex-hex_digit : (n : ℕ) → n < 16 → is_hex (hex_digit n) ≡ true
unfolding is_hex lower
is_hex-hex_digit n h = ground arith

hex-all_hex : (bs : List ℕ) → All IsByte bs → all_hex (hex bs) ≡ true
unfolding hex
hex-all_hex [] h = refl
hex-all_hex (b ∷ bs) h =
    rw
      (
        is_hex-hex_digit (b / 16) (omega arith),
        is_hex-hex_digit (b % 16) (omega arith),
        hex-all_hex bs h.1,
      )
      refl

length-hex : (bs : List ℕ) → length (hex bs) ≡ 2 * length bs
unfolding hex
length-hex [] = refl
length-hex (b ∷ bs) = omega (arith, length-hex bs)

generate_api_key-IsApiKey :
    (bytes : List ℕ)
    → length bytes ≡ 32
    → All IsByte bytes
    → is_api_key (generate_api_key bytes) ≡ true
unfolding is_api_key generate_api_key strip_word lower
generate_api_key-IsApiKey bytes size h =
    let e : length (hex bytes) ≡ 64 = omega (arith, length-hex bytes) in
    rw (e, hex-all_hex bytes h) refl

-- The header `Bearer ` with a generated key, of 32 random bytes, matches the guard's pattern, and what
-- the pattern finds is that key.
pub match_bearer-generate :
    (bytes : List ℕ)
    → length bytes ≡ 32
    → All IsByte bytes
    → match_bearer (units "Bearer " ++ generate_api_key bytes) ≡ some (generate_api_key bytes)
unfolding match_bearer strip_word lower
match_bearer-generate bytes size h = rw (generate_api_key-IsApiKey bytes size h) refl
