-- ===== src/Security/ApiKey.antt =====
-- src/security/api-key.ts and the pattern of src/security/tenant-api-key.guard.ts. `bytes` are those of
-- `randomBytes`; `sha256` is the digest of node's crypto in hexadecimal, of a text's UTF-8 bytes.
pub mod Format
use webhook_engine.Base.{
  ℕ, ◌+◌, ◌/◌, ◌%◌, ◌==◌, ltb, leb, if◌then◌else◌, Bool, true, false, ◌&&◌, ◌||◌, Option, none,
  some, List, [], ◌∷◌, ◌++◌, length, String, Text, units, text_eq, Result, ok,
}
use webhook_engine.Security.Bytes.{utf8, timing_safe_equal}
use webhook_engine.Dispatcher.Redaction.{lower, strip_word}

abbrev pub hex_digit : ℕ → ℕ
hex_digit n = if ltb n 10 then b'0' + n else 87 + n

-- `bytes.toString('hex')`
unfoldable pub hex : List ℕ → Text
hex [] = []
hex (b ∷ bs) = hex_digit (b / 16) ∷ (hex_digit (b % 16) ∷ hex bs)

unfoldable pub generate_api_key : List ℕ → Text
unfolding hex
generate_api_key bytes = units "whk_" ++ hex bytes

unfoldable pub generate_endpoint_secret : List ℕ → Text
unfolding hex
generate_endpoint_secret bytes = units "whsec_" ++ hex bytes

-- `&&` does not reach the comparison that throws.
unfoldable pub safe_equal : String → String → Result Bool
unfolding timing_safe_equal
safe_equal left right =
    if length (utf8 left) == length (utf8 right)
    then timing_safe_equal (utf8 left) (utf8 right)
    else ok false

-- `[a-f0-9]` with the flag `i`
unfoldable pub is_hex : ℕ → Bool
unfolding lower
is_hex c = (leb b'0' c && leb c b'9') || (leb b'a' (lower c) && leb (lower c) b'f')

abbrev all_hex : Text → Bool
all_hex [] = true
all_hex (c ∷ cs) = is_hex c && all_hex cs

-- `whk_[a-f0-9]{64}`, up to the end
unfoldable pub is_api_key : Text → Bool
unfolding strip_word is_hex
is_api_key t = elim (strip_word (units "whk_") t) [
  | none ↦ false
  | some rest ↦ length rest == 64 && all_hex rest
]

abbrev pub key_or_none : Option Text → Option Text
key_or_none none = none
key_or_none (some key) = if is_api_key key then some key else none

-- the group of `/^Bearer (whk_[a-f0-9]{64})$/i`
unfoldable pub match_bearer : Text → Option Text
unfolding strip_word is_api_key
match_bearer authorization = key_or_none (strip_word (units "bearer ") authorization)
