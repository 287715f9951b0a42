-- ===== src/Tests/SecurityData.antt =====
-- Concrete stand-ins for what the runtime and the network give to src/security.
use webhook_engine.Base.{
  false, ℕ, zero, suc, ◌≡◌, refl, ap, some, [], ◌∷◌, String, units, whole, read_digits, ok,
}
use webhook_engine.Security.SafeUrl.{Url, Network}
use webhook_engine.Security.Signing.{Crypto}

abbrev pub hook_url : Url
hook_url = record {
  protocol = "https:";
  username = "";
  password = "";
  hostname = units "example.org";
  href = "https://example.org/hook";
}

abbrev pub plain_url : Url
plain_url = record {
  protocol = "http:";
  username = "";
  password = "";
  hostname = units "example.org";
  href = "http://example.org/hook";
}

-- Every text is parsed as the same URL, whose host has a public address.
abbrev pub network_of : Url → Network
network_of url = record {
  parse_url = λ _. some url;
  is_ip = λ _. false;
  lookup = λ _. ok (units "93.184.215.14" ∷ []);
  number = read_digits;
}

-- Numbers as rows of strokes.
abbrev pub strokes : ℕ → String
strokes zero = ""
strokes (suc n) = String.◌∷◌ "1" (strokes n)

abbrev stroke_count : String → ℕ
stroke_count String.[] = 0
stroke_count (String.◌∷◌ c s) = suc (stroke_count s)

stroke_count-strokes : (n : ℕ) → stroke_count (strokes n) ≡ n
stroke_count-strokes zero = refl
stroke_count-strokes (suc n) = ap suc (stroke_count-strokes n)

abbrev pub crypto : Crypto
crypto = record {
  hmac = λ algorithm key text'. Prim.Native.String.◌++◌ key text';
  stringify = λ envelope. "{}";
  to_decimal = strokes;
  parse_int = λ s. whole (stroke_count s);
  signature_algorithm = "sha256";
}

pub crypto-reads : (n : ℕ) → crypto.parse_int (crypto.to_decimal n) ≡ whole n
crypto-reads n = ap whole (stroke_count-strokes n)
