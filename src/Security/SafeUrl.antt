-- ===== src/Security/SafeUrl.antt =====
-- src/security/safe-webhook-url.ts. The URL parser, `isIP`, `lookup` of the DNS and `Number(text)` are
-- parameters. A promise of `lookup` that is rejected is an error of `lookup`.
pub mod Blocks
pub mod Checked
use webhook_engine.Base.{
  ℕ, ◌==◌, if◌then◌else◌, Bool, true, false, not, ◌&&◌, ◌||◌, Option, none, some, List, [], ◌∷◌,
  map, any, String, str_eq, Text, units, text_eq, JsNumber, is_exactly, is_at_least, is_at_most,
  Error, http_exception, Result, ok, err,
}

-- What the code reads of a `URL`; `href` is its `toString()`.
pub record Url : Type 0 where
  pub protocol : String
  pub username : String
  pub password : String
  pub hostname : Text
  pub href : String

pub record Network : Type 0 where
  -- `new URL(rawUrl)`: none if it throws
  pub parse_url : String → Option Url
  pub is_ip : Text → Bool
  pub lookup : Text → Result (List Text)
  pub number : Text → JsNumber

-- `text.startsWith(prefix)`
abbrev pub starts_with : Text → Text → Bool
starts_with [] t = true
starts_with (p ∷ ps) [] = false
starts_with (p ∷ ps) (c ∷ cs) = p == c && starts_with ps cs

abbrev pub onto_first : ℕ → List Text → List Text
onto_first c [] = (c ∷ []) ∷ []
onto_first c (part ∷ parts) = (c ∷ part) ∷ parts

-- `text.split('.')`
unfoldable pub split_dots : Text → List Text
split_dots [] = [] ∷ []
split_dots (c ∷ cs) = let rest = split_dots cs in if c == b'.' then [] ∷ rest else onto_first c rest

-- The test of the four parts.
unfoldable pub is_private_parts : List JsNumber → Bool
unfolding is_exactly is_at_least is_at_most
is_private_parts (a ∷ b ∷ c ∷ d ∷ []) =
    is_exactly 10 a
    || (is_exactly 127 a
        || ((is_exactly 169 a && is_exactly 254 b)
            || ((is_exactly 172 a && (is_at_least 16 b && is_at_most 31 b))
                || (is_exactly 192 a && is_exactly 168 b))))
is_private_parts _ = false

unfoldable pub is_private_address : (Text → JsNumber) → Text → Bool
unfolding split_dots is_private_parts
is_private_address number address =
    if text_eq address (units "::1")
      || (starts_with (units "fc") address || starts_with (units "fd") address)
    then true
    else (if starts_with (units "fe80:") address
        then true
        else is_private_parts (map number (split_dots address)))

abbrev pub bad_request : {A : Type 0} → String → Result A
bad_request message = err (http_exception 400 message)

-- `['http:', 'https:'].includes(url.protocol)`
abbrev pub is_http : String → Bool
is_http protocol = str_eq protocol "http:" || str_eq protocol "https:"

abbrev pub has_credentials : Url → Bool
has_credentials url = not (str_eq url.username "") || not (str_eq url.password "")

module _ (net : Network) where
  unfoldable pub addresses_of : Url → Result (List Text)
  addresses_of url =
      if net.is_ip url.hostname then ok (url.hostname ∷ []) else net.lookup url.hostname

  unfoldable pub check_addresses : Url → Result (List Text) → Result String
  unfolding is_private_address
  check_addresses url (err e) = err e
  check_addresses url (ok addresses) =
      if any (is_private_address net.number) addresses
      then bad_request "Private or loopback endpoint URLs are forbidden"
      else ok url.href

  unfoldable pub check_parsed_url : Bool → Option Url → Result String
  unfolding addresses_of check_addresses
  check_parsed_url allow_local_urls none = bad_request "Endpoint URL is invalid"
  check_parsed_url allow_local_urls (some url) =
      if not (is_http url.protocol) || has_credentials url
      then bad_request "Endpoint URL must be HTTP(S) without credentials"
      else (if allow_local_urls
          then ok url.href
          else (if not (str_eq url.protocol "https:")
              then bad_request "Production endpoint URLs must use HTTPS"
              else check_addresses url (addresses_of url)))

  unfoldable pub assert_safe_webhook_url : Bool → String → Result String
  unfolding check_parsed_url
  assert_safe_webhook_url allow_local_urls raw_url =
      check_parsed_url allow_local_urls (net.parse_url raw_url)
