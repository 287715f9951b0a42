-- ===== src/Security/SafeUrl/Checked.antt =====
-- What `assertSafeWebhookUrl` of src/security/safe-webhook-url.ts promises.
use webhook_engine.Base.{
  ℕ, ◌<◌, ◌⊎◌, ◌++◌, true, units, decimal, JsNumber, whole, ap, ◌∙◌, ◌≡◌, refl, Bool, false, not,
  ◌||◌, Option, none, some, List, [], ◌∷◌, any, All, String, str_eq, eq_iff, Text, Result, ok, err,
  arith, Bool-cases, inl, inr,
}
use webhook_engine.Security.SafeUrl.Blocks.{
  dotted, address_value, is_in_private_block, is_private_address-blocks,
}
use webhook_engine.Security.SafeUrl.{
  Url, Network, is_private_address, is_http, has_credentials, addresses_of, check_addresses,
  check_parsed_url, assert_safe_webhook_url,
}

any-false : {A : Type 0} (p : A → Bool) (xs : List A) → any p xs ≡ false → All (λ x. p x ≡ false) xs
any-false p [] h = tt
any-false p (x ∷ xs) h = (ground arith, any-false p xs (ground arith))

-- Addresses that webhooks must not reach: `::1`, those that begin with `fc`, `fd` or `fe80:`, and the IPv4
-- addresses in dotted decimal that lie in 10.0.0.0/8, 127.0.0.0/8, 169.254.0.0/16, 172.16.0.0/12 or
-- 192.168.0.0/16.
abbrev pub IsForbidden : Text → Type 0
IsForbidden a =
    (a ≡ units "::1")
    ⊎ ((rest : Text) × (a ≡ units "fc" ++ rest))
    ⊎ ((rest : Text) × (a ≡ units "fd" ++ rest))
    ⊎ ((rest : Text) × (a ≡ units "fe80:" ++ rest))
    ⊎ ((w : ℕ) × (x : ℕ) × (y : ℕ) × (z : ℕ) × (w < 256)
        × (x < 256)
        × (y < 256)
        × (z < 256)
        × (a ≡ dotted w x y z)
        × (is_in_private_block (address_value w x y z) ≡ true))

IsForbidden-is_private :
    (number : Text → JsNumber)
    → ((n : ℕ) → number (decimal n) ≡ whole n)
    → (a : Text) → IsForbidden a
    → is_private_address number a ≡ true
unfolding is_private_address
IsForbidden-is_private number reads a (inl e) = rw e refl
IsForbidden-is_private number reads a (inr (inl (rest, e))) = rw e refl
IsForbidden-is_private number reads a (inr (inr (inl (rest, e)))) = rw e refl
IsForbidden-is_private number reads a (inr (inr (inr (inl (rest, e))))) = rw e refl
IsForbidden-is_private number reads a
      (inr (inr (inr (inr (w, x, y, z, hw, hx, hy, hz, e, inside))))) =
    ap (is_private_address number) e
    ∙ (is_private_address-blocks number reads w x y z hw hx hy hz ∙ inside)

is_public-allowed :
    (number : Text → JsNumber)
    → ((n : ℕ) → number (decimal n) ≡ whole n)
    → (as' : List Text) → All (λ a. is_private_address number a ≡ false) as'
    → All (λ a. ¬ IsForbidden a) as'
is_public-allowed number reads [] h = tt
is_public-allowed number reads (a ∷ as') h = (
  λ bad. let hit = IsForbidden-is_private number reads a bad in absurd cc,
  is_public-allowed number reads as' h.1,
)

-- The URL `raw` is parsed as `url`, may be a target of webhooks in production, and is written `text'`.
pub record IsSafe (net : Network) (raw text' : String) : Type 0 where
  pub url : Url
  pub addresses : List Text
  pub parses : net.parse_url raw ≡ some url
  pub protocol : url.protocol ≡ "https:"
  pub username : url.username ≡ ""
  pub password : url.password ≡ ""
  pub resolves : addresses_of net url ≡ ok addresses
  pub is_public : All (λ a. ¬ IsForbidden a) addresses
  pub writes : url.href ≡ text'

module _ (net : Network) (reads : (n : ℕ) → net.number (decimal n) ≡ whole n) where
  check_addresses-ok :
      (url : Url) (r : Result (List Text)) {text' : String}
      → check_addresses net url r ≡ ok text'
      → (addresses : List Text) × (r ≡ ok addresses)
        × All (λ a. is_private_address net.number a ≡ false) addresses
        × (url.href ≡ text')
  unfolding check_addresses
  check_addresses-ok url (err e) h = absurd cc
  check_addresses-ok url (ok as') {text'} h =
      elim (Bool-cases (any (is_private_address net.number) as')) [
        | inl bad ↦ let h' = rw bad at h in absurd cc
        | inr good ↦
            let h' : ok url.href ≡ ok text' = rw good at h in
            (as', refl, any-false (is_private_address net.number) as' good, cc)
      ]

  check_parsed_url-IsSafe :
      (raw : String) (parsed : Option Url) {text' : String}
      → net.parse_url raw ≡ parsed
      → check_parsed_url net false parsed ≡ ok text'
      → IsSafe net raw text'
  unfolding check_parsed_url
  check_parsed_url-IsSafe raw none e h = absurd cc
  check_parsed_url-IsSafe raw (some url) {text'} e h =
      elim (Bool-cases (not (is_http url.protocol) || has_credentials url)) [
        | inl bad ↦ let h' = rw bad at h in absurd cc
        | inr good ↦ elim (Bool-cases (not (str_eq url.protocol "https:"))) [
          | inl bad ↦ let h' = rw (good, bad) at h in absurd cc
          | inr https ↦
              let h' : check_addresses net url (addresses_of net url) ≡ ok text' =
                rw (good, https) at h in
              let (addresses, resolves, public', writes) =
                check_addresses-ok url (addresses_of net url) h' in
              record {
                url = url;
                addresses = addresses;
                parses = e;
                protocol = ground (arith, eq_iff url.protocol "https:");
                username = ground (arith, eq_iff url.username "");
                password = ground (arith, eq_iff url.password "");
                resolves = resolves;
                is_public = is_public-allowed net.number reads addresses public';
                writes = writes;
              }
        ]
      ]

-- A URL that is accepted in production was parsed, has the protocol `https:` and no user name and no
-- password, and each address that its host resolved to at that time is none of `IsForbidden`: `::1`, one
-- that begins with `fc`, `fd` or `fe80:`, or a dotted IPv4 address in one of the blocks 10.0.0.0/8,
-- 127.0.0.0/8, 169.254.0.0/16, 172.16.0.0/12 and 192.168.0.0/16, where `Number` reads decimals. What is
-- returned is the URL as the parser writes it.
pub assert_safe_webhook_url-IsSafe :
    (net : Network)
    → ((n : ℕ) → net.number (decimal n) ≡ whole n)
    → (raw text' : String) → assert_safe_webhook_url net false raw ≡ ok text'
    → IsSafe net raw text'
unfolding assert_safe_webhook_url
assert_safe_webhook_url-IsSafe net reads raw text' h =
    check_parsed_url-IsSafe net reads raw (net.parse_url raw) refl h
