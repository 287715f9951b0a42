-- ===== src/Security/SafeUrl/Blocks.antt =====
-- `isPrivateAddress` of src/security/safe-webhook-url.ts on IPv4 addresses in dotted decimal, by the
-- blocks of addresses that it stands for.
use webhook_engine.Base.{
  ℕ, ◌+◌, ◌*◌, ◌/◌, ◌<◌, ◌==◌, if◌then◌else◌, ◌≡◌, refl, ap, Bool, true, false, ◌||◌, [], ◌∷◌, ◌++◌,
  map, Text, units, text_eq, decimal, IsDigit, decimal-IsDigit, All, ◌∙◌, arith, JsNumber, nan,
  whole, is_exactly, is_at_least, is_at_most,
}
use webhook_engine.Security.SafeUrl.{
  starts_with, onto_first, split_dots, is_private_parts, is_private_address,
}

-- The digits before a dot are the first part.
split_dots-digits :
    (xs rest : Text) → All IsDigit xs → split_dots (xs ++ b'.' ∷ rest) ≡ xs ∷ split_dots rest
unfolding split_dots
split_dots-digits [] rest h = refl
split_dots-digits (c ∷ xs) rest h = rw (split_dots-digits xs rest h.1) (ground arith)

split_dots-last : (xs : Text) → All IsDigit xs → split_dots xs ≡ xs ∷ []
unfolding split_dots
split_dots-last [] h = refl
split_dots-last (c ∷ xs) h = rw (split_dots-last xs h.1) (ground arith)

starts_with-digits :
    (k : ℕ) (ps xs rest : Text)
    → b'9' < k
    → All IsDigit xs
    → starts_with (k ∷ ps) (xs ++ b'.' ∷ rest) ≡ false
starts_with-digits k ps [] rest big h = ground arith
starts_with-digits k ps (c ∷ xs) rest big h = ground arith

loopback-digits :
    (xs rest : Text) → All IsDigit xs → text_eq (xs ++ b'.' ∷ rest) (units "::1") ≡ false
loopback-digits [] rest h = refl
loopback-digits (c ∷ xs) rest h = ground arith

-- `a.b.c.d`
abbrev pub dotted : ℕ → ℕ → ℕ → ℕ → Text
dotted a b c d = decimal a ++ b'.' ∷ (decimal b ++ b'.' ∷ (decimal c ++ b'.' ∷ decimal d))

split_dots-dotted :
    (a b c d : ℕ)
    → split_dots (dotted a b c d) ≡ decimal a ∷ (decimal b ∷ (decimal c ∷ (decimal d ∷ [])))
split_dots-dotted a b c d =
    split_dots-digits (decimal a) _ (decimal-IsDigit a)
    ∙ (ap (λ parts. decimal a ∷ parts) (split_dots-digits (decimal b) _ (decimal-IsDigit b))
        ∙ (ap (λ parts. decimal a ∷ (decimal b ∷ parts))
              (split_dots-digits (decimal c) (decimal d) (decimal-IsDigit c))
            ∙ ap (λ parts. decimal a ∷ (decimal b ∷ (decimal c ∷ parts)))
                (split_dots-last (decimal d) (decimal-IsDigit d))))

-- The number that the four bytes of an address stand for.
abbrev pub address_value : ℕ → ℕ → ℕ → ℕ → ℕ
address_value a b c d = ((a * 256 + b) * 256 + c) * 256 + d

-- The address is in the block of `2 ^ (32 - bits)` addresses that begins at the address
-- `a.b.0.0`; `size` is that power.
abbrev pub is_in_block : ℕ → ℕ → ℕ → ℕ → Bool
is_in_block a b size value = value / size == address_value a b 0 0 / size

-- 10.0.0.0/8, 127.0.0.0/8, 169.254.0.0/16, 172.16.0.0/12, 192.168.0.0/16
abbrev pub is_in_private_block : ℕ → Bool
is_in_private_block value =
    is_in_block 10 0 0x1000000 value
    || (is_in_block 127 0 0x1000000 value
        || (is_in_block 169 254 0x10000 value
            || (is_in_block 172 16 0x100000 value || is_in_block 192 168 0x10000 value)))

is_private_parts-bytes :
    (a b c d : ℕ)
    → b < 256
    → c < 256
    → d < 256
    → is_private_parts (whole a ∷ (whole b ∷ (whole c ∷ (whole d ∷ []))))
      ≡ is_in_private_block (address_value a b c d)
unfolding is_private_parts is_exactly is_at_least is_at_most
is_private_parts-bytes a b c d hb hc hd =
    let by8 : address_value a b c d / 0x1000000 ≡ a = omega arith in
    let by16 : address_value a b c d / 0x10000 ≡ a * 256 + b = omega arith in
    let by12 : address_value a b c d / 0x100000 ≡ a * 16 + b / 16 = omega arith in
    rw (by8, by16, by12) (ground arith)

is_private_parts-decimal :
    (number : Text → JsNumber)
    → ((n : ℕ) → number (decimal n) ≡ whole n)
    → (a b c d : ℕ) → b < 256
    → c < 256
    → d < 256
    → is_private_parts (map number (split_dots (dotted a b c d)))
      ≡ is_in_private_block (address_value a b c d)
is_private_parts-decimal number reads a b c d hb hc hd =
    ap (λ parts. is_private_parts (map number parts)) (split_dots-dotted a b c d)
    ∙ ((λ i. is_private_parts (reads a i ∷ (reads b i ∷ (reads c i ∷ (reads d i ∷ [])))))
        ∙ is_private_parts-bytes a b c d hb hc hd)

no_prefix :
    (one two three four parts : Bool)
    → one ≡ false
    → two ≡ false
    → three ≡ false
    → four ≡ false
    → (if one || (two || three) then true else (if four then true else parts)) ≡ parts
no_prefix one two three four parts h1 h2 h3 h4 = ground (arith, h1, h2, h3, h4)

-- On an IPv4 address in dotted decimal, with four bytes, the test of an address is the membership in
-- one of the blocks 10.0.0.0/8, 127.0.0.0/8, 169.254.0.0/16, 172.16.0.0/12 and 192.168.0.0/16, where
-- `Number` reads decimals.
pub is_private_address-blocks :
    (number : Text → JsNumber)
    → ((n : ℕ) → number (decimal n) ≡ whole n)
    → (a b c d : ℕ) → a < 256
    → b < 256
    → c < 256
    → d < 256
    → is_private_address number (dotted a b c d) ≡ is_in_private_block (address_value a b c d)
unfolding is_private_address
is_private_address-blocks number reads a b c d ha hb hc hd =
    let rest = decimal b ++ b'.' ∷ (decimal c ++ b'.' ∷ decimal d) in
    let digits = decimal-IsDigit a in
    no_prefix _ _ _ _ _ (loopback-digits (decimal a) rest digits)
      (starts_with-digits b'f' (b'c' ∷ []) (decimal a) rest (omega arith) digits)
      (starts_with-digits b'f' (b'd' ∷ []) (decimal a) rest (omega arith) digits)
      (starts_with-digits b'f' (units "e80:") (decimal a) rest (omega arith) digits)
    ∙ is_private_parts-decimal number reads a b c d hb hc hd

mapped_parts :
    (number : Text → JsNumber) (a b c d : ℕ)
    → number (units "::ffff:" ++ decimal a) ≡ nan
    → is_private_parts (map number (split_dots (units "::ffff:" ++ dotted a b c d))) ≡ false
unfolding split_dots is_private_parts is_exactly
mapped_parts number a b c d unread =
    ap
      (λ parts. is_private_parts (
        map number (
          onto_first b':' (
            onto_first b':' (
              onto_first b'f'
                (onto_first b'f' (onto_first b'f' (onto_first b'f' (onto_first b':' parts)))))))))
      (split_dots-dotted a b c d)
    ∙ rw unread refl

-- An IPv4 address that is written as a mapped IPv6 address, `::ffff:a.b.c.d`, passes the test for
-- every `a`, `b`, `c` and `d`, 127.0.0.1 and 10.0.0.1 among them, where `Number` gives NaN for a text
-- that begins with `::ffff:`.
pub is_private_address-mapped :
    (number : Text → JsNumber) (a b c d : ℕ)
    → number (units "::ffff:" ++ decimal a) ≡ nan
    → is_private_address number (units "::ffff:" ++ dotted a b c d) ≡ false
unfolding is_private_address
is_private_address-mapped number a b c d unread = mapped_parts number a b c d unread
