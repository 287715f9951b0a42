-- ===== src/Security/Bytes.antt =====
-- What src/security uses of the runtime's strings and buffers: `length`, `Buffer.from(text)`, and
-- `timingSafeEqual` of node's crypto.
use Prim.Native.Char.{Char, code}
use Prim.Native.String.append
use text.Mathlib.TextEquality.{Char-path}
use webhook_engine.Base.{
  ◌≢◌, sym, ℕ, ◌+◌, ◌/◌, ◌%◌, ◌==◌, ltb, if◌then◌else◌, ◌≡◌, refl, ap, ◌∙◌, Bool, true, List, [],
  ◌∷◌, ◌++◌, length, String, Text, units, text_eq, other_error, Result, ok, err, arith,
}

-- The UTF-8 bytes of a character.
unfoldable pub utf8_char : ℕ → List ℕ
utf8_char c =
    if ltb c 0x80
    then c ∷ []
    else (if ltb c 0x800
        then (0xc0 + c / 0x40) ∷ (0x80 + c % 0x40) ∷ []
        else (if ltb c 0x10000
            then (0xe0 + c / 0x1000) ∷ (0x80 + c / 0x40 % 0x40) ∷ (0x80 + c % 0x40) ∷ []
            else (0xf0 + c / 0x40000)
              ∷ (0x80 + c / 0x1000 % 0x40)
              ∷ (0x80 + c / 0x40 % 0x40)
              ∷ (0x80 + c % 0x40)
              ∷ []))

-- `Buffer.from(text)`
abbrev pub utf8 : String → List ℕ
utf8 String.[] = []
utf8 (String.◌∷◌ c s) = utf8_char (code c) ++ utf8 s

-- `text.length`
abbrev pub utf16_length : String → ℕ
utf16_length String.[] = 0
utf16_length (String.◌∷◌ c s) = (if ltb (code c) 0x10000 then 1 else 2) + utf16_length s

-- What is left of a text that begins with the given characters.
unfoldable pub strip_prefix : Text → String → String → String
strip_prefix [] other s = s
strip_prefix (k ∷ ks) other String.[] = other
strip_prefix (k ∷ ks) other (String.◌∷◌ c s) =
    if code c == k then strip_prefix ks other s else other

-- A text of three characters in front of another.
append_three :
    (a b c : Char) (s : String)
    → Prim.Native.String.◌++◌ (String.◌∷◌ a (String.◌∷◌ b (String.◌∷◌ c String.[]))) s
      ≡ String.◌∷◌ a (String.◌∷◌ b (String.◌∷◌ c s))
append_three a b c s =
    append.cons a (String.◌∷◌ b (String.◌∷◌ c String.[])) s
    ∙ ap (String.◌∷◌ a) (
        append.cons b (String.◌∷◌ c String.[]) s
        ∙ ap (String.◌∷◌ b) (append.cons c String.[] s ∙ ap (String.◌∷◌ c) (append.nil s)))

versioned :
    (s : String)
    → Prim.Native.String.◌++◌ "v1=" s ≡ String.◌∷◌ "v" (String.◌∷◌ "1" (String.◌∷◌ "=" s))
versioned s = append_three "v" "1" "=" s

pub strip_prefix-append :
    (s other : String) → strip_prefix (units "v1=") other (Prim.Native.String.◌++◌ "v1=" s) ≡ s
unfolding strip_prefix
strip_prefix-append s other = rw (versioned s) refl

-- `crypto.timingSafeEqual` throws on buffers of different lengths.
unfoldable pub timing_safe_equal : List ℕ → List ℕ → Result Bool
timing_safe_equal a b =
    if length a == length b
    then ok (text_eq a b)
    else err (other_error (units "Input buffers must have the same byte length"))

pub text_eq_self : (a : Text) → text_eq a a ≡ true
text_eq_self [] = refl
text_eq_self (c ∷ cs) = ground (arith, text_eq_self cs)

pub text_eq→≡ : (a b : Text) → text_eq a b ≡ true → a ≡ b
text_eq→≡ [] [] h = refl
text_eq→≡ [] (d ∷ ds) h = absurd cc
text_eq→≡ (c ∷ cs) [] h = absurd cc
text_eq→≡ (c ∷ cs) (d ∷ ds) h =
    let e : c ≡ d = ground arith in let es : cs ≡ ds = text_eq→≡ cs ds (ground arith) in cc

-- No encoding of a character begins another.
utf8_char-prefix :
    (c d : ℕ) (xs ys : List ℕ) → utf8_char c ++ xs ≡ utf8_char d ++ ys → (c ≡ d) × (xs ≡ ys)
unfolding utf8_char
utf8_char-prefix c d xs ys h = ground arith

utf8_char-nonempty : (c : ℕ) (xs : List ℕ) → utf8_char c ++ xs ≢ []
unfolding utf8_char
utf8_char-nonempty c xs h = ground arith

-- The bytes of a text determine it.
pub utf8-inj : (a b : String) → utf8 a ≡ utf8 b → a ≡ b
utf8-inj String.[] String.[] h = refl
utf8-inj String.[] (String.◌∷◌ d t) h = absurd (utf8_char-nonempty (code d) (utf8 t) (sym h))
utf8-inj (String.◌∷◌ c s) String.[] h = absurd (utf8_char-nonempty (code c) (utf8 s) h)
utf8-inj (String.◌∷◌ c s) (String.◌∷◌ d t) h =
    let (e, es) = utf8_char-prefix (code c) (code d) (utf8 s) (utf8 t) h in
    λ i. String.◌∷◌ (Char-path c d e i) (utf8-inj s t es i)
