-- ===== src/Dispatcher/Redaction.antt =====
-- `redact` of src/dispatcher/application/services/delivery-executor.service.ts: the replacement of
--   /("?(?:password|secret|token|api[_-]?key|authorization)"?\s*[:=]\s*)[^,}\s]+/gi
-- by `$1[REDACTED]`. No part of the pattern can match what the next one needs, and no two keywords
-- match at one place, so the matcher never has to go back.
use webhook_engine.Base.{
  ℕ, zero, suc, ◌-◌, ◌+◌, ◌==◌, leb, if◌then◌else◌, ◌≡◌, refl, Bool, not, ◌&&◌, ◌||◌, Option, none,
  some, [], ◌∷◌, ◌++◌, length, take, Text, units,
}

-- `\s`
unfoldable pub is_space : ℕ → Bool
is_space c =
    (leb 9 c && leb c 13)
    || (c == 32
        || (c == 160
            || (c == 0x1680
                || ((leb 0x2000 c && leb c 0x200a)
                    || (c == 0x2028
                        || (c == 0x2029
                            || (c == 0x202f || (c == 0x205f || (c == 0x3000 || c == 0xfeff)))))))))

-- The flag `i`, which for these keywords is about ASCII letters only.
unfoldable pub lower : ℕ → ℕ
lower c = if leb b'A' c && leb c b'Z' then c + 32 else c

-- What is left of the text after the word, if it begins with the word.
unfoldable pub strip_word : Text → Text → Option Text
unfolding lower
strip_word [] cs = some cs
strip_word (k ∷ ks) [] = none
strip_word (k ∷ ks) (c ∷ cs) = if lower c == k then strip_word ks cs else none

abbrev or_else : Option Text → Option Text → Option Text
or_else none other = other
or_else (some rest) other = some rest

abbrev and_then : Option Text → (Text → Option Text) → Option Text
and_then none k = none
and_then (some rest) k = k rest

-- `c?` for a class of characters
unfoldable pub strip_optional : (ℕ → Bool) → Text → Text
strip_optional p [] = []
strip_optional p (c ∷ cs) = if p c then cs else c ∷ cs

unfoldable pub strip_while : (ℕ → Bool) → Text → Text
strip_while p [] = []
strip_while p (c ∷ cs) = if p c then strip_while p cs else c ∷ cs

strip_one : (ℕ → Bool) → Text → Option Text
strip_one p [] = none
strip_one p (c ∷ cs) = if p c then some cs else none

strip_keyword : Text → Option Text
unfolding strip_word strip_optional
strip_keyword t = or_else (strip_word (units "password") t) (
    or_else (strip_word (units "secret") t) (
      or_else (strip_word (units "token") t) (
        or_else
          (and_then (strip_word (units "api") t)
            (λ rest. strip_word (units "key") (strip_optional (λ c. c == b'_' || c == b'-') rest)))
          (strip_word (units "authorization") t))))

abbrev is_quote : ℕ → Bool
is_quote c = c == 34

-- `[^,}\s]`
is_value : ℕ → Bool
unfolding is_space
is_value c = not (c == b',' || (c == 125 || is_space c))

-- The text after the group `(…)`, if the pattern's group matches here.
unfoldable pub match_group : Text → Option Text
unfolding strip_optional strip_keyword strip_while strip_one is_space
match_group t = and_then (strip_keyword (strip_optional is_quote t)) (λ rest.
    and_then
      (strip_one (λ c. c == b':' || c == b'=')
        (strip_while is_space (strip_optional is_quote rest)))
      (λ value. some (strip_while is_space value)))

-- The text after the group and after the value, if the whole pattern matches here.
unfoldable pub match_secret : Text → Option (Text × Text)
unfolding match_group strip_one strip_while is_value
match_secret t = elim (match_group t) [
  | none ↦ none
  | some value ↦ elim (strip_one is_value value) [
    | none ↦ none
    | some rest ↦ some (value, strip_while is_value rest)
  ]
]

-- The text from here on, where the first `skip` characters belong to a match already replaced.
redact_from : ℕ → Text → Text
unfolding match_secret
redact_from skip [] = []
redact_from (suc skip) (c ∷ cs) = redact_from skip cs
redact_from zero (c ∷ cs) = elim (match_secret (c ∷ cs)) [
  | none ↦ c ∷ redact_from 0 cs
  | some (value, rest) ↦
      take (length (c ∷ cs) - length value) (c ∷ cs)
      ++ (units "[REDACTED]" ++ redact_from (length cs - length rest) cs)
]

unfoldable pub redact : Text → Text
unfolding redact_from
redact value = redact_from 0 value

redact_test :
    redact (units "{\"API_KEY\": abc123,x: 1, token=t}")
    ≡ units "{\"API_KEY\": [REDACTED],x: 1, token=[REDACTED]}"
unfolding redact
redact_test = refl
