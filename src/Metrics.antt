-- ===== src/Metrics.antt =====
-- src/common/metrics.service.ts: the counters, a `Map<string, number>` in insertion order.
use webhook_engine.Base.{
  ℕ, ◌+◌, ◌≡◌, if◌then◌else◌, List, [], ◌∷◌, ◌++◌, map, Text, units, decimal, String, str_eq,
  eq_iff, arith,
}

abbrev pub Counters : Type 0
Counters = List (String × ℕ)

-- `counters.get(name) ?? 0`
unfoldable pub get : String → Counters → ℕ
get name [] = 0
get name ((key, value) ∷ rest) = if str_eq key name then value else get name rest

-- `counters.set(name, (counters.get(name) ?? 0) + value)`
unfoldable pub increment : String → ℕ → Counters → Counters
increment name value [] = (name, 0 + value) ∷ []
increment name value ((key, old) ∷ rest) =
    if str_eq key name then (key, old + value) ∷ rest else (key, old) ∷ increment name value rest

-- One line per counter, in the order of the names; `sort_by_name` sorts by `localeCompare`.
abbrev metric_line : String × ℕ → Text
metric_line (name, value) = units "webhook_engine_" ++ (units name ++ (units " " ++ decimal value))

-- `lines.join('\n')`
abbrev join_lines : List Text → Text
join_lines [] = []
join_lines (line ∷ []) = line
join_lines (line ∷ lines) = line ++ 10 ∷ join_lines lines

unfoldable pub render : (Counters → Counters) → Counters → Text
render sort_by_name counters = join_lines (map metric_line (sort_by_name counters))

pub get-increment :
    (name other : String) (value : ℕ) (counters : Counters)
    → get other (increment name value counters)
      ≡ (if str_eq name other then get other counters + value else get other counters)
unfolding get increment
get-increment name other value [] = ground (arith, eq_iff name other)
get-increment name other value ((key, old) ∷ rest) = ground (
  arith,
  eq_iff name other,
  eq_iff key name,
  eq_iff key other,
  get-increment name other value rest,
)
