-- ===== src/Text/Parts.antt =====
-- More of Python's `str`: f-strings, join, replace, and what stands between two separators.
use kuzu_event_bus.Prelude.{
  ℕ, zero, suc, ◌-◌, Option, none, some, List, [], ◌∷◌, ◌++◌, length, Bool, if◌then◌else◌, nat_key,
}
use kuzu_event_bus.Text.{Text, after_prefix, is_some, split_once}

-- An f-string: its pieces, one after the other.
abbrev pub format : List Text → Text
format [] = []
format (s ∷ ss) = s ++ format ss

-- sep.join(parts)
abbrev pub join : Text → List Text → Text
join sep [] = []
join sep (s ∷ []) = s
join sep (s ∷ t ∷ ss) = s ++ (sep ++ join sep (t ∷ ss))

-- s.replace(old, new) for a text `old` that is not empty; the first argument counts the characters of
-- an occurrence that are still to be passed over.
abbrev pub replace_from : ℕ → Text → Text → Text → Text
replace_from k old new [] = []
replace_from zero old new (c ∷ s) =
    let found = new ++ replace_from (length old - 1) old new s in
    let kept = c ∷ replace_from zero old new s in
    if is_some (after_prefix old (c ∷ s)) then found else kept
replace_from (suc k) old new (c ∷ s) = replace_from k old new s

unfoldable pub replace : Text → Text → Text → Text
replace old new s = replace_from 0 old new s

-- `sep in s`
abbrev pub has : Text → Text → Bool
has sep s = is_some (split_once sep s)

-- s.split(sep, 1)[1]; `none` is the IndexError
abbrev pub after_first : Text → Text → Option Text
after_first sep s = elim (split_once sep s) [ none ↦ none | some p ↦ some p.1 ]

-- s.split(sep)[1]
abbrev pub second_part : Text → Text → Option Text
second_part sep s = elim (after_first sep s) [
  | none ↦ none
  | some r ↦ elim (split_once sep r) [ none ↦ some r | some p ↦ some p.0 ]
]

-- s.split(sep, 1)[0]
abbrev pub first_part : Text → Text → Text
first_part sep s = elim (split_once sep s) [ none ↦ s | some p ↦ p.0 ]
