-- ===== src/Sdk/Mapping.antt =====
-- The reading of a lambda that returns a dict (casys_db/query.py: `_lambda_dict_mapping`).
pub mod Empty
use kuzu_event_bus.Prelude.{
  ℕ, zero, suc, ◌+◌, Bool, true, false, Option, none, some, List, [], ◌∷◌, ◌++◌, ◌==◌,
  if◌then◌else◌, nat_key, ◌&&◌, ◌||◌,
}
use mathlib.Core.List.{foldl, reverse}
use kuzu_event_bus.Dict
use kuzu_event_bus.Dict.{Dict}
use kuzu_event_bus.Text.{Text, text, text_key, strip, split_once}
use kuzu_event_bus.Text.Parts.{has, second_part, after_first, first_part, replace}
use kuzu_event_bus.Sdk.Entities.{EntityClass}
use kuzu_event_bus.Sdk.Source.{keyword, colon, cut, base_var, quotes, second_piece}

-- What stands before the last `}`, if there is one.
abbrev pub before_last_brace : Text → Option Text
before_last_brace [] = none
before_last_brace (c ∷ s) = elim (before_last_brace s) [
  | none ↦ if c == b'}' then some [] else none
  | some r ↦ some (c ∷ r)
]

abbrev pub opens : ℕ → Bool
opens c = c == b'(' || c == b'{' || c == b'['

abbrev pub closes : ℕ → Bool
closes c = c == b')' || c == b'}' || c == b']'

-- The parts between commas outside brackets, stripped. The source's depth is `opened` less `closed`.
abbrev pub last_item : Text → List Text
last_item [] = []
last_item (c ∷ s) = (c ∷ s) ∷ []

unfoldable pub items : ℕ → ℕ → Text → Text → List Text
items opened closed buf [] = last_item (strip buf)
items opened closed buf (c ∷ s) =
    let o = if opens c then opened + 1 else opened in
    let e = if closes c then closed + 1 else closed in
    let next = strip buf ∷ items o e [] s in
    let more = items o e (buf ++ c ∷ []) s in if c == b',' && o == e then next else more

-- s.strip('"\'')
abbrev pub is_quote : ℕ → Bool
is_quote c = c == b'"' || c == 39

abbrev pub unquoted_left : Text → Text
unquoted_left [] = []
unquoted_left (c ∷ s) = let rest = unquoted_left s in if is_quote c then rest else c ∷ s

abbrev pub unquoted : Text → Text
unquoted s = reverse (unquoted_left (reverse (unquoted_left s)))

abbrev pub with_item : Text → Text → Dict Text Text → Text → Dict Text Text
with_item param x m item = elim (split_once colon item) [
  | none ↦ m
  | some p ↦
      Dict.put m (unquoted (strip p.0))
        (quotes (replace (param ++ text ".") (x ++ text ".") (strip p.1)))
]

-- body[start+1:end].strip(), empty where a brace is missing
abbrev pub between_braces : Text → Text
between_braces body = elim (after_first (text "{") body) [
  | none ↦ []
  | some r ↦ cut [] (before_last_brace r)
]

abbrev pub mapping_of : EntityClass → Text → Option Text → Dict Text Text
mapping_of c param none = []
mapping_of c param (some body) =
    foldl (with_item param (base_var c)) [] (items 0 0 [] (strip (between_braces (strip body))))

-- _lambda_dict_mapping
unfoldable pub lambda_dict_mapping : EntityClass → Option Text → Dict Text Text
unfolding items
lambda_dict_mapping c none = []
lambda_dict_mapping c (some source) =
    let s = strip source in
    let param = strip (first_part colon (cut [] (second_part keyword s))) in
    if has keyword s then mapping_of c param (second_piece s) else []
