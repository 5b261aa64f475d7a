-- ===== src/Text.antt =====
-- Python's `str` as the list of its code points, with the methods that the backend uses. Case
-- mapping is that of the letters A to Z and a to z; other code points stay as they are.
pub mod Decimal
pub mod Every
pub mod Occurrence
pub mod Parts
pub mod Search
pub mod Strip
use Prim.Native.Char.{code}
use kuzu_event_bus.Prelude.{
  ℕ, zero, suc, ◌+◌, ◌-◌, String, Bool, true, false, ◌&&◌, ◌||◌, Option, none, some, List, [], ◌∷◌,
  ◌++◌, map, leb, ◌==◌, nat_key, nat_beq_iff, HashKey, if◌then◌else◌, ◌≡◌, refl, ◌↔◌, arith,
}
use mathlib.Core.List.{reverse}

abbrev pub Text : Type 0
Text = List ℕ

-- A literal of the source.
abbrev pub text : String → Text
text String.[] = []
text (String.◌∷◌ c s) = code c ∷ text s

-- str.isspace, over all of Unicode
unfoldable pub is_space : ℕ → Bool
is_space c =
    leb 9 c && leb c 13
    || leb 28 c && leb c 32
    || c == 0x85
    || c == 0xa0
    || c == 0x1680
    || leb 0x2000 c && leb c 0x200a
    || c == 0x2028
    || c == 0x2029
    || c == 0x202f
    || c == 0x205f
    || c == 0x3000

unfoldable pub lstrip : Text → Text
lstrip [] = []
lstrip (c ∷ s) = let rest = lstrip s in if is_space c then rest else c ∷ s

-- One character before a text that ends in no space.
abbrev pub before : ℕ → Text → Text
before c [] = if is_space c then [] else c ∷ []
before c (d ∷ r) = c ∷ d ∷ r

unfoldable pub rstrip : Text → Text
rstrip [] = []
rstrip (c ∷ s) = before c (rstrip s)

unfoldable pub strip : Text → Text
unfolding lstrip rstrip is_space
strip s = rstrip (lstrip s)

unfoldable pub upper_code : ℕ → ℕ
upper_code c = if leb 97 c && leb c 122 then c - 32 else c

unfoldable pub lower_code : ℕ → ℕ
lower_code c = if leb 65 c && leb c 90 then c + 32 else c

unfoldable pub upper : Text → Text
unfolding upper_code
upper s = map upper_code s

unfoldable pub lower : Text → Text
unfolding lower_code
lower s = map lower_code s

-- What follows a prefix, if the text has it; `s.startswith(p)` is that it does.
abbrev pub after_prefix : Text → Text → Option Text
after_prefix [] s = some s
after_prefix (c ∷ p) [] = none
after_prefix (c ∷ p) (d ∷ s) = if c == d then after_prefix p s else none

abbrev pub is_some {ℓ} : {A : Type ℓ} → Option A → Bool
is_some none = false
is_some (some a) = true

abbrev pub starts_with : Text → Text → Bool
starts_with p s = is_some (after_prefix p s)

-- s.startswith((p, q, …))
abbrev pub starts_with_any : List Text → Text → Bool
starts_with_any [] s = false
starts_with_any (p ∷ ps) s = starts_with p s || starts_with_any ps s

-- s.split(sep, 1): the parts round the first occurrence of `sep`, if there is one.
abbrev pub cons_left : ℕ → Option (Text × Text) → Option (Text × Text)
cons_left c none = none
cons_left c (some (a, b)) = some (c ∷ a, b)

unfoldable pub split_once : Text → Text → Option (Text × Text)
split_once sep [] = elim (after_prefix sep []) [ none ↦ none | some r ↦ some ([], r) ]
split_once sep (c ∷ s) =
    let later = cons_left c (split_once sep s) in
    elim (after_prefix sep (c ∷ s)) [ none ↦ later | some r ↦ some ([], r) ]

-- Equality of texts.
abbrev pub same_text : Text → Text → Bool
same_text [] [] = true
same_text [] (d ∷ t) = false
same_text (c ∷ s) [] = false
same_text (c ∷ s) (d ∷ t) = let rest = same_text s t in c == d && rest

pub same_text_iff : (s t : Text) → (same_text s t ≡ true) ↔ (s ≡ t)
same_text_iff [] [] = (λ h. refl, λ h. refl)
same_text_iff [] (d ∷ t) = (λ h. cc, λ h. cc)
same_text_iff (c ∷ s) [] = (λ h. cc, λ h. cc)
same_text_iff (c ∷ s) (d ∷ t) = ground (arith, same_text_iff s t, nat_beq_iff c d)

instance abbrev pub text_key : HashKey Text
text_key = record { same = same_text; same_exact = same_text_iff }
