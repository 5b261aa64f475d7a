-- ===== src/Sdk/Mapping/Empty.antt =====
-- What comes of a select with a lambda that returns a dict.
use kuzu_event_bus.Prelude.{
  ℕ, ◌+◌, Option, none, some, List, [], ◌∷◌, ◌++◌, ◌≡◌, refl, arith, subst, All, All-append,
  Option-cases, Bool-cases, inl, inr, if◌then◌else◌, ◌==◌, nat_key, ◌&&◌,
}
use mathlib.Core.List.{foldl}
use kuzu_event_bus.Text.{Text, text, strip, split_once, text_key}
use kuzu_event_bus.Text.Parts.{second_part, after_first, has}
use kuzu_event_bus.Text.Every.{
  Lacks, All-strip, All-after, split_once-Lacks, split_once-eq-none, split_once_first,
}
use kuzu_event_bus.Sdk.Entities.{EntityClass}
use kuzu_event_bus.Sdk.Source.{keyword, cut, second_piece}
use kuzu_event_bus.Sdk.Mapping.{
  lambda_dict_mapping, items, last_item, opens, closes, with_item, before_last_brace,
  between_braces, mapping_of,
}

-- The body is taken up to the next colon, and so holds none.
second_part-Lacks : (c : ℕ) (s : Text) {b : Text} → second_part (c ∷ []) s ≡ some b → Lacks c b
second_part-Lacks c s {b} h = elim (Option-cases (after_first (c ∷ []) s)) [
  | inl e ↦ ground arith
  | inr (r, e) ↦ elim (Option-cases (split_once (c ∷ []) r)) [
    | inl f ↦ let same : r ≡ b = ground arith in subst (Lacks c) same (split_once-eq-none c r f)
    | inr (p, f) ↦
        let same : p.0 ≡ b = ground arith in
        subst (Lacks c) same (split_once_first c r {a = p.0} {r = p.1} f)
  ]
]

second_piece-Lacks : (s b : Text) → second_piece s ≡ some b → Lacks b':' b
second_piece-Lacks s b h = elim (Option-cases (second_part keyword s)) [
  | inl e ↦ ground arith
  | inr (r, e) ↦ second_part-Lacks b':' r {b = b} (ground arith)
]

Lacks-before_last_brace :
    (c : ℕ) (s : Text) {r : Text} → before_last_brace s ≡ some r → Lacks c s → Lacks c r
Lacks-before_last_brace c [] h k = cc
Lacks-before_last_brace c (d ∷ s) {r} h k = elim (Option-cases (before_last_brace s)) [
  | inl e ↦ let same : [] ≡ r = ground arith in subst (Lacks c) same tt
  | inr (t, e) ↦
      let same : d ∷ t ≡ r = ground arith in
      subst (Lacks c) same (k.0, Lacks-before_last_brace c s e k.1)
]

Lacks-cut : (c : ℕ) (s : Text) → Lacks c s → Lacks c (cut [] (before_last_brace s))
Lacks-cut c s h = elim (Option-cases (before_last_brace s)) [
  | inl e ↦ rw e tt
  | inr (t, e) ↦ rw e (Lacks-before_last_brace c s e h)
]

Lacks-between_braces : (c : ℕ) (s : Text) → Lacks c s → Lacks c (between_braces s)
Lacks-between_braces c s h = elim (Option-cases (split_once (text "{") s)) [
  | inl e ↦ rw (e, between_braces) tt
  | inr (p, e) ↦
      rw (e, between_braces) (Lacks-cut c p.1 (All-after _ (text "{") s {a = p.0} {r = p.1} e h))
]

Lacks-last_item : (c : ℕ) (s : Text) → Lacks c s → All (Lacks c) (last_item s)
Lacks-last_item c [] h = tt
Lacks-last_item c (d ∷ s) h = (h, tt)

Lacks-items :
    (c opened closed : ℕ) (buf s : Text)
    → Lacks c buf
    → Lacks c s
    → All (Lacks c) (items opened closed buf s)
unfolding items
Lacks-items c opened closed buf [] h k = Lacks-last_item c (strip buf) (All-strip _ buf h)
Lacks-items c opened closed buf (d ∷ s) h k =
    let o = if opens d then opened + 1 else opened in
    let e = if closes d then closed + 1 else closed in
    elim (Bool-cases (d == b',' && o == e)) [
      | inl ends ↦ rw ends (All-strip _ buf h, Lacks-items c o e [] s tt k.1)
      | inr goes ↦
          rw goes (Lacks-items c o e (buf ++ d ∷ []) s (All-append _ buf (d ∷ []) h (k.0, tt)) k.1)
    ]

skipped :
    (param x : Text) (is : List Text) → All (Lacks b':') is → foldl (with_item param x) [] is ≡ []
skipped param x [] h = refl
skipped param x (i ∷ is) h = rw (split_once-Lacks b':' i h.0, with_item) (skipped param x is h.1)

mapping_of_empty :
    (c : EntityClass) (param : Text) (body : Option Text)
    → ((b : Text) → body ≡ some b → Lacks b':' b)
    → mapping_of c param body ≡ []
mapping_of_empty c param none h = refl
mapping_of_empty c param (some b) h = skipped param _ _ (
    Lacks-items b':' 0 0 [] _ tt
      (All-strip _ _ (Lacks-between_braces b':' _ (All-strip _ b (h b refl)))))

-- Whatever the source is, the mapping of a lambda that returns a dict is empty: the body is cut at its
-- first colon, which is the one behind the first key.
pub lambda_dict_mapping_empty :
    (c : EntityClass) (source : Option Text) → lambda_dict_mapping c source ≡ []
unfolding lambda_dict_mapping
lambda_dict_mapping_empty c none = refl
lambda_dict_mapping_empty c (some source) = elim (Bool-cases (has keyword (strip source))) [
  | inl found ↦
      rw found
        (mapping_of_empty c _ (second_piece (strip source)) (second_piece-Lacks (strip source)))
  | inr missing ↦ rw missing refl
]
