-- ===== src/Sdk/Source/FirstLambda.antt =====
-- Which lambda of a line of source is read.
use kuzu_event_bus.Prelude.{◌≡◌, refl, Option, none, some, ◌++◌}
use kuzu_event_bus.Text.Every.{Lacks}
use kuzu_event_bus.Text.{Text, text, strip, split_once}
use kuzu_event_bus.Text.Parts.{second_part}
use kuzu_event_bus.Text.Occurrence.{split_once-append}
use kuzu_event_bus.Sdk.Source.{keyword, extract_property}

keyword-Lacks : Lacks b'l' (text "ambda")
keyword-Lacks = (refl, (refl, (refl, (refl, (refl, tt)))))

two_lambdas :
    (pre first rest : Text)
    → split_once keyword pre ≡ none
    → split_once keyword first ≡ none
    → second_part keyword (pre ++ (keyword ++ (first ++ (keyword ++ rest)))) ≡ some first
two_lambdas pre first rest h k =
    rw
      (
        split_once-append b'l' (text "ambda") pre (first ++ (keyword ++ rest)) keyword-Lacks h,
        second_part,
      )
      (rw (split_once-append b'l' (text "ambda") first rest keyword-Lacks k, second_part) refl)

one_lambda :
    (pre first : Text)
    → split_once keyword pre ≡ none
    → split_once keyword first ≡ none
    → second_part keyword (pre ++ (keyword ++ first)) ≡ some first
one_lambda pre first h k =
    rw (split_once-append b'l' (text "ambda") pre first keyword-Lacks h, second_part)
      (rw (k, second_part) refl)

-- A key is read from the first lambda of its line of source, also where it is the second one that was
-- passed: with another lambda before it on the line, `order_by` sorts by what that one says.
pub extract_property_first :
    (x : Option Text) (pre first rest : Text)
    → split_once keyword pre ≡ none
    → split_once keyword first ≡ none
    → strip (pre ++ (keyword ++ first)) ≡ pre ++ (keyword ++ first)
    → strip (pre ++ (keyword ++ (first ++ (keyword ++ rest))))
      ≡ pre ++ (keyword ++ (first ++ (keyword ++ rest)))
    → extract_property x (some (pre ++ (keyword ++ (first ++ (keyword ++ rest)))))
      ≡ extract_property x (some (pre ++ (keyword ++ first)))
unfolding extract_property
extract_property_first x pre first rest h k s t =
    rw (t, s, two_lambdas pre first rest h k, one_lambda pre first h k) refl
