-- ===== src/Base/Texts.antt =====
-- Texts: what the source takes from the package strings.
use Prim.Native.Char.{code}
use Prim.Native.Nat.{Ordering}
use Prim.Native.String.{String, compare, ◌++◌ as str_append}
use mathlib.Core.Bool.{Bool, true, false}
use mathlib.Core.List.{List, [], ◌∷◌}
use mathlib.Core.Option.{Option, none, some}
use station_a.Base.Tests.{◌==◌, if◌then◌else◌}

-- The rest of a text behind a prefix.
abbrev strip : String → String → Option String
strip String.[] s = some s
strip (String.◌∷◌ c p) String.[] = none
strip (String.◌∷◌ c p) (String.◌∷◌ d s) = if code c == code d then strip p s else none

abbrev or_whole : String → Option String → String
or_whole s none = s
or_whole s (some r) = r

-- `strings.TrimPrefix`
unfoldable pub trim_prefix : String → String → String
trim_prefix s p = or_whole s (strip p s)

-- `strings.Join`
unfoldable pub join : String → List String → String
join sep [] = ""
join sep (x ∷ []) = x
join sep (x ∷ y ∷ xs) = str_append x (str_append sep (join sep (y ∷ xs)))

abbrev pub precedes : String → String → Bool
precedes s t = elim (compare s t) [ Ordering.gt ↦ false | _ ↦ true ]

abbrev insert_sorted : String → List String → List String
insert_sorted s [] = s ∷ []
insert_sorted s (t ∷ ts) = if precedes s t then s ∷ t ∷ ts else t ∷ insert_sorted s ts

-- `sort.Strings`
unfoldable pub sort_texts : List String → List String
sort_texts [] = []
sort_texts (s ∷ ss) = insert_sorted s (sort_texts ss)
