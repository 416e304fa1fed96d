-- ===== src/Base/Texts.antt =====
-- Texts: Python's order on `str`, sorting, `sorted(set(...))` and joining.
use Prim.Native.Nat.{ℕ, suc, Ordering}
use Prim.Native.String.{String, ◌++◌ as append, compare, ◌∷◌ as cons_text, [] as empty_text}
use mathlib.Core.Path.{◌≡◌, refl, ◌∙◌}
use mathlib.Core.Bool.{Bool, true, false, ◌&&◌}
use mathlib.Core.List.{List, [], ◌∷◌}
use native.Mathlib.Omega.{arith}
use agent_observability_lab.Base.Tests.{if◌then◌else◌, leb, String_eq}
use agent_observability_lab.Base.Lists.{all, contains, dedupe, contains-dedupe, is_empty}

-- `len(s)`
unfoldable pub text_length : String → ℕ
text_length empty_text = 0
text_length (cons_text c s) = suc (text_length s)

-- `Field(min_length=low, max_length=high)`
unfoldable pub has_length : ℕ → ℕ → String → Bool
unfolding text_length
has_length low high s = leb low (text_length s) && leb (text_length s) high

abbrev pub text_le : String → String → Bool
text_le s t = elim (compare s t) [ Ordering.gt ↦ false | _ ↦ true ]

insert_sorted : String → List String → List String
insert_sorted s [] = s ∷ []
insert_sorted s (t ∷ ts) = if text_le s t then s ∷ t ∷ ts else t ∷ insert_sorted s ts

unfoldable pub sort : List String → List String
unfolding insert_sorted
sort [] = []
sort (s ∷ ss) = insert_sorted s (sort ss)

-- `sorted(set(xs))`
unfoldable pub sorted_set : List String → List String
unfolding sort
sorted_set xs = sort (dedupe xs)

unfoldable pub join : String → List String → String
join sep [] = ""
join sep (s ∷ []) = s
join sep (s ∷ t ∷ ts) = append s (append sep (join sep (t ∷ ts)))

contains-insert_sorted :
    (s : String) (ts : List String) (a : String)
    → contains (insert_sorted s ts) a ≡ contains (s ∷ ts) a
unfolding insert_sorted
contains-insert_sorted s [] a = refl
contains-insert_sorted s (t ∷ ts) a = ground (arith, contains-insert_sorted s ts a)

pub contains-sort : (xs : List String) (a : String) → contains (sort xs) a ≡ contains xs a
unfolding sort
contains-sort [] a = refl
contains-sort (s ∷ ss) a = ground (arith, contains-insert_sorted s (sort ss) a, contains-sort ss a)

pub contains-sorted_set :
    (xs : List String) (a : String) → contains (sorted_set xs) a ≡ contains xs a
unfolding sorted_set
contains-sorted_set xs a = ground (arith, contains-sort (dedupe xs) a, contains-dedupe xs a)

contains-cons : (xs : List String) (a : String) → contains xs a ≡ true → is_empty xs ≡ false
contains-cons [] a h = cc
contains-cons (x ∷ xs) a h = refl

pub is_empty-sort : (xs : List String) → is_empty (sort xs) ≡ is_empty xs
unfolding sort
is_empty-sort [] = refl
is_empty-sort (s ∷ ss) = is_empty-insert_sorted s (sort ss)
  where
    is_empty-insert_sorted : (s : String) (ts : List String) → is_empty (insert_sorted s ts) ≡ false
    is_empty-insert_sorted s [] = refl
    is_empty-insert_sorted s (t ∷ ts) = ground arith

is_empty-dedupe : (xs : List String) → is_empty (dedupe xs) ≡ is_empty xs
is_empty-dedupe [] = refl
is_empty-dedupe (x ∷ xs) = ground (arith, contains-cons (dedupe xs) x)

pub is_empty-sorted_set : (xs : List String) → is_empty (sorted_set xs) ≡ is_empty xs
unfolding sorted_set
is_empty-sorted_set xs = is_empty-sort (dedupe xs) ∙ is_empty-dedupe xs

all-insert_sorted :
    (p : String → Bool) (s : String) (ts : List String)
    → all p (insert_sorted s ts) ≡ (p s && all p ts)
unfolding insert_sorted
all-insert_sorted p s [] = refl
all-insert_sorted p s (t ∷ ts) = ground (arith, all-insert_sorted p s ts)

pub all-sort : (p : String → Bool) (xs : List String) → all p (sort xs) ≡ all p xs
unfolding sort
all-sort p [] = refl
all-sort p (x ∷ xs) = ground (arith, all-insert_sorted p x (sort xs), all-sort p xs)
