-- ===== src/Base/Order.antt =====
-- The order of texts is total.
use Prim.Native.Nat.{ℕ, Ordering, compare as compare_ℕ}
use Prim.Native.Char.{code}
use Prim.Native.String.{String, [], ◌∷◌, then, compare}
use Prim.Native.String.compare.{nil-nil, nil-cons, cons-nil, cons-cons}
use mathlib.Core.Path.{◌≡◌, refl, sym, ap, ◌∙◌}
use mathlib.Core.Logic.{◌⊎◌, inl, inr}
use mathlib.Core.Bool.{Bool, true, false}
use native.Mathlib.Omega.{arith}
use agent_observability_lab.Base.Texts.{text_le}

flip : Ordering → Ordering
flip Ordering.lt = Ordering.gt
flip Ordering.eq = Ordering.eq
flip Ordering.gt = Ordering.lt

compare_flip : (a b : ℕ) → compare_ℕ b a ≡ flip (compare_ℕ a b)
unfolding flip
compare_flip a b = ground arith

then-flip : (o p : Ordering) → then (flip o) (flip p) ≡ flip (then o p)
unfolding flip
then-flip Ordering.lt p = refl
then-flip Ordering.eq p = refl
then-flip Ordering.gt p = refl

text_flip : (s t : String) → compare t s ≡ flip (compare s t)
unfolding flip
text_flip [] [] = (λ i. nil-nil i) ∙ sym (ap flip (λ i. nil-nil i))
text_flip [] (d ∷ t) = (λ i. cons-nil d t i) ∙ sym (ap flip (λ i. nil-cons d t i))
text_flip (c ∷ s) [] = (λ i. nil-cons c s i) ∙ sym (ap flip (λ i. cons-nil c s i))
text_flip (c ∷ s) (d ∷ t) =
    (λ i. cons-cons d c t s i)
    ∙ ap (λ o. then o (compare t s)) (compare_flip (code c) (code d))
    ∙ ap (λ o. then (flip (compare_ℕ (code c) (code d))) o) (text_flip s t)
    ∙ then-flip (compare_ℕ (code c) (code d)) (compare s t)
    ∙ sym (ap flip (λ i. cons-cons c d s t i))

not_gt : Ordering → Bool
not_gt o = elim o [ Ordering.gt ↦ false | _ ↦ true ]

-- Of two texts one comes before the other.
pub text_total : (s t : String) → (text_le s t ≡ true) ⊎ (text_le t s ≡ true)
unfolding flip not_gt
text_total s t = by_order (compare s t) refl
  where
    by_order : (o : Ordering) → compare s t ≡ o → (text_le s t ≡ true) ⊎ (text_le t s ≡ true)
    by_order Ordering.lt e = inl (ap not_gt e)
    by_order Ordering.eq e = inl (ap not_gt e)
    by_order Ordering.gt e = inr (ap not_gt (text_flip s t ∙ ap flip e))
