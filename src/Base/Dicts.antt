-- ===== src/Base/Dicts.antt =====
-- Python's `dict` in insertion order, as an association list with distinct keys.
use mathlib.Core.Path.{◌≡◌, refl, sym, ◌∙◌, subst}
use mathlib.Core.Option.{Option, none, some, some-injective}
use mathlib.Core.List.{List, [], ◌∷◌}
use native.Mathlib.Omega.{arith}
use agent_observability_lab.Base.Tests.{if◌then◌else◌, Eq, ◌==◌, is_yes, is_some}
use agent_observability_lab.Base.Lists.{contains}

abbrev pub Dict {ℓ κ} : Type ℓ → Type κ → Type (ℓ ⊔ κ)
Dict K V = List (K × V)

module _ {ℓ κ} {K : Type ℓ} {V : Type κ} ⦃e : Eq K⦄ where
  -- `d.get(k)`
  unfoldable pub lookup : K → Dict K V → Option V
  lookup k [] = none
  lookup k ((j, v) ∷ d) = if j == k then some v else lookup k d

  -- `d[k] = v`
  unfoldable pub put : K → V → Dict K V → Dict K V
  put k v [] = (k, v) ∷ []
  put k v ((j, w) ∷ d) = if j == k then (j, v) ∷ d else (j, w) ∷ put k v d

  pub lookup-put :
      (k j : K) (v : V) (d : Dict K V)
      → lookup j (put k v d) ≡ (if k == j then some v else lookup j d)
  unfolding lookup put
  lookup-put k j v [] = refl
  lookup-put k j v ((i, w) ∷ d) = ground (arith, lookup-put k j v d)

  -- What holds of the entries of a dictionary and of a new entry holds when it is put in.
  pub put-All :
      (P : K → V → Type 0) (k : K) (v : V) (d : Dict K V)
      → P k v
      → ((j : K) (w : V) → lookup j d ≡ some w → P j w)
      → (j : K) (w : V) → lookup j (put k v d) ≡ some w
      → P j w
  put-All P k v d h held j w found = by_key (e.dec k j) (sym (lookup-put k j v d) ∙ found)
    where
      by_key : (t : Dec (k ≡ j)) → (if is_yes t then some v else lookup j d) ≡ some w → P j w
      by_key (yes p) q = subst (P j) (some-injective v w q) (subst (λ i. P i v) p h)
      by_key (no n) q = held j w q

abbrev pub keys {ℓ κ} : {K : Type ℓ} {V : Type κ} → Dict K V → List K
keys [] = []
keys ((j, v) ∷ d) = j ∷ keys d

module _ {ℓ κ} {K : Type ℓ} {V : Type κ} ⦃e : Eq K⦄ where
  -- A key is listed exactly when it has a value.
  pub contains-keys : (k : K) (d : Dict K V) → contains (keys d) k ≡ is_some (lookup k d)
  unfolding lookup
  contains-keys k [] = refl
  contains-keys k ((j, v) ∷ d) = ground (arith, contains-keys k d)
