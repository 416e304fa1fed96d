-- ===== src/Retrieval/Fusion/Ranked.antt =====
-- The order, the ranks and the identifiers of the fused hits.
use agent_observability_lab.Base.{
  ◌≡◌, refl, ◌∙◌, ◌⊎◌, true, false, ◌||◌, String, List, [], ◌∷◌, map, ℕ, zero, suc, ◌+◌, ◌≤◌, ◌<◌,
  ◌==◌, ℕ_eq, String_eq, Dict, lookup, put, is_some, contains, length, text_le, text_total, Real,
  arith,
}
use agent_observability_lab.Retrieval.Contracts.{RetrievalHit}
use agent_observability_lab.Retrieval.Fusion.{
  Fusion, Fused, no_fusion, take_hits, values, before, insert_hit, sort_hits, fused_hit, fuse_from,
  add_hit, add_hits, add_lists, reciprocal_rank_fusion,
}

abbrev ids : List RetrievalHit → List String
ids hs = map (λ h. h.chunk_id) hs

-- no identifier twice
Unique : List RetrievalHit → Type 0
Unique [] = Unit
Unique (h ∷ hs) = (contains (ids hs) h.chunk_id ≡ false) × Unique hs

-- neighbours in the order of the sort
Linked : Dict String Real → List RetrievalHit → Type 0
Linked scores [] = Unit
Linked scores (h ∷ []) = Unit
Linked scores (h ∷ g ∷ gs) = (before scores h g ≡ true) × Linked scores (g ∷ gs)

module _ (scores : Dict String Real) where
  before_total : (a b : RetrievalHit) → before scores a b ≡ false → before scores b a ≡ true
  unfolding before
  before_total a b h = ground (arith, text_total a.chunk_id b.chunk_id)

  insert_after :
      (x hit : RetrievalHit) (hs : List RetrievalHit)
      → before scores x hit ≡ true
      → Linked scores (x ∷ hs)
      → Linked scores (x ∷ insert_hit scores hit hs)
  unfolding Linked insert_hit
  insert_after x hit [] b l = (b, tt)
  insert_after x hit (g ∷ gs) b l = ground (arith, before_total hit g, insert_after g hit gs)

  insert-Linked :
      (hit : RetrievalHit) (hs : List RetrievalHit)
      → Linked scores hs
      → Linked scores (insert_hit scores hit hs)
  unfolding Linked insert_hit
  insert-Linked hit [] l = tt
  insert-Linked hit (g ∷ gs) l = ground (arith, before_total hit g, insert_after g hit gs)

  contains-insert :
      (hit : RetrievalHit) (hs : List RetrievalHit) (a : String)
      → contains (ids (insert_hit scores hit hs)) a ≡ contains (ids (hit ∷ hs)) a
  unfolding insert_hit
  contains-insert hit [] a = refl
  contains-insert hit (g ∷ gs) a = ground (arith, contains-insert hit gs a)

  insert-Unique :
      (hit : RetrievalHit) (hs : List RetrievalHit)
      → Unique (hit ∷ hs)
      → Unique (insert_hit scores hit hs)
  unfolding Unique insert_hit
  insert-Unique hit [] u = u
  insert-Unique hit (g ∷ gs) u =
      ground (arith, contains-insert hit gs g.chunk_id, insert-Unique hit gs)

  sort-Linked : (hs : List RetrievalHit) → Linked scores (sort_hits scores hs)
  unfolding Linked sort_hits
  sort-Linked [] = tt
  sort-Linked (h ∷ hs) = insert-Linked h (sort_hits scores hs) (sort-Linked hs)

  contains-sort_hits :
      (hs : List RetrievalHit) (a : String)
      → contains (ids (sort_hits scores hs)) a ≡ contains (ids hs) a
  unfolding sort_hits
  contains-sort_hits [] a = refl
  contains-sort_hits (h ∷ hs) a =
      ground (arith, contains-insert h (sort_hits scores hs) a, contains-sort_hits hs a)

  sort-Unique : (hs : List RetrievalHit) → Unique hs → Unique (sort_hits scores hs)
  unfolding Unique sort_hits
  sort-Unique [] u = tt
  sort-Unique (h ∷ hs) u =
      insert-Unique h (sort_hits scores hs)
        (contains-sort_hits hs h.chunk_id ∙ u.0, sort-Unique hs u.1)

  take-Linked : (n : ℕ) (hs : List RetrievalHit) → Linked scores hs → Linked scores (take_hits n hs)
  unfolding Linked take_hits
  take-Linked zero hs l = tt
  take-Linked (suc n) [] l = tt
  take-Linked (suc zero) (h ∷ hs) l = tt
  take-Linked (suc (suc n)) (h ∷ []) l = tt
  take-Linked (suc (suc n)) (h ∷ g ∷ gs) l = (l.0, take-Linked (suc n) (g ∷ gs) l.1)

contains-take :
    (n : ℕ) (hs : List RetrievalHit) (a : String)
    → contains (ids hs) a ≡ false
    → contains (ids (take_hits n hs)) a ≡ false
unfolding take_hits
contains-take zero hs a h = refl
contains-take (suc n) [] a h = refl
contains-take (suc n) (g ∷ gs) a h = ground (arith, contains-take n gs a)

take-Unique : (n : ℕ) (hs : List RetrievalHit) → Unique hs → Unique (take_hits n hs)
unfolding Unique take_hits
take-Unique zero hs u = tt
take-Unique (suc n) [] u = tt
take-Unique (suc n) (h ∷ hs) u = (contains-take n hs h.chunk_id u.0, take-Unique n hs u.1)

length-take_hits : (n : ℕ) (hs : List RetrievalHit) → length (take_hits n hs) ≤ n
unfolding take_hits
length-take_hits zero hs = omega arith
length-take_hits (suc n) [] = omega arith
length-take_hits (suc n) (h ∷ hs) = omega (arith, length-take_hits n hs)

-- The merged dictionary keeps each hit once, under its own identifier.
Keyed : Dict String RetrievalHit → Type 0
Keyed [] = Unit
Keyed ((k, h) ∷ d) = (h.chunk_id ≡ k) × (contains (ids (values d)) k ≡ false) × Keyed d

contains-values_put :
    (hit : RetrievalHit) (d : Dict String RetrievalHit) (a : String)
    → is_some (lookup hit.chunk_id d) ≡ false
    → contains (ids (values (put hit.chunk_id hit d))) a
      ≡ (contains (ids (values d)) a || hit.chunk_id == a)
unfolding lookup put values
contains-values_put hit [] a n = ground arith
contains-values_put hit ((k, h) ∷ d) a n = ground (arith, contains-values_put hit d a)

put-Keyed :
    (hit : RetrievalHit) (d : Dict String RetrievalHit)
    → is_some (lookup hit.chunk_id d) ≡ false
    → Keyed d
    → Keyed (put hit.chunk_id hit d)
unfolding Keyed lookup put values
put-Keyed hit [] n h = (refl, refl, tt)
put-Keyed hit ((k, g) ∷ d) n h = ground (arith, put-Keyed hit d, contains-values_put hit d k)

no_fusion-Keyed : Keyed no_fusion.merged
unfolding Keyed no_fusion
no_fusion-Keyed = tt

values-Unique : (d : Dict String RetrievalHit) → Keyed d → Unique (values d)
unfolding Keyed Unique values
values-Unique [] h = tt
values-Unique ((k, g) ∷ d) h = ground (arith, values-Unique d)

module _ (add : Real → Real → Real) (reciprocal : ℕ → Real) (k : ℕ) where
  add_hit-Keyed :
      (position : ℕ) (hit : RetrievalHit) (f : Fusion)
      → Keyed f.merged
      → Keyed (add_hit add reciprocal k position hit f).merged
  unfolding add_hit
  add_hit-Keyed position hit f h = ground (arith, put-Keyed hit f.merged)

  add_hits-Keyed :
      (position : ℕ) (hs : List RetrievalHit) (f : Fusion)
      → Keyed f.merged
      → Keyed (add_hits add reciprocal k position hs f).merged
  unfolding add_hits
  add_hits-Keyed position [] f h = h
  add_hits-Keyed position (g ∷ gs) f h =
      add_hits-Keyed (position + 1) gs (add_hit add reciprocal k position g f)
        (add_hit-Keyed position g f h)

  add_lists-Keyed :
      (lists : List (List RetrievalHit)) (f : Fusion)
      → Keyed f.merged
      → Keyed (add_lists add reciprocal k lists f).merged
  unfolding add_lists
  add_lists-Keyed [] f h = h
  add_lists-Keyed (l ∷ ls) f h =
      add_lists-Keyed ls (add_hits add reciprocal k 1 l f) (add_hits-Keyed 1 l f h)

-- the next hit has a smaller score, or the same and no smaller identifier
unfoldable pub Leads : RetrievalHit → List RetrievalHit → Type 0
Leads h [] = Unit
Leads h (g ∷ gs) =
    (g.score < h.score) ⊎ ((h.score ≡ g.score) × (text_le h.chunk_id g.chunk_id ≡ true))

-- Hits ranked from a number on: the ranks count up, the scores do not grow, ties are in the order of
-- the identifiers, and no identifier occurs twice.
unfoldable pub Ranked : ℕ → List RetrievalHit → Type 0
Ranked n [] = Unit
Ranked n (h ∷ hs) =
    (h.rank ≡ n)
    × Leads h hs
    × (contains (map (λ g. g.chunk_id) hs) h.chunk_id ≡ false)
    × Ranked (n + 1) hs

ids-fuse_from :
    (f : Fusion) (n : ℕ) (hs : List RetrievalHit) (a : String)
    → contains (map (λ g. g.chunk_id) (fuse_from f n hs)) a ≡ contains (ids hs) a
unfolding fuse_from fused_hit
ids-fuse_from f n [] a = refl
ids-fuse_from f n (h ∷ hs) a = ground (arith, ids-fuse_from f (n + 1) hs a)

length-fuse_from :
    (f : Fusion) (n : ℕ) (hs : List RetrievalHit) → length (fuse_from f n hs) ≡ length hs
unfolding fuse_from
length-fuse_from f n [] = refl
length-fuse_from f n (h ∷ hs) = omega (arith, length-fuse_from f (n + 1) hs)

fuse_from-Leads :
    (f : Fusion) (n : ℕ) (h : RetrievalHit) (hs : List RetrievalHit)
    → Linked f.scores (h ∷ hs)
    → Leads (fused_hit f n h) (fuse_from f (n + 1) hs)
unfolding Leads Linked fuse_from fused_hit before
fuse_from-Leads f n h [] l = tt
fuse_from-Leads f n h (g ∷ gs) l = ground arith

fuse_from-Ranked :
    (f : Fusion) (n : ℕ) (hs : List RetrievalHit)
    → Linked f.scores hs
    → Unique hs
    → Ranked n (fuse_from f n hs)
unfolding Ranked Unique Linked fuse_from
fuse_from-Ranked f n [] l u = tt
fuse_from-Ranked f n (h ∷ hs) l u = (
  unfold fused_hit in refl,
  fuse_from-Leads f n h hs l,
  ids-fuse_from f (n + 1) hs h.chunk_id ∙ u.0,
  fuse_from-Ranked f (n + 1) hs (rest h hs l) u.1,
)
  where
    rest :
        (h : RetrievalHit) (hs : List RetrievalHit) → Linked f.scores (h ∷ hs) → Linked f.scores hs
    rest h [] l = tt
    rest h (g ∷ gs) l = l.1

-- hits up to the limit in that form, or the error for a `k` that is not positive
unfoldable pub IsFusion : ℕ → ℕ → Fused (List RetrievalHit) → Type 0
IsFusion k limit (Fused.hits hs) = (length hs ≤ limit) × Ranked 1 hs
IsFusion k limit Fused.k_not_positive = (k < 1) × (0 < limit)

-- A fusion gives at most as many hits as the limit, ranked from one on by the fused score and then by
-- the identifier, and every chunk at most once, whatever the addition and division of floats; or it
-- refuses a `k` that is not positive.
pub reciprocal_rank_fusion-IsFusion :
    (add : Real → Real → Real) (reciprocal : ℕ → Real) (k : ℕ)
    (ranked_lists : List (List RetrievalHit)) (limit : ℕ)
    → IsFusion k limit (reciprocal_rank_fusion add reciprocal k ranked_lists limit)
unfolding reciprocal_rank_fusion IsFusion Ranked
reciprocal_rank_fusion-IsFusion add reciprocal k ranked_lists limit =
    let f = add_lists add reciprocal k ranked_lists no_fusion in
    let ordered = sort_hits f.scores (values f.merged) in
    let kept = take_hits limit ordered in
    let ranked =
      fuse_from-Ranked f 1 kept
        (take-Linked f.scores limit ordered (sort-Linked f.scores (values f.merged)))
        (take-Unique limit ordered (
          sort-Unique f.scores (values f.merged) (
            values-Unique f.merged
              (add_lists-Keyed add reciprocal k ranked_lists no_fusion no_fusion-Keyed)))) in
    ground (arith, ranked, length-fuse_from f 1 kept, length-take_hits limit ordered)
