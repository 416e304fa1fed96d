-- ===== src/Retrieval/Chunking/Windows.antt =====
-- What the windows of a document hold.
use Prim.Native.String.{◌++◌ as append, ◌∷◌ as cons_text, [] as empty_text}
use Prim.Native.String.append.{cons as append_cons}
use agent_observability_lab.Base.{
  ◌≡◌, refl, ap, sym, ◌∙◌, ◌⊎◌, inl, inr, false, String, List, [], ◌∷◌, ◌++◌, ℕ, zero, suc, ◌+◌,
  ◌-◌, ◌≤◌, ◌<◌, ◌==◌, length, join, All, ◌≢◌, arith, String_eq,
}
use agent_observability_lab.Retrieval.Chunking.{
  DeterministicChunker, take, drop, windows_from, windows,
}

-- the windows after the first without the tokens they share with the one before
unfoldable pub continued : ℕ → List (List String) → List String
continued overlap [] = []
continued overlap (w ∷ ws) = drop overlap w ++ continued overlap ws

-- the first window and what the next ones add
unfoldable pub rejoin : ℕ → List (List String) → List String
rejoin overlap [] = []
rejoin overlap (w ∷ ws) = w ++ continued overlap ws

take-all : (n : ℕ) (ts : List String) → length ts ≤ n → take n ts ≡ ts
unfolding take
take-all zero [] h = refl
take-all zero (t ∷ ts) h = absurd (omega (arith, h))
take-all (suc n) [] h = refl
take-all (suc n) (t ∷ ts) h = ap (λ us. t ∷ us) (take-all n ts (omega (arith, h)))

drop-take : (m n : ℕ) (ts : List String) → m ≤ n → drop m (take n ts) ++ drop n ts ≡ drop m ts
unfolding take drop
drop-take zero zero ts h = refl
drop-take zero (suc n) [] h = refl
drop-take zero (suc n) (t ∷ ts) h = ap (λ us. t ∷ us) (drop-take zero n ts (omega arith))
drop-take (suc m) zero ts h = absurd (omega (arith, h))
drop-take (suc m) (suc n) [] h = refl
drop-take (suc m) (suc n) (t ∷ ts) h = drop-take m n ts (omega (arith, h))

drop-drop : (m n k : ℕ) (ts : List String) → m + n ≡ k → drop m (drop n ts) ≡ drop k ts
unfolding drop
drop-drop m zero k ts h = ap (λ j. drop j ts) (omega (arith, h))
drop-drop zero (suc n) zero [] h = refl
drop-drop zero (suc n) (suc k) [] h = refl
drop-drop (suc m) (suc n) zero [] h = refl
drop-drop (suc m) (suc n) (suc k) [] h = refl
drop-drop m (suc n) zero (t ∷ ts) h = absurd (omega (arith, h))
drop-drop m (suc n) (suc k) (t ∷ ts) h = drop-drop m n k ts (omega (arith, h))

length-drop : (n : ℕ) (ts : List String) → length (drop n ts) ≡ length ts - n
unfolding drop
length-drop zero ts = omega arith
length-drop (suc n) [] = omega arith
length-drop (suc n) (t ∷ ts) = omega (arith, length-drop n ts)

-- Joining a window of tokens that are not empty gives a text that is not.
append_not_empty : (s t : String) → s ≢ "" → (append s t == "") ≡ false
append_not_empty s t h = elim (String_eq.dec (append s t) "") [
  | no n ↦ ground (arith, n)
  | yes e ↦ absurd (by_text s h e)
]
  where
    by_text : (s : String) → s ≢ "" → append s t ≡ "" → ⊥
    by_text empty_text h e = h refl
    by_text (cons_text c s) h e =
        let e' : cons_text c (append s t) ≡ "" = sym (λ i. append_cons c s t i) ∙ e in cc

join_not_empty :
    (n : ℕ) (t : String) (ts : List String)
    → t ≢ ""
    → (join " " (take (suc n) (t ∷ ts)) == "") ≡ false
unfolding take join
join_not_empty zero t ts h = ground (arith, h)
join_not_empty (suc n) t [] h = ground (arith, h)
join_not_empty (suc n) t (u ∷ us) h = append_not_empty t _ h

text_not_empty :
    (n : ℕ) (ts : List String)
    → 0 < n
    → 0 < length ts
    → All (λ t. t ≢ "") ts
    → (join " " (take n ts) == "") ≡ false
text_not_empty zero ts p l h = absurd (omega (arith, p))
text_not_empty (suc n) [] p l h = absurd (omega (arith, l))
text_not_empty (suc n) (t ∷ ts) p l h = join_not_empty n t ts h.0

All-drop : (n : ℕ) (ts : List String) → All (λ t. t ≢ "") ts → All (λ t. t ≢ "") (drop n ts)
unfolding drop
All-drop zero ts h = h
All-drop (suc n) [] h = h
All-drop (suc n) (t ∷ ts) h = All-drop n ts h.1

append-nil : (ts : List String) → ts ++ [] ≡ ts
append-nil [] = refl
append-nil (t ∷ ts) = ap (λ us. t ∷ us) (append-nil ts)

module _ (size overlap step : ℕ) (whole : overlap + step ≡ size) (forward : 0 < step) where
  -- an iteration of the loop
  windows_from-next :
      (fuel : ℕ) (r : List String)
      → 0 < length r
      → All (λ t. t ≢ "") r
      → ((length r ≤ size) × (windows_from (suc fuel) size step r ≡ r ∷ []))
        ⊎ ((size < length r)
            × (windows_from (suc fuel) size step r
                ≡ take size r ∷ windows_from fuel size step (drop step r)))
  unfolding windows_from
  windows_from-next fuel r l h =
      ground (arith, text_not_empty size r (omega (arith, whole, forward)) l h, take-all size r)

  -- The windows from a point on, without the tokens they share with the one before, are the tokens
  -- from that point on without the first ones.
  continued-windows_from :
      (fuel : ℕ) (r : List String)
      → length r ≤ fuel
      → overlap < length r
      → All (λ t. t ≢ "") r
      → continued overlap (windows_from fuel size step r) ≡ drop overlap r
  unfolding continued
  continued-windows_from zero r f l h = absurd (omega (arith, f, l))
  continued-windows_from (suc fuel) r f l h = elim (windows_from-next fuel r (omega (arith, l)) h) [
    | inl (short, e) ↦ ap (continued overlap) e ∙ append-nil (drop overlap r)
    | inr (long, e) ↦
        ap (continued overlap) e
        ∙ ap (λ us. drop overlap (take size r) ++ us)
            (continued-windows_from fuel (drop step r)
                (omega (arith, length-drop step r, f, forward, long, whole))
                (omega (arith, length-drop step r, long, whole)) (All-drop step r h)
              ∙ drop-drop overlap step size r whole)
        ∙ drop-take overlap size r (omega (arith, whole))
  ]

  rejoin-windows_from :
      (fuel : ℕ) (r : List String)
      → length r ≤ fuel
      → 0 < length r
      → All (λ t. t ≢ "") r
      → rejoin overlap (windows_from fuel size step r) ≡ r
  unfolding rejoin continued take drop
  rejoin-windows_from zero r f l h = absurd (omega (arith, f, l))
  rejoin-windows_from (suc fuel) r f l h = elim (windows_from-next fuel r l h) [
    | inl (short, e) ↦ ap (rejoin overlap) e ∙ append-nil r
    | inr (long, e) ↦
        ap (rejoin overlap) e
        ∙ ap (λ us. take size r ++ us)
            (continued-windows_from fuel (drop step r)
                (omega (arith, length-drop step r, f, forward, long, whole))
                (omega (arith, length-drop step r, long, whole)) (All-drop step r h)
              ∙ drop-drop overlap step size r whole)
        ∙ drop-take zero size r (omega arith)
  ]

-- For a chunk size above the overlap, putting the windows of a document together again, each after the
-- first without its overlap, gives the document's tokens: no token is lost or out of order, and as
-- many iterations as there are tokens are enough.
pub rejoin-windows :
    (chunker : DeterministicChunker) (tokens : List String)
    → chunker.overlap < chunker.chunk_size
    → All (λ t. t ≢ "") tokens
    → rejoin chunker.overlap (windows chunker tokens) ≡ tokens
unfolding windows rejoin
rejoin-windows chunker [] o h = refl
rejoin-windows chunker (t ∷ ts) o h =
    rejoin-windows_from chunker.chunk_size chunker.overlap (chunker.chunk_size - chunker.overlap)
      (omega (arith, o)) (omega (arith, o)) (length (t ∷ ts)) (t ∷ ts) (omega arith) (omega arith) h
