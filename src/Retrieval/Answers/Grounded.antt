-- ===== src/Retrieval/Answers/Grounded.antt =====
-- What the citations of an answer rest on, and when there is an answer.
use mathlib.Core.Path.{subst}
use agent_observability_lab.Base.{
  ◌≡◌, refl, ap, sym, ◌∙◌, Bool, true, false, is_empty, is_some, ◌||◌, inl, inr, ◌↔◌, String,
  Option, none, some, List, [], ◌∷◌, map, String_eq, Dict, lookup, put, lookup-put, put-All, All,
  All-map_iff, Any, contains, arith, ◌≢◌, ◌≤◌, has_length, text_length, if◌then◌else◌,
}
use agent_observability_lab.Agent.Schemas.{PolicyCitation}
use agent_observability_lab.Retrieval.Contracts.{RetrievalHit}
use agent_observability_lab.Retrieval.Answers.{
  CitedPolicyAnswer, Cited, index_hits, citation, and_cite, citation_fits, resolve, cite_all,
  with_message, build_cited_policy_answer,
}

-- a citation with the identifier, the text and the version of one of the hits
pub Quotes : List RetrievalHit → PolicyCitation → Type 0
Quotes hits c =
    Any
      (λ hit.
        (hit.chunk_id ≡ c.citation_id)
        × (hit.text ≡ c.text)
        × (hit.document_version ≡ c.document_version))
      hits

-- an entry of the index is a hit under its own identifier
Indexed : List RetrievalHit → String → RetrievalHit → Type 0
Indexed hits id hit =
    Any (λ h. (h.chunk_id ≡ id) × (h.text ≡ hit.text) × (h.document_version ≡ hit.document_version))
      hits

Indexed-weaken :
    (hit : RetrievalHit) (hits : List RetrievalHit) (id : String) (h : RetrievalHit)
    → Indexed hits id h
    → Indexed (hit ∷ hits) id h
unfolding Indexed
Indexed-weaken hit hits id h i = inr i

Indexed-All :
    (hit : RetrievalHit) (hits others : List RetrievalHit)
    → All (λ h. Indexed hits h.chunk_id h) others
    → All (λ h. Indexed (hit ∷ hits) h.chunk_id h) others
Indexed-All hit hits [] i = tt
Indexed-All hit hits (o ∷ os) i =
    (Indexed-weaken hit hits o.chunk_id o i.0, Indexed-All hit hits os i.1)

Indexed-self : (hits : List RetrievalHit) → All (λ h. Indexed hits h.chunk_id h) hits
unfolding Indexed
Indexed-self [] = tt
Indexed-self (hit ∷ hits) = (inl (refl, refl, refl), Indexed-All hit hits hits (Indexed-self hits))

lookup-index_hits :
    (hits others : List RetrievalHit) (d : Dict String RetrievalHit)
    → ((j : String) (w : RetrievalHit) → lookup j d ≡ some w → Indexed hits j w)
    → All (λ h. Indexed hits h.chunk_id h) others
    → (j : String) (w : RetrievalHit) → lookup j (index_hits d others) ≡ some w
    → Indexed hits j w
unfolding index_hits
lookup-index_hits hits [] d held i = held
lookup-index_hits hits (o ∷ os) d held i =
    lookup-index_hits hits os (put o.chunk_id o d) (put-All (Indexed hits) o.chunk_id o d i.0 held)
      i.1

known-index_hits :
    (others : List RetrievalHit) (d : Dict String RetrievalHit) (j : String)
    → is_some (lookup j (index_hits d others))
      ≡ (is_some (lookup j d) || contains (map (λ h. h.chunk_id) others) j)
unfolding index_hits
known-index_hits [] d j = ground arith
known-index_hits (o ∷ os) d j =
    ground (arith, known-index_hits os (put o.chunk_id o d) j, lookup-put o.chunk_id j o d)

-- what the loop gives
unfoldable pub Rests : List RetrievalHit → List String → Cited (List PolicyCitation) → Type 0
Rests hits ids (Cited.cited cs) = (map (λ c. c.citation_id) cs ≡ ids) × All (Quotes hits) cs
Rests hits ids (Cited.hallucinated id) = Unit
Rests hits ids Cited.invalid = Unit

and_cite-Rests :
    (hits : List RetrievalHit) (id : String) (ids : List String) (hit : RetrievalHit)
    (rest : Cited (List PolicyCitation))
    → Indexed hits id hit
    → Rests hits ids rest
    → Rests hits (id ∷ ids) (and_cite (citation id hit) rest)
unfolding and_cite Rests Quotes Indexed citation
and_cite-Rests hits id ids hit (Cited.cited cs) i r = (ap (λ js. id ∷ js) r.0, (i, r.1))
and_cite-Rests hits id ids hit (Cited.hallucinated x) i r = tt
and_cite-Rests hits id ids hit Cited.invalid i r = tt

cite_all-Rests :
    (hits : List RetrievalHit) (d : Dict String RetrievalHit)
    → ((j : String) (w : RetrievalHit) → lookup j d ≡ some w → Indexed hits j w)
    → (ids : List String) → Rests hits ids (cite_all d ids)
unfolding cite_all resolve Rests
cite_all-Rests hits d held [] = (refl, tt)
cite_all-Rests hits d held (id ∷ ids) =
    by_hit (lookup id d) refl (cite_all d ids) (cite_all-Rests hits d held ids)
  where
    by_hit :
        (o : Option RetrievalHit)
        → lookup id d ≡ o
        → (rest : Cited (List PolicyCitation)) → Rests hits ids rest
        → Rests hits (id ∷ ids) (resolve id o rest)
    by_hit none e rest r = tt
    by_hit (some hit) e rest r =
        fitted (citation_fits (citation id hit))
          (and_cite-Rests hits id ids hit rest (held id hit e) r)
      where
        fitted :
            (t : Bool)
            → Rests hits (id ∷ ids) (and_cite (citation id hit) rest)
            → Rests hits (id ∷ ids) (if t then and_cite (citation id hit) rest else Cited.invalid)
        fitted true h = h
        fitted false h = tt

abbrev pub is_cited : {A : Type 0} → Cited A → Bool
is_cited (Cited.cited a) = true
is_cited (Cited.hallucinated id) = false
is_cited Cited.invalid = false

cite_all_iff :
    (d : Dict String RetrievalHit)
    → ((j : String) (w : RetrievalHit) → lookup j d ≡ some w → citation_fits (citation j w) ≡ true)
    → (ids : List String)
    → (is_cited (cite_all d ids) ≡ true) ↔ All (λ id. is_some (lookup id d) ≡ true) ids
unfolding cite_all resolve and_cite
cite_all_iff d fits [] = (λ h. tt, λ h. refl)
cite_all_iff d fits (id ∷ ids) = by_hit (lookup id d) refl (cite_all_iff d fits ids)
  where
    by_hit :
        (o : Option RetrievalHit)
        → lookup id d ≡ o
        → (is_cited (cite_all d ids) ≡ true) ↔ All (λ j. is_some (lookup j d) ≡ true) ids
        → (is_cited (resolve id o (cite_all d ids)) ≡ true)
          ↔ ((is_some o ≡ true) × All (λ j. is_some (lookup j d) ≡ true) ids)
    by_hit none e (to, from) = ground arith
    by_hit (some hit) e (to, from) =
        let fit = fits id hit e in rw fit (joined (cite_all d ids) to from)
      where
        joined :
            (rest : Cited (List PolicyCitation))
            → (is_cited rest ≡ true → All (λ j. is_some (lookup j d) ≡ true) ids)
            → (All (λ j. is_some (lookup j d) ≡ true) ids → is_cited rest ≡ true)
            → (is_cited (and_cite (citation id hit) rest) ≡ true)
              ↔ ((is_some (some hit) ≡ true) × All (λ j. is_some (lookup j d) ≡ true) ids)
        joined rest to from = ground arith

cited_inj : {A : Type 0} {a b : A} → Cited.cited a ≡ Cited.cited b → a ≡ b
cited_inj {A = A} {a = a} e = ap value e
  where
    value : Cited A → A
    value (Cited.cited x) = x
    value (Cited.hallucinated id) = a
    value Cited.invalid = a

with_message-Rests :
    (message : String) (hits : List RetrievalHit) (ids : List String)
    (r : Cited (List PolicyCitation)) (a : CitedPolicyAnswer)
    → Rests hits ids r
    → with_message message r ≡ Cited.cited a
    → (a.message ≡ message)
      × (map (λ c. c.citation_id) a.citations ≡ ids)
      × All (Quotes hits) a.citations
unfolding with_message Rests
with_message-Rests message hits ids (Cited.hallucinated id) a h e = absurd (cc)
with_message-Rests message hits ids Cited.invalid a h e = absurd (cc)
with_message-Rests message hits ids (Cited.cited []) a h e = absurd (cc)
with_message-Rests message hits ids (Cited.cited (c ∷ cs)) a h e =
    let answer : CitedPolicyAnswer = record { message = message; citations = c ∷ cs } in
    let same : Cited.cited answer ≡ Cited.cited a = taken (has_length 1 4000 message) answer e in
    subst
      (λ b.
        (b.message ≡ message)
        × (map (λ c. c.citation_id) b.citations ≡ ids)
        × All (Quotes hits) b.citations)
      (cited_inj same) (refl, h.0, h.1)
  where
    taken :
        (t : Bool) (answer : CitedPolicyAnswer)
        → (if t then Cited.cited answer else Cited.invalid) ≡ Cited.cited a
        → Cited.cited answer ≡ Cited.cited a
    taken true answer e = e
    taken false answer e = absurd (cc)

with_message_iff :
    (message : String) (d : Dict String RetrievalHit) (ids : List String)
    → (is_cited (with_message message (cite_all d ids)) ≡ true) ↔ (
        (is_empty ids ≡ false)
        × (has_length 1 4000 message ≡ true)
        × (is_cited (cite_all d ids) ≡ true))
unfolding with_message cite_all resolve and_cite
with_message_iff message d [] = ground arith
with_message_iff message d (id ∷ ids) = ground arith

-- a hit that a citation can quote: its fields are not empty
abbrev pub IsQuotable : RetrievalHit → Type 0
IsQuotable hit = (hit.chunk_id ≢ "") × (hit.text ≢ "") × (hit.document_version ≢ "")

quotable_fits :
    (hits : List RetrievalHit) (id : String) (hit : RetrievalHit)
    → All IsQuotable hits
    → Indexed hits id hit
    → citation_fits (citation id hit) ≡ true
unfolding Indexed citation_fits citation
quotable_fits [] id hit q i = absurd i
quotable_fits (h ∷ hits) id hit q (inl i) = ground arith
quotable_fits (h ∷ hits) id hit q (inr i) = quotable_fits hits id hit q.1 i

-- When the identifier, the text and the version of every hit are not empty, an answer has the message
-- and, in order, one citation for each identifier, with the text and the version of a hit with that
-- identifier. There is an answer exactly when an identifier is given, the message has 1 to 4000
-- characters, and every identifier is a hit's.
pub build_cited_policy_answer_lem :
    (message : String) (ids : List String) (hits : List RetrievalHit)
    → All IsQuotable hits
    → ((a : CitedPolicyAnswer)
        → build_cited_policy_answer message ids hits ≡ Cited.cited a
        → (a.message ≡ message)
          × (map (λ c. c.citation_id) a.citations ≡ ids)
          × All (Quotes hits) a.citations)
      × ((is_cited (build_cited_policy_answer message ids hits) ≡ true) ↔ (
          (is_empty ids ≡ false)
          × (1 ≤ text_length message)
          × (text_length message ≤ 4000)
          × All (λ id. contains (map (λ h. h.chunk_id) hits) id ≡ true) ids))
unfolding build_cited_policy_answer lookup has_length
build_cited_policy_answer_lem message ids hits q =
    let d = index_hits [] hits in
    let (to, from) = with_message_iff message d ids in
    let held = lookup-index_hits hits hits [] (λ j w h. absurd (cc)) (Indexed-self hits) in
    let (to_all, from_all) = cite_all_iff d (λ j w e. quotable_fits hits j w q (held j w e)) ids in
    let sized : (has_length 1 4000 message ≡ true)
        ↔ ((1 ≤ text_length message) × (text_length message ≤ 4000)) =
      ground arith in
    let (known, found) =
      All-map_iff {P = λ id. is_some (lookup id d) ≡ true}
        {Q = λ id. contains (map (λ h. h.chunk_id) hits) id ≡ true}
        (λ id. (λ h. sym (known-index_hits hits [] id) ∙ h, λ h. known-index_hits hits [] id ∙ h))
        ids in
    (
      λ a e.
          with_message-Rests message hits ids (cite_all d ids) a (cite_all-Rests hits d held ids) e,
      (
        λ h.
            let (some_id, size, all_cited) = to h in
            let (low, high) = sized.0 size in (some_id, low, high, known (to_all all_cited)),
        λ (some_id, low, high, all_known).
            from (some_id, sized.1 (low, high), from_all (found all_known)),
      ),
    )
