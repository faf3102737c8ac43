-- ===== src/Retrieval/Stops.antt =====
-- When the rounds of a search stop, and how much a search fetches and returns.
use lit_trace.Base.Unique.{first_occurrences}
use lit_trace.Base.{
  ℕ, zero, suc, ◌+◌, ◌*◌, ◌≤◌, ◌<◌, String, ◌≡◌, ◌⊎◌, refl, Option, true, false, List, [], ◌∷◌,
  arith, Bool-cases, inl, inr, length, take, length-take, length-map, max,
}
use lit_trace.Retrieval.{PaperMetadata, Texts}
use lit_trace.Retrieval.Select.{
  PaperSearchRequest, Scores, retrieval_limit_of, variant_requests, variants_of,
}
use lit_trace.Retrieval.Rounds.{
  Pool, no_papers, fetch_batch, rank_pool, batches, enough, rounds, search,
}

module _ (t : Texts) (s : Scores) (r : PaperSearchRequest) (fetch : PaperSearchRequest → Pool) where
  -- The pool after a number of rounds without a stop, and how many papers were ready after the last one.
  abbrev pub play : ℕ → List (List PaperSearchRequest) → Pool → ℕ → Pool × ℕ
  play zero bs p ready = (p, ready)
  play (suc k) [] p ready = (p, ready)
  play (suc k) (b ∷ bs) p ready =
      let ranked = rank_pool t s r (fetch_batch t s r fetch b p) in play k bs ranked.0 ranked.1

  abbrev pub fetched : ℕ → List (List PaperSearchRequest) → ℕ
  fetched zero bs = 0
  fetched (suc k) [] = 0
  fetched (suc k) (b ∷ bs) = length b + fetched k bs

  -- The loop played the first rounds, and stopped since there were no more or enough papers were ready, and
  -- not before.
  pub record HasStopped (bs : List (List PaperSearchRequest)) (p : Pool) (ready n : ℕ)
      (done : Pool × ℕ) : Type 0 where
    pub used : ℕ
    pub pool : done.0 ≡ (play used bs p ready).0
    pub count : done.1 ≡ n + fetched used bs
    pub available : used ≤ length bs
    pub reason : (used ≡ length bs) ⊎ ((0 < used) × (enough t s r (play used bs p ready).1 ≡ true))
    pub not_before : (j : ℕ) → 0 < j → j < used → enough t s r (play j bs p ready).1 ≡ false

  module _ (b : List PaperSearchRequest) (bs : List (List PaperSearchRequest)) (p : Pool)
      (ready n : ℕ) where
    abbrev ranked : Pool × ℕ
    ranked = rank_pool t s r (fetch_batch t s r fetch b p)

    stopped_now :
        enough t s r ranked.1 ≡ true → HasStopped (b ∷ bs) p ready n (ranked.0, n + length b)
    stopped_now e = record {
      used = 1;
      pool = refl;
      count = omega arith;
      available = omega arith;
      reason = inr (omega arith, e);
      not_before = λ j h k. absurd (omega arith);
    }

    later_rounds :
        (used : ℕ)
        → enough t s r ranked.1 ≡ false
        → ((j : ℕ) → 0 < j → j < used → enough t s r (play j bs ranked.0 ranked.1).1 ≡ false)
        → (j : ℕ) → 0 < j
        → j < suc used
        → enough t s r (play j (b ∷ bs) p ready).1 ≡ false
    later_rounds used e k zero pos h = absurd (omega arith)
    later_rounds used e k (suc zero) pos h = e
    later_rounds used e k (suc (suc j)) pos h = k (suc j) (omega arith) (omega arith)

    stopped_later :
        (done : Pool × ℕ)
        → enough t s r ranked.1 ≡ false
        → HasStopped bs ranked.0 ranked.1 (n + length b) done
        → HasStopped (b ∷ bs) p ready n done
    stopped_later done e h = record {
      used = suc h.used;
      pool = h.pool;
      count = omega (arith, h.count);
      available = omega (arith, h.available);
      reason = elim h.reason [
        | inl all ↦ inl (omega (arith, all))
        | inr found ↦ inr (omega arith, found.1)
      ];
      not_before = later_rounds h.used e h.not_before;
    }

  rounds_stop :
      (bs : List (List PaperSearchRequest)) (p : Pool) (ready n : ℕ)
      → HasStopped bs p ready n (rounds t s r fetch bs p n)
  unfolding rounds
  rounds_stop [] p ready n = record {
    used = 0;
    pool = refl;
    count = omega arith;
    available = omega arith;
    reason = inl refl;
    not_before = λ j h k. absurd (omega arith);
  }
  rounds_stop (b ∷ bs) p ready n = elim (Bool-cases (enough t s r (ranked b bs p ready n).1)) [
    | inl e ↦ rw e (stopped_now b bs p ready n e)
    | inr e ↦
        let after = ranked b bs p ready n in
        rw e (stopped_later b bs p ready n _ e (rounds_stop bs after.0 after.1 (n + length b)))
  ]

  pub rounds-HasStopped :
      (vs : List PaperSearchRequest) (p : Pool)
      → HasStopped (batches vs) p 0 0 (rounds t s r fetch (batches vs) p 0)
  rounds-HasStopped vs p = rounds_stop (batches vs) p 0 0

fetched_le :
    (k : ℕ) (vs : List PaperSearchRequest) (t : Texts) (s : Scores) (r : PaperSearchRequest)
    (fetch : PaperSearchRequest → Pool)
    → fetched t s r fetch k (batches vs) ≤ length vs
fetched_le zero vs t s r fetch = omega arith
fetched_le (suc k) [] t s r fetch = omega arith
fetched_le (suc zero) (v ∷ []) t s r fetch = omega arith
fetched_le (suc (suc k)) (v ∷ []) t s r fetch = omega arith
fetched_le (suc k) (v ∷ w ∷ vs) t s r fetch = omega (arith, fetched_le k vs t s r fetch)

length-variant_requests :
    (squeezed : String) (r : PaperSearchRequest) → length (variant_requests squeezed r) ≤ 10
unfolding variant_requests
length-variant_requests squeezed r = omega (
  arith,
  length-map (take 10 (first_occurrences [] (variants_of squeezed r)))
      (λ v. record r { topic = v; query_variants = [] }),
  length-take 10 (first_occurrences [] (variants_of squeezed r)),
)

take_le : (n : ℕ) (ps : List PaperMetadata) (m : ℕ) → n ≤ m → length (take n ps) ≤ m
take_le n ps m h = omega (arith, length-take n ps)

-- A search returns at most 100 papers, and no more than its limit or twice the demanded number of
-- relevant results, and it fetches at most ten variants of the query.
search_bounds :
    (t : Texts) (s : Scores) (r : PaperSearchRequest) (fetch : PaperSearchRequest → Pool)
    (enrich : Option (List PaperMetadata → List PaperMetadata))
    (rerank : List PaperMetadata → List PaperMetadata) (squeezed : String)
    → (length (search t s r fetch enrich rerank squeezed).0 ≤ 100)
      × (length (search t s r fetch enrich rerank squeezed).0
          ≤ max (retrieval_limit_of r) (r.min_relevant_results * 2))
      × ((search t s r fetch enrich rerank squeezed).1 ≤ 10)
unfolding search
search_bounds t s r fetch enrich rerank squeezed =
    let vs = variant_requests squeezed r in
    let h = rounds-HasStopped t s r fetch vs no_papers in
    (
      take_le _ _ 100 (omega arith),
      take_le _ _ (max (retrieval_limit_of r) (r.min_relevant_results * 2)) (omega arith),
      omega (arith, h.count, fetched_le h.used vs t s r fetch, length-variant_requests squeezed r),
    )
