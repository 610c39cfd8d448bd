-- ===== src/Index/Search/Best.antt =====
-- What Search returns: the best of all scored vectors, in descending order.
use mathlib.Core.List.{map, Permᴰ}
use Prim.Native.Nat.{Ordering, lt}
use dattaniddhi.Prelude.{
  ℕ, suc, ◌-◌, ◌^◌, ◌<◌, ◌≡◌, ◌≢◌, refl, ap, sym, ◌∙◌, subst, true, false, ◌==◌, List, [], ◌∷◌,
  ◌++◌, append-nil, some, arith, All, length, take, drop, take-append-drop, length-take, take-ge,
  All-split, ltb, inl, inr, Result, ok, if◌then◌else◌, Bool-cases,
}
use dattaniddhi.Prelude.Perms.{Perm-length, Perm-All, Perm-map}
use dattaniddhi.Prelude.Maps.{Map}
use dattaniddhi.Floats.{Floats, IsWeakOrder, CompareLaws}
use dattaniddhi.Vector.{Vector, VectorError, cosine, dot_product, euclidean}
use dattaniddhi.Vector.Sums.{
  inner_product, squared_distance, dot_product-inner_product, cosine-inner_product,
  euclidean-squared_distance,
}
use dattaniddhi.Index.{
  IndexError, LinearIndex, metric_cosine, metric_dot, metric_euclidean, is_metric,
}
use dattaniddhi.Index.Search.{
  SortFunc, SearchResult, compare_results, zeros, reslice, score_all, score_by, search_query,
  search,
}

length-map : {A B : Type 0} (f : A → B) (xs : List A) → length (map f xs) ≡ length xs
length-map f [] = refl
length-map f (x ∷ xs) = ap suc (length-map f xs)

-- At its full length a slice is cut without zero values.
reslice_full :
    {A : Type 0} (a : A) (size k : ℕ) (xs : List A)
    → length xs ≡ size
    → reslice a size k xs ≡ take k xs
reslice_full a size k xs full =
    let none_left : size - length xs ≡ 0 = omega arith in
    ap (λ n. take k (xs ++ zeros a n)) none_left ∙ ap (take k) (append-nil xs)

-- The values of every vector are as many as the dimension.
abbrev pub Sized : ℕ → Map ℕ Vector → Type 0
Sized dim m = All (λ kv. length kv.1.values ≡ dim) m

-- No later element is to stand before an earlier one.
abbrev pub SortedBy : {A : Type 0} → (A → A → Ordering) → List A → Type 0
SortedBy cmp [] = Unit
SortedBy cmp (x ∷ xs) = All (λ y. cmp y x ≢ lt) xs × SortedBy cmp xs

module _ (floats : Floats) where
  -- The similarity of a metric: the inner product, or the squared distance, negated.
  abbrev pub similarity_by : ℕ → List ℕ → List ℕ → floats.Float64
  similarity_by metric xs ys =
      if metric == metric_euclidean
      then floats.negate (squared_distance floats xs ys)
      else inner_product floats xs ys

  -- What Search is to return for one entry of the index.
  abbrev pub scored_entry : ℕ → List ℕ → ℕ × Vector → SearchResult floats.Float64
  scored_entry metric q (key, val) = record {
    vec_id = key;
    score = similarity_by metric val.values q;
  }

  -- No later score is above an earlier one.
  abbrev pub Descending : List (SearchResult floats.Float64) → Type 0
  Descending [] = Unit
  Descending (r ∷ rs) = All (λ s. floats.less r.score s.score ≡ false) rs × Descending rs

  Descending-append :
      (xs ys : List (SearchResult floats.Float64))
      → Descending (xs ++ ys)
      → Descending xs × All (λ r. All (λ s. floats.less r.score s.score ≡ false) ys) xs
  Descending-append [] ys h = (tt, tt)
  Descending-append (x ∷ xs) ys h =
      let (first, first_rest) = All-split (λ s. floats.less x.score s.score ≡ false) xs ys h.0 in
      let (front, cross) = Descending-append xs ys h.1 in ((first, front), (first_rest, cross))

  module _ (laws : CompareLaws floats) where
    -- The function that SortFunc is given is an order, with the higher scores first.
    compare_results-IsWeakOrder : IsWeakOrder (compare_results floats)
    compare_results-IsWeakOrder = record {
      same = λ a. laws.compare_order.same a.score;
      flips_lt = λ a b. laws.compare_order.flips_lt b.score a.score;
      flips_gt = λ a b. laws.compare_order.flips_gt b.score a.score;
      not_below = λ a b c h h'. laws.compare_order.not_below c.score b.score a.score h' h;
    }

    not_above :
        (r s : SearchResult floats.Float64)
        → compare_results floats s r ≢ lt
        → floats.less r.score s.score ≡ false
    not_above r s h = elim (Bool-cases (floats.less r.score s.score)) [
      | inl below ↦ absurd (h (laws.compare_less r.score s.score below))
      | inr other ↦ other
    ]

    All-not_above :
        (r : SearchResult floats.Float64) (rs : List (SearchResult floats.Float64))
        → All (λ s. compare_results floats s r ≢ lt) rs
        → All (λ s. floats.less r.score s.score ≡ false) rs
    All-not_above r [] h = tt
    All-not_above r (s ∷ ss) h = (not_above r s h.0, All-not_above r ss h.1)

    SortedBy-Descending :
        (rs : List (SearchResult floats.Float64))
        → SortedBy (compare_results floats) rs
        → Descending rs
    SortedBy-Descending [] h = tt
    SortedBy-Descending (r ∷ rs) h = (All-not_above r rs h.0, SortedBy-Descending rs h.1)

  -- Each entry with its score, in the order of the map.
  score_all-scored_entry :
      (f : List ℕ → List ℕ → Result VectorError floats.Float64) (metric : ℕ) (q : List ℕ)
      (m : Map ℕ Vector)
      → ((xs : List ℕ) → length xs ≡ length q → f xs q ≡ ok (similarity_by metric xs q))
      → Sized (length q) m
      → score_all floats f q m ≡ ok (map (scored_entry metric q) m)
  score_all-scored_entry f metric q [] scores sized = refl
  score_all-scored_entry f metric q ((key, val) ∷ m) scores sized =
      rw (score_all, scores val.values sized.0, score_all-scored_entry f metric q m scores sized.1)

  angle_is :
      (metric : ℕ) (xs ys : List ℕ)
      → (metric == metric_euclidean) ≡ false
      → similarity_by metric xs ys ≡ inner_product floats xs ys
  angle_is metric xs ys other = rw other

  distance_is :
      (metric : ℕ) (xs ys : List ℕ)
      → (metric == metric_euclidean) ≡ true
      → similarity_by metric xs ys ≡ floats.negate (squared_distance floats xs ys)
  distance_is metric xs ys is = rw is

  score_by-scored_entry :
      (metric : ℕ) (q : List ℕ) (m : Map ℕ Vector)
      → is_metric metric ≡ true
      → Sized (length q) m
      → score_by floats metric q m ≡ ok (map (scored_entry metric q) m)
  unfolding score_by
  score_by-scored_entry metric q m known sized = elim (Bool-cases (metric == metric_cosine)) [
    | inl is ↦
        let other : (metric == metric_euclidean) ≡ false = ground arith in
        rw is (
          score_all-scored_entry (cosine floats) metric q m
            (λ xs h. cosine-inner_product floats xs q h ∙ ap ok (sym (angle_is metric xs q other)))
            sized)
    | inr not_cosine ↦ elim (Bool-cases (metric == metric_dot)) [
      | inl is ↦
          let other : (metric == metric_euclidean) ≡ false = ground arith in
          rw (not_cosine, is)
            (score_all-scored_entry (dot_product floats) metric q m
              (λ xs h.
                dot_product-inner_product floats xs q h ∙ ap ok (sym (angle_is metric xs q other)))
              sized)
      | inr not_dot ↦
          let is : (metric == metric_euclidean) ≡ true = ground arith in
          let scored =
            score_all-scored_entry (euclidean floats) metric q m
              (λ xs h.
                euclidean-squared_distance floats xs q h ∙ ap ok (sym (distance_is metric xs q is)))
              sized in
          ground (arith, scored)
    ]
  ]

  module _ (order : Map ℕ Vector → Map ℕ Vector)
      (sort : SortFunc (SearchResult floats.Float64)) where
    -- What is documented: reading a map meets each entry once, and SortFunc, for a function that is
    -- an order, returns the elements of its slice with none behind one that it is to stand before.
    pub record Library : Type 0 where
      pub order_perm : (m : Map ℕ Vector) → Permᴰ m (order m)
      pub sort_perm :
          (cmp : SearchResult floats.Float64 → SearchResult floats.Float64 → Ordering)
          (rs : List (SearchResult floats.Float64))
          → Permᴰ rs (sort cmp rs)
      pub sort_sorts :
          (cmp : SearchResult floats.Float64 → SearchResult floats.Float64 → Ordering)
          → IsWeakOrder cmp
          → (rs : List (SearchResult floats.Float64)) → SortedBy cmp (sort cmp rs)
      pub compare_laws : CompareLaws floats

    -- The results with the rest are the entries of the index, each with the similarity of the metric;
    -- they are as many as asked for or all, in descending order, and nothing that is left out has a
    -- score above one of them.
    pub record Best (li : LinearIndex) (q : Vector) (k : ℕ)
        (result : Result IndexError (List (SearchResult floats.Float64))) : Type 0 where
      pub results : List (SearchResult floats.Float64)
      pub result_is : result ≡ ok results
      pub rest : List (SearchResult floats.Float64)
      pub perm : Permᴰ (map (scored_entry li.config.metric q.values) li.vectors) (results ++ rest)
      pub length_is : length results ≡ (if ltb (length li.vectors) k then length li.vectors else k)
      pub descends : Descending results
      pub best : All (λ r. All (λ s. floats.less r.score s.score ≡ false) rest) results

    module _ (lib : Library) (li : LinearIndex) (q : Vector) (k : ℕ)
        (known : is_metric li.config.metric ≡ true) (sized : Sized li.config.dimension li.vectors)
        (q_sized : length q.values ≡ q.dimensions)
        (q_fits : q.dimensions ≡ li.config.dimension) where
      abbrev scored : List (SearchResult floats.Float64)
      scored = map (scored_entry li.config.metric q.values) (order li.vectors)

      scored_is : score_by floats li.config.metric q.values (order li.vectors) ≡ ok scored
      scored_is = score_by-scored_entry li.config.metric q.values (order li.vectors) known (
          subst (λ d. Sized d (order li.vectors)) (sym (q_sized ∙ q_fits))
            (Perm-All (λ kv. length kv.1.values ≡ li.config.dimension) (lib.order_perm li.vectors)
              sized))

      abbrev sorted : List (SearchResult floats.Float64)
      sorted = sort (compare_results floats) scored

      length-sorted : length sorted ≡ length li.vectors
      length-sorted = omega (
        arith,
        Perm-length (lib.sort_perm (compare_results floats) scored),
        Perm-length (lib.order_perm li.vectors),
        length-map (scored_entry li.config.metric q.values) (order li.vectors),
      )

      search_query-take :
          0 < k
          → k < 2 ^ 63
          → length li.vectors < 2 ^ 63
          → search_query floats order sort li (some q) k ≡ ok (take k sorted)
      unfolding search_query
      search_query-take positive small fits = ground (
        arith,
        scored_is,
        length-sorted,
        take-ge k sorted,
        reslice_full (record { vec_id = 0; score = floats.zero64 }) (length li.vectors) k sorted,
      )

      -- With a SortFunc and a cmp.Compare that do what they document: Search for at least one
      -- result, in an index that is not empty and whose vectors have the length of the query,
      -- succeeds with the best vectors: as many as asked for, or all if there are fewer, in
      -- descending order of their similarity, and none that is left out scores above one of them.
      -- The similarity is the inner product, or for the Euclidean metric the squared distance,
      -- negated.
      pub search-Best :
          0 < k
          → k < 2 ^ 63
          → 0 < length li.vectors
          → length li.vectors < 2 ^ 63
          → Best li q k (search floats order sort li (some q) k)
      unfolding search
      search-Best positive small stocked fits =
          let split = take-append-drop k sorted in
          let (descends, best) = Descending-append (take k sorted) (drop k sorted) (
            subst Descending (sym split) (
              SortedBy-Descending lib.compare_laws sorted (
                lib.sort_sorts (compare_results floats)
                  (compare_results-IsWeakOrder lib.compare_laws) scored))) in
          record {
            results = take k sorted;
            result_is = ground (arith, search_query-take positive small fits);
            rest = drop k sorted;
            perm =
                Permᴰ.trans
                  (Perm-map (scored_entry li.config.metric q.values) (lib.order_perm li.vectors))
                  (subst (Permᴰ scored) (sym split)
                    (lib.sort_perm (compare_results floats) scored));
            length_is = ground (arith, length-take k sorted, length-sorted);
            descends = descends;
            best = best;
          }
