-- ===== src/Collection/Search/Named.antt =====
-- Search of a collection whose maps and index belong together.
use mathlib.Core.List.{map}
use dattaniddhi.Prelude.{
  ℕ, ◌^◌, ◌<◌, ◌≡◌, ◌≢◌, refl, ap, ◌∙◌, sym, true, List, [], ◌∷◌, none, some, arith, length, All,
  All-split, inl, inr, Option-cases, ok, Result, ==_refl, ◌==◌,
}
use dattaniddhi.Prelude.Perms.{Perm-All}
use dattaniddhi.Prelude.Maps.{nat_eq, bytes_eq, Map, lookup}
use dattaniddhi.Floats.{Floats}
use dattaniddhi.Json.{Json}
use dattaniddhi.Vector.{Vector, new_vector}
use dattaniddhi.Vector.Valid.{new_vector-IsVector}
use dattaniddhi.Index.{IndexError, is_metric}
use dattaniddhi.Index.Search.{SortFunc, SearchResult, search}
use dattaniddhi.Index.Search.Best.{Sized, scored_entry, Library, Best, search-Best}
use dattaniddhi.Collection.{CollectionError, Collection}
use dattaniddhi.Collection.Matched.{Matched}
use dattaniddhi.Collection.Search.{NamedResult, name_results, search_vectors}

All-map :
    {A B : Type 0} (P : B → Type 0) (f : A → B) (xs : List A)
    → All (λ x. P (f x)) xs
    → All P (map f xs)
All-map P f [] h = tt
All-map P f (x ∷ xs) h = (h.0, All-map P f xs h.1)

All-imp :
    {A : Type 0} (P Q : A → Type 0) → ((x : A) → P x → Q x) → (xs : List A) → All P xs → All Q xs
All-imp P Q f [] h = tt
All-imp P Q f (x ∷ xs) h = (f x h.0, All-imp P Q f xs h.1)

-- The keys of a map are found in it.
abbrev Found : {V : Type 0} → Map ℕ V → ℕ → Type 0
Found m k = lookup k m ≢ none

Found-cons : {V : Type 0} (j : ℕ) (v : V) (m : Map ℕ V) (k : ℕ) → Found m k → Found ((j, v) ∷ m) k
unfolding lookup
Found-cons j v m k h = ground arith

All-Found : {V : Type 0} (m : Map ℕ V) → All (λ e. Found m e.0) m
unfolding lookup
All-Found [] = tt
All-Found {V} ((j, v) ∷ m) = (
  ground (arith, ==_refl j),
  All-imp (λ (e : ℕ × V). Found m e.0) (λ e. Found ((j, v) ∷ m) e.0) (λ e. Found-cons j v m e.0) m
      (All-Found m),
)

-- Each internal id with its external one, in the same order and with the same score.
abbrev pub SameNamed :
    {F : Type 0} → Map ℕ (List ℕ) → List (SearchResult F) → List (NamedResult F) → Type 0
SameNamed m [] [] = Unit
SameNamed m [] (s ∷ ss) = ⊥
SameNamed m (r ∷ rs) [] = ⊥
SameNamed m (r ∷ rs) (s ∷ ss) =
    (lookup r.vec_id m ≡ some s.vec_id) × (s.score ≡ r.score) × SameNamed m rs ss

name_results-Found :
    {F : Type 0} (m : Map ℕ (List ℕ)) (rs : List (SearchResult F))
    → All (λ r. Found m r.vec_id) rs
    → (ss : List (NamedResult F)) × (name_results m rs ≡ ok ss) × SameNamed m rs ss
unfolding name_results
name_results-Found m [] h = ([], refl, tt)
name_results-Found m (r ∷ rs) h = elim (Option-cases (lookup r.vec_id m)) [
  | inr missing ↦ absurd (h.0 missing)
  | inl (ext, there) ↦
      let (ss, named, same) = name_results-Found m rs h.1 in
      (
        record { vec_id = ext; score = r.score } ∷ ss,
        rw (name_results, there, named),
        (there, refl, same),
      )
]

module _ (floats : Floats) (json : Json) (order : Map ℕ Vector → Map ℕ Vector)
    (sort : SortFunc (SearchResult floats.Float64)) where
  search_vectors-ok :
      (c : Collection json.Value) (query_vals : List ℕ) (q : Vector) (k : ℕ)
      (rs : List (SearchResult floats.Float64)) (ss : List (NamedResult floats.Float64))
      → length query_vals ≡ c.config.dimension
      → new_vector floats query_vals c.config.dimension ≡ ok q
      → search floats order sort c.memory.index (some q) k ≡ ok rs
      → name_results c.memory.int_to_ext rs ≡ ok ss
      → search_vectors floats json order sort c query_vals k ≡ ok ss
  unfolding search_vectors
  search_vectors-ok c query_vals q k rs ss fits built found named =
      let test = ap (λ n. c.config.dimension == n) fits ∙ ==_refl c.config.dimension in
      rw (test, built, found, named)

  -- The best of the indexed vectors, each under its external identifier.
  pub record NamedBest (c : Collection json.Value) (q : Vector) (k : ℕ)
      (result : Result CollectionError (List (NamedResult floats.Float64))) : Type 0 where
    pub best :
        Best floats order sort c.memory.index q k
          (search floats order sort c.memory.index (some q) k)
    pub named : List (NamedResult floats.Float64)
    pub result_is : result ≡ ok named
    pub same_named : SameNamed c.memory.int_to_ext best.results named

  module _ (lib : Library floats order sort) (c : Collection json.Value)
      (together : Matched c.memory) (same : c.memory.index.config.dimension ≡ c.config.dimension)
      (known : is_metric c.memory.index.config.metric ≡ true)
      (sized : Sized c.memory.index.config.dimension c.memory.index.vectors)
      (stocked : 0 < length c.memory.index.vectors)
      (fits : length c.memory.index.vectors < 2 ^ 63) where
    results-Found :
        {q : Vector} {k : ℕ} {result : Result IndexError (List (SearchResult floats.Float64))}
        → (b : Best floats order sort c.memory.index q k result)
        → All (λ r. Found c.memory.int_to_ext r.vec_id) b.results
    results-Found {q} b =
        let m = c.memory.index.vectors in
        let scored : All (λ (r : SearchResult floats.Float64). Found m r.vec_id)
            (map (scored_entry floats c.memory.index.config.metric q.values) m) =
          All-map (λ (r : SearchResult floats.Float64). Found m r.vec_id)
            (scored_entry floats c.memory.index.config.metric q.values) m (All-Found m) in
        let both = Perm-All (λ (r : SearchResult floats.Float64). Found m r.vec_id) b.perm scored in
        All-imp (λ (r : SearchResult floats.Float64). Found m r.vec_id)
          (λ r. Found c.memory.int_to_ext r.vec_id)
          (λ r indexed missing. indexed (together.not_indexed r.vec_id missing)) b.results
          (All-split (λ (r : SearchResult floats.Float64). Found m r.vec_id) b.results b.rest
            both).0

    -- With a SortFunc and a cmp.Compare that do what they document: Search with a valid query for
    -- at least one result, in a collection that is not empty, whose maps and index belong together
    -- and whose vectors have its dimension, never meets an internal id without an external one: it
    -- returns the best vectors of the index, in its order and with its scores, each under its
    -- external identifier.
    pub search_vectors-NamedBest :
        (query_vals : List ℕ) (q : Vector) (k : ℕ)
        → new_vector floats query_vals c.config.dimension ≡ ok q
        → 0 < k
        → k < 2 ^ 63
        → NamedBest c q k (search_vectors floats json order sort c query_vals k)
    search_vectors-NamedBest query_vals q k built positive small =
        let v = new_vector-IsVector floats query_vals c.config.dimension built in
        let b =
          search-Best floats order sort lib c.memory.index q k known sized
            (v.length_is ∙ sym v.dimensions_is) (v.dimensions_is ∙ sym same) positive small stocked
            fits in
        let (ss, named, same_named) =
          name_results-Found c.memory.int_to_ext b.results (results-Found b) in
        record {
          best = b;
          named = ss;
          result_is =
              search_vectors-ok c query_vals q k b.results ss v.input_length built b.result_is
                named;
          same_named = same_named;
        }
