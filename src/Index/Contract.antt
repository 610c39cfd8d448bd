-- ===== src/Index/Contract.antt =====
-- internal/index/index.go: the interface VectorIndex, what its comment asks of an implementation, and
-- the linear index as one.
use dattaniddhi.Prelude.{
  ℕ, ◌+◌, ◌^◌, ◌<◌, ◌≡◌, ◌≢◌, refl, ap, ◌∙◌, sym, subst, All, Bool, true, false, List, [], ◌∷◌,
  Option, none, some, arith, length, ◌==◌, ==_refl, if◌then◌else◌, Result, ok, Result-cases, inl,
  inr,
}
use dattaniddhi.Prelude.Maps.{Map, nat_eq, lookup, insert, lookup-insert, lookup-delete}
use dattaniddhi.Prelude.Maps.Sizes.{
  IsMap, insert-IsMap, delete-IsMap, length-insert, length-delete, delete_missing,
}
use dattaniddhi.Floats.{Floats}
use dattaniddhi.Vector.{Vector}
use dattaniddhi.Index.{
  IndexError, IndexConfig, validate, new_linear_index, LinearIndex, add, remove, get, size,
}
use dattaniddhi.Index.Search.{SortFunc, SearchResult, search}

module _ (floats : Floats) where
  -- type VectorIndex; an operation that changes the index returns it beside its result.
  pub record VectorIndex : Type 1 where
    pub Index : Type 0
    pub add_vector : Index → ℕ → Option Vector → Result IndexError Bool × Index
    pub delete_id : Index → ℕ → Result IndexError (Unit {0}) × Index
    pub get_vector : Index → ℕ → Option Vector
    pub search_query :
        Index → Option Vector → ℕ → Result IndexError (List (SearchResult floats.Float64))
    pub size_of : Index → ℕ

  -- An index as a map from ids to vectors of one dimension, from the empty index on. Add takes a
  -- vector of the dimension under an id that is free and not negative, and nothing else. Delete
  -- reports no error, and does nothing to an index without the id, so that a log can be replayed
  -- over it.
  pub record IsIndex (x : VectorIndex) (empty : x.Index) (dim : ℕ) : Type 1 where
    pub IsValid : x.Index → Type 0
    pub empty_IsValid : IsValid empty
    pub get_empty : (id : ℕ) → x.get_vector empty id ≡ none
    pub size_empty : x.size_of empty ≡ 0
    pub add_free :
        (i : x.Index) (id : ℕ) (v : Vector)
        → IsValid i
        → id < 2 ^ 63
        → v.dimensions ≡ dim
        → x.get_vector i id ≡ none
        → (x.add_vector i id (some v)).0 ≡ ok true
    pub add_taken :
        (i : x.Index) (id : ℕ) (v w : Vector)
        → IsValid i
        → id < 2 ^ 63
        → v.dimensions ≡ dim
        → x.get_vector i id ≡ some w
        → (x.add_vector i id (some v)).0 ≡ ok false
    pub add_none : (i : x.Index) (id : ℕ) → (x.add_vector i id none).0 ≢ ok true
    pub add_misfit :
        (i : x.Index) (id : ℕ) (v : Vector)
        → IsValid i
        → (x.add_vector i id (some v)).0 ≡ ok true
        → (id < 2 ^ 63) × (v.dimensions ≡ dim)
    pub add_IsValid :
        (i : x.Index) (id : ℕ) (v : Option Vector) → IsValid i → IsValid (x.add_vector i id v).1
    pub delete_IsValid : (i : x.Index) (id : ℕ) → IsValid i → IsValid (x.delete_id i id).1
    pub add_refused :
        (i : x.Index) (id : ℕ) (v : Option Vector)
        → (x.add_vector i id v).0 ≢ ok true
        → (x.add_vector i id v).1 ≡ i
    pub add_new :
        (i : x.Index) (id : ℕ) (v : Vector)
        → (x.add_vector i id (some v)).0 ≡ ok true
        → x.get_vector i id ≡ none
    pub get_add :
        (i : x.Index) (id j : ℕ) (v : Vector)
        → (x.add_vector i id (some v)).0 ≡ ok true
        → x.get_vector (x.add_vector i id (some v)).1 j
          ≡ (if id == j then some v else x.get_vector i j)
    pub size_add :
        (i : x.Index) (id : ℕ) (v : Vector)
        → (x.add_vector i id (some v)).0 ≡ ok true
        → x.size_of (x.add_vector i id (some v)).1 ≡ x.size_of i + 1
    pub delete_succeeds : (i : x.Index) (id : ℕ) → (x.delete_id i id).0 ≡ ok tt
    pub get_delete :
        (i : x.Index) (id j : ℕ)
        → x.get_vector (x.delete_id i id).1 j ≡ (if id == j then none else x.get_vector i j)
    pub delete_missing :
        (i : x.Index) (id : ℕ) → x.get_vector i id ≡ none → (x.delete_id i id).1 ≡ i
    pub size_delete :
        (i : x.Index) (id : ℕ) (v : Vector)
        → IsValid i
        → x.get_vector i id ≡ some v
        → x.size_of (x.delete_id i id).1 + 1 ≡ x.size_of i

  module _ (order : Map ℕ Vector → Map ℕ Vector)
      (sort : SortFunc (SearchResult floats.Float64)) where
    -- var _ VectorIndex = (*LinearIndex)(nil)
    abbrev pub linear_vector_index : VectorIndex
    linear_vector_index = record {
      Index = LinearIndex;
      add_vector = add;
      delete_id = λ li id. (ok tt, remove li id);
      get_vector = get;
      search_query = search floats order sort;
      size_of = size;
    }

    add-IsMap :
        (li : LinearIndex) (id : ℕ) (v : Option Vector)
        → IsMap li.vectors
        → IsMap (add li id v).1.vectors
    unfolding add
    add-IsMap li id none h = ground arith
    add-IsMap li id (some v) h = ground (arith, insert-IsMap id v li.vectors h)

    add-config :
        (li : LinearIndex) (id : ℕ) (v : Option Vector) → (add li id v).1.config ≡ li.config
    unfolding add
    add-config li id none = ground arith
    add-config li id (some v) = ground arith

    add_refused :
        (li : LinearIndex) (id : ℕ) (v : Option Vector)
        → (add li id v).0 ≢ ok true
        → (add li id v).1 ≡ li
    unfolding add
    add_refused li id none h = ground arith
    add_refused li id (some v) h = ground arith

    module _ (li : LinearIndex) (id : ℕ) (v : Vector)
        (added : (add li id (some v)).0 ≡ ok true) where
      add_new : get li id ≡ none
      unfolding add get
      add_new = ground arith

      add_vectors : (add li id (some v)).1.vectors ≡ insert id v li.vectors
      unfolding add
      add_vectors = ground arith

      get-add : (j : ℕ) → get (add li id (some v)).1 j ≡ (if id == j then some v else get li j)
      unfolding get
      get-add j = ap (lookup j) add_vectors ∙ lookup-insert id j v li.vectors

      size-add : size (add li id (some v)).1 ≡ size li + 1
      unfolding size get
      size-add = ap length add_vectors ∙ length-insert id v li.vectors add_new

    new_linear_index-made :
        (cfg : IndexConfig) (li : LinearIndex)
        → new_linear_index cfg ≡ ok li
        → li ≡ record { vectors = []; config = cfg }
    unfolding new_linear_index validate
    new_linear_index-made cfg li made = elim (Result-cases (validate cfg)) [
      | inl (done, checks) ↦ grind arith
      | inr (e, fails) ↦ grind arith
    ]

    module _ (dim : ℕ) (li : LinearIndex) (id : ℕ) (v : Vector)
        (same : li.config.dimension ≡ dim) where
      add_fits :
          id < 2 ^ 63 → v.dimensions ≡ dim → get li id ≡ none → (add li id (some v)).0 ≡ ok true
      unfolding add get
      add_fits small fits free = ground (arith, ==_refl dim)

      add_taken :
          (w : Vector)
          → id < 2 ^ 63
          → v.dimensions ≡ dim
          → get li id ≡ some w
          → (add li id (some v)).0 ≡ ok false
      unfolding add get
      add_taken w small fits taken = ground (arith, ==_refl dim)

      add_misfit : (add li id (some v)).0 ≡ ok true → (id < 2 ^ 63) × (v.dimensions ≡ dim)
      unfolding add
      add_misfit added = (grind arith, grind arith)

    add_none : (li : LinearIndex) (id : ℕ) → (add li id none).0 ≢ ok true
    unfolding add
    add_none li id = ground arith

    empty-IsIndex :
        (cfg : IndexConfig)
        → IsIndex linear_vector_index (record { vectors = []; config = cfg }) cfg.dimension
    unfolding remove get size lookup
    empty-IsIndex cfg = record {
      IsValid = λ li. IsMap li.vectors × (li.config.dimension ≡ cfg.dimension);
      empty_IsValid = (tt, refl);
      get_empty = λ id. refl;
      size_empty = refl;
      add_free =
          λ li id v valid small fits free. add_fits cfg.dimension li id v valid.1 small fits free;
      add_taken = λ li id v w valid small fits taken.
          add_taken cfg.dimension li id v valid.1 w small fits taken;
      add_none = add_none;
      add_misfit = λ li id v valid added. add_misfit cfg.dimension li id v valid.1 added;
      add_IsValid = λ li id v valid. (
        add-IsMap li id v valid.0,
        ap (λ (c : IndexConfig). c.dimension) (add-config li id v) ∙ valid.1,
      );
      delete_IsValid = λ li id valid. (delete-IsMap id li.vectors valid.0, valid.1);
      add_refused = add_refused;
      add_new = add_new;
      get_add = λ li id j v added. get-add li id v added j;
      size_add = size-add;
      delete_succeeds = λ li id. refl;
      get_delete = λ li id j. lookup-delete id j li.vectors;
      delete_missing = λ li id missing.
          ap (λ m. record li { vectors = m }) (delete_missing id li.vectors missing);
      size_delete = λ li id v valid there. length-delete id {v = v} li.vectors valid.0 there;
    }

    -- The linear index that NewLinearIndex makes for a configuration, and all that come of it, are what
    -- the interface asks for: a map from ids to vectors that counts its entries. Add takes a vector of
    -- the configuration's dimension under a free id that is not negative, and no other; Delete never
    -- fails and leaves an index without the id as it is.
    pub linear_vector_index-IsIndex :
        (cfg : IndexConfig) (empty : LinearIndex)
        → new_linear_index cfg ≡ ok empty
        → IsIndex linear_vector_index empty cfg.dimension
    linear_vector_index-IsIndex cfg empty made =
        subst (λ li. IsIndex linear_vector_index li cfg.dimension)
          (sym (new_linear_index-made cfg empty made)) (empty-IsIndex cfg)

-- Deletes that a log asks for, one after the other.
module _ (floats : Floats) (x : VectorIndex floats) {empty : x.Index} {dim : ℕ}
    (laws : IsIndex floats x empty dim) where
  abbrev pub delete_all : List ℕ → x.Index → x.Index
  delete_all [] i = i
  delete_all (id ∷ ids) i = delete_all ids (x.delete_id i id).1

  gone_stays :
      (ids : List ℕ) (i : x.Index) (j : ℕ)
      → x.get_vector i j ≡ none
      → x.get_vector (delete_all ids i) j ≡ none
  gone_stays [] i j h = h
  gone_stays (id ∷ ids) i j h =
      gone_stays ids (x.delete_id i id).1 j (ground (arith, laws.get_delete i id j))

  all_gone : (ids : List ℕ) (i : x.Index) → All (λ j. x.get_vector (delete_all ids i) j ≡ none) ids
  all_gone [] i = tt
  all_gone (id ∷ ids) i = (
    gone_stays ids (x.delete_id i id).1 id (ground (arith, laws.get_delete i id id, ==_refl id)),
    all_gone ids (x.delete_id i id).1,
  )

  delete_all_missing :
      (ids : List ℕ) (i : x.Index) → All (λ j. x.get_vector i j ≡ none) ids → delete_all ids i ≡ i
  delete_all_missing [] i h = refl
  delete_all_missing (id ∷ ids) i h =
      let same = laws.delete_missing i id h.0 in
      ap (delete_all ids) same ∙ delete_all_missing ids i h.1

  -- Deletes that are replayed over an index on which they were already done change nothing.
  pub delete_all-delete_all :
      (ids : List ℕ) (i : x.Index) → delete_all ids (delete_all ids i) ≡ delete_all ids i
  delete_all-delete_all ids i = delete_all_missing ids (delete_all ids i) (all_gone ids i)
