-- ===== src/Collection/Runs/Searches.antt =====
-- Search along the life of a collection.
use dattaniddhi.Prelude.{
  ℕ, ◌^◌, ◌<◌, ◌≡◌, ap, ◌∙◌, sym, subst, List, [], ◌∷◌, none, some, length, Result, ok,
  ok_injective,
}
use dattaniddhi.Prelude.Maps.{bytes_eq, nat_eq, Map}
use dattaniddhi.Floats.{Floats}
use dattaniddhi.Json.{Json, JsonLaws}
use dattaniddhi.Vector.{Vector, new_vector}
use dattaniddhi.Index.Search.{SortFunc, SearchResult}
use dattaniddhi.Index.Search.Best.{Library}
use dattaniddhi.Collection.{CollectionError, Collection, CollectionConfig, get_payload}
use dattaniddhi.Collection.Config.{ConfigJson, CollectionDir}
use dattaniddhi.Collection.Failures.{insert_vector-invalid, delete_vector-unknown}
use dattaniddhi.Collection.Lifecycle.Creates.{Created, index_config_of}
use dattaniddhi.Collection.Lifecycle.Opens.{open_collection-Opened}
use dattaniddhi.Collection.Search.{search_vectors}
use dattaniddhi.Collection.Search.Named.{NamedBest, search_vectors-NamedBest}
use dattaniddhi.Collection.Runs.{
  Event, put, removed, refused, reopened, answer, Step, Run, Faithful,
}
use dattaniddhi.Collection.Runs.Keeps.{Run-Faithful, Run-Faithful_created, Created-Faithful}
use dattaniddhi.Collection.Runs.Ready.{
  Ready, make_index-metric, fresh_memory-Ready, insert_vector-Ready, delete_vector-Ready,
  as_stored-Ready, answer-vectors,
}

-- uuid.NewString does not return an identifier that the collection has.
abbrev pub Fresh : {P : Type 0} → (P → P) → List (Event P) → Type 0
Fresh stored [] = Unit
Fresh stored (put ext value ∷ es) = (answer stored es ext ≡ none) × Fresh stored es
Fresh stored (removed ext ∷ es) = Fresh stored es
Fresh stored (refused ∷ es) = Fresh stored es
Fresh stored (reopened ∷ es) = Fresh stored es

module _ (floats : Floats) (json : Json) (config_json : ConfigJson) (file : List ℕ)
    (laws : JsonLaws json) where
  Step-Ready :
      {c d : Collection json.Value} {e : Event json.Value} (es : List (Event json.Value))
      → Step floats json config_json file c e d
      → Fresh laws.stored (e ∷ es)
      → Faithful floats json config_json file laws es c
      → Ready c.memory
      → Ready d.memory
  unfolding get_payload
  Step-Ready {c} es (Step.insert os os' ext vals text value v good seg room valid fits) fresh f r =
      insert_vector-Ready floats json os os' c ext vals value r f.recoverable.index_dimension
        (r.matched.has_payload ext (f.answers ext ∙ fresh.0)) room
  Step-Ready {c} es (Step.delete os ext id good seg known fits) fresh f r =
      delete_vector-Ready floats json os c ext r
  Step-Ready {c} es (Step.refuse_insert os os' ext vals value x invalid) fresh f r =
      subst (λ (d : Collection json.Value). Ready d.memory)
        (sym (ap (λ t. t.0) (insert_vector-invalid floats json os os' c ext vals value x invalid)))
        r
  Step-Ready {c} es (Step.refuse_delete os ext unknown) fresh f r =
      subst (λ (d : Collection json.Value). Ready d.memory)
        (sym (ap (λ t. t.0) (delete_vector-unknown floats json os c ext unknown))) r
  Step-Ready {c} es (Step.reopen os os' sp c' good low high opened) fresh f r =
      let (d, is, o) =
        open_collection-Opened floats json laws config_json file c f.belongs f.recoverable os os' sp
          good low high in
      let same : d ≡ c' = ok_injective (sym (ap (λ t. t.1) is) ∙ opened) in
      subst (λ (d : Collection json.Value). Ready d.memory) same
        (subst Ready (sym o.memory_is) (as_stored-Ready floats json laws c.memory r))

  Fresh-tail :
      (e : Event json.Value) (es : List (Event json.Value))
      → Fresh laws.stored (e ∷ es)
      → Fresh laws.stored es
  Fresh-tail (put ext value) es fresh = fresh.1
  Fresh-tail (removed ext) es fresh = fresh
  Fresh-tail refused es fresh = fresh
  Fresh-tail reopened es fresh = fresh

  Run-Ready :
      {c d : Collection json.Value} {es : List (Event json.Value)}
      → Faithful floats json config_json file laws [] c
      → Ready c.memory
      → Run floats json config_json file c es d
      → Fresh laws.stored es
      → Ready d.memory
  Run-Ready f r Run.here fresh = r
  Run-Ready f r (Run.later {es = es} {e} run step) fresh =
      Step-Ready es step fresh (Run-Faithful floats json config_json file laws f run)
        (Run-Ready f r run (Fresh-tail e es fresh))

module _ (floats : Floats) (json : Json) (laws : JsonLaws json) (config_json : ConfigJson)
    {cfg : CollectionConfig}
    {result : CollectionDir × Result CollectionError (Collection json.Value)}
    (k : Created floats json laws config_json cfg result) (order : Map ℕ Vector → Map ℕ Vector)
    (sort : SortFunc (SearchResult floats.Float64)) (lib : Library floats order sort) where
  -- With a SortFunc and a cmp.Compare that do what they document: from a collection that was just
  -- created, whatever inserts of new identifiers, deletes and reopenings follow, in whatever order,
  -- each refused for what it is given or successful with no failing call: while the history gives
  -- some identifier a payload and the index holds fewer than 2 ^ 63 vectors, Search with a valid
  -- query for at least one result returns the best vectors, each under its external identifier.
  pub Run-NamedBest :
      {es : List (Event json.Value)} {d : Collection json.Value}
      → Run floats json config_json k.file k.created es d
      → Fresh laws.stored es
      → (ext : List ℕ) (value : json.Value) → answer laws.stored es ext ≡ some value
      → length d.memory.index.vectors < 2 ^ 63
      → (query_vals : List ℕ) (q : Vector) (n : ℕ)
      → new_vector floats query_vals d.config.dimension ≡ ok q
      → 0 < n
      → n < 2 ^ 63
      → NamedBest floats json order sort d q n
          (search_vectors floats json order sort d query_vals n)
  unfolding get_payload
  Run-NamedBest {d = d} run fresh ext value stocked fits query_vals q n built positive small =
      let f = Run-Faithful_created floats json laws config_json k run in
      let r =
        Run-Ready floats json config_json k.file laws
          (Created-Faithful floats json laws config_json k)
          (subst Ready (sym k.memory_is) (fresh_memory-Ready (index_config_of cfg))) run fresh in
      search_vectors-NamedBest floats json order sort lib d r.matched f.recoverable.index_dimension
        (make_index-metric d.config f.belongs.index_is) r.sized
        (answer-vectors floats json ext r.matched (f.answers ext ∙ stocked)) fits query_vals q n
        built positive small
