-- ===== src/Json.antt =====
-- encoding/json as the collection uses it: a payload of type `any`, its text, and the text's value.
use dattaniddhi.Prelude.{ℕ, ◌<◌, ◌≡◌, List, Option, some, length}

pub record Json : Type 1 where
  pub Value : Type 0
  -- nil
  pub null : Value
  -- json.Marshal and json.Unmarshal; `none` is an error.
  pub marshal : Value → Option (List ℕ)
  pub unmarshal : List ℕ → Option Value

-- What is documented of the two: the text of a value is not empty, and it is read back as the value
-- that JSON stores for it (`stored`: numbers as float64, structs as maps).
pub record JsonLaws (json : Json) : Type 0 where
  pub stored : json.Value → json.Value
  pub marshal_positive :
      (v : json.Value) (text : List ℕ) → json.marshal v ≡ some text → 0 < length text
  pub unmarshal-marshal :
      (v : json.Value) (text : List ℕ)
      → json.marshal v ≡ some text
      → json.unmarshal text ≡ some (stored v)
  -- A value that was read back is stored as it is.
  pub stored_stored : (v : json.Value) → stored (stored v) ≡ stored v
