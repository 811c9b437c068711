-- ===== src/Host/Json.antt =====
-- The values of a JSON document as host/src/health.rs reads them. The keys of an object differ.
use servatory.Prelude.{ℕ, Bool, Option, none, some, List, [], ◌∷◌, if◌then◌else◌}
use servatory.Prelude.Text.{Text, text_eq}
use servatory.Host.Yaml.{Number}

mutual
  pub data Json : Type 0 where
    null : Json
    bool : Bool → Json
    number : Number → Json
    string : Text → Json
    array : Elements → Json
    object : Fields → Json

  pub data Elements : Type 0 where
    no_elements : Elements
    element : Json → Elements → Elements

  pub data Fields : Type 0 where
    no_fields : Fields
    field : (key : Text) → Json → Fields → Fields

abbrev pub elements : Elements → List Json
elements no_elements = []
elements (element v vs) = v ∷ elements vs

abbrev pub find_field : Text → Fields → Option Json
find_field key no_fields = none
find_field key (field k v fs) =
    let later = find_field key fs in if text_eq key k then some v else later

-- `get`
abbrev pub get : Text → Json → Option Json
get key (object fs) = find_field key fs
get key _ = none

abbrev pub as_str : Json → Option Text
as_str (string s) = some s
as_str _ = none

abbrev pub as_u64 : Json → Option ℕ
as_u64 (number (Number.natural n)) = some n
as_u64 _ = none

-- `Ok(Value::Array(_))`, from what the parser gives.
abbrev pub array_of : Option Json → Option (List Json)
array_of (some (array vs)) = some (elements vs)
array_of _ = none
