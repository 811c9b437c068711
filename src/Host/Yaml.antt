-- ===== src/Host/Yaml.antt =====
-- The values of a YAML document as host/src/config.rs reads them, with its searches in a view's layout.
use servatory.Prelude.{
  ℕ, Bool, true, false, ◌||◌, Option, none, some, List, [], ◌∷◌, if◌then◌else◌, is_some_and, bind,
}
use servatory.Prelude.Text.{Text, codes, text_eq}

-- A tag is looked through wherever the library's `as_` functions do so.

-- The bit pattern of an `f64`. Its arithmetic is a parameter where it is used.
abbrev pub Float : Type 0
Float = ℕ

pub data Number : Type 0 where
  natural : ℕ → Number
  negative : ℕ → Number
  float : Float → Number

mutual
  pub data Value : Type 0 where
    null : Value
    bool : Bool → Value
    number : Number → Value
    string : Text → Value
    sequence : Values → Value
    mapping : Entries → Value
    tagged : (tag : Text) → Value → Value

  pub data Values : Type 0 where
    no_values : Values
    item : Value → Values → Values

  pub data Entries : Type 0 where
    no_entries : Entries
    entry : (key value : Value) → Entries → Entries

abbrev pub as_str : Value → Option Text
as_str (string s) = some s
as_str (tagged t v) = as_str v
as_str _ = none

abbrev pub as_bool : Value → Option Bool
as_bool (bool b) = some b
as_bool (tagged t v) = as_bool v
as_bool _ = none

abbrev pub as_u64 : Value → Option ℕ
as_u64 (number (natural n)) = some n
as_u64 (tagged t v) = as_u64 v
as_u64 _ = none

abbrev pub is_null : Value → Bool
is_null null = true
is_null (tagged t v) = is_null v
is_null _ = false

abbrev pub is_key : Text → Value → Bool
is_key needle v = is_some_and (as_str v) (text_eq needle)

mutual
  pub contains : Text → Value → Bool
  contains needle (string s) = text_eq s needle
  contains needle (sequence vs) = any_contains needle vs
  contains needle (mapping es) = entries_contain needle es
  contains needle null = false
  contains needle (bool b) = false
  contains needle (number n) = false
  contains needle (tagged t v) = false

  any_contains : Text → Values → Bool
  any_contains needle no_values = false
  any_contains needle (item v vs) = contains needle v || any_contains needle vs

  entries_contain : Text → Entries → Bool
  entries_contain needle no_entries = false
  entries_contain needle (entry k v es) =
      contains needle k || contains needle v || entries_contain needle es

abbrev pub or_else : {A : Type 0} → Option A → Option A → Option A
or_else (some a) o = some a
or_else none o = o

-- `find_number` and `find_bool`: the first value under the key that `read` takes.
mutual
  pub find_with : {A : Type 0} → (Value → Option A) → Text → Value → Option A
  find_with read needle (mapping es) = find_in_entries read needle es
  find_with read needle (sequence vs) = find_in_values read needle vs
  find_with read needle (string s) = none
  find_with read needle null = none
  find_with read needle (bool b) = none
  find_with read needle (number n) = none
  find_with read needle (tagged t v) = none

  find_in_values : {A : Type 0} → (Value → Option A) → Text → Values → Option A
  find_in_values read needle no_values = none
  find_in_values read needle (item v vs) =
      or_else (find_with read needle v) (find_in_values read needle vs)

  find_in_entries : {A : Type 0} → (Value → Option A) → Text → Entries → Option A
  find_in_entries read needle no_entries = none
  find_in_entries read needle (entry k v es) =
      or_else (or_else (if is_key needle k then read v else none) (find_with read needle v))
        (find_in_entries read needle es)

abbrev pub find_number : Text → Value → Option ℕ
find_number = find_with as_u64

abbrev pub find_bool : Text → Value → Option Bool
find_bool = find_with as_bool

abbrev pub with_string : Option Text → List Text → List Text
with_string none ss = ss
with_string (some s) ss = s ∷ ss

-- The strings of a sequence.
abbrev pub strings : Values → List Text
strings no_values = []
strings (item v vs) = with_string (as_str v) (strings vs)

abbrev pub as_string_list : Value → Option (List Text)
as_string_list (sequence vs) = some (strings vs)
as_string_list (tagged t v) = as_string_list v
as_string_list _ = none

-- Below the key itself nothing is searched.
mutual
  pub find_string_list : Text → Value → Option (List Text)
  find_string_list needle (mapping es) = strings_in_entries needle es
  find_string_list needle (sequence vs) = strings_in_values needle vs
  find_string_list needle (string s) = none
  find_string_list needle null = none
  find_string_list needle (bool b) = none
  find_string_list needle (number n) = none
  find_string_list needle (tagged t v) = none

  strings_in_values : Text → Values → Option (List Text)
  strings_in_values needle no_values = none
  strings_in_values needle (item v vs) =
      or_else (find_string_list needle v) (strings_in_values needle vs)

  strings_in_entries : Text → Entries → Option (List Text)
  strings_in_entries needle no_entries = none
  strings_in_entries needle (entry k v es) =
      let below = find_string_list needle v in
      or_else (if is_key needle k then as_string_list v else below) (strings_in_entries needle es)

-- `Mapping::get` of a string.
lookup : Text → Entries → Option Value
lookup key no_entries = none
lookup key (entry (string s) v es) =
    let rest = lookup key es in if text_eq s key then some v else rest
lookup key (entry k v es) = lookup key es

-- `as_mapping` and then `get`.
get : Text → Value → Option Value
unfolding lookup
get key (mapping es) = lookup key es
get key (tagged t v) = get key v
get key _ = none

pub column_contains : Value → (side needle : Text) → Bool
unfolding get
column_contains layout side needle =
    is_some_and (bind (get (codes "columns") layout) (get side)) (contains needle)
