-- ===== src/Config/Diff.antt =====
-- crates/chimera-core-manager/src/config/diff.rs: the difference of two YAML documents. The values of
-- serde_yaml_ng are the parameter `Yaml`; a string key is its UTF-8 bytes.
pub mod Exact
mod Examples
use chimera_service.Base.Text.{Bytes, bytes_eq}
use chimera_service.Base.{
  ℕ, zero, suc, Bool, true, false, Option, none, some, List, [], ◌∷◌, ◌++◌, ltb, ◌==◌, ◌&&◌, ◌||◌,
  not, is_some, if◌then◌else◌,
}

-- What the code uses of `serde_yaml_ng::Value` and its `Mapping`: `get` is at a string key without a tag, `same` is
-- `==`, which tells tagged values apart; `as_mapping` and `as_str` look through a tag. `is_tagged` is not used by
-- the code.
pub record Yaml : Type 1 where
  pub Value : Type 0
  pub Mapping : Type 0
  pub of_mapping : Mapping → Value
  pub as_mapping : Value → Option Mapping
  pub as_str : Value → Option Bytes
  pub keys : Mapping → List Value
  pub get : Mapping → Bytes → Option Value
  pub same : Value → Value → Bool
  pub is_tagged : Value → Bool

-- `<` on `str`
unfoldable pub before : Bytes → Bytes → Bool
before a [] = false
before [] (b ∷ bs) = true
before (a ∷ rest) (b ∷ bs) = ltb a b || ((a == b) && before rest bs)

-- a `BTreeSet` of keys is the list of its elements in order
unfoldable pub insert_key : Bytes → List Bytes → List Bytes
unfolding bytes_eq before
insert_key key [] = key ∷ []
insert_key key (k ∷ ks) =
    let rest = insert_key key ks in
    if bytes_eq key k then k ∷ ks else if before key k then key ∷ k ∷ ks else k ∷ rest

unfoldable pub extend : List Bytes → List Bytes → List Bytes
unfolding insert_key
extend [] set = set
extend (key ∷ keys) set = extend keys (insert_key key set)

module _ (y : Yaml) where
  pub record DiffEntry : Type 0 where
    pub path : List Bytes
    pub new : Option y.Value

  -- `==` on `Option<&Value>`
  abbrev pub same_option : Option y.Value → Option y.Value → Bool
  same_option none none = true
  same_option (some v) (some w) = y.same v w
  same_option none (some _) = false
  same_option (some _) none = false

  -- `and_then(Value::as_mapping)`
  abbrev pub mapping_of : Option y.Value → Option y.Mapping
  mapping_of none = none
  mapping_of (some v) = y.as_mapping v

  abbrev pub get_of : Option y.Mapping → Bytes → Option y.Value
  get_of none key = none
  get_of (some mapping) key = y.get mapping key

  abbrev pub push_some : Option Bytes → List Bytes → List Bytes
  push_some none keys = keys
  push_some (some key) keys = key ∷ keys

  -- `filter_map(Value::as_str)`
  unfoldable pub strings : List y.Value → List Bytes
  strings [] = []
  strings (v ∷ vs) = push_some (y.as_str v) (strings vs)

  abbrev pub string_keys : Option y.Mapping → List Bytes
  string_keys none = []
  string_keys (some mapping) = strings (y.keys mapping)

  unfoldable pub key_set : Option y.Mapping → Option y.Mapping → List Bytes
  unfolding extend strings
  key_set current desired = extend (string_keys desired) (extend (string_keys current) [])

  -- the condition to compare key by key, but for the keys
  abbrev pub descends : (current desired : Option y.Value) → Bool
  descends current desired =
      let has_current = is_some (mapping_of current) in
      let has_desired = is_some (mapping_of desired) in
      (has_current || has_desired)
      && (not (is_some current) || (has_current && (not (is_some desired) || has_desired)))

  abbrev pub with_changes :
      Option (List DiffEntry) → Option (List DiffEntry) → Option (List DiffEntry)
  with_changes (some changes) (some rest) = some (changes ++ rest)
  with_changes none rest = none
  with_changes (some changes) none = none

  -- the loop over the keys; `compare` is the recursive call
  unfoldable pub diff_keys :
      (Option y.Value → Option y.Value → List Bytes → Option (List DiffEntry))
      → (current desired : Option y.Mapping) → (path keys : List Bytes) → Option (List DiffEntry)
  diff_keys compare current desired path [] = some []
  diff_keys compare current desired path (key ∷ keys) =
      with_changes (compare (get_of current key) (get_of desired key) (path ++ key ∷ []))
        (diff_keys compare current desired path keys)

  abbrev pub is_empty : List Bytes → Bool
  is_empty [] = true
  is_empty (_ ∷ _) = false

  -- the changes that a call of `diff_value` adds; `none` is out of fuel
  unfoldable pub diff_value :
      (fuel : ℕ)
      → (current desired : Option y.Value) → (path : List Bytes) → Option (List DiffEntry)
  unfolding diff_keys key_set
  diff_value zero current desired path = none
  diff_value (suc fuel) current desired path =
      let keys = key_set (mapping_of current) (mapping_of desired) in
      let compared =
        diff_keys (diff_value fuel) (mapping_of current) (mapping_of desired) path keys in
      if same_option current desired
      then some []
      else if descends current desired && not (is_empty keys)
      then compared
      else some (record { path = path; new = desired } ∷ [])

  unfoldable pub diff : (fuel : ℕ) → (current desired : y.Mapping) → Option (List DiffEntry)
  unfolding diff_value
  diff fuel current desired =
      diff_value fuel (some (y.of_mapping current)) (some (y.of_mapping desired)) []
