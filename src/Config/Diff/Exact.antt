-- ===== src/Config/Diff/Exact.antt =====
-- The difference of two documents with string keys (config/diff.rs) is empty just if they are equal.
use chimera_service.Base.Text.{Bytes, bytes_eq}
use chimera_service.Config.Diff.{
  Yaml, DiffEntry, insert_key, extend, before, strings, string_keys, key_set, same_option,
  mapping_of, get_of, descends, diff_keys, is_empty, diff_value, diff,
}
use chimera_service.Base.{
  ℕ, zero, suc, ◌≡◌, refl, sym, subst, inl, inr, Bool, true, false, Option, none, some, List, [],
  ◌∷◌, ◌++◌, ◌↔◌, ◌&&◌, not, arith, Bool-cases, is_some, if◌then◌else◌,
}

abbrev pub AllKeys : (Bytes → Type 0) → List Bytes → Type 0
AllKeys P [] = Unit
AllKeys P (key ∷ keys) = P key × AllKeys P keys

bytes_eq-≡ : (a b : Bytes) → bytes_eq a b ≡ true → a ≡ b
unfolding bytes_eq
bytes_eq-≡ [] [] h = refl
bytes_eq-≡ [] (b ∷ bs) h = absurd (cc h)
bytes_eq-≡ (a ∷ rest) [] h = absurd (cc h)
bytes_eq-≡ (a ∷ rest) (b ∷ bs) h =
    let tail = bytes_eq-≡ rest bs (ground (arith, h)) in
    let head : a ≡ b = ground (arith, h) in cc (head, tail)

insert_all :
    (P : Bytes → Type 0) (same less : Bool) (key k : Bytes) (ks rest : List Bytes)
    → (same ≡ true → key ≡ k)
    → (AllKeys P rest → P key × AllKeys P ks)
    → AllKeys P (if same then k ∷ ks else if less then key ∷ k ∷ ks else k ∷ rest)
    → P key × AllKeys P (k ∷ ks)
insert_all P true less key k ks rest q r (p, ps) = (subst P (sym (q refl)) p, (p, ps))
insert_all P false true key k ks rest q r (p, ps) = (p, ps)
insert_all P false false key k ks rest q r (p, ps) = let (pk, pks) = r ps in (pk, (p, pks))

-- what holds of a set with a key inserted holds of the key and of the set
insert_key-AllKeys :
    (P : Bytes → Type 0) (key : Bytes) (keys : List Bytes)
    → AllKeys P (insert_key key keys)
    → P key × AllKeys P keys
unfolding insert_key
insert_key-AllKeys P key [] (p, ps) = (p, tt)
insert_key-AllKeys P key (k ∷ ks) h =
    insert_all P (bytes_eq key k) (before key k) key k ks (insert_key key ks) (bytes_eq-≡ key k)
      (insert_key-AllKeys P key ks) h

extend-AllKeys :
    (P : Bytes → Type 0) (keys set : List Bytes)
    → AllKeys P (extend keys set)
    → AllKeys P keys × AllKeys P set
unfolding extend
extend-AllKeys P [] set h = (tt, h)
extend-AllKeys P (key ∷ keys) set h =
    let (ks, s) = extend-AllKeys P keys (insert_key key set) h in
    let (k, s') = insert_key-AllKeys P key set s in ((k, ks), s')

append-empty : {A : Type 0} (xs ys : List A) → xs ++ ys ≡ [] → (xs ≡ []) × (ys ≡ [])
append-empty [] ys h = (refl, h)
append-empty (x ∷ xs) ys h = absurd (cc h)

module _ (y : Yaml) where
  -- every key is a string, without a tag
  abbrev pub AllStrings : List y.Value → Type 0
  AllStrings [] = Unit
  AllStrings (v ∷ vs) = ((is_some (y.as_str v) ≡ true) × (y.is_tagged v ≡ false)) × AllStrings vs

  -- mappings are nested at most `n` deep and have no tag, and all their keys are strings without one
  abbrev pub IsPlain : ℕ → y.Value → Type 0
  IsPlain zero v = y.as_mapping v ≡ none
  IsPlain (suc n) v =
      (m : y.Mapping)
      → y.as_mapping v ≡ some m
      → AllStrings (y.keys m)
        × ((key : Bytes) (w : y.Value) → y.get m key ≡ some w → IsPlain n w)
        × (y.is_tagged v ≡ false)

  abbrev pub Agree : Option y.Mapping → Option y.Mapping → Bytes → Type 0
  Agree a b key = same_option y (get_of y a key) (get_of y b key) ≡ true

  -- What the code relies on, of values without a tag: a key of a mapping, where all keys are strings, has a
  -- value; `==` on mappings is by their keys and values, in any order.
  pub record IsLawful : Type 0 where
    pub keys_there :
        (m : y.Mapping)
        → AllStrings (y.keys m)
        → AllKeys (λ key. is_some (y.get m key) ≡ true) (strings y (y.keys m))
    pub same_mappings :
        (v w : y.Value) (a b : y.Mapping)
        → y.as_mapping v ≡ some a
        → y.as_mapping w ≡ some b
        → y.is_tagged v ≡ false
        → y.is_tagged w ≡ false
        → AllStrings (y.keys a)
        → AllStrings (y.keys b)
        → AllKeys (Agree (some a) (some b)) (strings y (y.keys a))
        → AllKeys (Agree (some a) (some b)) (strings y (y.keys b))
        → y.same v w ≡ true

  abbrev OptionIsPlain : ℕ → Option y.Value → Type 0
  OptionIsPlain n none = Unit
  OptionIsPlain n (some v) = IsPlain n v

  -- a comparison ends, and with no change only if it is of equals
  record IsCompared (current desired : Option y.Value) (r : Option (List (DiffEntry y)))
      : Type 0 where
    pub changes : List (DiffEntry y)
    pub ends : r ≡ some changes
    pub exact : changes ≡ [] → same_option y current desired ≡ true

  record AreCompared (a b : Option y.Mapping) (keys : List Bytes) (r : Option (List (DiffEntry y)))
      : Type 0 where
    pub changes : List (DiffEntry y)
    pub ends : r ≡ some changes
    pub exact : changes ≡ [] → AllKeys (Agree a b) keys

  diff_keys-AreCompared :
      (compare : Option y.Value → Option y.Value → List Bytes → Option (List (DiffEntry y)))
      (a b : Option y.Mapping) (path keys : List Bytes)
      → ((key : Bytes) (p : List Bytes)
          → IsCompared
              (get_of y a key)
              (get_of y b key)
              (compare (get_of y a key) (get_of y b key) p))
      → AreCompared a b keys (diff_keys y compare a b path keys)
  unfolding diff_keys
  diff_keys-AreCompared compare a b path [] h = record {
    changes = [];
    ends = refl;
    exact = λ e. tt;
  }
  diff_keys-AreCompared compare a b path (key ∷ keys) h =
      let c = h key (path ++ key ∷ []) in
      let d = diff_keys-AreCompared compare a b path keys h in
      record {
        changes = c.changes ++ d.changes;
        ends = rw (diff_keys, c.ends, d.ends) refl;
        exact = λ e. let (p, q) = append-empty c.changes d.changes e in (c.exact p, d.exact q);
      }

  none_differs : (o : Option y.Value) → is_some o ≡ true → same_option y none o ≡ true → ⊥
  none_differs none p q = absurd (cc p)
  none_differs (some w) p q = absurd (cc q)

  differs_none : (o : Option y.Value) → is_some o ≡ true → same_option y o none ≡ true → ⊥
  differs_none none p q = absurd (cc p)
  differs_none (some w) p q = absurd (cc q)

  -- a document that is not there agrees with a mapping on no key of it
  none_disagrees :
      (b : y.Mapping) (keys : List Bytes)
      → AllKeys (λ key. is_some (y.get b key) ≡ true) keys
      → AllKeys (Agree none (some b)) keys
      → keys ≡ []
  none_disagrees b [] p q = refl
  none_disagrees b (key ∷ keys) (p, ps) (q, qs) = absurd (none_differs (y.get b key) p q)

  disagrees_none :
      (a : y.Mapping) (keys : List Bytes)
      → AllKeys (λ key. is_some (y.get a key) ≡ true) keys
      → AllKeys (Agree (some a) none) keys
      → keys ≡ []
  disagrees_none a [] p q = refl
  disagrees_none a (key ∷ keys) (p, ps) (q, qs) = absurd (differs_none (y.get a key) p q)

  abbrev Untagged : Option y.Value → Type 0
  Untagged none = Unit
  Untagged (some v) = y.is_tagged v ≡ false

  -- a mapping has string keys only, and no tag
  abbrev IsKeyed : Option y.Value → Option y.Mapping → Type 0
  IsKeyed o none = Unit
  IsKeyed o (some m) = AllStrings (y.keys m) × Untagged o

  key_set-AllKeys :
      (P : Bytes → Type 0) (a b : Option y.Mapping)
      → AllKeys P (key_set y a b)
      → AllKeys P (string_keys y b) × AllKeys P (string_keys y a)
  unfolding key_set
  key_set-AllKeys P a b h =
      let (q, rest) = extend-AllKeys P (string_keys y b) (extend (string_keys y a) []) h in
      (q, (extend-AllKeys P (string_keys y a) [] rest).0)

  -- the mappings of the two sides, where the comparison is by key
  same_by_keys :
      (current desired : Option y.Value) (a b : Option y.Mapping)
      → IsLawful
      → mapping_of y current ≡ a
      → mapping_of y desired ≡ b
      → IsKeyed current a
      → IsKeyed desired b
      → descends y current desired ≡ true
      → is_empty y (key_set y a b) ≡ false
      → AllKeys (Agree a b) (string_keys y a)
      → AllKeys (Agree a b) (string_keys y b)
      → same_option y current desired ≡ true
  unfolding key_set extend strings
  same_by_keys none none a b l p q sa sb d e u v = refl
  same_by_keys none (some w) a none l p q sa sb d e u v = absurd (cc (d, q))
  same_by_keys none (some w) (some a) (some b) l p q sa sb d e u v = absurd (cc p)
  same_by_keys none (some w) none (some b) l p q sa sb d e u v =
      let empty = none_disagrees b (strings y (y.keys b)) (l.keys_there b sb.0) v in
      absurd (cc (e, empty))
  same_by_keys (some v') none none b l p q sa sb d e u v = absurd (cc (d, p))
  same_by_keys (some v') none (some a) (some b) l p q sa sb d e u v = absurd (cc q)
  same_by_keys (some v') none (some a) none l p q sa sb d e u v =
      let empty = disagrees_none a (strings y (y.keys a)) (l.keys_there a sa.0) u in
      absurd (cc (e, empty))
  same_by_keys (some v') (some w) none b l p q sa sb d e u v = absurd (ground (arith, d, p))
  same_by_keys (some v') (some w) (some a) none l p q sa sb d e u v =
      absurd (ground (arith, d, p, q))
  same_by_keys (some v') (some w) (some a) (some b) l p q sa sb d e u v =
      l.same_mappings v' w a b p q sa.1 sb.1 sa.0 sb.0 u v

  node-IsCompared :
      (fuel : ℕ) (current desired : Option y.Value) (path : List Bytes)
      → IsLawful
      → IsKeyed current (mapping_of y current)
      → IsKeyed desired (mapping_of y desired)
      → AreCompared
          (mapping_of y current)
          (mapping_of y desired)
          (key_set y (mapping_of y current) (mapping_of y desired))
          (diff_keys y
            (diff_value y fuel)
            (mapping_of y current)
            (mapping_of y desired)
            path
            (key_set y (mapping_of y current) (mapping_of y desired)))
      → IsCompared current desired (diff_value y (suc fuel) current desired path)
  unfolding diff_value
  node-IsCompared fuel current desired path l sa sb c =
      let a = mapping_of y current in
      let b = mapping_of y desired in
      elim (Bool-cases (same_option y current desired)) [
        | inl h ↦ record { changes = []; ends = rw (diff_value, h) refl; exact = λ e. h }
        | inr h ↦
            elim (Bool-cases (descends y current desired && not (is_empty y (key_set y a b)))) [
              | inl g ↦ record {
                changes = c.changes;
                ends = rw (diff_value, h, g) c.ends;
                exact = λ e.
                    let (q, p) = key_set-AllKeys (Agree a b) a b (c.exact e) in
                    same_by_keys current desired a b l refl refl sa sb (ground (arith, g))
                      (ground (arith, g)) p q;
              }
              | inr g ↦ record {
                changes = record { path = path; new = desired } ∷ [];
                ends = rw (diff_value, h, g) refl;
                exact = λ e. absurd (cc e);
              }
            ]
      ]

  flat-AreCompared :
      (compare : Option y.Value → Option y.Value → List Bytes → Option (List (DiffEntry y)))
      (a b : Option y.Mapping) (path : List Bytes)
      → a ≡ none
      → b ≡ none
      → AreCompared a b (key_set y a b) (diff_keys y compare a b path (key_set y a b))
  unfolding key_set extend diff_keys
  flat-AreCompared compare none none path p q = record {
    changes = [];
    ends = refl;
    exact = λ e. tt;
  }
  flat-AreCompared compare none (some b) path p q = absurd (cc q)
  flat-AreCompared compare (some a) b path p q = absurd (cc p)

  flat : (o : Option y.Value) → OptionIsPlain zero o → mapping_of y o ≡ none
  flat none h = refl
  flat (some v) h = h

  flat-IsKeyed : (v : Option y.Value) (o : Option y.Mapping) → o ≡ none → IsKeyed v o
  flat-IsKeyed v none h = tt
  flat-IsKeyed v (some m) h = absurd (cc h)

  IsPlain-IsKeyed :
      (n : ℕ) (v : y.Value) (o : Option y.Mapping)
      → y.as_mapping v ≡ o
      → IsPlain (suc n) v
      → IsKeyed (some v) o
  IsPlain-IsKeyed n v none q h = tt
  IsPlain-IsKeyed n v (some m) q h = ((h m q).0, (h m q).2)

  OptionIsPlain-IsKeyed :
      (n : ℕ) (o : Option y.Value) → OptionIsPlain n o → IsKeyed o (mapping_of y o)
  OptionIsPlain-IsKeyed zero o h = flat-IsKeyed o (mapping_of y o) (flat o h)
  OptionIsPlain-IsKeyed (suc n) none h = tt
  OptionIsPlain-IsKeyed (suc n) (some v) h = IsPlain-IsKeyed n v (y.as_mapping v) refl h

  plain_value :
      (n : ℕ) (m : y.Mapping) (key : Bytes) (o : Option y.Value)
      → y.get m key ≡ o
      → ((w : y.Value) → y.get m key ≡ some w → IsPlain n w)
      → OptionIsPlain n o
  plain_value n m key none q h = tt
  plain_value n m key (some w) q h = h w q

  plain_gets :
      (n : ℕ) (v : y.Value) (o : Option y.Mapping) (key : Bytes)
      → y.as_mapping v ≡ o
      → IsPlain (suc n) v
      → OptionIsPlain n (get_of y o key)
  plain_gets n v none key q h = tt
  plain_gets n v (some m) key q h = plain_value n m key (y.get m key) refl ((h m q).1 key)

  plain_get :
      (n : ℕ) (o : Option y.Value) (key : Bytes)
      → OptionIsPlain (suc n) o
      → OptionIsPlain n (get_of y (mapping_of y o) key)
  plain_get n none key h = tt
  plain_get n (some v) key h = plain_gets n v (y.as_mapping v) key refl h

  diff_value-IsCompared :
      (n : ℕ) (current desired : Option y.Value) (path : List Bytes)
      → IsLawful
      → OptionIsPlain n current
      → OptionIsPlain n desired
      → IsCompared current desired (diff_value y (suc n) current desired path)
  diff_value-IsCompared zero current desired path l p q =
      node-IsCompared zero current desired path l (OptionIsPlain-IsKeyed zero current p)
        (OptionIsPlain-IsKeyed zero desired q)
        (flat-AreCompared (diff_value y zero) (mapping_of y current) (mapping_of y desired) path
          (flat current p) (flat desired q))
  diff_value-IsCompared (suc n) current desired path l p q =
      let a = mapping_of y current in
      let b = mapping_of y desired in
      node-IsCompared (suc n) current desired path l (OptionIsPlain-IsKeyed (suc n) current p)
        (OptionIsPlain-IsKeyed (suc n) desired q)
        (diff_keys-AreCompared (diff_value y (suc n)) a b path (key_set y a b) (λ key r.
          diff_value-IsCompared n (get_of y a key) (get_of y b key) r l (plain_get n current key p)
            (plain_get n desired key q)))

  -- the difference of two documents: there is one, and it is empty just if they are equal
  pub record IsExact (current desired : y.Mapping) (r : Option (List (DiffEntry y))) : Type 0 where
    pub changes : List (DiffEntry y)
    pub ends : r ≡ some changes
    pub exact : (changes ≡ []) ↔ (y.same (y.of_mapping current) (y.of_mapping desired) ≡ true)

  equal_unchanged :
      (fuel : ℕ) (current desired : Option y.Value) (path : List Bytes)
      (changes : List (DiffEntry y))
      → same_option y current desired ≡ true
      → diff_value y (suc fuel) current desired path ≡ some changes
      → changes ≡ []
  unfolding diff_value
  equal_unchanged fuel current desired path changes h e =
      let none_yet : diff_value y (suc fuel) current desired path ≡ some [] =
        rw (diff_value, h) refl in
      cc (none_yet, e)

  -- Two documents are nested at most n mappings deep, no mapping in them has a tag, and their keys are strings without
  -- a tag; such YAML values behave as documented. Then with n + 1 rounds of fuel there is a difference, and
  -- it has no entry just if the two are equal.
  pub diff-IsExact :
      (n : ℕ) (current desired : y.Mapping)
      → IsLawful
      → IsPlain n (y.of_mapping current)
      → IsPlain n (y.of_mapping desired)
      → IsExact current desired (diff y (suc n) current desired)
  unfolding diff
  diff-IsExact n current desired l p q =
      let c =
        diff_value-IsCompared n (some (y.of_mapping current)) (some (y.of_mapping desired)) [] l p
          q in
      record {
        changes = c.changes;
        ends = c.ends;
        exact = (
          c.exact,
          λ h.
              equal_unchanged n (some (y.of_mapping current)) (some (y.of_mapping desired)) []
                c.changes h c.ends,
        );
      }
