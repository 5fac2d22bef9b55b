-- ===== src/Config/Diff/Examples.antt =====
-- Documents of one level, on which the difference (config/diff.rs) runs.
use chimera_service.Base.Text.{Bytes, bytes_eq, codes}
use chimera_service.Config.Diff.{Yaml, same_option, strings, diff_value, diff}
use chimera_service.Config.Diff.Exact.{
  AllKeys, AllStrings, IsPlain, Agree, IsLawful, IsExact, diff-IsExact,
}
use chimera_service.Base.{
  ℕ, ◌≡◌, refl, inl, inr, Bool, true, false, Option, none, some, List, [], ◌∷◌, ◌==◌, ◌&&◌, arith,
  subst, Bool-cases, is_some, if◌then◌else◌,
}

data Key : Type 0 where
  name : Bytes → Key
  number : ℕ → Key

data Doc : Type 0 where
  scalar : ℕ → Doc
  text : Bytes → Doc
  table : List (Key × ℕ) → Doc
  tagged : List (Key × ℕ) → Doc

abbrev key_eq : Key → Key → Bool
key_eq (name a) (name b) = bytes_eq a b
key_eq (number a) (number b) = a == b
key_eq (name _) (number _) = false
key_eq (number _) (name _) = false

lookup : List (Key × ℕ) → Key → Option ℕ
unfolding bytes_eq
lookup [] key = none
lookup ((k, v) ∷ entries) key =
    let rest = lookup entries key in if key_eq key k then some v else rest

abbrev same_number : Option ℕ → Option ℕ → Bool
same_number none none = true
same_number (some a) (some b) = a == b
same_number none (some _) = false
same_number (some _) none = false

abbrev all_agree : (a b entries : List (Key × ℕ)) → Bool
all_agree a b [] = true
all_agree a b ((k, _) ∷ entries) = same_number (lookup a k) (lookup b k) && all_agree a b entries

same_doc : Doc → Doc → Bool
unfolding lookup bytes_eq
same_doc (scalar a) (scalar b) = a == b
same_doc (text a) (text b) = bytes_eq a b
same_doc (table a) (table b) = all_agree a b a && all_agree a b b
same_doc (tagged a) (tagged b) = all_agree a b a && all_agree a b b
same_doc _ _ = false

abbrev doc_of : Option ℕ → Option Doc
doc_of none = none
doc_of (some n) = some (scalar n)

abbrev key_doc : Key → Doc
key_doc (name key) = text key
key_doc (number n) = scalar n

abbrev keys_of : List (Key × ℕ) → List Doc
keys_of [] = []
keys_of ((k, _) ∷ entries) = key_doc k ∷ keys_of entries

abbrev table_of : Doc → Option (List (Key × ℕ))
table_of (table entries) = some entries
table_of (scalar _) = none
table_of (text _) = none
table_of (tagged entries) = some entries

abbrev text_of : Doc → Option Bytes
text_of (text key) = some key
text_of (scalar _) = none
text_of (table _) = none
text_of (tagged _) = none

abbrev has_tag : Doc → Bool
has_tag (tagged _) = true
has_tag _ = false

abbrev docs : Yaml
docs = record {
  Value = Doc;
  Mapping = List (Key × ℕ);
  of_mapping = table;
  as_mapping = table_of;
  as_str = text_of;
  keys = keys_of;
  get = λ entries key. doc_of (lookup entries (name key));
  same = same_doc;
  is_tagged = has_tag;
}

abbrev current : List (Key × ℕ)
current = (name (codes "mode"), 1) ∷ (name (codes "ipv6"), 0) ∷ []

abbrev desired : List (Key × ℕ)
desired = (name (codes "ipv6"), 1) ∷ (name (codes "mode"), 1) ∷ []

one_change :
    diff docs 2 current desired
    ≡ some (record { path = codes "ipv6" ∷ []; new = some (scalar 1) } ∷ [])
unfolding diff same_doc lookup
one_change = refl

-- a change under a key that is no string is not seen beside a key that is one
number_key_unseen :
    diff docs 2
      ((name (codes "mode"), 1) ∷ (number 7, 1) ∷ [])
      ((name (codes "mode"), 1) ∷ (number 7, 2) ∷ [])
    ≡ some []
unfolding diff same_doc lookup
number_key_unseen = refl

-- nor is a change of a mapping to one with a tag
tag_unseen :
    diff_value docs 2
      (some (table ((name (codes "mode"), 1) ∷ [])))
      (some (tagged ((name (codes "mode"), 1) ∷ [])))
      []
    ≡ some []
unfolding diff_value same_doc lookup
tag_unseen = refl

bytes_eq_refl : (a : Bytes) → bytes_eq a a ≡ true
unfolding bytes_eq
bytes_eq_refl [] = refl
bytes_eq_refl (a ∷ rest) = ground (arith, bytes_eq_refl rest)

found_later :
    (k : Key) (v : ℕ) (entries : List (Key × ℕ)) (keys : List Bytes)
    → AllKeys (λ key. is_some (doc_of (lookup entries (name key))) ≡ true) keys
    → AllKeys (λ key. is_some (doc_of (lookup ((k, v) ∷ entries) (name key))) ≡ true) keys
unfolding lookup
found_later k v entries [] h = tt
found_later k v entries (key ∷ keys) (h, hs) = (
  elim (Bool-cases (key_eq (name key) k)) [
    | inl e ↦ rw (lookup, e) refl
    | inr e ↦ rw (lookup, e) h
  ],
  found_later k v entries keys hs,
)

keys_found :
    (entries : List (Key × ℕ))
    → AllKeys
        (λ key. is_some (doc_of (lookup entries (name key))) ≡ true)
        (strings docs (keys_of entries))
unfolding lookup strings
keys_found [] = tt
keys_found ((name key, v) ∷ entries) = (
  rw (lookup, bytes_eq_refl key) refl,
  found_later (name key) v entries (strings docs (keys_of entries)) (keys_found entries),
)
keys_found ((number n, v) ∷ entries) =
    found_later (number n) v entries (strings docs (keys_of entries)) (keys_found entries)

agree_number :
    (a b : Option ℕ) → same_option docs (doc_of a) (doc_of b) ≡ true → same_number a b ≡ true
unfolding same_doc
agree_number none none h = refl
agree_number (some a) (some b) h = h
agree_number none (some b) h = h
agree_number (some a) none h = h

Agree-all :
    (a b entries : List (Key × ℕ))
    → AllStrings docs (keys_of entries)
    → AllKeys (Agree docs (some a) (some b)) (strings docs (keys_of entries))
    → all_agree a b entries ≡ true
unfolding strings lookup
Agree-all a b [] s h = refl
Agree-all a b ((name key, v) ∷ entries) (s, ss) (h, hs) =
    rw (agree_number (lookup a (name key)) (lookup b (name key)) h) (Agree-all a b entries ss hs)
Agree-all a b ((number n, v) ∷ entries) (s, ss) h = absurd (cc s.0)

same_tables :
    (v w : Doc) (a b : List (Key × ℕ))
    → table_of v ≡ some a
    → table_of w ≡ some b
    → has_tag v ≡ false
    → has_tag w ≡ false
    → AllStrings docs (keys_of a)
    → AllStrings docs (keys_of b)
    → AllKeys (Agree docs (some a) (some b)) (strings docs (keys_of a))
    → AllKeys (Agree docs (some a) (some b)) (strings docs (keys_of b))
    → same_doc v w ≡ true
unfolding same_doc
same_tables (table x) (table z) a b p q tv tw sa sb u v =
    let pa : x ≡ a = cc p in
    let pb : z ≡ b = cc q in rw pa rw pb rw (Agree-all a b a sa u) (Agree-all a b b sb v)
same_tables (scalar n) w a b p q tv tw sa sb u v = absurd (cc p)
same_tables (text t) w a b p q tv tw sa sb u v = absurd (cc p)
same_tables (table x) (scalar n) a b p q tv tw sa sb u v = absurd (cc q)
same_tables (table x) (text t) a b p q tv tw sa sb u v = absurd (cc q)
same_tables (table x) (tagged z) a b p q tv tw sa sb u v = absurd (cc tw)
same_tables (tagged x) w a b p q tv tw sa sb u v = absurd (cc tv)

docs-IsLawful : IsLawful docs
docs-IsLawful = record { keys_there = λ m s. keys_found m; same_mappings = same_tables }

scalar_flat : (o : Option ℕ) (w : Doc) → doc_of o ≡ some w → table_of w ≡ none
scalar_flat none w h = absurd (cc h)
scalar_flat (some n) (scalar k) h = refl
scalar_flat (some n) (text t) h = absurd (cc h)
scalar_flat (some n) (table t) h = absurd (cc h)
scalar_flat (some n) (tagged t) h = absurd (cc h)

IsPlain-table :
    (entries : List (Key × ℕ)) → AllStrings docs (keys_of entries) → IsPlain docs 1 (table entries)
IsPlain-table entries s m h =
    let e : entries ≡ m = cc h in
    (
      subst (λ x. AllStrings docs (keys_of x)) e s,
      λ key w g. scalar_flat (lookup m (name key)) w g,
      refl,
    )

diff-IsExact_example : IsExact docs current desired (diff docs 2 current desired)
diff-IsExact_example =
    diff-IsExact docs 1 current desired docs-IsLawful
      (IsPlain-table current ((refl, refl), ((refl, refl), tt)))
      (IsPlain-table desired ((refl, refl), ((refl, refl), tt)))
