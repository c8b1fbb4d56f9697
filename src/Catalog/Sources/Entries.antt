-- ===== src/Catalog/Sources/Entries.antt =====
-- What one source map contributes: for each key, and to the issues.
use alex_cachyos.Prelude.{
  ltb, contains-count, is_nil-append, String, ◌≡◌, refl, Bool, true, false, not, ◌&&◌, Option, none,
  some, List, [], ◌∷◌, ◌++◌, Map, keys, lookup, lookup-insert, sort_by, sort_by-count, text_less,
  ◌==◌, if◌then◌else◌, contains, count_if, all, is_nil, is_some, eq_iff, arith,
}
use alex_cachyos.Catalog.Documents.{Source, omitted, nil_source, given}
use alex_cachyos.Catalog.Sources.{
  later, Issues, issue, Convert, sorted_names, or_made, convert_entry, put, put_entries,
  merge_source,
}

abbrev pub lookup_in {ℓ} : {V : Type ℓ} → String → Option (Map V) → Option V
lookup_in key none = none
lookup_in key (some m) = lookup key m

module _ {ℓ} {V : Type ℓ} where
  contains-keys : (m : Map V) (key : String) → contains (keys m) key ≡ is_some (lookup key m)
  unfolding contains lookup
  contains-keys [] key = refl
  contains-keys (entry ∷ m) key = ground (arith, contains-keys m key)

  contains-sorted_names :
      (m : Map V) (key : String) → contains (sorted_names m) key ≡ is_some (lookup key m)
  unfolding sorted_names
  contains-sorted_names m key = ground (
    arith,
    contains-count (sort_by text_less (keys m)) key,
    contains-count (keys m) key,
    sort_by-count text_less (λ y. y == key) (keys m),
    contains-keys m key,
  )

all-count {ℓ} :
    {A : Type ℓ} (p : A → Bool) (xs : List A)
    → all p xs ≡ not (ltb 0 (count_if (λ x. not (p x)) xs))
all-count p [] = refl
all-count p (x ∷ xs) = ground (arith, all-count p xs)

all-sorted_names {ℓ} :
    {V : Type ℓ} (p : String → Bool) (m : Map V) → all p (sorted_names m) ≡ all p (keys m)
unfolding sorted_names
all-sorted_names p m = ground (
  arith,
  all-count p (sort_by text_less (keys m)),
  all-count p (keys m),
  sort_by-count text_less (λ x. not (p x)) (keys m),
)

module _ {ℓ κ} {D : Type ℓ} {P : Type κ} (convert : Convert D P) where
  abbrev pub converted : Source D → String → Option P
  converted (given source) key = (convert_entry convert key (lookup key source)).0
  converted _ key = none

  abbrev pub has_issue : Map D → String → Bool
  has_issue source key = not (is_nil (convert_entry convert key (lookup key source)).1)

  abbrev pub is_sound : Source D → Bool
  is_sound omitted = true
  is_sound nil_source = false
  is_sound (given source) = all (λ key. not (has_issue source key)) (keys source)

  lookup-put :
      (name key : String) (pin : Option P) (m : Map P)
      → lookup key (put name pin m)
        ≡ (if name == key then later pin (lookup key m) else lookup key m)
  lookup-put name key none m = ground arith
  lookup-put name key (some value) m = lookup-insert name key value m

  lookup-put_entries :
      (source : Map D) (names : List String) (m : Map P) (issues : Issues) (key : String)
      → lookup key (put_entries convert source names m issues).0 ≡ (
          if contains names key
          then later (converted (given source) key) (lookup key m)
          else lookup key m)
  unfolding put_entries contains
  lookup-put_entries source [] m issues key = refl
  lookup-put_entries source (name ∷ names) m issues key =
      let entry = convert_entry convert name (lookup name source) in
      ground (
        arith,
        lookup-put_entries source names (put name entry.0 m) (issues ++ entry.1) key,
        lookup-put name key entry.0 m,
        eq_iff name key,
      )

  is_nil-put_entries :
      (source : Map D) (names : List String) (m : Map P) (issues : Issues)
      → is_nil (put_entries convert source names m issues).1
        ≡ (is_nil issues && all (λ key. not (has_issue source key)) names)
  unfolding put_entries
  is_nil-put_entries source [] m issues = ground arith
  is_nil-put_entries source (name ∷ names) m issues =
      let entry = convert_entry convert name (lookup name source) in
      ground (
        arith,
        is_nil-put_entries source names (put name entry.0 m) (issues ++ entry.1),
        is_nil-append issues entry.1,
      )

  lookup-or_made : (m : Option (Map P)) (key : String) → lookup key (or_made m) ≡ lookup_in key m
  unfolding lookup
  lookup-or_made none key = refl
  lookup-or_made (some m) key = refl

  -- A key has the source's pin, if it has one that is converted, and else what it had.
  pub lookup_in-merge_source :
      (path message : String) (source : Source D) (m : Option (Map P)) (issues : Issues)
      (key : String)
      → lookup_in key (merge_source convert path message source m issues).0
        ≡ later (converted source key) (lookup_in key m)
  unfolding merge_source
  lookup_in-merge_source path message omitted m issues key = refl
  lookup_in-merge_source path message nil_source m issues key = refl
  lookup_in-merge_source path message (given source) m issues key = ground (
    arith,
    lookup-put_entries source (sorted_names source) (or_made m) issues key,
    contains-sorted_names source key,
    lookup-or_made m key,
  )

  pub is_nil-merge_source :
      (path message : String) (source : Source D) (m : Option (Map P)) (issues : Issues)
      → is_nil (merge_source convert path message source m issues).1
        ≡ (is_nil issues && is_sound source)
  unfolding merge_source
  is_nil-merge_source path message omitted m issues = ground arith
  is_nil-merge_source path message nil_source m issues =
      ground (arith, is_nil-append issues (issue path message ∷ []))
  is_nil-merge_source path message (given source) m issues = ground (
    arith,
    is_nil-put_entries source (sorted_names source) (or_made m) issues,
    all-sorted_names (λ key. not (has_issue source key)) source,
  )
