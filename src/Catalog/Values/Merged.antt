-- ===== src/Catalog/Values/Merged.antt =====
-- What the merges of internal/catalog/merge_values.go give for each id.
use alex_cachyos.Prelude.{
  contains-count, ◌+◌, ◌≤◌, ◌≡◌, refl, Bool, true, false, not, ◌&&◌, Option, none, some, List, [],
  ◌∷◌, ◌++◌, select, ◌==◌, eq_iff, if◌then◌else◌, contains, count, arith, is_some, beq_nat,
}
use alex_cachyos.Catalog.Values.{
  StableId, NamedValue, ListPatch, duplicate_input, duplicate_final, merged, is_merged, value_ids,
  unique, unique_named_values, unique_final_values, current_values, apply_list_patch, put_value,
  put_values, replace_complete_definitions,
}
use alex_cachyos.Catalog.Values.Unique.{unique-le, le-unique}

module _ {T : Type 0} where
  -- The value of an id.
  abbrev pub find : StableId → List (NamedValue T) → Option T
  find v [] = none
  find v (value ∷ values) = if value.id == v then some value.value else find v values

  find-is_some :
      (v : StableId) (values : List (NamedValue T))
      → is_some (find v values) ≡ contains (value_ids values) v
  unfolding contains
  find-is_some v [] = refl
  find-is_some v (value ∷ values) = ground (arith, find-is_some v values)

  find-append :
      (v : StableId) (xs ys : List (NamedValue T))
      → find v (xs ++ ys) ≡ (if is_some (find v xs) then find v xs else find v ys)
  find-append v [] ys = refl
  find-append v (x ∷ xs) ys = ground (arith, find-append v xs ys)

  find-select :
      (removed : List StableId) (v : StableId) (values : List (NamedValue T))
      → find v (select (λ value. not (contains removed value.id)) values)
        ≡ (if contains removed v then none else find v values)
  find-select removed v [] = ground arith
  find-select removed v (value ∷ values) =
      ground (arith, find-select removed v values, eq_iff value.id v)

  value_ids-append :
      (v : StableId) (xs ys : List (NamedValue T))
      → count v (value_ids (xs ++ ys)) ≡ count v (value_ids xs) + count v (value_ids ys)
  value_ids-append v [] ys = omega arith
  value_ids-append v (x ∷ xs) ys = ground (arith, value_ids-append v xs ys)

  module _ (base : List (NamedValue T)) (patch : ListPatch T) where
    kept : List (NamedValue T)
    kept =
        select (λ value. not (contains patch.remove value.id)) (current_values base patch.replace)

    final :
        (result : List (NamedValue T))
        → apply_list_patch base patch ≡ merged result
        → (result ≡ kept ++ patch.add)
          × (is_merged (unique duplicate_final [] (value_ids (kept ++ patch.add))) ≡ true)
    unfolding apply_list_patch unique_final_values kept
    final result e = ground (arith, e)

    -- If a list patch is applied, no id stands in the result twice, and an id has the value that
    -- `add` gives it; else none if `remove` names it; else its value in `replace`, or in the base
    -- list if the patch has no `replace`.
    pub apply_list_patch-find :
        (result : List (NamedValue T)) (v : StableId)
        → apply_list_patch base patch ≡ merged result
        → (count v (value_ids result) ≤ 1)
          × (find v result ≡ (
              if contains (value_ids patch.add) v
              then find v patch.add
              else if contains patch.remove v
              then none
              else find v (current_values base patch.replace)))
    unfolding kept
    apply_list_patch-find result v e =
        let (same, passed) = final result e in
        let once = unique-le duplicate_final (value_ids (kept ++ patch.add)) v passed in
        ground (
          arith,
          same,
          once,
          value_ids-append v kept patch.add,
          find-append v kept patch.add,
          find-select patch.remove v (current_values base patch.replace),
          find-is_some v kept,
          find-is_some v patch.add,
          contains-count (value_ids kept) v,
          contains-count (value_ids patch.add) v,
        )

  put_value-count :
      (v : StableId) (r : NamedValue T) (values : List (NamedValue T))
      → count v (value_ids (put_value r values)) ≡ (
          if r.id == v && beq_nat (count v (value_ids values)) 0
          then 1
          else count v (value_ids values))
  unfolding put_value
  put_value-count v r [] = ground arith
  put_value-count v r (x ∷ values) =
      ground (arith, put_value-count v r values, eq_iff x.id r.id, eq_iff r.id v, eq_iff x.id v)

  find-put_value :
      (v : StableId) (r : NamedValue T) (values : List (NamedValue T))
      → find v (put_value r values) ≡ (if r.id == v then some r.value else find v values)
  unfolding put_value
  find-put_value v r [] = ground arith
  find-put_value v r (x ∷ values) =
      ground (arith, find-put_value v r values, eq_iff x.id r.id, eq_iff r.id v, eq_iff x.id v)

  put_values-le :
      (v : StableId) (rs values : List (NamedValue T))
      → count v (value_ids values) ≤ 1
      → count v (value_ids (put_values rs values)) ≤ 1
  unfolding put_values
  put_values-le v [] values h = h
  put_values-le v (r ∷ rs) values h =
      put_values-le v rs (put_value r values) (ground (arith, h, put_value-count v r values))

  find-put_values :
      (v : StableId) (rs values : List (NamedValue T))
      → count v (value_ids rs) ≤ 1
      → find v (put_values rs values) ≡ (if is_some (find v rs) then find v rs else find v values)
  unfolding put_values
  find-put_values v [] values h = refl
  find-put_values v (r ∷ rs) values h = ground (
    arith,
    h,
    find-put_values v rs (put_value r values),
    find-put_value v r values,
    find-is_some v rs,
    contains-count (value_ids rs) v,
  )

  -- If complete definitions are replaced, an id has the value of the replacements, or where they
  -- have none its value in the base list, and no id stands in the result twice.
  replace_complete_definitions-find :
      (base replacements result : List (NamedValue T)) (v : StableId)
      → replace_complete_definitions base replacements ≡ merged result
      → (count v (value_ids result) ≤ 1)
        × (find v result
            ≡ (if is_some (find v replacements) then find v replacements else find v base))
  unfolding replace_complete_definitions unique_named_values
  replace_complete_definitions-find base replacements result v e = ground (
    arith,
    e,
    find-put_values v replacements base,
    put_values-le v replacements base,
    unique-le duplicate_input (value_ids replacements) v,
    unique-le duplicate_input (value_ids base) v,
  )

  -- Complete definitions are replaced if and only if no id stands twice in the base list or in the
  -- replacements: the check of the result never fails.
  replace_complete_definitions-is_merged :
      (base replacements : List (NamedValue T))
      → is_merged (replace_complete_definitions base replacements)
        ≡ (is_merged (unique_named_values base) && is_merged (unique_named_values replacements))
  unfolding replace_complete_definitions unique_named_values unique_final_values
  replace_complete_definitions-is_merged base replacements =
      go (is_merged (unique duplicate_input [] (value_ids base))) refl
    where
      go :
          (b : Bool)
          → is_merged (unique duplicate_input [] (value_ids base)) ≡ b
          → is_merged (replace_complete_definitions base replacements)
            ≡ (is_merged (unique_named_values base) && is_merged (unique_named_values replacements))
      go true e = ground (
        arith,
        e,
        le-unique duplicate_final (value_ids (put_values replacements base)) (λ v.
            put_values-le v replacements base (unique-le duplicate_input (value_ids base) v e)),
      )
      go false e = ground (arith, e)
