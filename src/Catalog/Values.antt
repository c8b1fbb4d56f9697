-- ===== src/Catalog/Values.antt =====
-- internal/catalog/merge_values.go: list patches and the replacement of complete definitions. The
-- value type is a parameter, as in the source.
pub mod Unique
pub mod Merged
use alex_cachyos.Prelude.{
  ℕ, zero, suc, ◌+◌, String, Bool, true, false, not, Option, none, some, List, [], ◌∷◌, ◌++◌, map,
  select, ◌==◌, if◌then◌else◌, contains,
}

abbrev pub StableId : Type 0
StableId = String

pub record NamedValue {ℓ} (T : Type ℓ) : Type ℓ where
  pub id : StableId
  pub value : T

-- `replace` is absent for a nil slice and present for an empty one.
pub record ListPatch {ℓ} (T : Type ℓ) : Type ℓ where
  pub replace : Option (List (NamedValue T))
  pub remove : List StableId
  pub add : List (NamedValue T)

pub data ValueError : Type 0 where
  duplicate_input duplicate_final : StableId → ValueError
  unsupported_kind expects_patch expects_values : String → ValueError

pub data Merge {ℓ} (A : Type ℓ) : Type ℓ where
  merged : A → Merge A
  refused : ValueError → Merge A

infixr 20 ◌>>=◌
abbrev pub ◌>>=◌ {ℓ κ} : {A : Type ℓ} → {B : Type κ} → Merge A → (A → Merge B) → Merge B
merged a >>= f = f a
refused e >>= f = refused e

abbrev pub is_merged {ℓ} : {A : Type ℓ} → Merge A → Bool
is_merged (merged _) = true
is_merged (refused _) = false

abbrev pub value_ids {ℓ} : {T : Type ℓ} → List (NamedValue T) → List StableId
value_ids values = map (λ value. value.id) values

-- The loop of `uniqueIDs`, `uniqueNamedValues` and `uniqueFinalValues`: they differ in their error.
unfoldable pub unique : (StableId → ValueError) → List StableId → List StableId → Merge (Unit {0})
unique error seen [] = merged tt
unique error seen (id ∷ ids) =
    let rest = unique error (id ∷ seen) ids in if contains seen id then refused (error id) else rest

unfoldable pub unique_ids : List StableId → Merge (Unit {0})
unique_ids ids = unique duplicate_input [] ids

module _ {ℓ} {T : Type ℓ} where
  unfoldable pub unique_named_values : List (NamedValue T) → Merge (Unit {0})
  unique_named_values values = unique duplicate_input [] (value_ids values)

  unfoldable pub unique_final_values : List (NamedValue T) → Merge (Unit {0})
  unique_final_values values = unique duplicate_final [] (value_ids values)

  abbrev pub or_empty : Option (List (NamedValue T)) → List (NamedValue T)
  or_empty none = []
  or_empty (some values) = values

  abbrev pub current_values :
      List (NamedValue T) → Option (List (NamedValue T)) → List (NamedValue T)
  current_values base none = base
  current_values base (some values) = values

  abbrev pub patched : List (NamedValue T) → ListPatch T → List (NamedValue T)
  patched base patch =
      select (λ value. not (contains patch.remove value.id)) (current_values base patch.replace)
      ++ patch.add

  unfoldable pub apply_list_patch : List (NamedValue T) → ListPatch T → Merge (List (NamedValue T))
  apply_list_patch base patch = unique_named_values base >>= λ _.
      unique_named_values (or_empty patch.replace) >>= λ _. unique_ids patch.remove >>= λ _.
      unique_named_values patch.add >>= λ _.
      unique_final_values (patched base patch) >>= λ _. merged (patched base patch)

  -- `result[position] = replacement` at the position of its id, or an append.
  unfoldable pub put_value : NamedValue T → List (NamedValue T) → List (NamedValue T)
  put_value replacement [] = replacement ∷ []
  put_value replacement (value ∷ values) =
      let rest = put_value replacement values in
      if value.id == replacement.id then replacement ∷ values else value ∷ rest

  unfoldable pub put_values : List (NamedValue T) → List (NamedValue T) → List (NamedValue T)
  put_values [] result = result
  put_values (replacement ∷ replacements) result =
      put_values replacements (put_value replacement result)

  unfoldable pub replace_complete_definitions :
      List (NamedValue T) → List (NamedValue T) → Merge (List (NamedValue T))
  replace_complete_definitions base replacements = unique_named_values base >>= λ _.
      unique_named_values replacements >>= λ _.
      unique_final_values (put_values replacements base) >>= λ _.
      merged (put_values replacements base)

-- The dynamic types that `MergeValues` tells apart in its argument of type `any`.
pub data AnyValue {ℓ} (T : Type ℓ) : Type ℓ where
  a_patch : ListPatch T → AnyValue T
  a_patch_pointer : Option (ListPatch T) → AnyValue T
  some_values : List (NamedValue T) → AnyValue T
  another : AnyValue T

module _ {ℓ} {T : Type ℓ} where
  abbrev merge_patch : List (NamedValue T) → AnyValue T → Merge (List (NamedValue T))
  merge_patch base (a_patch patch) = apply_list_patch base patch
  merge_patch base (a_patch_pointer (some patch)) = apply_list_patch base patch
  merge_patch base (a_patch_pointer none) = refused (expects_patch "listPatch")
  merge_patch base (some_values values) = refused (expects_patch "listPatch")
  merge_patch base another = refused (expects_patch "listPatch")

  abbrev merge_definitions : List (NamedValue T) → AnyValue T → Merge (List (NamedValue T))
  merge_definitions base (some_values values) = replace_complete_definitions base values
  merge_definitions base _ = refused (expects_values "completeDefinition")

  unfoldable pub merge_values :
      String → List (NamedValue T) → AnyValue T → Merge (List (NamedValue T))
  merge_values kind base value =
      if kind == "listPatch"
      then merge_patch base value
      else if kind == "completeDefinition"
      then merge_definitions base value
      else refused (unsupported_kind kind)
