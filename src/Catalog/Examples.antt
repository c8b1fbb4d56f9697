-- ===== src/Catalog/Examples.antt =====
-- Merges of short lists and of the sample documents.
use alex_cachyos.Prelude.{
  lookup, true, ℕ, ◌≤◌, ◌≡◌, refl, String, none, List, [], ◌∷◌, contains, count, if◌then◌else◌,
}
use alex_cachyos.Catalog.Values.{
  NamedValue, ListPatch, merged, value_ids, unique, unique_ids, unique_named_values,
  unique_final_values, current_values, apply_list_patch, put_value, put_values,
  replace_complete_definitions,
}
use alex_cachyos.Catalog.Values.Merged.{find, apply_list_patch-find}
use alex_cachyos.Catalog.Sample.{
  quote, sample, global_document, laptop_document, laptop, laptop_resolved,
}
use alex_cachyos.Catalog.Merge.{merge_documents}
use alex_cachyos.Catalog.Merge.Sound.{gives_catalog, merge_documents-is_sound_document}
use alex_cachyos.Catalog.Repository.Owned.{IsOwned, resolve-IsOwned}

abbrev named : String → ℕ → NamedValue ℕ
named id value = record { id = id; value = value }

abbrev base_values : List (NamedValue ℕ)
base_values = named "a" 1 ∷ named "b" 2 ∷ []

-- `b` goes and comes back with another value.
abbrev patch : ListPatch ℕ
patch = record { replace = none; remove = "b" ∷ []; add = named "b" 3 ∷ named "c" 4 ∷ [] }

abbrev patched_values : List (NamedValue ℕ)
patched_values = named "a" 1 ∷ named "b" 3 ∷ named "c" 4 ∷ []

applied : apply_list_patch base_values patch ≡ merged patched_values
unfolding apply_list_patch unique_named_values unique_ids unique_final_values unique contains
applied = refl

apply_list_patch-find_example :
    (count "b" (value_ids patched_values) ≤ 1)
    × (find "b" patched_values ≡ (
        if contains (value_ids patch.add) "b"
        then find "b" patch.add
        else if contains patch.remove "b"
        then none
        else find "b" (current_values base_values patch.replace)))
apply_list_patch-find_example = apply_list_patch-find base_values patch patched_values "b" applied

abbrev replacements : List (NamedValue ℕ)
replacements = named "c" 4 ∷ named "a" 5 ∷ []

abbrev replaced_values : List (NamedValue ℕ)
replaced_values = named "a" 5 ∷ named "b" 2 ∷ named "c" 4 ∷ []

replaced : replace_complete_definitions base_values replacements ≡ merged replaced_values
unfolding replace_complete_definitions unique_named_values unique_final_values unique contains
    put_values put_value
replaced = refl

merge_documents-is_sound_document_example :
    gives_catalog (merge_documents (global_document ∷ laptop_document ∷ [])) ≡ true
unfolding lookup
merge_documents-is_sound_document_example =
    merge_documents-is_sound_document (global_document ∷ laptop_document ∷ [])

resolve-IsOwned_example : (laptop.name ≡ "laptop") × IsOwned sample laptop
resolve-IsOwned_example = resolve-IsOwned quote sample "laptop" laptop laptop_resolved
