-- ===== src/Catalog/Values/Unique.antt =====
-- The duplicate checks of internal/catalog/merge_values.go.
use alex_cachyos.Prelude.{
  ◌≤◌, ◌≡◌, refl, true, List, [], ◌∷◌, eq_iff, if◌then◌else◌, contains, count, arith,
}
use alex_cachyos.Catalog.Values.{StableId, ValueError, is_merged, unique}

-- No id twice, and none of `seen`.
unique-count :
    (error : StableId → ValueError) (seen ids : List StableId) (v : StableId)
    → is_merged (unique error seen ids) ≡ true
    → count v ids ≤ (if contains seen v then 0 else 1)
unfolding unique contains
unique-count error seen [] v h = ground arith
unique-count error seen (id ∷ ids) v h =
    ground (arith, unique-count error (id ∷ seen) ids v, eq_iff id v)

pub unique-le :
    (error : StableId → ValueError) (ids : List StableId) (v : StableId)
    → is_merged (unique error [] ids) ≡ true
    → count v ids ≤ 1
unfolding contains
unique-le error ids v h = ground (arith, unique-count error [] ids v h)

fresh-unique :
    (error : StableId → ValueError) (seen ids : List StableId)
    → ((v : StableId) → count v ids ≤ (if contains seen v then 0 else 1))
    → is_merged (unique error seen ids) ≡ true
unfolding unique contains
fresh-unique error seen [] h = refl
fresh-unique error seen (id ∷ ids) h = ground (
  arith,
  h id,
  eq_iff id id,
  fresh-unique error (id ∷ seen) ids (λ v. ground (arith, h v, eq_iff id v)),
)

-- The converse: a list without a duplicate passes.
pub le-unique :
    (error : StableId → ValueError) (ids : List StableId)
    → ((v : StableId) → count v ids ≤ 1)
    → is_merged (unique error [] ids) ≡ true
unfolding contains
le-unique error ids h = fresh-unique error [] ids (λ v. ground (arith, h v))
