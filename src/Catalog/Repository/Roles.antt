-- ===== src/Catalog/Repository/Roles.antt =====
-- What each step of `Resolve` found, if it succeeded, and the documents of the roles.
use alex_cachyos.Prelude.{
  ℕ, suc, ◌≤◌, String, ◌≡◌, refl, subst, false, Option, none, some, List, [], ◌∷◌, ◌++◌, map, Map,
  lookup, eq_iff, if◌then◌else◌, contains, count, All, Bool-cases, inl, inr, arith,
}
use alex_cachyos.Catalog.Documents.{Kind, role, Document, Catalog}
use alex_cachyos.Catalog.Sources.{Issues}
use alex_cachyos.Catalog.Merge.{Merging, merged, no_document, invalid_documents}
use alex_cachyos.Catalog.Merge.Steps.{last_some}
use alex_cachyos.Catalog.Checks.{is_host}
use alex_cachyos.Catalog.Repository.{
  Repository, LayerError, Resolve, resolved, unresolved, ◌>>=◌, layer, known_role, known_host,
  validate_repository_layer, check_kind, role_documents, merge_layers, accept,
}

pub >>=-eq-resolved {ℓ κ} :
    {A : Type ℓ} {B : Type κ} (m : Resolve A) (f : A → Resolve B) (b : B)
    → (m >>= f) ≡ resolved b
    → (a : A) × (m ≡ resolved a) × (f a ≡ resolved b)
>>=-eq-resolved (resolved a) f b h = (a, refl, h)
>>=-eq-resolved (unresolved e) f b h = cc

pub layer-eq-none :
    (label : String) (error : Option LayerError) → layer label error ≡ resolved tt → error ≡ none
layer-eq-none label none h = refl
layer-eq-none label (some error) h = cc

lookup-known_role :
    (i : ℕ) (name : String) (found : Option Document) (document : Document)
    → known_role i name found ≡ resolved document
    → found ≡ some document
lookup-known_role i name none document h = cc
lookup-known_role i name (some d) document h = cc

pub lookup-known_host :
    (repository : Repository) (name : String) (found : Option Document) (document : Document)
    → known_host repository name found ≡ resolved document
    → found ≡ some document
lookup-known_host repository name none document h = cc
lookup-known_host repository name (some d) document h = cc

pub merge_layers-merged :
    (m : Merging) (catalog : Catalog) → merge_layers m ≡ resolved catalog → m ≡ merged catalog
merge_layers-merged (merged c) catalog h = cc
merge_layers-merged no_document catalog h = cc
merge_layers-merged (invalid_documents issues) catalog h = cc

pub accept_same :
    (issues : Issues) (c valid : Catalog)
    → accept issues c ≡ resolved valid
    → (issues ≡ []) × (c ≡ valid)
accept_same [] c valid h = (refl, cc)
accept_same (i ∷ issues) c valid h = cc

check_kind_unowned :
    (document : Document) (kind : Option Kind) (want : Kind)
    → is_host want ≡ false
    → check_kind document kind want ≡ none
    → document.risk_policy ≡ none
check_kind_unowned document none want other_kind valid = cc
check_kind_unowned document (some kind) want other_kind valid = ground arith

-- A layer that is not a host's grants no risk.
pub layer_unowned :
    (document : Document) (want : Kind)
    → is_host want ≡ false
    → validate_repository_layer document want ≡ none
    → document.risk_policy ≡ none
unfolding validate_repository_layer
layer_unowned document want other_kind valid =
    check_kind_unowned document document.kind want other_kind (ground arith)

-- The documents of distinct roles, in order.
abbrev Found : Map Document → List String → List Document → Type 0
Found roles names documents =
    (map (λ name. lookup name roles) names ≡ map (λ document. some document) documents)
    × All (λ document. document.risk_policy ≡ none) documents

-- What the first round of the loop found, and that the others succeeded.
abbrev FirstRole : Map Document → ℕ → List String → String → List String → List Document → Type 0
FirstRole roles i seen name names documents =
    (document : Document) × (others : List Document) × (contains seen name ≡ false)
    × (lookup name roles ≡ some document)
    × (validate_repository_layer document role ≡ none)
    × (role_documents roles (suc i) (name ∷ seen) names ≡ resolved others)
    × (document ∷ others ≡ documents)

role_documents-FirstRole :
    (roles : Map Document) (i : ℕ) (seen : List String) (name : String) (names : List String)
    (documents : List Document)
    → role_documents roles i seen (name ∷ names) ≡ resolved documents
    → FirstRole roles i seen name names documents
unfolding role_documents
role_documents-FirstRole roles i seen name names documents h =
    elim (Bool-cases (contains seen name)) [
      | inl again ↦ absurd (ground (arith, again, h))
      | inr new ↦
          let (document, known, h') = >>=-eq-resolved _ _ _ (rw new at h) in
          let (checked, valid, h'') = >>=-eq-resolved _ _ _ h' in
          let (others, rest, made) = >>=-eq-resolved _ _ _ h'' in
          (
            document,
            others,
            new,
            lookup-known_role i name _ _ known,
            layer-eq-none _ _ (valid),
            rest,
            cc,
          )
    ]

pub role_documents-Found :
    (roles : Map Document) (i : ℕ) (seen names : List String) (documents : List Document)
    → role_documents roles i seen names ≡ resolved documents
    → Found roles names documents
role_documents-Found roles i seen [] documents h =
    let none_left : [] ≡ documents = unfold role_documents in cc in
    subst (Found roles []) none_left (refl, tt)
role_documents-Found roles i seen (name ∷ names) documents h =
    let (document, others, new, known, valid, rest, made) =
      role_documents-FirstRole roles i seen name names documents h in
    let (found, unowned) = role_documents-Found roles (suc i) (name ∷ seen) names others rest in
    subst (Found roles (name ∷ names)) made (cc, (layer_unowned document role refl valid, unowned))

pub role_documents-count :
    (roles : Map Document) (i : ℕ) (seen names : List String) (documents : List Document)
    (v : String)
    → role_documents roles i seen names ≡ resolved documents
    → count v names ≤ (if contains seen v then 0 else 1)
unfolding contains
role_documents-count roles i seen [] documents v h = ground arith
role_documents-count roles i seen (name ∷ names) documents v h =
    let (document, others, new, known, valid, rest, made) =
      role_documents-FirstRole roles i seen name names documents h in
    ground
      (arith, role_documents-count roles (suc i) (name ∷ seen) names others v rest, eq_iff name v)

-- The last grant in a list of layers of which only the host's may have one.
pub last_some-unowned :
    (documents : List Document) (own : Document)
    → All (λ document. document.risk_policy ≡ none) documents
    → last_some (map (λ document. document.risk_policy) (documents ++ own ∷ [])) ≡ own.risk_policy
last_some-unowned [] own unowned = ground arith
last_some-unowned (document ∷ documents) own unowned =
    ground (arith, last_some-unowned documents own unowned.1)
