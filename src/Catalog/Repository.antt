-- ===== src/Catalog/Repository.antt =====
-- internal/catalog/repository.go: the inventory of documents and `Resolve`. A clone is the value
-- itself.
pub mod Roles
pub mod Owned
use Prim.Native.String.{◌++◌ as ◌<>◌}
use alex_cachyos.Prelude.{
  ℕ, suc, String, Bool, true, false, not, ◌&&◌, Option, none, some, List, [], ◌∷◌, ◌++◌, Map,
  lookup, is_some, ◌==◌, if◌then◌else◌, contains, is_nil,
}
use alex_cachyos.Catalog.Risks.{RiskPolicy}
use alex_cachyos.Catalog.Documents.{
  Kind, global, role, host, other, Document, Catalog, ValidationError,
}
use alex_cachyos.Catalog.Sources.{Issues, sorted_names}
use alex_cachyos.Catalog.Merge.{Merging, merged, no_document, invalid_documents, merge_documents}
use alex_cachyos.Catalog.Checks.{validate, strings_of, is_host}

-- A repository's lookup of assets may be nil.
pub record Repository : Type 0 where
  pub global : Document
  pub roles : Map Document
  pub hosts : Map Document
  pub assets : Option (String → Bool)

pub record ResolvedHostPolicy : Type 0 where
  pub name : String
  pub roles : List String
  pub desired : Catalog
  pub risks : RiskPolicy

-- The error of a layer, whose label is the caller's.
pub data LayerError : Type 0 where
  missing_version missing_kind roles_host_owned risk_policy_host_owned : LayerError
  wrong_kind : (got want : Kind) → LayerError

pub data ResolveError : Type 0 where
  empty_role_name empty_host_name : ResolveError
  unknown_host : String → List String → ResolveError
  invalid_layer : (label : String) → LayerError → ResolveError
  duplicate_role unknown_role : ℕ → String → ResolveError
  no_layers : ResolveError
  invalid_catalog : Issues → ResolveError

pub data Resolve {ℓ} (A : Type ℓ) : Type ℓ where
  resolved : A → Resolve A
  unresolved : ResolveError → Resolve A

infixr 20 ◌>>=◌
abbrev pub ◌>>=◌ {ℓ κ} : {A : Type ℓ} → {B : Type κ} → Resolve A → (A → Resolve B) → Resolve B
resolved a >>= f = f a
unresolved e >>= f = unresolved e

-- `NewRepository`
unfoldable pub new_repository :
    Document → Map Document → Map Document → Option (String → Bool) → Resolve Repository
new_repository global_document roles hosts assets =
    if is_some (lookup "" roles)
    then unresolved empty_role_name
    else if is_some (lookup "" hosts)
    then unresolved empty_host_name
    else resolved
        (record { global = global_document; roles = roles; hosts = hosts; assets = assets })

abbrev pub known_hosts : Repository → List String
known_hosts repository = sorted_names repository.hosts

abbrev pub kind_text : Kind → String
kind_text global = "Global"
kind_text role = "Role"
kind_text host = "Host"
kind_text (other text) = text

abbrev pub check_kind : Document → Option Kind → Kind → Option LayerError
check_kind document none want = some missing_kind
check_kind document (some kind) want =
    if not (kind_text kind == kind_text want)
    then some (wrong_kind kind want)
    else if not (is_host want) && is_some document.roles
    then some roles_host_owned
    else if not (is_host want) && is_some document.risk_policy
    then some risk_policy_host_owned
    else none

unfoldable pub validate_repository_layer : Document → Kind → Option LayerError
validate_repository_layer document want =
    if not (is_some document.catalog_version)
    then some missing_version
    else check_kind document document.kind want

abbrev pub layer : String → Option LayerError → Resolve (Unit {0})
layer label none = resolved tt
layer label (some error) = unresolved (invalid_layer label error)

abbrev pub known_role : ℕ → String → Option Document → Resolve Document
known_role i name none = unresolved (unknown_role i name)
known_role i name (some document) = resolved document

-- The loop over the host's roles: their documents, in order.
unfoldable pub role_documents :
    Map Document → ℕ → List String → List String → Resolve (List Document)
role_documents roles i seen [] = resolved []
role_documents roles i seen (name ∷ names) =
    let rest = role_documents roles (suc i) (name ∷ seen) names in
    if contains seen name
    then unresolved (duplicate_role i name)
    else known_role i name (lookup name roles) >>= λ document.
        layer ("role " <> name) (validate_repository_layer document role) >>= λ _.
        rest >>= λ documents. resolved (document ∷ documents)

abbrev pub merge_layers : Merging → Resolve Catalog
merge_layers (merged catalog) = resolved catalog
merge_layers no_document = unresolved no_layers
merge_layers (invalid_documents issues) = unresolved (invalid_catalog issues)

abbrev pub accept : Issues → Catalog → Resolve Catalog
accept [] catalog = resolved catalog
accept (i ∷ issues) catalog = unresolved (invalid_catalog (i ∷ issues))

-- The zero value denies all.
abbrev pub no_risks : RiskPolicy
no_risks = record {
  fingerprint_pam = false;
  fixed_displays = false;
  fixed_input_devices = false;
  literal_home_paths = false;
  bootstrap_system_update = false;
  bootstrap_package_removal = false;
  bootstrap_boot_mutation = false;
  cosmic_prune = false;
}

abbrev pub host_risks : Option RiskPolicy → RiskPolicy
host_risks none = no_risks
host_risks (some policy) = policy

abbrev pub known_host : Repository → String → Option Document → Resolve Document
known_host repository name none = unresolved (unknown_host name (known_hosts repository))
known_host repository name (some document) = resolved document

module _ (quote : String → String) where
  -- `Resolve` behind the loop over the roles.
  unfoldable pub resolve_layers :
      Repository → String → Document → List Document → Resolve ResolvedHostPolicy
  resolve_layers repository name document role_layers =
      merge_layers (merge_documents (repository.global ∷ (role_layers ++ document ∷ [])))
      >>= λ desired. accept (validate quote repository.assets desired) desired >>= λ valid.
          resolved (record {
            name = name;
            roles = strings_of document.roles;
            desired = valid;
            risks = host_risks document.risk_policy;
          })

  unfoldable pub resolve_document : Repository → String → Document → Resolve ResolvedHostPolicy
  resolve_document repository name document =
      layer "global" (validate_repository_layer repository.global global) >>= λ _.
      layer ("host " <> name) (validate_repository_layer document host) >>= λ _.
      role_documents repository.roles 0 [] (strings_of document.roles) >>= λ role_layers.
      resolve_layers repository name document role_layers

  unfoldable pub resolve : Repository → String → Resolve ResolvedHostPolicy
  resolve repository name =
      known_host repository name (lookup name repository.hosts) >>= λ document.
      resolve_document repository name document
