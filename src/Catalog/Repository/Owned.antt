-- ===== src/Catalog/Repository/Owned.antt =====
-- A resolved host: its layers in order, and the risk policy that only its own document can grant.
use Prim.Native.String.{◌++◌ as ◌<>◌}
use alex_cachyos.Prelude.{
  ◌≤◌, String, ◌≡◌, refl, ◌∙◌, none, some, List, [], ◌∷◌, ◌++◌, map, lookup, contains, count, arith,
}
use alex_cachyos.Catalog.Documents.{global, host, Document}
use alex_cachyos.Catalog.Merge.{merged, merge_documents}
use alex_cachyos.Catalog.Merge.Layers.{IsLayered, merge_documents-IsLayered}
use alex_cachyos.Catalog.Checks.{validate, strings_of}
use alex_cachyos.Catalog.Repository.{
  Repository, ResolvedHostPolicy, resolved, layer, known_host, validate_repository_layer,
  role_documents, merge_layers, accept, host_risks, resolve, resolve_document, resolve_layers,
}
use alex_cachyos.Catalog.Repository.Roles.{
  >>=-eq-resolved, layer-eq-none, lookup-known_host, merge_layers-merged, accept_same,
  layer_unowned, role_documents-Found, role_documents-count, last_some-unowned,
}

module _ (repository : Repository) (policy : ResolvedHostPolicy) where
  -- Where a resolved policy comes from.
  pub record IsOwned : Type 0 where
    pub document : Document
    pub role_layers : List Document
    pub known : lookup policy.name repository.hosts ≡ some document
    pub declared : policy.roles ≡ strings_of document.roles
    pub found :
        map (λ name. lookup name repository.roles) policy.roles
        ≡ map (λ layer. some layer) role_layers
    pub distinct : (name : String) → count name policy.roles ≤ 1
    pub layered : IsLayered (repository.global ∷ (role_layers ++ document ∷ [])) policy.desired
    pub risks : policy.risks ≡ host_risks document.risk_policy
    pub owned : policy.desired.risk_policy ≡ document.risk_policy

module _ (quote : String → String) (repository : Repository) (name : String)
    (policy : ResolvedHostPolicy) where
  -- What the last part of `Resolve` makes.
  abbrev Made : Document → List Document → Type 0
  Made document role_layers =
      (policy.name ≡ name)
      × (policy.roles ≡ strings_of document.roles)
      × (policy.risks ≡ host_risks document.risk_policy)
      × (merge_documents (repository.global ∷ (role_layers ++ document ∷ []))
          ≡ merged policy.desired)

  resolve_layers-Made :
      (document : Document) (role_layers : List Document)
      → resolve_layers quote repository name document role_layers ≡ resolved policy
      → Made document role_layers
  unfolding resolve_layers
  resolve_layers-Made document role_layers h =
      let (desired, merging, h') =
        >>=-eq-resolved
          (merge_layers (merge_documents (repository.global ∷ (role_layers ++ document ∷ [])))) _ _
          h in
      let (valid, accepted, made) =
        >>=-eq-resolved (accept (validate quote repository.assets desired) desired) _ _ h' in
      (cc, cc, cc, cc (merge_layers-merged _ _ merging, (accept_same _ _ _ accepted).1))

  abbrev Layers : Document → Type 0
  Layers document =
      (role_layers : List Document) × (validate_repository_layer repository.global global ≡ none)
      × (role_documents repository.roles 0 [] (strings_of document.roles) ≡ resolved role_layers)
      × Made document role_layers

  resolve_document-Layers :
      (document : Document)
      → resolve_document quote repository name document ≡ resolved policy
      → Layers document
  unfolding resolve_document
  resolve_document-Layers document h =
      let (_, global_valid, h1) =
        >>=-eq-resolved (layer "global" (validate_repository_layer repository.global global)) _ _
          h in
      let (_, host_valid, h2) =
        >>=-eq-resolved (layer ("host " <> name) (validate_repository_layer document host)) _ _
          h1 in
      let (role_layers, found, h3) =
        >>=-eq-resolved (role_documents repository.roles 0 [] (strings_of document.roles)) _ _ h2 in
      (
        role_layers,
        layer-eq-none _ _ global_valid,
        found,
        resolve_layers-Made document role_layers h3,
      )

  Layers-IsOwned :
      (document : Document)
      → lookup name repository.hosts ≡ some document
      → Layers document
      → IsOwned repository policy
  unfolding contains
  Layers-IsOwned document known
        (role_layers, global_valid, found, (named, declared, risks, merging)) =
      let roles_found = role_documents-Found repository.roles 0 [] _ role_layers found in
      let layered = merge_documents-IsLayered _ policy.desired merging in
      record {
        document = document;
        role_layers = role_layers;
        known = rw (named) known;
        declared = declared;
        found = rw (declared) (roles_found.0);
        distinct =
            λ v. rw (declared) (role_documents-count repository.roles 0 [] _ role_layers v found);
        layered = layered;
        risks = risks;
        owned =
            layered.risk_policy
            ∙ (ground (
              arith,
              last_some-unowned role_layers document roles_found.1,
              layer_unowned repository.global global refl global_valid,
            ));
      }

  -- A host that is resolved is in the inventory. Its roles are those that its document declares, each
  -- once and known; its desired state is layered from the global document, the roles' documents in
  -- the declared order and the host's own; and its risk policy, also that of the desired state, is
  -- the one of the host's own document, which denies all if there is none.
  pub resolve-IsOwned :
      resolve quote repository name ≡ resolved policy
      → (policy.name ≡ name) × IsOwned repository policy
  unfolding resolve
  resolve-IsOwned h =
      let (document, known, h') =
        >>=-eq-resolved (known_host repository name (lookup name repository.hosts)) _ _ h in
      let layers = resolve_document-Layers document h' in
      (
        layers.3.0,
        Layers-IsOwned document (lookup-known_host repository name _ document known) layers,
      )
