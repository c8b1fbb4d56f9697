-- ===== src/Catalog/Merge/Layers.antt =====
-- Later layers win: what `MergeDocuments` gives for each field and key.
use alex_cachyos.Prelude.{
  String, ◌≡◌, refl, sym, true, is_some, Option, none, some, List, [], ◌∷◌, map, lookup, ap, ◌∙◌,
  subst, arith,
}
use alex_cachyos.Catalog.Documents.{Document, Catalog, Kind}
use alex_cachyos.Prelude.Numbers.{ℤ}
use alex_cachyos.Catalog.Merge.Sound.{
  is_version_one, has_known_kind, is_sound_document, gives_catalog,
  merge_documents-is_sound_document,
}
use alex_cachyos.Catalog.Sources.{
  later, Issues, copy_entry, convert_pacman_artifact, convert_aur_local, convert_remote_artifact,
  convert_checkout,
}
use alex_cachyos.Catalog.Sources.Entries.{lookup_in, converted}
use alex_cachyos.Catalog.Merge.{
  merge_document, merge_all, merge_documents, no_catalog, merged, finish_merge, present,
}
use alex_cachyos.Catalog.Merge.Steps.{
  last_some, pin_layer, pins_in, State, step_roles, step_risk_policy, step_templates, step_overlays,
  step_modules, step_checkout_pins, step_npm, step_local_path, step_pacman, step_aur, step_remote,
}

module _ {ℓ} {A : Type ℓ} (field : Catalog → Option A) (layer : Document → Option A)
    (step : (document : Document) (state : Catalog × Issues)
      → field (merge_document document state).0 ≡ later (layer document) (field state.0)) where
  -- One step of the loop decides the whole loop.
  merge_all-layers :
      (documents : List Document) (state : Catalog × Issues)
      → field (merge_all documents state).0
        ≡ later (last_some (map layer documents)) (field state.0)
  unfolding merge_all
  merge_all-layers [] state = refl
  merge_all-layers (document ∷ documents) state =
      ground
        (arith, merge_all-layers documents (merge_document document state), step document state)

module _ (documents : List Document) (catalog : Catalog) where
  -- The catalog that the layers describe.
  pub record IsLayered : Type 0 where
    pub catalog_version :
        some catalog.catalog_version
        ≡ last_some (map (λ document. document.catalog_version) documents)
    pub kind : some catalog.kind ≡ last_some (map (λ document. document.kind) documents)
    pub roles : catalog.roles ≡ last_some (map (λ document. document.roles) documents)
    pub risk_policy :
        catalog.risk_policy ≡ last_some (map (λ document. document.risk_policy) documents)
    pub templates : catalog.templates ≡ last_some (map (λ document. document.templates) documents)
    pub overlays : catalog.overlays ≡ last_some (map (λ document. document.overlays) documents)
    pub modules :
        (key : String)
        → lookup_in key catalog.modules
          ≡ last_some (map (λ document. lookup_in key document.modules) documents)
    pub npm :
        (key : String)
        → lookup_in key (pins_in catalog).npm
          ≡ last_some (map (pin_layer copy_entry (λ pins. pins.npm) key) documents)
    pub local_path_packages :
        (key : String)
        → lookup_in key (pins_in catalog).local_path_packages
          ≡ last_some (map (pin_layer copy_entry (λ pins. pins.local_path_packages) key) documents)
    pub pacman_artifacts :
        (key : String)
        → lookup_in key (pins_in catalog).pacman_artifacts
          ≡ last_some (
              map (pin_layer convert_pacman_artifact (λ pins. pins.pacman_artifacts) key) documents)
    pub aur_local :
        (key : String)
        → lookup_in key (pins_in catalog).aur_local
          ≡ last_some (map (pin_layer convert_aur_local (λ pins. pins.aur_local) key) documents)
    pub remote_artifacts :
        (key : String)
        → lookup_in key (pins_in catalog).remote_artifacts
          ≡ last_some (
              map (pin_layer convert_remote_artifact (λ pins. pins.remote_artifacts) key) documents)
    pub checkout_pins :
        (key : String)
        → lookup_in key catalog.checkout_pins
          ≡ last_some
              (map (λ document. converted convert_checkout document.checkout_pins key) documents)

later-none {ℓ} : {A : Type ℓ} (value : Option A) → later value none ≡ value
later-none none = refl
later-none (some value) = refl

present-later {ℓ} :
    {A : Type ℓ} (value : Option A) (before : A)
    → some (present value before) ≡ later value (some before)
present-later none before = refl
present-later (some value) before = refl

step_version :
    (d : Document) (s : State)
    → some (merge_document d s).0.catalog_version
      ≡ later d.catalog_version (some s.0.catalog_version)
unfolding merge_document
step_version d (m, issues) = present-later d.catalog_version m.catalog_version

step_kind :
    (d : Document) (s : State) → some (merge_document d s).0.kind ≡ later d.kind (some s.0.kind)
unfolding merge_document
step_kind d (m, issues) = present-later d.kind m.kind

later-is_some {ℓ} :
    {A : Type ℓ} (value before : Option A) → is_some value ≡ true → later value before ≡ value
later-is_some none before h = cc
later-is_some (some value) before h = refl

-- Where the first layer has a value, the last one that has a value is there.
first-is_some {ℓ} :
    {A : Type ℓ} (later_values value : Option A)
    → is_some value ≡ true
    → is_some (later later_values value) ≡ true
first-is_some none value h = h
first-is_some (some last) value h = refl

merge_all-required :
    {A : Type 0} (field : Catalog → A) (layer : Document → Option A)
    (step : (d : Document) (s : State)
      → some (field (merge_document d s).0) ≡ later (layer d) (some (field s.0)))
    (d : Document) (documents : List Document)
    → is_some (layer d) ≡ true
    → some (field (merge_all (d ∷ documents) (no_catalog, [])).0)
      ≡ last_some (map layer (d ∷ documents))
merge_all-required field layer step d documents given =
    merge_all-layers (λ c. some (field c)) layer step (d ∷ documents) (no_catalog, [])
    ∙ later-is_some (last_some (map layer (d ∷ documents))) _
        (first-is_some (last_some (map layer documents)) (layer d) given)

version-is_some : (version : Option ℤ) → is_version_one version ≡ true → is_some version ≡ true
version-is_some none h = h
version-is_some (some version) h = refl

kind-is_some : (kind : Option Kind) → has_known_kind kind ≡ true → is_some kind ≡ true
kind-is_some none h = h
kind-is_some (some kind) h = refl

merge_all-IsLayered :
    (d : Document) (others : List Document)
    → is_sound_document d ≡ true
    → IsLayered (d ∷ others) (merge_all (d ∷ others) (no_catalog, [])).0
unfolding lookup
merge_all-IsLayered d others sound = record {
  catalog_version =
      merge_all-required (λ c. c.catalog_version) (λ d. d.catalog_version) step_version d others
        (version-is_some d.catalog_version (ground (arith, sound)));
  kind =
      merge_all-required (λ c. c.kind) (λ d. d.kind) step_kind d others
        (kind-is_some d.kind (ground (arith, sound)));
  roles = closed (λ c. c.roles) (λ d. d.roles) step_roles refl;
  risk_policy = closed (λ c. c.risk_policy) (λ d. d.risk_policy) step_risk_policy refl;
  templates = closed (λ c. c.templates) (λ d. d.templates) step_templates refl;
  overlays = closed (λ c. c.overlays) (λ d. d.overlays) step_overlays refl;
  modules = λ key.
      closed (λ c. lookup_in key c.modules) (λ d. lookup_in key d.modules) (step_modules key) refl;
  npm = λ key.
      closed (λ c. lookup_in key (pins_in c).npm) (pin_layer copy_entry (λ p. p.npm) key)
        (step_npm key) refl;
  local_path_packages = λ key.
      closed (λ c. lookup_in key (pins_in c).local_path_packages)
        (pin_layer copy_entry (λ p. p.local_path_packages) key) (step_local_path key) refl;
  pacman_artifacts = λ key.
      closed (λ c. lookup_in key (pins_in c).pacman_artifacts)
        (pin_layer convert_pacman_artifact (λ p. p.pacman_artifacts) key) (step_pacman key) refl;
  aur_local = λ key.
      closed (λ c. lookup_in key (pins_in c).aur_local)
        (pin_layer convert_aur_local (λ p. p.aur_local) key) (step_aur key) refl;
  remote_artifacts = λ key.
      closed (λ c. lookup_in key (pins_in c).remote_artifacts)
        (pin_layer convert_remote_artifact (λ p. p.remote_artifacts) key) (step_remote key) refl;
  checkout_pins = λ key.
      closed (λ c. lookup_in key c.checkout_pins)
        (λ d. converted convert_checkout d.checkout_pins key) (step_checkout_pins key) refl;
}
  where
    documents : List Document
    documents = d ∷ others

    closed :
        {A : Type 0} (field : Catalog → Option A) (layer : Document → Option A)
        → ((d : Document) (s : State) → field (merge_document d s).0 ≡ later (layer d) (field s.0))
        → field no_catalog ≡ none
        → field (merge_all documents (no_catalog, [])).0 ≡ last_some (map layer documents)
    closed field layer step start =
        merge_all-layers field layer step documents (no_catalog, [])
        ∙ ap (later (last_some (map layer documents))) start
        ∙ later-none (last_some (map layer documents))

finish_merge-merged :
    (s : State) (catalog : Catalog) → finish_merge s ≡ merged catalog → s.0 ≡ catalog
finish_merge-merged (m, []) catalog e = cc
finish_merge-merged (m, i ∷ issues) catalog e = cc

pub merge_documents-IsLayered :
    (documents : List Document) (catalog : Catalog)
    → merge_documents documents ≡ merged catalog
    → IsLayered documents catalog
unfolding merge_documents
merge_documents-IsLayered [] catalog e = cc
merge_documents-IsLayered (d ∷ documents) catalog e =
    subst (IsLayered (d ∷ documents)) (finish_merge-merged _ catalog e) (
      merge_all-IsLayered d documents (
        ground
          (arith, sym (merge_documents-is_sound_document (d ∷ documents)) ∙ ap gives_catalog e)))
