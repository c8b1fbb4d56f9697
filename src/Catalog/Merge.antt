-- ===== src/Catalog/Merge.antt =====
-- internal/catalog/merge.go: `MergeDocuments` and `mergePins`. Copies of slices and of pointers are
-- the values themselves.
pub mod Steps
pub mod Layers
pub mod Sound
use alex_cachyos.Prelude.{
  String, Bool, true, false, not, ◌&&◌, ◌||◌, Option, none, some, List, [], ◌∷◌, ◌++◌, Map, lookup,
  insert, sort_by, text_less, ◌==◌, if◌then◌else◌, is_nil, all,
}
use alex_cachyos.Prelude.Numbers.{ℤ, pos, is_pos}
use alex_cachyos.Catalog.Risks.{RiskPolicy}
use alex_cachyos.Catalog.Documents.{
  Kind, global, role, host, other, PinsDocument, Document, Pins, Catalog, ValidationError,
}
use alex_cachyos.Catalog.Sources.{
  later, Issues, issue, sorted_names, or_made, copy_entry, put_entries, merge_source,
  convert_pacman_artifact, convert_aur_local, convert_remote_artifact, convert_checkout,
}

abbrev pub no_pins : Pins
no_pins = record {
  npm = none;
  pacman_artifacts = none;
  aur_local = none;
  remote_artifacts = none;
  local_path_packages = none;
}

-- The zero value of `Catalog`.
abbrev pub no_catalog : Catalog
no_catalog = record {
  catalog_version = pos 0;
  kind = other "";
  roles = none;
  risk_policy = none;
  modules = none;
  templates = none;
  overlays = none;
  pins = none;
  checkout_pins = none;
}

abbrev or_no_pins : Option Pins → Pins
or_no_pins none = no_pins
or_no_pins (some pins) = pins

abbrev pub nil_definitions : String
nil_definitions = "pin definitions are nil"

-- `mergePins`; that its document is there is tested by the caller.
unfoldable pub merge_pins : Pins → PinsDocument → Issues → Pins × Issues
merge_pins merged source issues =
    let (npm, after_npm) =
      merge_source copy_entry "/pins/npm" nil_definitions source.npm merged.npm issues in
    let (packages, after_packages) =
      merge_source copy_entry "/pins/localPathPackages" nil_definitions source.local_path_packages
        merged.local_path_packages after_npm in
    let (pacman, after_pacman) =
      merge_source convert_pacman_artifact "/pins/pacmanArtifacts" nil_definitions
        source.pacman_artifacts merged.pacman_artifacts after_packages in
    let (aur, after_aur) =
      merge_source convert_aur_local "/pins/aurLocal" nil_definitions source.aur_local
        merged.aur_local after_pacman in
    let (remote, after_remote) =
      merge_source convert_remote_artifact "/pins/remoteArtifacts" nil_definitions
        source.remote_artifacts merged.remote_artifacts after_aur in
    (
      record {
        npm = npm;
        pacman_artifacts = pacman;
        aur_local = aur;
        remote_artifacts = remote;
        local_path_packages = packages;
      },
      after_remote,
    )

abbrev pub merge_pins_pointer : Option Pins → Option PinsDocument → Issues → Option Pins × Issues
merge_pins_pointer merged none issues = (merged, issues)
merge_pins_pointer merged (some source) issues =
    let (pins, after) = merge_pins (or_no_pins merged) source issues in (some pins, after)

abbrev pub version_issues : Option ℤ → Issues
version_issues none = issue "/catalogVersion" "required catalog field is missing" ∷ []
version_issues (some version) =
    if is_pos version 1 then [] else issue "/catalogVersion" "unsupported catalog version" ∷ []

abbrev pub is_known_kind : Kind → Bool
is_known_kind (other _) = false
is_known_kind _ = true

abbrev pub kind_issues : Option Kind → Issues
kind_issues none = issue "/kind" "required catalog field is missing" ∷ []
kind_issues (some kind) =
    if is_known_kind kind then [] else issue "/kind" "unsupported catalog kind" ∷ []

-- A field that is present replaces the one before.
abbrev pub present {ℓ} : {A : Type ℓ} → Option A → A → A
present none before = before
present (some value) before = value

abbrev pub merge_modules : Option (Map Bool) → Option (Map Bool) → Option (Map Bool)
merge_modules none merged = merged
merge_modules (some modules) merged =
    some (put_entries copy_entry modules (sorted_names modules) (or_made merged) []).0

-- The body of the loop over the documents.
unfoldable pub merge_document : Document → Catalog × Issues → Catalog × Issues
merge_document document (merged, issues) =
    let before = issues ++ (version_issues document.catalog_version ++ kind_issues document.kind) in
    let (checkouts, after_checkouts) =
      merge_source convert_checkout "/checkoutPins" "checkout-pin definitions are nil"
        document.checkout_pins merged.checkout_pins before in
    let (pins, after_pins) = merge_pins_pointer merged.pins document.pins after_checkouts in
    (
      record {
        catalog_version = present document.catalog_version merged.catalog_version;
        kind = present document.kind merged.kind;
        roles = later document.roles merged.roles;
        risk_policy = later document.risk_policy merged.risk_policy;
        modules = merge_modules document.modules merged.modules;
        templates = later document.templates merged.templates;
        overlays = later document.overlays merged.overlays;
        pins = pins;
        checkout_pins = checkouts;
      },
      after_pins,
    )

unfoldable pub merge_all : List Document → Catalog × Issues → Catalog × Issues
merge_all [] state = state
merge_all (document ∷ documents) state = merge_all documents (merge_document document state)

abbrev pub issue_less : ValidationError → ValidationError → Bool
issue_less i j = if i.path == j.path then text_less i.message j.message else text_less i.path j.path

-- `sortValidationIssues`
unfoldable pub sort_validation_issues : Issues → Issues
sort_validation_issues issues = sort_by issue_less issues

-- What `MergeDocuments` returns.
pub data Merging : Type 0 where
  merged : Catalog → Merging
  no_document : Merging
  invalid_documents : Issues → Merging

abbrev pub finish_merge : Catalog × Issues → Merging
finish_merge (catalog, []) = merged catalog
finish_merge (catalog, i ∷ issues) = invalid_documents (sort_validation_issues (i ∷ issues))

unfoldable pub merge_documents : List Document → Merging
merge_documents [] = no_document
merge_documents (document ∷ documents) =
    finish_merge (merge_all (document ∷ documents) (no_catalog, []))
