-- ===== src/Catalog/Sample.antt =====
-- An inventory with one role and one host, for the examples.
use alex_cachyos.Prelude.{
  String, ◌≡◌, refl, true, false, none, some, [], ◌∷◌, lookup, insert, contains, sort_by,
  insert_sorted,
}
use alex_cachyos.Prelude.Numbers.{pos, decimal}
use alex_cachyos.Catalog.Risks.{RiskPolicy}
use alex_cachyos.Catalog.Documents.{Kind, global, role, host, omitted, given, Document, Catalog}
use alex_cachyos.Catalog.Sources.{
  sorted_names, put_entries, merge_source, convert_checkout, required_checkout_field, child_pointer,
  escape_pointer,
}
use alex_cachyos.Catalog.Merge.{
  no_pins, merged, merge_pins, merge_document, merge_all, merge_documents, sort_validation_issues,
}
use alex_cachyos.Catalog.Checks.{
  validate, role_issues, module_issues, validate_asset_refs, checkout_issues,
}
use alex_cachyos.Catalog.Repository.{
  Repository, ResolvedHostPolicy, resolved, resolve, resolve_document, resolve_layers,
  role_documents, validate_repository_layer,
}

abbrev empty_document : Kind → Document
empty_document kind = record {
  catalog_version = some (pos 1);
  kind = some kind;
  roles = none;
  risk_policy = none;
  modules = none;
  templates = none;
  overlays = none;
  pins = none;
  checkout_pins = omitted;
}

abbrev pub global_document : Document
global_document = record (empty_document global) {
  modules = some (("bootstrap", true) ∷ ("apps", true) ∷ []);
  templates = some ("templates/roles/desktop/bar" ∷ []);
}

abbrev pub desktop_document : Document
desktop_document = record (empty_document role) {
  modules = some (("desktop", true) ∷ ("apps", false) ∷ []);
  pins = some (record {
    npm = given (("typescript", "5.4.0") ∷ []);
    pacman_artifacts = omitted;
    aur_local = omitted;
    remote_artifacts = omitted;
    local_path_packages = omitted;
  });
}

abbrev pub laptop_risks : RiskPolicy
laptop_risks = record {
  fingerprint_pam = true;
  fixed_displays = true;
  fixed_input_devices = false;
  literal_home_paths = false;
  bootstrap_system_update = false;
  bootstrap_package_removal = false;
  bootstrap_boot_mutation = false;
  cosmic_prune = false;
}

abbrev commit : String
commit = "0123456789012345678901234567890123456789"

abbrev pub laptop_document : Document
laptop_document = record (empty_document host) {
  roles = some ("desktop" ∷ []);
  risk_policy = some laptop_risks;
  templates =
      some ("templates/hosts/laptop/fingerprintPam/sudo" ∷ "templates/roles/desktop/bar" ∷ []);
  overlays = some ("overlays/laptop/kernel" ∷ []);
  checkout_pins = given (
      (
        "dotfiles",
        record {
          remote = some "https://example.org/dotfiles";
          branch = some "main";
          commit = some commit;
        },
      )
      ∷ []);
}

abbrev pub sample : Repository
sample = record {
  global = global_document;
  roles = ("desktop", desktop_document) ∷ [];
  hosts = ("laptop", laptop_document) ∷ [];
  assets = some (λ path. true);
}

abbrev pub laptop_catalog : Catalog
laptop_catalog = record {
  catalog_version = pos 1;
  kind = host;
  roles = some ("desktop" ∷ []);
  risk_policy = some laptop_risks;
  modules = some (("apps", false) ∷ ("bootstrap", true) ∷ ("desktop", true) ∷ []);
  templates =
      some ("templates/hosts/laptop/fingerprintPam/sudo" ∷ "templates/roles/desktop/bar" ∷ []);
  overlays = some ("overlays/laptop/kernel" ∷ []);
  pins = some (record no_pins { npm = some (("typescript", "5.4.0") ∷ []) });
  checkout_pins = some (
      (
        "dotfiles",
        record { remote = "https://example.org/dotfiles"; branch = "main"; commit = commit },
      )
      ∷ []);
}

abbrev pub laptop : ResolvedHostPolicy
laptop = record {
  name = "laptop";
  roles = "desktop" ∷ [];
  desired = laptop_catalog;
  risks = laptop_risks;
}

abbrev pub quote : String → String
quote text = text

pub laptop_merged :
    merge_documents (global_document ∷ desktop_document ∷ laptop_document ∷ [])
    ≡ merged laptop_catalog
unfolding merge_documents merge_all merge_document merge_source put_entries sorted_names sort_by
    merge_pins lookup convert_checkout required_checkout_field insert
laptop_merged = refl

pub laptop_resolved : resolve quote sample "laptop" ≡ resolved laptop
unfolding resolve resolve_document validate_repository_layer role_documents contains resolve_layers
    merge_documents merge_all merge_document merge_source put_entries sorted_names sort_by
    merge_pins lookup convert_checkout required_checkout_field insert validate checkout_issues
    module_issues role_issues validate_asset_refs sort_validation_issues child_pointer
    escape_pointer decimal insert_sorted
laptop_resolved = refl
