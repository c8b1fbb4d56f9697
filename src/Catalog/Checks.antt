-- ===== src/Catalog/Checks.antt =====
-- internal/catalog/validate.go: `Validate`. A lookup of assets is a read-only file system, of which
-- only matters whether it has a file; `quote` is `%q` of the standard library.
use Prim.Native.String.{◌++◌ as ◌<>◌}
use alex_cachyos.Prelude.{
  ℕ, suc, String, Bool, true, false, not, Option, none, some, List, [], ◌∷◌, ◌++◌, Map, lookup,
  is_some, if◌then◌else◌, contains, is_empty,
}
use alex_cachyos.Prelude.Numbers.{is_pos, decimal}
use alex_cachyos.Catalog.Documents.{Kind, host, CheckoutPin, Catalog}
use alex_cachyos.Catalog.Sources.{Issues, issue, child_pointer, sorted_names}
use alex_cachyos.Catalog.Merge.{is_known_kind, sort_validation_issues}

-- `KnownModules`
abbrev pub known_modules : List String
known_modules =
    "bootstrap" ∷ "fingerprint" ∷ "devtools" ∷ "apps" ∷ "vicinae" ∷ "desktop" ∷ "verify" ∷ []

abbrev pub is_host : Kind → Bool
is_host host = true
is_host _ = false

abbrev pub strings_of : Option (List String) → List String
strings_of none = []
strings_of (some values) = values

abbrev issue_if : Bool → String → String → Issues
issue_if true path message = issue path message ∷ []
issue_if false path message = []

module _ (quote : String → String) where
  unfoldable pub role_issues : ℕ → List String → List String → Issues
  role_issues i seen [] = []
  role_issues i seen (role ∷ roles) =
      (if is_empty role
        then issue ("/roles/" <> decimal i) "role name is empty" ∷ []
        else issue_if (contains seen role) ("/roles/" <> decimal i)
            ("duplicate role " <> quote role))
      ++ role_issues (suc i) (if is_empty role then seen else role ∷ seen) roles

  unfoldable pub module_issues : List String → Issues
  module_issues [] = []
  module_issues (name ∷ names) =
      issue_if (not (contains known_modules name)) (child_pointer "/modules" name)
        ("unknown module " <> quote name)
      ++ module_issues names

  abbrev asset_issue : Option (String → Bool) → String → String → Issues
  asset_issue none path ref =
      issue path ("asset " <> quote ref <> " cannot be resolved: asset lookup is unavailable") ∷ []
  asset_issue (some has_asset) path ref =
      issue_if (not (has_asset ref)) path ("asset " <> quote ref <> " is missing")

  unfoldable pub validate_asset_refs : Option (String → Bool) → String → ℕ → List String → Issues
  validate_asset_refs assets field i [] = []
  validate_asset_refs assets field i (ref ∷ refs) =
      asset_issue assets ("/" <> field <> "/" <> decimal i) ref
      ++ validate_asset_refs assets field (suc i) refs

  abbrev field_issue : String → String → String → Issues
  field_issue name field value =
      issue_if (is_empty value) (child_pointer (child_pointer "/checkoutPins" name) field)
        "required checkout-pin field is empty"

  abbrev pin_issues : String → Option CheckoutPin → Issues
  pin_issues name none = []
  pin_issues name (some pin) =
      field_issue name "remote" pin.remote
      ++ (field_issue name "branch" pin.branch ++ field_issue name "commit" pin.commit)

  unfoldable pub checkout_issues : Map CheckoutPin → List String → Issues
  checkout_issues pins [] = []
  checkout_issues pins (name ∷ names) =
      pin_issues name (lookup name pins) ++ checkout_issues pins names

  abbrev names_of {ℓ} : {V : Type ℓ} → Option (Map V) → List String
  names_of none = []
  names_of (some m) = sorted_names m

  abbrev pins_of : Option (Map CheckoutPin) → Map CheckoutPin
  pins_of none = []
  pins_of (some pins) = pins

  abbrev pub owner_issues : Catalog → Issues
  owner_issues catalog =
      if is_host catalog.kind
      then []
      else issue_if (is_some catalog.roles) "/roles" "roles are host-owned"
        ++ issue_if (is_some catalog.risk_policy) "/riskPolicy" "risk policy is host-owned"

  -- The issues, sorted; none of them is a nil error.
  unfoldable pub validate : Option (String → Bool) → Catalog → Issues
  validate assets catalog = sort_validation_issues (
      issue_if (not (is_pos catalog.catalog_version 1)) "/catalogVersion"
        "unsupported catalog version"
      ++ (issue_if (not (is_known_kind catalog.kind)) "/kind" "unsupported catalog kind"
          ++ (owner_issues catalog
              ++ (role_issues 0 [] (strings_of catalog.roles)
                  ++ (module_issues (names_of catalog.modules)
                      ++ (validate_asset_refs assets "templates" 0 (strings_of catalog.templates)
                          ++ (validate_asset_refs assets "overlays" 0 (strings_of catalog.overlays)
                              ++ checkout_issues (pins_of catalog.checkout_pins)
                                  (names_of catalog.checkout_pins))))))))
