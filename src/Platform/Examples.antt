-- ===== src/Platform/Examples.antt =====
-- The evidence for the fingerprint capability, on a host whose policy allows it.
use alex_cachyos.Prelude.{codes, contains, has_prefix, same, ◌≡◌, refl, true, some, [], ◌∷◌, lookup}
use alex_cachyos.Catalog.Risks.{fingerprint_pam, allows, capability_text}
use alex_cachyos.Catalog.Documents.{Document}
use alex_cachyos.Catalog.Sample.{quote, sample, laptop, laptop_resolved}
use alex_cachyos.Platform.Policy.{
  ready, blocked, observed, Capabilities, capability_evidence, validate_asset_ownership,
  check_template, check_overlay, cut_slash,
}
use alex_cachyos.Platform.Policy.Ownership.{IsOwnAsset, validate_asset_ownership-IsOwnAsset}
use alex_cachyos.Platform.Policy.Authority.{grants, capability_evidence-grants}

abbrev seen : Capabilities
seen = ("fixedDisplays", (blocked, "no display")) ∷ ("fingerprintPam", (ready, "reader")) ∷ []

laptop_owns : validate_asset_ownership laptop ≡ true
unfolding validate_asset_ownership check_template has_prefix cut_slash same allows check_overlay
laptop_owns = refl

laptop_ready : capability_evidence laptop seen fingerprint_pam ≡ observed ready "reader"
unfolding capability_evidence allows lookup
laptop_ready = refl

capability_evidence-grants_example :
    (document : Document) × (lookup "laptop" sample.hosts ≡ some document)
    × (grants document.risk_policy fingerprint_pam ≡ true)
    × (lookup (capability_text fingerprint_pam) seen ≡ some (ready, "reader"))
capability_evidence-grants_example =
    capability_evidence-grants quote sample "laptop" laptop seen fingerprint_pam "reader"
      laptop_resolved laptop_ready

validate_asset_ownership-IsOwnAsset_example : IsOwnAsset laptop (codes "laptop/fingerprintPam/sudo")
unfolding contains
validate_asset_ownership-IsOwnAsset_example =
    validate_asset_ownership-IsOwnAsset laptop "templates/hosts/laptop/fingerprintPam/sudo"
      (codes "laptop/fingerprintPam/sudo") laptop_owns refl refl
