-- ===== src/Catalog/Risks.antt =====
-- The risk capabilities and the risk policy of internal/catalog/types.go.
use alex_cachyos.Prelude.{String, Bool, false, List, [], ◌∷◌}

-- `RiskCapability` is a text in the source; `other` holds each that is none of the constants.
pub data RiskCapability : Type 0 where
  fingerprint_pam fixed_displays fixed_input_devices literal_home_paths : RiskCapability
  bootstrap_system_update bootstrap_package_removal bootstrap_boot_mutation cosmic_prune :
      RiskCapability
  other : String → RiskCapability

-- `riskCapabilities`
abbrev pub risk_capabilities : List RiskCapability
risk_capabilities =
    fingerprint_pam ∷ fixed_displays ∷ fixed_input_devices ∷ literal_home_paths
    ∷ bootstrap_system_update ∷ bootstrap_package_removal ∷ bootstrap_boot_mutation ∷ cosmic_prune
    ∷ []

abbrev pub capability_text : RiskCapability → String
capability_text fingerprint_pam = "fingerprintPam"
capability_text fixed_displays = "fixedDisplays"
capability_text fixed_input_devices = "fixedInputDevices"
capability_text literal_home_paths = "literalHomePaths"
capability_text bootstrap_system_update = "bootstrapSystemUpdate"
capability_text bootstrap_package_removal = "bootstrapPackageRemoval"
capability_text bootstrap_boot_mutation = "bootstrapBootMutation"
capability_text cosmic_prune = "cosmicPrune"
capability_text (other text) = text

pub record RiskPolicy : Type 0 where
  pub fingerprint_pam : Bool
  pub fixed_displays : Bool
  pub fixed_input_devices : Bool
  pub literal_home_paths : Bool
  pub bootstrap_system_update : Bool
  pub bootstrap_package_removal : Bool
  pub bootstrap_boot_mutation : Bool
  pub cosmic_prune : Bool

unfoldable pub allows : RiskPolicy → RiskCapability → Bool
allows policy RiskCapability.fingerprint_pam = policy.fingerprint_pam
allows policy RiskCapability.fixed_displays = policy.fixed_displays
allows policy RiskCapability.fixed_input_devices = policy.fixed_input_devices
allows policy RiskCapability.literal_home_paths = policy.literal_home_paths
allows policy RiskCapability.bootstrap_system_update = policy.bootstrap_system_update
allows policy RiskCapability.bootstrap_package_removal = policy.bootstrap_package_removal
allows policy RiskCapability.bootstrap_boot_mutation = policy.bootstrap_boot_mutation
allows policy RiskCapability.cosmic_prune = policy.cosmic_prune
allows policy (RiskCapability.other text) = false
