-- ===== src/Platform/Policy.antt =====
-- internal/platform/cachyos/policy.go: the evidence of a capability and the ownership of assets.
pub mod Authority
pub mod Ownership
use alex_cachyos.Prelude.{
  ℕ, String, Bool, true, false, not, ◌&&◌, ◌||◌, Option, none, some, List, [], ◌∷◌, beq_nat, select,
  any, if◌then◌else◌, is_nil, codes, Points, same, has_prefix, contains, ◌==◌, lookup, Map,
}
use alex_cachyos.Catalog.Risks.{
  RiskCapability, risk_capabilities, capability_text, RiskPolicy, allows,
}
use alex_cachyos.Catalog.Checks.{strings_of}
use alex_cachyos.Catalog.Repository.{ResolvedHostPolicy}

unfoldable pub observation_request_for : ResolvedHostPolicy → List RiskCapability
observation_request_for policy = select (allows policy.risks) risk_capabilities

-- `EvidenceState` is a text too; the empty one counts as unknown.
pub data EvidenceState : Type 0 where
  ready blocked unknown : EvidenceState
  invalid : String → EvidenceState

pub data Evidence : Type 0 where
  denied : Evidence
  observed : EvidenceState → (detail : String) → Evidence
  invalid_state : String → Evidence

-- The map of evidence, from a capability's text to its state and detail.
abbrev pub Capabilities : Type 0
Capabilities = Map (EvidenceState × String)

abbrev pub classify : Option (EvidenceState × String) → Evidence
classify none = observed unknown ""
classify (some (invalid text, detail)) =
    if text == "" then observed unknown detail else invalid_state text
classify (some (state, detail)) = observed state detail

unfoldable pub capability_evidence : ResolvedHostPolicy → Capabilities → RiskCapability → Evidence
capability_evidence policy evidence capability =
    if not (allows policy.risks capability)
    then denied
    else classify (lookup (capability_text capability) evidence)

-- `strings.Cut(text, "/")`
unfoldable pub cut_slash : Points → Points × Points × Bool
cut_slash [] = ([], [], false)
cut_slash (c ∷ s) =
    let (before, after, found) = cut_slash s in
    if beq_nat c b'/' then ([], s, true) else (c ∷ before, after, found)

-- `strings.TrimPrefix`, of a text that has the prefix.
abbrev pub drop_prefix : Points → Points → Points
drop_prefix [] s = s
drop_prefix (p ∷ prefix) [] = []
drop_prefix (p ∷ prefix) (c ∷ s) = drop_prefix prefix s

abbrev pub hosts_prefix : Points
hosts_prefix = codes "templates/hosts/"

abbrev pub roles_prefix : Points
roles_prefix = codes "templates/roles/"

-- The known capabilities with this text that the policy allows.
abbrev pub is_known_capability : Points → Bool
is_known_capability text = any (λ c. same (codes (capability_text c)) text) risk_capabilities

abbrev pub is_allowed_text : RiskPolicy → Points → Bool
is_allowed_text risks text =
    any (λ c. same (codes (capability_text c)) text && allows risks c) risk_capabilities

abbrev pub declares_role : ResolvedHostPolicy → Points → Bool
declares_role policy role = any (λ declared. same (codes declared) role) policy.roles

abbrev pub check_capability : ResolvedHostPolicy → Bool → Points × Points × Bool → Bool
check_capability policy found (capability, asset, separated) =
    found
    && separated
    && not (is_nil asset)
    && is_known_capability capability
    && is_allowed_text policy.risks capability

abbrev pub check_host_template : ResolvedHostPolicy → Points × Points × Bool → Bool
check_host_template policy (owner, remainder, found) =
    not (is_nil owner)
    && same owner (codes policy.name)
    && check_capability policy found (cut_slash remainder)

abbrev pub check_role_template : ResolvedHostPolicy → Points × Points × Bool → Bool
check_role_template policy (owner, asset, found) =
    found && not (is_nil owner) && not (is_nil asset) && declares_role policy owner

unfoldable pub check_template : ResolvedHostPolicy → Points → Bool
check_template policy name =
    if has_prefix name hosts_prefix
      && not (check_host_template policy (cut_slash (drop_prefix hosts_prefix name)))
    then false
    else if has_prefix name roles_prefix
        && not (check_role_template policy (cut_slash (drop_prefix roles_prefix name)))
    then false
    else not (
        has_prefix name (codes "templates/niri/")
        || has_prefix name (codes "templates/noctalia/")
        || has_prefix name (codes "templates/hyprwhspr/"))

abbrev pub check_owner : ResolvedHostPolicy → Points × Points × Bool → Bool
check_owner policy (owner, rest, found) = not (is_nil owner) && same owner (codes policy.name)

unfoldable pub check_overlay : ResolvedHostPolicy → Points → Bool
check_overlay policy name =
    if not (has_prefix name (codes "overlays/"))
    then true
    else check_owner policy (cut_slash (drop_prefix (codes "overlays/") name))

-- `validateAssetOwnership`: whether it returns nil.
unfoldable pub validate_asset_ownership : ResolvedHostPolicy → Bool
validate_asset_ownership policy =
    not
      (any (λ name. not (check_template policy (codes name))) (strings_of policy.desired.templates))
    && not
        (any (λ name. not (check_overlay policy (codes name))) (strings_of policy.desired.overlays))
