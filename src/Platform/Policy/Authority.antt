-- ===== src/Platform/Policy/Authority.antt =====
-- Evidence never grants what the host's own document denies.
use alex_cachyos.Prelude.{String, ◌≡◌, Bool, true, Option, none, some, lookup, arith, refl, false}
use alex_cachyos.Catalog.Risks.{RiskCapability, RiskPolicy, allows, capability_text}
use alex_cachyos.Catalog.Documents.{Document}
use alex_cachyos.Catalog.Repository.{Repository, ResolvedHostPolicy, resolved, host_risks, resolve}
use alex_cachyos.Catalog.Repository.Owned.{resolve-IsOwned}
use alex_cachyos.Platform.Policy.{ready, observed, Capabilities, capability_evidence}

capability_evidence-ready :
    (policy : ResolvedHostPolicy) (evidence : Capabilities) (capability : RiskCapability)
    (detail : String)
    → capability_evidence policy evidence capability ≡ observed ready detail
    → (allows policy.risks capability ≡ true)
      × (lookup (capability_text capability) evidence ≡ some (ready, detail))
unfolding capability_evidence
capability_evidence-ready policy evidence capability detail e = ground (arith, e)

abbrev pub grants : Option RiskPolicy → RiskCapability → Bool
grants none capability = false
grants (some policy) capability = allows policy capability

granted :
    (policy : Option RiskPolicy) (c : RiskCapability)
    → allows (host_risks policy) c ≡ grants policy c
unfolding allows
granted none (RiskCapability.fingerprint_pam) = refl
granted none c = ground arith
granted (some policy) c = refl

-- A capability counts as ready for a resolved host only if the host's own document grants it, whatever
-- the global document and the roles' documents say, and the evidence for it says so.
pub capability_evidence-grants :
    (quote : String → String) (repository : Repository) (name : String)
    (policy : ResolvedHostPolicy) (evidence : Capabilities) (capability : RiskCapability)
    (detail : String)
    → resolve quote repository name ≡ resolved policy
    → capability_evidence policy evidence capability ≡ observed ready detail
    → (document : Document) × (lookup name repository.hosts ≡ some document)
      × (grants document.risk_policy capability ≡ true)
      × (lookup (capability_text capability) evidence ≡ some (ready, detail))
capability_evidence-grants quote repository name policy evidence capability detail made e =
    let (named, owned) = resolve-IsOwned quote repository name policy made in
    let (allowed, found) = capability_evidence-ready policy evidence capability detail e in
    (
      owned.document,
      cc (named, owned.known),
      cc (granted owned.document.risk_policy capability, owned.risks, allowed),
      found,
    )
