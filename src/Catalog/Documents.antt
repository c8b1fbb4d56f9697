-- ===== src/Catalog/Documents.antt =====
-- The types of internal/catalog/types.go and the pins of pins.go. A pointer that may be nil is an
-- `Option`. A document's modules map is only iterated, so that a nil map is an empty one; its pin
-- maps are a `Source`, where nil is an error.
use alex_cachyos.Prelude.{String, Bool, Option, List, Map}
use alex_cachyos.Prelude.Numbers.{ℤ}
use alex_cachyos.Catalog.Risks.{RiskPolicy}

-- A kind is a text; `other` holds each text that is none of the constants.
pub data Kind : Type 0 where
  global role host : Kind
  other : String → Kind

-- `*map[string]V`
pub data Source {ℓ} (V : Type ℓ) : Type ℓ where
  omitted nil_source : Source V
  given : Map V → Source V

pub record PacmanArtifactPinDocument : Type 0 where
  pub package_name : Option String
  pub version : Option String
  pub source : Option String
  pub sha256 : Option String

pub record AurLocalPinDocument : Type 0 where
  pub source_commit : Option String
  pub patch_sha256 : Option String

pub record RemoteArtifactPinDocument : Type 0 where
  pub url : Option String
  pub sha256 : Option String

pub record CheckoutPinDocument : Type 0 where
  pub remote : Option String
  pub branch : Option String
  pub commit : Option String

pub record PinsDocument : Type 0 where
  pub npm : Source String
  pub pacman_artifacts : Source PacmanArtifactPinDocument
  pub aur_local : Source AurLocalPinDocument
  pub remote_artifacts : Source RemoteArtifactPinDocument
  pub local_path_packages : Source String

pub record Document : Type 0 where
  pub catalog_version : Option ℤ
  pub kind : Option Kind
  pub roles : Option (List String)
  pub risk_policy : Option RiskPolicy
  pub modules : Option (Map Bool)
  pub templates : Option (List String)
  pub overlays : Option (List String)
  pub pins : Option PinsDocument
  pub checkout_pins : Source CheckoutPinDocument

pub record PacmanArtifactPin : Type 0 where
  pub package_name : String
  pub version : String
  pub source : String
  pub sha256 : String

pub record AurLocalPin : Type 0 where
  pub source_commit : String
  pub patch_sha256 : String

pub record RemoteArtifactPin : Type 0 where
  pub url : String
  pub sha256 : String

pub record CheckoutPin : Type 0 where
  pub remote : String
  pub branch : String
  pub commit : String

-- A source that is omitted is `none`.
pub record Pins : Type 0 where
  pub npm : Option (Map String)
  pub pacman_artifacts : Option (Map PacmanArtifactPin)
  pub aur_local : Option (Map AurLocalPin)
  pub remote_artifacts : Option (Map RemoteArtifactPin)
  pub local_path_packages : Option (Map String)

pub record Catalog : Type 0 where
  pub catalog_version : ℤ
  pub kind : Kind
  pub roles : Option (List String)
  pub risk_policy : Option RiskPolicy
  pub modules : Option (Map Bool)
  pub templates : Option (List String)
  pub overlays : Option (List String)
  pub pins : Option Pins
  pub checkout_pins : Option (Map CheckoutPin)

-- An issue of a validation.
pub record ValidationError : Type 0 where
  pub path : String
  pub message : String
