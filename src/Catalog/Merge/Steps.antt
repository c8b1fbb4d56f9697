-- ===== src/Catalog/Merge/Steps.antt =====
-- What one document does to each field of the merged catalog.
use alex_cachyos.Prelude.{
  String, ◌≡◌, refl, Bool, Option, none, some, List, [], ◌∷◌, Map, lookup, ap, ◌∙◌, arith,
}
use alex_cachyos.Catalog.Documents.{Source, given, PinsDocument, Document, Pins, Catalog}
use alex_cachyos.Catalog.Sources.{
  later, Issues, Convert, copy_entry, merge_source, convert_pacman_artifact, convert_aur_local,
  convert_remote_artifact, convert_checkout,
}
use alex_cachyos.Catalog.Sources.Entries.{lookup_in, converted, lookup_in-merge_source}
use alex_cachyos.Catalog.Merge.{
  merge_pins, merge_document, or_no_pins, merge_modules, merge_pins_pointer,
}

-- The last layer that has a value.
abbrev pub last_some {ℓ} : {A : Type ℓ} → List (Option A) → Option A
last_some [] = none
last_some (value ∷ values) = later (last_some values) value

abbrev pub layer_of {ℓ κ} :
    {D : Type ℓ} {P : Type κ}
    → Convert D P
    → (PinsDocument → Source D)
    → String
    → Option PinsDocument
    → Option P
layer_of convert source key none = none
layer_of convert source key (some pins) = converted convert (source pins) key

-- A document's layer of a pin source, for one key.
abbrev pub pin_layer {ℓ κ} :
    {D : Type ℓ} {P : Type κ}
    → Convert D P
    → (PinsDocument → Source D)
    → String
    → Document
    → Option P
pin_layer convert source key document = layer_of convert source key document.pins

abbrev pub pins_in : Catalog → Pins
pins_in catalog = or_no_pins catalog.pins

abbrev pub State : Type 0
State = Catalog × Issues

pub step_roles : (d : Document) (s : State) → (merge_document d s).0.roles ≡ later d.roles s.0.roles
unfolding merge_document
step_roles d (m, issues) = refl

pub step_risk_policy :
    (d : Document) (s : State)
    → (merge_document d s).0.risk_policy ≡ later d.risk_policy s.0.risk_policy
unfolding merge_document
step_risk_policy d (m, issues) = refl

pub step_templates :
    (d : Document) (s : State) → (merge_document d s).0.templates ≡ later d.templates s.0.templates
unfolding merge_document
step_templates d (m, issues) = refl

pub step_overlays :
    (d : Document) (s : State) → (merge_document d s).0.overlays ≡ later d.overlays s.0.overlays
unfolding merge_document
step_overlays d (m, issues) = refl

copied :
    (modules : Map Bool) (key : String)
    → converted copy_entry (given modules) key ≡ lookup key modules
copied modules key = ground arith

merge_modules-layer :
    (modules before : Option (Map Bool)) (key : String)
    → lookup_in key (merge_modules modules before)
      ≡ later (lookup_in key modules) (lookup_in key before)
unfolding merge_source
merge_modules-layer none before key = refl
merge_modules-layer (some modules) before key =
    lookup_in-merge_source copy_entry "" "" (given modules) before [] key
    ∙ ap (λ layer. later layer (lookup_in key before)) (copied modules key)

pub step_modules :
    (key : String) (d : Document) (s : State)
    → lookup_in key (merge_document d s).0.modules
      ≡ later (lookup_in key d.modules) (lookup_in key s.0.modules)
unfolding merge_document
step_modules key d (m, issues) = merge_modules-layer d.modules m.modules key

pub step_checkout_pins :
    (key : String) (d : Document) (s : State)
    → lookup_in key (merge_document d s).0.checkout_pins
      ≡ later (converted convert_checkout d.checkout_pins key) (lookup_in key s.0.checkout_pins)
unfolding merge_document
step_checkout_pins key d (m, issues) =
    lookup_in-merge_source convert_checkout _ _ d.checkout_pins m.checkout_pins _ key

npm_layer :
    (key : String) (before : Option Pins) (pins : Option PinsDocument) (issues : Issues)
    → lookup_in key (or_no_pins (merge_pins_pointer before pins issues).0).npm
      ≡ later (layer_of copy_entry (λ p. p.npm) key pins) (lookup_in key (or_no_pins before).npm)
unfolding merge_pins
npm_layer key before none issues = refl
npm_layer key before (some pins) issues =
    lookup_in-merge_source copy_entry _ _ pins.npm (or_no_pins before).npm _ key

pub step_npm :
    (key : String) (d : Document) (s : State)
    → lookup_in key (pins_in (merge_document d s).0).npm
      ≡ later (pin_layer copy_entry (λ p. p.npm) key d) (lookup_in key (pins_in s.0).npm)
unfolding merge_document
step_npm key d (m, issues) = npm_layer key m.pins d.pins _

local_path_layer :
    (key : String) (before : Option Pins) (pins : Option PinsDocument) (issues : Issues)
    → lookup_in key (or_no_pins (merge_pins_pointer before pins issues).0).local_path_packages
      ≡ later
          (layer_of copy_entry (λ p. p.local_path_packages) key pins)
          (lookup_in key (or_no_pins before).local_path_packages)
unfolding merge_pins
local_path_layer key before none issues = refl
local_path_layer key before (some pins) issues =
    lookup_in-merge_source copy_entry _ _ pins.local_path_packages
      (or_no_pins before).local_path_packages _ key

pub step_local_path :
    (key : String) (d : Document) (s : State)
    → lookup_in key (pins_in (merge_document d s).0).local_path_packages
      ≡ later
          (pin_layer copy_entry (λ p. p.local_path_packages) key d)
          (lookup_in key (pins_in s.0).local_path_packages)
unfolding merge_document
step_local_path key d (m, issues) = local_path_layer key m.pins d.pins _

pacman_layer :
    (key : String) (before : Option Pins) (pins : Option PinsDocument) (issues : Issues)
    → lookup_in key (or_no_pins (merge_pins_pointer before pins issues).0).pacman_artifacts
      ≡ later
          (layer_of convert_pacman_artifact (λ p. p.pacman_artifacts) key pins)
          (lookup_in key (or_no_pins before).pacman_artifacts)
unfolding merge_pins
pacman_layer key before none issues = refl
pacman_layer key before (some pins) issues =
    lookup_in-merge_source convert_pacman_artifact _ _ pins.pacman_artifacts
      (or_no_pins before).pacman_artifacts _ key

pub step_pacman :
    (key : String) (d : Document) (s : State)
    → lookup_in key (pins_in (merge_document d s).0).pacman_artifacts
      ≡ later
          (pin_layer convert_pacman_artifact (λ p. p.pacman_artifacts) key d)
          (lookup_in key (pins_in s.0).pacman_artifacts)
unfolding merge_document
step_pacman key d (m, issues) = pacman_layer key m.pins d.pins _

aur_layer :
    (key : String) (before : Option Pins) (pins : Option PinsDocument) (issues : Issues)
    → lookup_in key (or_no_pins (merge_pins_pointer before pins issues).0).aur_local
      ≡ later
          (layer_of convert_aur_local (λ p. p.aur_local) key pins)
          (lookup_in key (or_no_pins before).aur_local)
unfolding merge_pins
aur_layer key before none issues = refl
aur_layer key before (some pins) issues =
    lookup_in-merge_source convert_aur_local _ _ pins.aur_local (or_no_pins before).aur_local _ key

pub step_aur :
    (key : String) (d : Document) (s : State)
    → lookup_in key (pins_in (merge_document d s).0).aur_local
      ≡ later
          (pin_layer convert_aur_local (λ p. p.aur_local) key d)
          (lookup_in key (pins_in s.0).aur_local)
unfolding merge_document
step_aur key d (m, issues) = aur_layer key m.pins d.pins _

remote_layer :
    (key : String) (before : Option Pins) (pins : Option PinsDocument) (issues : Issues)
    → lookup_in key (or_no_pins (merge_pins_pointer before pins issues).0).remote_artifacts
      ≡ later
          (layer_of convert_remote_artifact (λ p. p.remote_artifacts) key pins)
          (lookup_in key (or_no_pins before).remote_artifacts)
unfolding merge_pins
remote_layer key before none issues = refl
remote_layer key before (some pins) issues =
    lookup_in-merge_source convert_remote_artifact _ _ pins.remote_artifacts
      (or_no_pins before).remote_artifacts _ key

pub step_remote :
    (key : String) (d : Document) (s : State)
    → lookup_in key (pins_in (merge_document d s).0).remote_artifacts
      ≡ later
          (pin_layer convert_remote_artifact (λ p. p.remote_artifacts) key d)
          (lookup_in key (pins_in s.0).remote_artifacts)
unfolding merge_document
step_remote key d (m, issues) = remote_layer key m.pins d.pins _
