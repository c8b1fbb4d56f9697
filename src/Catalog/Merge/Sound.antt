-- ===== src/Catalog/Merge/Sound.antt =====
-- When `MergeDocuments` gives a catalog.
use alex_cachyos.Prelude.{
  String, ◌≡◌, refl, Bool, true, false, not, ◌&&◌, Option, none, some, List, [], ◌∷◌, ◌++◌, all,
  Map, keys, lookup, is_nil, is_nil-append, is_some, is_empty, arith, ap, ◌∙◌,
}
use alex_cachyos.Prelude.Numbers.{ℤ, is_pos}
use alex_cachyos.Catalog.Documents.{
  Kind, Source, omitted, nil_source, given, PinsDocument, Document, Pins, Catalog,
  PacmanArtifactPinDocument, AurLocalPinDocument, RemoteArtifactPinDocument, CheckoutPinDocument,
}
use alex_cachyos.Catalog.Sources.{
  Issues, Convert, copy_entry, merge_source, required_merge_pin_field, required_checkout_field,
  convert_pacman_artifact, convert_aur_local, convert_remote_artifact, convert_checkout,
  convert_entry,
}
use alex_cachyos.Catalog.Sources.Entries.{is_sound, is_nil-merge_source}
use alex_cachyos.Catalog.Merge.{
  merge_pins, merge_document, merge_all, merge_documents, no_catalog, Merging, merged, finish_merge,
  is_known_kind, version_issues, kind_issues, merge_pins_pointer,
}

-- A source that is not nil, and whose every entry passes a test.
abbrev pub passes {ℓ} : {D : Type ℓ} → (D → Bool) → Option D → Bool
passes good none = true
passes good (some document) = good document

abbrev pub all_entries {ℓ} : {D : Type ℓ} → (D → Bool) → Source D → Bool
all_entries good omitted = true
all_entries good nil_source = false
all_entries good (given source) = all (λ key. passes good (lookup key source)) (keys source)

abbrev pub is_text : String → Bool
is_text text = true

abbrev pub is_whole_pacman : PacmanArtifactPinDocument → Bool
is_whole_pacman pin =
    is_some pin.package_name && is_some pin.version && is_some pin.source && is_some pin.sha256

abbrev pub is_whole_aur : AurLocalPinDocument → Bool
is_whole_aur pin = is_some pin.source_commit && is_some pin.patch_sha256

abbrev pub is_whole_remote : RemoteArtifactPinDocument → Bool
is_whole_remote pin = is_some pin.url && is_some pin.sha256

abbrev pub is_filled : Option String → Bool
is_filled none = false
is_filled (some value) = not (is_empty value)

abbrev pub is_whole_checkout : CheckoutPinDocument → Bool
is_whole_checkout pin = is_filled pin.remote && is_filled pin.branch && is_filled pin.commit

abbrev pub are_sound_pins : Option PinsDocument → Bool
are_sound_pins none = true
are_sound_pins (some pins) =
    all_entries is_text pins.npm
    && all_entries is_text pins.local_path_packages
    && all_entries is_whole_pacman pins.pacman_artifacts
    && all_entries is_whole_aur pins.aur_local
    && all_entries is_whole_remote pins.remote_artifacts

abbrev pub is_version_one : Option ℤ → Bool
is_version_one none = false
is_version_one (some version) = is_pos version 1

abbrev pub has_known_kind : Option Kind → Bool
has_known_kind none = false
has_known_kind (some kind) = is_known_kind kind

-- What a document needs: version 1, a known kind, and pins with all their fields.
abbrev pub is_sound_document : Document → Bool
is_sound_document document =
    is_version_one document.catalog_version
    && has_known_kind document.kind
    && all_entries is_whole_checkout document.checkout_pins
    && are_sound_pins document.pins

all_same {ℓ} :
    {A : Type ℓ} (p q : A → Bool) (same : (x : A) → p x ≡ q x) (xs : List A) → all p xs ≡ all q xs
all_same p q same [] = refl
all_same p q same (x ∷ xs) = ground (arith, same x, all_same p q same xs)

module _ {ℓ κ} {D : Type ℓ} {P : Type κ} (convert : Convert D P) (good : D → Bool)
    (agree : (name : String) (document : D)
      → is_nil (convert name document).1 ≡ good document) where
  entry_passes :
      (key : String) (found : Option D)
      → not (not (is_nil (convert_entry convert key found).1)) ≡ passes good found
  entry_passes key none = refl
  entry_passes key (some document) = ground (arith, agree key document)

  is_sound-all_entries : (source : Source D) → is_sound convert source ≡ all_entries good source
  is_sound-all_entries omitted = refl
  is_sound-all_entries nil_source = refl
  is_sound-all_entries (given source) =
      all_same _ _ (λ key. entry_passes key (lookup key source)) (keys source)

  merge_source-all_entries :
      (path message : String) (source : Source D) (m : Option (Map P)) (issues : Issues)
      → is_nil (merge_source convert path message source m issues).1
        ≡ (is_nil issues && all_entries good source)
  merge_source-all_entries path message source m issues =
      is_nil-merge_source convert path message source m issues
      ∙ ap (λ sound. is_nil issues && sound) (is_sound-all_entries source)

field_agrees :
    (source name field : String) (value : Option String)
    → is_nil (required_merge_pin_field source name field value) ≡ is_some value
unfolding required_merge_pin_field
field_agrees source name field none = refl
field_agrees source name field (some value) = refl

checkout_field_agrees :
    (name field : String) (value : Option String)
    → is_nil (required_checkout_field name field value) ≡ is_filled value
unfolding required_checkout_field
checkout_field_agrees name field none = refl
checkout_field_agrees name field (some value) = ground arith

pacman_agrees :
    (name : String) (pin : PacmanArtifactPinDocument)
    → is_nil (convert_pacman_artifact name pin).1 ≡ is_whole_pacman pin
unfolding convert_pacman_artifact required_merge_pin_field
pacman_agrees name pin = ground arith

aur_agrees :
    (name : String) (pin : AurLocalPinDocument)
    → is_nil (convert_aur_local name pin).1 ≡ is_whole_aur pin
unfolding convert_aur_local required_merge_pin_field
aur_agrees name pin = ground arith

remote_agrees :
    (name : String) (pin : RemoteArtifactPinDocument)
    → is_nil (convert_remote_artifact name pin).1 ≡ is_whole_remote pin
unfolding convert_remote_artifact required_merge_pin_field
remote_agrees name pin = ground arith

checkout_agrees :
    (name : String) (pin : CheckoutPinDocument)
    → is_nil (convert_checkout name pin).1 ≡ is_whole_checkout pin
unfolding convert_checkout required_checkout_field
checkout_agrees name pin = ground arith

merge_pins_pointer-are_sound :
    (before : Option Pins) (pins : Option PinsDocument) (issues : Issues)
    → is_nil (merge_pins_pointer before pins issues).1 ≡ (is_nil issues && are_sound_pins pins)
unfolding merge_pins
merge_pins_pointer-are_sound before none issues = ground arith
merge_pins_pointer-are_sound before (some pins) issues =
    let texts = merge_source-all_entries copy_entry is_text (λ name value. refl) in
    rw
      (
        merge_source-all_entries convert_remote_artifact is_whole_remote remote_agrees,
        merge_source-all_entries convert_aur_local is_whole_aur aur_agrees,
        merge_source-all_entries convert_pacman_artifact is_whole_pacman pacman_agrees,
        texts,
        texts,
      )
      (ground arith)

version_agrees : (version : Option ℤ) → is_nil (version_issues version) ≡ is_version_one version
version_agrees none = refl
version_agrees (some version) = ground arith

kind_agrees : (kind : Option Kind) → is_nil (kind_issues kind) ≡ has_known_kind kind
kind_agrees none = refl
kind_agrees (some kind) = ground arith

merge_document-is_sound :
    (document : Document) (catalog : Catalog) (issues : Issues)
    → is_nil (merge_document document (catalog, issues)).1
      ≡ (is_nil issues && is_sound_document document)
unfolding merge_document
merge_document-is_sound document catalog issues =
    rw
      (
        merge_pins_pointer-are_sound,
        merge_source-all_entries convert_checkout is_whole_checkout checkout_agrees,
      )
      (ground (
        arith,
        is_nil-append issues (version_issues document.catalog_version ++ kind_issues document.kind),
        is_nil-append (version_issues document.catalog_version) (kind_issues document.kind),
        version_agrees document.catalog_version,
        kind_agrees document.kind,
      ))

merge_all-is_sound :
    (documents : List Document) (catalog : Catalog) (issues : Issues)
    → is_nil (merge_all documents (catalog, issues)).1
      ≡ (is_nil issues && all is_sound_document documents)
unfolding merge_all
merge_all-is_sound [] catalog issues = ground arith
merge_all-is_sound (document ∷ documents) catalog issues =
    let after = merge_document document (catalog, issues) in
    ground (
      arith,
      merge_all-is_sound documents after.0 after.1,
      merge_document-is_sound document catalog issues,
    )

abbrev pub gives_catalog : Merging → Bool
gives_catalog (merged _) = true
gives_catalog _ = false

finish_merge-gives_catalog :
    (state : Catalog × Issues) → gives_catalog (finish_merge state) ≡ is_nil state.1
finish_merge-gives_catalog (catalog, []) = refl
finish_merge-gives_catalog (catalog, i ∷ issues) = refl

-- `MergeDocuments` gives a catalog if and only if there is a document and every one has version 1, a
-- known kind, no map of pins that is nil, all the fields of its pins, and no empty field of a checkout
-- pin.
pub merge_documents-is_sound_document :
    (documents : List Document)
    → gives_catalog (merge_documents documents)
      ≡ (not (is_nil documents) && all is_sound_document documents)
unfolding merge_documents
merge_documents-is_sound_document [] = refl
merge_documents-is_sound_document (document ∷ documents) =
    finish_merge-gives_catalog _ ∙ merge_all-is_sound (document ∷ documents) no_catalog []
