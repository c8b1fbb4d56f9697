-- ===== src/Catalog/Sources.antt =====
-- internal/catalog/merge.go: one source map of pins is merged into another. The loops over a map follow its sorted names, as in
-- the source; `issues` is the slice that the source passes by pointer.
pub mod Entries
use Prim.Native.String.{◌++◌ as ◌<>◌}
use Prim.Native.Char.{code}
use alex_cachyos.Prelude.{
  ℕ, String, Bool, true, false, not, ◌&&◌, ◌||◌, Option, none, some, List, [], ◌∷◌, ◌++◌, Map, keys,
  lookup, insert, sort_by, text_less, ◌==◌, if◌then◌else◌, beq_nat, is_nil, is_empty,
}
use alex_cachyos.Prelude.Numbers.{ℤ, pos, is_pos}
use alex_cachyos.Catalog.Documents.{
  Kind, global, role, host, other, Source, omitted, nil_source, given, PacmanArtifactPinDocument,
  AurLocalPinDocument, RemoteArtifactPinDocument, CheckoutPinDocument, PinsDocument, Document,
  PacmanArtifactPin, AurLocalPin, RemoteArtifactPin, CheckoutPin, Pins, Catalog, ValidationError,
}

abbrev pub Issues : Type 0
Issues = List ValidationError

abbrev pub issue : String → String → ValidationError
issue path message = record { path = path; message = message }

-- `escapePointer`: `~` is written `~0`, and `/` is written `~1`.
unfoldable pub escape_pointer : String → String
escape_pointer String.[] = ""
escape_pointer (String.◌∷◌ c s) =
    (if beq_nat (code c) b'~'
      then "~0"
      else if beq_nat (code c) b'/'
      then "~1"
      else String.◌∷◌ c "")
    <> escape_pointer s

unfoldable pub child_pointer : String → String → String
child_pointer parent part =
    if parent == "/" then "/" <> escape_pointer part else parent <> "/" <> escape_pointer part

-- The names of a map in order; `sortedModuleNames`, `sortedPinNames`, `sortedCheckoutPinNames`.
unfoldable pub sorted_names {ℓ} : {V : Type ℓ} → Map V → List String
sorted_names m = sort_by text_less (keys m)

abbrev pub or_made {ℓ} : {V : Type ℓ} → Option (Map V) → Map V
or_made none = []
or_made (some m) = m

abbrev put {ℓ} : {V : Type ℓ} → String → Option V → Map V → Map V
put name none m = m
put name (some value) m = insert name value m

-- The first value that is there.
abbrev pub later {ℓ} : {A : Type ℓ} → Option A → Option A → Option A
later none before = before
later (some value) before = some value

-- A pin that is converted, or none if it has an issue, and the issues.
abbrev pub Convert {ℓ κ} : Type ℓ → Type κ → Type (ℓ ⊔ κ)
Convert D P = String → D → Option P × Issues

module _ {ℓ κ} {D : Type ℓ} {P : Type κ} (convert : Convert D P) where
  abbrev pub convert_entry : String → Option D → Option P × Issues
  convert_entry name none = (none, [])
  convert_entry name (some document) = convert name document

  -- The loop over the sorted names of one source map.
  unfoldable pub put_entries : Map D → List String → Map P → Issues → Map P × Issues
  put_entries source [] merged issues = (merged, issues)
  put_entries source (name ∷ names) merged issues =
      let (pin, found) = convert_entry name (lookup name source) in
      put_entries source names (put name pin merged) (issues ++ found)

  -- One source map: `mergePacmanArtifactSource` and its like, which differ in the conversion.
  unfoldable pub merge_source :
      (path message : String) → Source D → Option (Map P) → Issues → Option (Map P) × Issues
  merge_source path message omitted merged issues = (merged, issues)
  merge_source path message nil_source merged issues = (merged, issues ++ issue path message ∷ [])
  merge_source path message (given source) merged issues =
      let (pins, found) = put_entries source (sorted_names source) (or_made merged) issues in
      (some pins, found)

-- A value that is taken as it is.
abbrev pub copy_entry {ℓ} : {V : Type ℓ} → Convert V V
copy_entry name value = (some value, [])

-- `requiredMergePinField`
unfoldable pub required_merge_pin_field : (source name field : String) → Option String → Issues
required_merge_pin_field source name field (some value) = []
required_merge_pin_field source name field none =
    issue (child_pointer (child_pointer (child_pointer "/pins" source) name) field)
      "required pin field is missing"
    ∷ []

abbrev value_of : Option String → String
value_of none = ""
value_of (some value) = value

-- The pin if no field had an issue.
abbrev complete {ℓ} : {P : Type ℓ} → P → Issues → Option P × Issues
complete pin issues = (if is_nil issues then some pin else none, issues)

unfoldable pub convert_pacman_artifact : Convert PacmanArtifactPinDocument PacmanArtifactPin
convert_pacman_artifact name pin =
    complete
      (record {
        package_name = value_of pin.package_name;
        version = value_of pin.version;
        source = value_of pin.source;
        sha256 = value_of pin.sha256;
      })
      (required_merge_pin_field "pacmanArtifacts" name "package" pin.package_name
        ++ (required_merge_pin_field "pacmanArtifacts" name "version" pin.version
            ++ (required_merge_pin_field "pacmanArtifacts" name "source" pin.source
                ++ required_merge_pin_field "pacmanArtifacts" name "sha256" pin.sha256)))

unfoldable pub convert_aur_local : Convert AurLocalPinDocument AurLocalPin
convert_aur_local name pin =
    complete
      (record {
        source_commit = value_of pin.source_commit;
        patch_sha256 = value_of pin.patch_sha256;
      })
      (required_merge_pin_field "aurLocal" name "sourceCommit" pin.source_commit
        ++ required_merge_pin_field "aurLocal" name "patchSHA256" pin.patch_sha256)

unfoldable pub convert_remote_artifact : Convert RemoteArtifactPinDocument RemoteArtifactPin
convert_remote_artifact name pin =
    complete (record { url = value_of pin.url; sha256 = value_of pin.sha256 })
      (required_merge_pin_field "remoteArtifacts" name "url" pin.url
        ++ required_merge_pin_field "remoteArtifacts" name "sha256" pin.sha256)

-- A checkout pin's field must be there and not be empty.
unfoldable pub required_checkout_field : (name field : String) → Option String → Issues
required_checkout_field name field none =
    issue (child_pointer (child_pointer "/checkoutPins" name) field)
      "required checkout-pin field is missing"
    ∷ []
required_checkout_field name field (some value) =
    if is_empty value
    then issue (child_pointer (child_pointer "/checkoutPins" name) field)
        "required checkout-pin field is empty"
      ∷ []
    else []

unfoldable pub convert_checkout : Convert CheckoutPinDocument CheckoutPin
convert_checkout name pin =
    complete
      (record {
        remote = value_of pin.remote;
        branch = value_of pin.branch;
        commit = value_of pin.commit;
      })
      (required_checkout_field name "remote" pin.remote
        ++ (required_checkout_field name "branch" pin.branch
            ++ required_checkout_field name "commit" pin.commit))
