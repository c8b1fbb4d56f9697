-- ===== src/App/Host.antt =====
-- internal/app/host.go: which host profile is active.
pub mod Resolved
use alex_cachyos.Prelude.{
  trim_space, ℕ, String, Bool, true, false, not, ◌&&◌, ◌||◌, Option, none, some, List, [], ◌∷◌,
  ◌++◌, map, reverse, beq_nat, ltb, leb, if◌then◌else◌, is_some, is_nil, codes, Points, to_lower,
  same, sort_by, text_less,
}

-- `strings.TrimSuffix(value, ".")`
unfoldable pub trim_dot : Points → Points
trim_dot [] = []
trim_dot (c ∷ []) = if beq_nat c b'.' then [] else c ∷ []
trim_dot (c ∷ d ∷ s) = c ∷ trim_dot (d ∷ s)

-- `<` on texts
unfoldable pub points_less : Points → Points → Bool
points_less s [] = false
points_less [] (d ∷ t) = true
points_less (c ∷ s) (d ∷ t) = ltb c d || beq_nat c d && points_less s t

-- The names of a host index under their normalized forms.
abbrev pub Owners : Type 0
Owners = List (Points × String)

unfoldable pub find_owner : Points → Owners → Option String
find_owner key [] = none
find_owner key ((normalized, name) ∷ owners) =
    if same normalized key then some name else find_owner key owners

-- `InvalidKnownHostError` with its two reasons.
pub data InvalidKnownHost : Type 0 where
  empty_canonical duplicate_canonical : String → InvalidKnownHost

pub data Resolution : Type 0 where
  resolved : String → Resolution
  invalid_known_host : InvalidKnownHost → Resolution
  unknown_host : String → List String → Resolution
  hostname_unavailable : List String → Resolution

pub data Index : Type 0 where
  indexed : Owners → Index
  invalid_index : InvalidKnownHost → Index

-- `index.names()`
abbrev pub names : Owners → List String
names owners = map (λ owner. owner.1) owners

-- A lookup's answer, or the error for the name that was looked for.
abbrev pub found_or_unknown : String → Owners → Option String → Resolution
found_or_unknown requested owners (some canonical) = resolved canonical
found_or_unknown requested owners none = unknown_host requested (names owners)

-- `fold` is the map of the Unicode tables beyond ASCII.
module _ (fold : ℕ → ℕ) where
  unfoldable pub normalize_host_name : String → Points
  normalize_host_name value = trim_dot (to_lower fold (trim_space (codes value)))

  abbrev pub declared_before : String → String → Bool
  declared_before a b =
      if not (same (normalize_host_name a) (normalize_host_name b))
      then points_less (normalize_host_name a) (normalize_host_name b)
      else text_less a b

  -- The loop of `newHostIndex`.
  unfoldable pub index_hosts : List String → Owners → Index
  index_hosts [] owners = indexed owners
  index_hosts (host ∷ hosts) owners =
      let normalized = normalize_host_name host in
      let rest = index_hosts hosts (owners ++ (normalized, host) ∷ []) in
      if is_nil normalized
      then invalid_index (empty_canonical host)
      else if is_some (find_owner normalized owners)
      then invalid_index (duplicate_canonical host)
      else rest

  unfoldable pub new_host_index : List String → Index
  new_host_index known = index_hosts (sort_by declared_before known) []

  abbrev pub is_blank : String → Bool
  is_blank value = is_nil (trim_space (codes value))

  unfoldable pub lookup_host : Owners → String → Resolution
  lookup_host owners requested =
      found_or_unknown requested owners (find_owner (normalize_host_name requested) owners)

  abbrev pub resolve_hostname : Owners → Option String → Resolution
  resolve_hostname owners none = hostname_unavailable (names owners)
  resolve_hostname owners (some hostname) =
      if is_blank hostname then unknown_host "" (names owners) else lookup_host owners hostname

  module _ {W : Type 0} (port : W → Option String × W) where
    abbrev pub resolve_in : Index → String → W → Resolution × W
    resolve_in (invalid_index error) explicit w = (invalid_known_host error, w)
    resolve_in (indexed owners) explicit w =
        if not (is_blank explicit)
        then (lookup_host owners explicit, w)
        else let (hostname, after) = port w in (resolve_hostname owners hostname, after)

    -- The port gives the machine's hostname, or none for its error.
    unfoldable pub resolve_host : String → List String → W → Resolution × W
    resolve_host explicit known w = resolve_in (new_host_index known) explicit w
