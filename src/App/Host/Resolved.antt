-- ===== src/App/Host/Resolved.antt =====
-- Resolution of a host is sound and complete for the known hosts.
use alex_cachyos.Prelude.{
  contains-count, ℕ, String, ◌≡◌, refl, ◌∙◌, sym, Bool, true, false, ◌&&◌, Option, none, some, List,
  [], ◌∷◌, ◌++◌, if◌then◌else◌, is_some, Points, same, same→eq, same_refl, sort_by, sort_by-count,
  arith, contains, ◌==◌, eq_iff,
}
use alex_cachyos.App.Host.{
  Owners, find_owner, Resolution, resolved, Index, indexed, invalid_index, normalize_host_name,
  declared_before, index_hosts, new_host_index, is_blank, lookup_host, resolve_hostname, resolve_in,
  resolve_host,
}

find_owner-append :
    (key n : Points) (host : String) (owners : Owners)
    → find_owner key (owners ++ (n, host) ∷ []) ≡ (
        if is_some (find_owner key owners)
        then find_owner key owners
        else if same n key
        then some host
        else none)
unfolding find_owner
find_owner-append key n host [] = refl
find_owner-append key n host (owner ∷ owners) = ground (arith, find_owner-append key n host owners)

-- What the index says of a host that it finds.
abbrev IsKnownAs : (ℕ → ℕ) → List String → Points → Option String → Type 0
IsKnownAs fold known key none = Unit
IsKnownAs fold known key (some name) =
    (contains known name ≡ true) × (same (normalize_host_name fold name) key ≡ true)

abbrev Sound : (ℕ → ℕ) → List String → Points → Index → Type 0
Sound fold known key (indexed owners) = IsKnownAs fold known key (find_owner key owners)
Sound fold known key (invalid_index error) = Unit

-- The known hosts are valid.
abbrev pub is_indexed : Index → Bool
is_indexed (indexed owners) = true
is_indexed (invalid_index error) = false

abbrev FindsIn : Points → String → Index → Type 0
FindsIn key name (indexed owners) = find_owner key owners ≡ some name
FindsIn key name (invalid_index error) = Unit

module _ (fold : ℕ → ℕ) where
  index_hosts-Sound :
      (known hosts : List String) (owners : Owners) (key : Points)
      → ((v : String) → contains hosts v ≡ true → contains known v ≡ true)
      → IsKnownAs fold known key (find_owner key owners)
      → Sound fold known key (index_hosts fold hosts owners)
  unfolding index_hosts contains
  index_hosts-Sound known [] owners key inside h = h
  index_hosts-Sound known (host ∷ hosts) owners key inside h =
      let rest =
        index_hosts-Sound known hosts (owners ++ (normalize_host_name fold host, host) ∷ []) key
          (λ v e. inside v (ground (arith, e))) in
      ground (
        arith,
        h,
        rest,
        find_owner-append key (normalize_host_name fold host) host owners,
        inside host (ground (arith, eq_iff host host)),
      )

  index_hosts_keeps :
      (hosts : List String) (owners : Owners) (key : Points) (name : String)
      → find_owner key owners ≡ some name
      → FindsIn key name (index_hosts fold hosts owners)
  unfolding index_hosts
  index_hosts_keeps [] owners key name h = h
  index_hosts_keeps (host ∷ hosts) owners key name h =
      let rest =
        index_hosts_keeps hosts (owners ++ (normalize_host_name fold host, host) ∷ []) key name in
      ground (arith, h, rest, find_owner-append key (normalize_host_name fold host) host owners)

  index_hosts-FindsIn :
      (hosts : List String) (owners : Owners) (name : String)
      → contains hosts name ≡ true
      → FindsIn (normalize_host_name fold name) name (index_hosts fold hosts owners)
  unfolding index_hosts contains
  index_hosts-FindsIn [] owners name h = absurd (cc h)
  index_hosts-FindsIn (host ∷ hosts) owners name h =
      let more = owners ++ (normalize_host_name fold host, host) ∷ [] in
      ground (
        arith,
        h,
        eq_iff host name,
        index_hosts-FindsIn hosts more name,
        index_hosts_keeps hosts more (normalize_host_name fold host) host,
        find_owner-append (normalize_host_name fold host) (normalize_host_name fold host) host
            owners,
        same_refl (normalize_host_name fold host),
      )

  contains_declared :
      (known : List String) (v : String)
      → contains (sort_by (declared_before fold) known) v ≡ contains known v
  contains_declared known v = ground (
    arith,
    contains-count known v,
    contains-count (sort_by (declared_before fold) known) v,
    sort_by-count (declared_before fold) (λ y. y == v) known,
  )

  new_host_index-Sound :
      (known : List String) (key : Points) → Sound fold known key (new_host_index fold known)
  unfolding new_host_index find_owner
  new_host_index-Sound known key =
      index_hosts-Sound known (sort_by (declared_before fold) known) [] key
        (λ v e. sym (contains_declared known v) ∙ e) tt

  new_host_index-FindsIn :
      (known : List String) (name : String)
      → contains known name ≡ true
      → FindsIn (normalize_host_name fold name) name (new_host_index fold known)
  unfolding new_host_index
  new_host_index-FindsIn known name h =
      index_hosts-FindsIn (sort_by (declared_before fold) known) [] name
        (contains_declared known name ∙ h)

  -- What was asked for: the explicit name, or else the machine's.
  abbrev pub requested : String → Option String → Option String
  requested explicit hostname = if is_blank fold explicit then hostname else some explicit

  -- The name is the one of a known host, and normalized as the one that was asked for.
  abbrev pub IsMatch : List String → Option String → Resolution → Type 0
  IsMatch known none (resolved name) = ⊥
  IsMatch known (some asked) (resolved name) =
      (contains known name ≡ true)
      × (same (normalize_host_name fold name) (normalize_host_name fold asked) ≡ true)
  IsMatch known asked _ = Unit

  lookup-IsMatch :
      (known : List String) (owners : Owners) (asked : String)
      → ((key : Points) → Sound fold known key (indexed owners))
      → IsMatch known (some asked) (lookup_host fold owners asked)
  unfolding lookup_host
  lookup-IsMatch known owners asked h = ground (arith, h (normalize_host_name fold asked))

  hostname-IsMatch :
      (known : List String) (owners : Owners) (hostname : Option String)
      → ((key : Points) → Sound fold known key (indexed owners))
      → IsMatch known hostname (resolve_hostname fold owners hostname)
  hostname-IsMatch known owners none h = tt
  hostname-IsMatch known owners (some hostname) h =
      ground (arith, lookup-IsMatch known owners hostname h)

  module _ {W : Type 0} (port : W → Option String × W) (explicit : String) (known : List String)
      (w : W) where
    resolve_in-IsMatch :
        (index : Index)
        → ((key : Points) → Sound fold known key index)
        → IsMatch known (requested explicit (port w).0) (resolve_in fold port index explicit w).0
    resolve_in-IsMatch (invalid_index error) h = go (requested explicit (port w).0)
      where
        go :
            (asked : Option String)
            → IsMatch known asked (resolve_in fold port (invalid_index error) explicit w).0
        go none = tt
        go (some asked) = tt
    resolve_in-IsMatch (indexed owners) h =
        ground (
          arith,
          lookup-IsMatch known owners explicit h,
          hostname-IsMatch known owners (port w).0 h,
        )

    -- A host that is resolved is a known one, under its canonical name, and its normalized name is
    -- that of the explicit name or, if that is blank, of the hostname that the port gives; without
    -- either nothing is resolved. An explicit name that is not blank is resolved without the port.
    pub resolve_host-IsMatch :
        IsMatch known (requested explicit (port w).0) (resolve_host fold port explicit known w).0
        × ((resolve_host fold port explicit known w).1 ≡ (
            if is_blank fold explicit && is_indexed (new_host_index fold known)
            then (port w).1
            else w))
    unfolding resolve_host
    resolve_host-IsMatch =
        (resolve_in-IsMatch (new_host_index fold known) (new_host_index-Sound known), ground arith)

    -- If the known hosts are valid and one of them has the normalized name of the explicit name,
    -- which is not blank, then this host is resolved.
    resolve_host-known :
        (name : String)
        → is_indexed (new_host_index fold known) ≡ true
        → is_blank fold explicit ≡ false
        → contains known name ≡ true
        → same (normalize_host_name fold name) (normalize_host_name fold explicit) ≡ true
        → (resolve_host fold port explicit known w).0 ≡ resolved name
    unfolding resolve_host lookup_host
    resolve_host-known name valid given there equal = ground (
      arith,
      valid,
      given,
      new_host_index-FindsIn known name there,
      same→eq (normalize_host_name fold name) (normalize_host_name fold explicit) equal,
    )
