-- ===== src/Platform/Policy/Ownership.antt =====
-- Which host templates a policy may use.
use alex_cachyos.Prelude.{
  String, ◌≡◌, ◌∙◌, ap, sym, subst, Bool, true, false, not, ◌&&◌, List, [], ◌∷◌, ◌++◌, any, codes,
  Points, same, same→eq, is_nil, has_prefix, contains, eq_iff, arith, Bool-cases, inl, inr,
}
use alex_cachyos.Catalog.Risks.{RiskCapability, risk_capabilities, capability_text, allows}
use alex_cachyos.Catalog.Checks.{strings_of}
use alex_cachyos.Catalog.Repository.{ResolvedHostPolicy}
use alex_cachyos.Platform.Policy.{
  cut_slash, hosts_prefix, check_host_template, check_template, validate_asset_ownership,
}

-- What is cut at a slash is in front of one and behind it.
cut_slash-found :
    (text : Points)
    → (cut_slash text).2 ≡ true
    → text ≡ (cut_slash text).0 ++ b'/' ∷ (cut_slash text).1
unfolding cut_slash
cut_slash-found [] h = cc
cut_slash-found (c ∷ text) h = ground (arith, cut_slash-found text)

passes :
    (f : String → Bool) (names : List String) (name : String)
    → any (λ n. not (f n)) names ≡ false
    → contains names name ≡ true
    → f name ≡ true
unfolding contains
passes f [] name none_fails there = absurd (cc there)
passes f (n ∷ names) name none_fails there =
    ground (arith, none_fails, there, passes f names name, eq_iff n name)

some_item {ℓ} : {A : Type ℓ} (p : A → Bool) (xs : List A) → any p xs ≡ true → (x : A) × (p x ≡ true)
some_item p [] h = absurd (cc h)
some_item p (x ∷ xs) h = elim (Bool-cases (p x)) [
  | inl here ↦ (x, here)
  | inr there ↦ some_item p xs (ground (arith, h, there))
]

module _ (policy : ResolvedHostPolicy) where
  -- What is behind `templates/hosts/`: the policy's own host, a capability that the policy allows, and
  -- an asset of it.
  abbrev pub IsOwnAsset : Points → Type 0
  IsOwnAsset rest =
      (capability : RiskCapability) × (asset : Points) × (rest
        ≡ codes policy.name ++ b'/' ∷ (codes (capability_text capability) ++ b'/' ∷ asset))
      × (is_nil asset ≡ false)
      × (allows policy.risks capability ≡ true)

  cut_own : (rest : Points) → check_host_template policy (cut_slash rest) ≡ true → IsOwnAsset rest
  cut_own rest passed =
      let remainder = (cut_slash rest).1 in
      let (capability, fits) =
        some_item
          (λ c. same (codes (capability_text c)) (cut_slash remainder).0 && allows policy.risks c)
          risk_capabilities (ground (arith, passed)) in
      let owner : (cut_slash rest).0 ≡ codes policy.name =
        same→eq (cut_slash rest).0 (codes policy.name) (ground (arith, passed)) in
      let named : codes (capability_text capability) ≡ (cut_slash remainder).0 =
        same→eq (codes (capability_text capability)) (cut_slash remainder).0
          (ground (arith, fits)) in
      (
        capability,
        (cut_slash remainder).1,
        cut_slash-found rest (ground (arith, passed))
            ∙ ap (λ o. o ++ b'/' ∷ remainder) owner
            ∙ ap (λ r. codes policy.name ++ b'/' ∷ r)
                (cut_slash-found remainder (ground (arith, passed))
                  ∙ ap (λ c. c ++ b'/' ∷ (cut_slash remainder).1) (sym named)),
        ground (arith, passed),
        ground (arith, fits),
      )

  own_template :
      (rest : Points)
      → check_template policy (hosts_prefix ++ rest) ≡ true
      → check_host_template policy (cut_slash rest) ≡ true
  unfolding check_template has_prefix
  own_template rest passed = ground (arith, passed)

  -- If the assets of a policy pass the check, the name of each of its templates behind
  -- `templates/hosts/` is the policy's own host, a slash, the text of a capability that the policy
  -- allows, a slash, and a text that is not empty.
  pub validate_asset_ownership-IsOwnAsset :
      (name : String) (rest : Points)
      → validate_asset_ownership policy ≡ true
      → contains (strings_of policy.desired.templates) name ≡ true
      → codes name ≡ hosts_prefix ++ rest
      → IsOwnAsset rest
  unfolding validate_asset_ownership
  validate_asset_ownership-IsOwnAsset name rest valid there split =
      let passed =
        passes (λ n. check_template policy (codes n)) (strings_of policy.desired.templates) name
          (ground (arith, valid)) there in
      cut_own rest (own_template rest (subst (λ s. check_template policy s ≡ true) split passed))
