-- ===== src/Gitx/Safety/Refused.antt =====
-- What `ValidateGitCommand` lets through, whatever arguments with a dash stand before the subcommand.
use alex_cachyos.Prelude.{
  String, ◌≡◌, refl, sym, subst, inl, inr, Bool-cases, Bool, true, false, not, ◌&&◌, ◌||◌, List, [],
  ◌∷◌, ◌++◌, ℕ, Points, beq_nat, length, has_point, codes, has_prefix, any, all, contains, ◌==◌,
  eq_iff, arith,
}
use alex_cachyos.Gitx.Safety.{
  CommandRequest, git_subcommand, destructive_tag_refspec, is_destructive_argument,
  active_tag_checkout, is_commit_id, is_hex_digit, validate_git_command, forbidden_subcommands,
  is_one_of,
}
use alex_cachyos.Gitx.Safety.Refspecs.{not_bare, Destructive, Destructive-is_destructive_argument}

any-contains :
    (p : String → Bool) (args : List String) (arg : String)
    → contains args arg ≡ true
    → p arg ≡ true
    → any p args ≡ true
unfolding contains
any-contains p [] arg h e = absurd (cc h)
any-contains p (a ∷ args) arg h e = ground (arith, any-contains p args arg, eq_iff a arg)

-- An option: it starts with a dash, and it does not end the options.
abbrev pub is_leading_option : String → Bool
is_leading_option arg = has_prefix (codes arg) (codes "-") && not (arg == "--")

git_subcommand-options :
    (options : List String) (subcommand : String) (rest : List String)
    → all is_leading_option options ≡ true
    → has_prefix (codes subcommand) (codes "-") ≡ false
    → (subcommand == "--") ≡ false
    → git_subcommand (options ++ subcommand ∷ rest) ≡ (subcommand, rest)
unfolding git_subcommand
git_subcommand-options [] subcommand [] h plain bare = ground (arith, plain)
git_subcommand-options [] subcommand (r ∷ rest) h plain bare = ground (arith, plain, bare)
git_subcommand-options (o ∷ []) subcommand rest h plain bare =
    ground (arith, h, git_subcommand-options [] subcommand rest refl plain bare)
git_subcommand-options (o ∷ p ∷ options) subcommand rest h plain bare =
    ground (
      arith,
      h,
      git_subcommand-options (p ∷ options) subcommand rest (ground (arith, h)) plain bare,
    )

-- A full commit identifier: 40 hexadecimal digits.
abbrev pub is_full_commit : Points → Bool
is_full_commit ref =
    beq_nat (length ref) 40 && all (λ c. has_point c (codes "0123456789abcdefABCDEF")) ref

-- One ref that is `main` or a full commit identifier.
abbrev pub is_main_or_commit : List String → Bool
is_main_or_commit (ref ∷ []) = ref == "main" || is_full_commit (codes ref)
is_main_or_commit _ = false

hex_digit : (c : ℕ) → is_hex_digit c ≡ true → has_point c (codes "0123456789abcdefABCDEF") ≡ true
unfolding has_point
hex_digit c h = ground arith

hex_digits :
    (s : Points)
    → all is_hex_digit s ≡ true
    → all (λ c. has_point c (codes "0123456789abcdefABCDEF")) s ≡ true
hex_digits [] h = refl
hex_digits (c ∷ s) h = ground (arith, hex_digit c, hex_digits s)

commit_id-full : (s : Points) → is_commit_id s ≡ true → is_full_commit s ≡ true
unfolding is_commit_id
commit_id-full s h = ground (arith, h, hex_digits s)

plain_push : has_prefix (codes "push") (codes "-") ≡ false
unfolding has_prefix
plain_push = refl

plain_fetch : has_prefix (codes "fetch") (codes "-") ≡ false
unfolding has_prefix
plain_fetch = refl

checkout_ref :
    (rest : List String) → active_tag_checkout rest ≡ false → is_main_or_commit rest ≡ true
unfolding active_tag_checkout
checkout_ref [] h = absurd (cc h)
checkout_ref (ref ∷ []) h = ground (arith, h, commit_id-full (codes ref))
checkout_ref (ref ∷ other ∷ rest) h = absurd (cc h)

checkout_plain : has_prefix (codes "checkout") (codes "-") ≡ false
unfolding has_prefix
checkout_plain = refl

push_plain :
    (subcommand : String)
    → (subcommand == "push" || subcommand == "fetch") ≡ true
    → has_prefix (codes subcommand) (codes "-") ≡ false
push_plain subcommand named = elim (Bool-cases (subcommand == "push")) [
  | inl same ↦
      subst (λ s. has_prefix (codes s) (codes "-") ≡ false)
        (sym ((eq_iff subcommand "push").0 same)) plain_push
  | inr differ ↦
      subst (λ s. has_prefix (codes s) (codes "-") ≡ false)
        (sym ((eq_iff subcommand "fetch").0 (ground (arith, named, differ)))) plain_fetch
]

module _ (request : CommandRequest) (options : List String) (rest : List String)
    (leading : all is_leading_option options ≡ true) where
  -- The subcommands `clean`, `stash`, `commit`, `commit-tree`, `reset`, `shell`, `difftool` and
  -- `mergetool` are refused behind any arguments that start with a dash.
  validate_git_command-forbidden :
      (subcommand : String)
      → request.argv ≡ options ++ subcommand ∷ rest
      → has_prefix (codes subcommand) (codes "-") ≡ false
      → is_one_of subcommand forbidden_subcommands ≡ true
      → validate_git_command request ≡ false
  unfolding validate_git_command
  validate_git_command-forbidden subcommand split plain bad = ground (
    arith,
    split,
    bad,
    plain,
    git_subcommand-options options subcommand rest leading plain (not_bare subcommand plain),
  )

  -- A push or a fetch, before which nothing stands but arguments that start with a dash and are
  -- not `--`, is refused if
  -- one of its arguments is `--delete` or `--prune-tags`, starts with `+` or `:`, or is a refspec that
  -- writes, deletes or gives by itself the full name of a tag, behind `refs/tags/`.
  pub validate_git_command-Destructive :
      (subcommand arg : String)
      → request.argv ≡ options ++ subcommand ∷ rest
      → (subcommand == "push" || subcommand == "fetch") ≡ true
      → contains rest arg ≡ true
      → Destructive arg
      → validate_git_command request ≡ false
  unfolding validate_git_command destructive_tag_refspec
  validate_git_command-Destructive subcommand arg split named there bad =
      let plain = push_plain subcommand named in
      ground (
        arith,
        split,
        named,
        git_subcommand-options options subcommand rest leading plain (not_bare subcommand plain),
        any-contains is_destructive_argument rest arg there
            (Destructive-is_destructive_argument arg bad),
      )

  checked_out :
      (subcommand : String)
      → (subcommand == "checkout") ≡ true
      → request.argv ≡ options ++ subcommand ∷ rest
      → has_prefix (codes subcommand) (codes "-") ≡ false
      → validate_git_command request ≡ true
      → active_tag_checkout rest ≡ false
  unfolding validate_git_command
  checked_out subcommand named split plain valid = ground (
    arith,
    split,
    valid,
    named,
    git_subcommand-options options subcommand rest leading plain (not_bare subcommand plain),
  )

  -- A checkout that is let through, where nothing stands before the subcommand but arguments that start
  -- with a dash and are not `--`, names one ref, and this is `main` or 40 hexadecimal digits.
  pub validate_git_command-checkout :
      request.argv ≡ options ++ "checkout" ∷ rest
      → validate_git_command request ≡ true
      → is_main_or_commit rest ≡ true
  validate_git_command-checkout split valid =
      checkout_ref rest (checked_out "checkout" refl split checkout_plain valid)
