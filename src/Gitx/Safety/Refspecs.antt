-- ===== src/Gitx/Safety/Refspecs.antt =====
-- The arguments of a push or a fetch that `destructiveTagRefspec` refuses.
use alex_cachyos.Prelude.{
  String, ◌≡◌, refl, sym, subst, inl, inr, Bool-cases, true, false, ◌||◌, [], ◌∷◌, ◌++◌, Points,
  has_point, codes, has_prefix, ◌==◌, eq_iff, arith,
}
use alex_cachyos.Gitx.Safety.{is_destructive_argument, cut_colon, is_tag_refspec}

-- The arguments of a push or a fetch that destroy a ref or touch a tag by its full name, as git reads
-- them: a refspec is a source and a destination with a colon between.
pub data Destructive : String → Type 0 where
  deletes : Destructive "--delete"
  prunes : Destructive "--prune-tags"
  forces : (arg : String) (refspec : Points) → codes arg ≡ b'+' ∷ refspec → Destructive arg
  deletes_ref : (arg : String) (ref : Points) → codes arg ≡ b':' ∷ ref → Destructive arg
  writes_tag :
      (arg : String) (source name : Points)
      → has_point b':' source ≡ false
      → has_prefix source (codes "-") ≡ false
      → codes arg ≡ source ++ b':' ∷ (codes "refs/tags/" ++ name)
      → Destructive arg
  names_tag :
      (arg : String) (name : Points)
      → has_point b':' name ≡ false
      → codes arg ≡ codes "refs/tags/" ++ name
      → Destructive arg
  drops_tag :
      (arg : String) (name : Points)
      → has_point b':' name ≡ false
      → codes arg ≡ (codes "refs/tags/" ++ name) ++ b':' ∷ []
      → Destructive arg

bare_dashes : has_prefix (codes "--") (codes "-") ≡ true
unfolding has_prefix
bare_dashes = refl

pub not_bare :
    (subcommand : String)
    → has_prefix (codes subcommand) (codes "-") ≡ false
    → (subcommand == "--") ≡ false
not_bare subcommand plain = elim (Bool-cases (subcommand == "--")) [
  | inl same ↦
      let p =
        subst (λ s. has_prefix (codes s) (codes "-") ≡ false) ((eq_iff subcommand "--").0 same)
          plain in
      absurd (cc (p, bare_dashes))
  | inr differ ↦ differ
]

cut_colon-append :
    (source rest : Points)
    → has_point b':' source ≡ false
    → cut_colon (source ++ b':' ∷ rest) ≡ (source, rest, true)
unfolding cut_colon has_point
cut_colon-append [] rest h = refl
cut_colon-append (c ∷ source) rest h = ground (arith, cut_colon-append source rest)

cut_colon-plain : (text : Points) → has_point b':' text ≡ false → cut_colon text ≡ (text, [], false)
unfolding cut_colon has_point
cut_colon-plain [] h = refl
cut_colon-plain (c ∷ text) h = ground (arith, cut_colon-plain text)

has_prefix-append :
    (front back prefix : Points)
    → has_prefix front prefix ≡ true
    → has_prefix (front ++ back) prefix ≡ true
unfolding has_prefix
has_prefix-append front back [] h = ground arith
has_prefix-append [] back (p ∷ prefix) h = cc
has_prefix-append (c ∷ front) back (p ∷ prefix) h =
    ground (arith, has_prefix-append front back prefix)

-- What the argument's text has to be, without a dash in front.
abbrev IsBad : Points → Type 0
IsBad text =
    (has_prefix text (codes "-") ≡ false)
    × ((has_prefix text (codes "+")
          || has_prefix text (codes ":")
          || is_tag_refspec text (cut_colon text))
        ≡ true)

IsBad-is_destructive_argument :
    (arg : String) → IsBad (codes arg) → is_destructive_argument arg ≡ true
unfolding is_destructive_argument
IsBad-is_destructive_argument arg (plain, bad) = ground (arith, plain, bad, not_bare arg plain)

write-IsBad :
    (source name : Points)
    → has_point b':' source ≡ false
    → has_prefix source (codes "-") ≡ false
    → IsBad (source ++ b':' ∷ (codes "refs/tags/" ++ name))
unfolding has_prefix
write-IsBad [] name h plain = (refl, refl)
write-IsBad (c ∷ source) name h plain = (
  ground (arith, plain),
  ground (arith, cut_colon-append (c ∷ source) (codes "refs/tags/" ++ name) h),
)

name-IsBad : (name : Points) → has_point b':' name ≡ false → IsBad (codes "refs/tags/" ++ name)
unfolding has_prefix has_point
name-IsBad name h = (refl, ground (arith, cut_colon-plain (codes "refs/tags/" ++ name) h))

drop-IsBad :
    (name : Points)
    → has_point b':' name ≡ false
    → IsBad ((codes "refs/tags/" ++ name) ++ b':' ∷ [])
unfolding has_prefix has_point
drop-IsBad name h = (refl, ground (arith, cut_colon-append (codes "refs/tags/" ++ name) [] h))

pub Destructive-is_destructive_argument :
    (arg : String) → Destructive arg → is_destructive_argument arg ≡ true
unfolding is_destructive_argument has_prefix
Destructive-is_destructive_argument _ deletes = refl
Destructive-is_destructive_argument _ prunes = refl
Destructive-is_destructive_argument _ (forces arg refspec e) =
    IsBad-is_destructive_argument arg (subst IsBad (sym e) (refl, refl))
Destructive-is_destructive_argument _ (deletes_ref arg ref e) =
    IsBad-is_destructive_argument arg (subst IsBad (sym e) (refl, refl))
Destructive-is_destructive_argument _ (writes_tag arg source name h plain e) =
    IsBad-is_destructive_argument arg (subst IsBad (sym e) (write-IsBad source name h plain))
Destructive-is_destructive_argument _ (names_tag arg name h e) =
    IsBad-is_destructive_argument arg (subst IsBad (sym e) (name-IsBad name h))
Destructive-is_destructive_argument _ (drops_tag arg name h e) =
    IsBad-is_destructive_argument arg (subst IsBad (sym e) (drop-IsBad name h))
