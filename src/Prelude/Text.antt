-- ===== src/Prelude/Text.antt =====
-- Texts as the program's checks walk them: the functions of Go's `strings` and `path/filepath` that
-- the sources call, over the code points of a text. All that they look for is ASCII, where code
-- points and bytes agree.
use Prim.Native.Nat.{ℕ, ◌+◌}
use Prim.Native.Char.{code}
use Prim.Native.String.{String}
use mathlib.Core.Bool.{Bool, true, false, ◌&&◌, ◌||◌}
use mathlib.Core.List.{List, [], ◌∷◌, reverse}
use mathlib.Core.Path.{◌≡◌, refl}
use native.Mathlib.Omega.{arith}
use alex_cachyos.Prelude.Tests.{leb, beq_nat, if◌then◌else◌}

abbrev pub Points : Type 0
Points = List ℕ

abbrev pub codes : String → Points
codes String.[] = []
codes (String.◌∷◌ c s) = code c ∷ codes s

-- `strings.HasPrefix(s, prefix)`
unfoldable pub has_prefix : Points → Points → Bool
has_prefix s [] = true
has_prefix [] (c ∷ prefix) = false
has_prefix (b ∷ s) (c ∷ prefix) = beq_nat b c && has_prefix s prefix

-- `strings.Contains(s, part)`
unfoldable pub contains_text : Points → Points → Bool
unfolding has_prefix
contains_text [] part = has_prefix [] part
contains_text (b ∷ s) part = has_prefix (b ∷ s) part || contains_text s part

-- `strings.IndexByte(s, c) >= 0`
unfoldable pub has_point : ℕ → Points → Bool
has_point c [] = false
has_point c (b ∷ s) = beq_nat b c || has_point c s

-- `strings.ContainsAny(s, chars)`
unfoldable pub contains_any : Points → Points → Bool
unfolding has_point
contains_any [] chars = false
contains_any (b ∷ s) chars = has_point b chars || contains_any s chars

-- `strings.ToLower`. Beyond ASCII it follows the Unicode tables, which are not modelled: `fold` is
-- the table's map there.
unfoldable pub to_lower : (ℕ → ℕ) → Points → Points
to_lower fold [] = []
to_lower fold (c ∷ s) =
    (if leb b'A' c && leb c b'Z' then c + 32 else if leb c 127 then c else fold c) ∷ to_lower fold s

-- `filepath.IsAbs` on Linux
unfoldable pub is_abs : Points → Bool
is_abs [] = false
is_abs (c ∷ s) = beq_nat c b'/'

drop_slashes : Points → Points
drop_slashes [] = []
drop_slashes (c ∷ s) = let rest = drop_slashes s in if beq_nat c b'/' then rest else c ∷ s

-- What stands behind the last slash of the text whose reading began at `from`.
after_last_slash : Points → Points → Points
after_last_slash from [] = from
after_last_slash from (c ∷ s) = after_last_slash (if beq_nat c b'/' then s else from) s

base_of : Points → Points
unfolding after_last_slash
base_of [] = b'/' ∷ []
base_of (c ∷ s) = after_last_slash (c ∷ s) (c ∷ s)

-- `filepath.Base`: the last element, trailing slashes removed; "." for the empty text and "/" for
-- one that holds slashes only.
unfoldable pub base : Points → Points
unfolding drop_slashes base_of
base [] = b'.' ∷ []
base (c ∷ s) = base_of (reverse (drop_slashes (reverse (c ∷ s))))

-- Equality of texts, as Go's `==` compares them.
unfoldable pub same : Points → Points → Bool
same [] [] = true
same (a ∷ s) (b ∷ t) = beq_nat a b && same s t
same _ _ = false

pub same→eq : (s t : Points) → same s t ≡ true → s ≡ t
unfolding same
same→eq [] [] h = refl
same→eq (a ∷ s) (b ∷ t) h = ground (arith, same→eq s t)
same→eq [] (b ∷ t) h = ground arith
same→eq (a ∷ s) [] h = ground arith

pub same_refl : (s : Points) → same s s ≡ true
unfolding same
same_refl [] = refl
same_refl (a ∷ s) = ground (arith, same_refl s)

-- `unicode.IsSpace`
abbrev pub is_space : ℕ → Bool
is_space c =
    leb 9 c && leb c 13
    || beq_nat c 32
    || beq_nat c 133
    || beq_nat c 160
    || beq_nat c 5760
    || leb 8192 c && leb c 8202
    || beq_nat c 8232
    || beq_nat c 8233
    || beq_nat c 8239
    || beq_nat c 8287
    || beq_nat c 12288

unfoldable pub drop_spaces : Points → Points
drop_spaces [] = []
drop_spaces (c ∷ s) = let rest = drop_spaces s in if is_space c then rest else c ∷ s

-- `strings.TrimSpace`
unfoldable pub trim_space : Points → Points
unfolding drop_spaces
trim_space s = reverse (drop_spaces (reverse (drop_spaces s)))

base-bin : base (codes "/usr/bin/pkexec/") ≡ codes "pkexec"
unfolding base
base-bin = refl
