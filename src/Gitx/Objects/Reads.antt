-- ===== src/Gitx/Objects/Reads.antt =====
-- What an object read can make git do, and which paths it refuses.
use Prim.Native.String.{◌++◌ as ◌<>◌}
use alex_cachyos.Prelude.{
  ℕ, String, ◌≡◌, refl, Bool, true, false, not, ◌&&◌, ◌||◌, Option, none, some, List, [], ◌∷◌, ◌++◌,
  if◌then◌else◌, is_empty, codes, is_abs, arith, ◌==◌, Points,
}
use alex_cachyos.Gitx.Safety.{GitRunner, CommandRequest, validate_git_command, safe_run}
use alex_cachyos.Gitx.Objects.{
  one_dot_more, object_request, read, show, cat_file, has_parent_part, validate_revision,
  validate_object_path, validate_object_name,
}

-- The arguments of `git show` and `git cat-file -p` with one object.
abbrev pub is_reading : List String → Bool
is_reading (command ∷ object ∷ []) = command == "show"
is_reading (command ∷ option ∷ object ∷ []) = command == "cat-file" && option == "-p"
is_reading _ = false

-- A valid git command in the given directory that reads an object.
abbrev pub IsObjectRequest : String → CommandRequest → Type 0
IsObjectRequest cwd request =
    (validate_git_command request ≡ true)
    × (request.cwd ≡ cwd)
    × (request.executable ≡ "git")
    × (is_reading request.argv ≡ true)

module _ {W : Type 0} (P : W → Type 0) where
  branch_keeps :
      {A : Type 0} (b : Bool) (x y : A × W)
      → (b ≡ true → P x.1)
      → (b ≡ false → P y.1)
      → P (if b then x else y).1
  branch_keeps true x y p q = p refl
  branch_keeps false x y p q = q refl

  module _ (cwd : String) (w : W) (holds : P w) where
    safe_run_keeps :
        (runner : Option (GitRunner W)) (request : CommandRequest)
        → ((inner : GitRunner W) → runner ≡ some inner → P (inner request w).1)
        → validate_git_command request ≡ true
        → P (safe_run runner request w).1
    unfolding safe_run
    safe_run_keeps none request keeps valid = holds
    safe_run_keeps (some inner) request keeps valid = rw valid (keeps inner refl)

    module _ (runner : Option (GitRunner W))
        (keeps : (inner : GitRunner W) (request : CommandRequest)
          → runner ≡ some inner
          → IsObjectRequest cwd request
          → P (inner request w).1) where
      read_keeps :
          (operation : String) (argv : List String)
          → is_reading argv ≡ true
          → P (read runner cwd operation argv w).1
      unfolding read
      read_keeps operation argv reading =
          branch_keeps (is_empty cwd || not (is_abs (codes cwd))) _ _ (λ _. holds)
            λ _.
              branch_keeps (not (validate_git_command (object_request operation cwd argv))) _ _
                (λ _. holds)
                λ valid.
                  safe_run_keeps runner (object_request operation cwd argv)
                    (λ inner e.
                      keeps inner (object_request operation cwd argv) e
                        (ground arith, refl, refl, reading))
                    (ground arith)

      -- Reading an object, by `Show` or by `CatFile`, keeps a property of the machine that the runner
      -- keeps on valid `git show` and `git cat-file -p` commands in the given directory: no other
      -- command is run.
      pub reads_keep :
          (revision path object : String)
          → P (show runner cwd revision path w).1 × P (cat_file runner cwd object w).1
      unfolding show cat_file
      reads_keep revision path object = (
        branch_keeps
            (not (validate_revision (codes revision)) || not (validate_object_path (codes path))) _
            _ (λ _. holds) (λ _. read_keeps "show" ("show" ∷ (revision <> ":" <> path) ∷ []) refl),
        branch_keeps (not (validate_object_name (codes object))) _ _ (λ _. holds)
            (λ _. read_keeps "cat-file" ("cat-file" ∷ "-p" ∷ object ∷ []) refl),
      )

parent_anywhere :
    (dots : Option ℕ) (front back : Points)
    → has_parent_part dots (front ++ b'/' ∷ b'.' ∷ b'.' ∷ b'/' ∷ back) ≡ true
unfolding has_parent_part
parent_anywhere dots [] back = ground arith
parent_anywhere dots (c ∷ front) back = ground (
  arith,
  parent_anywhere (some 0) front back,
  parent_anywhere dots front back,
  parent_anywhere none front back,
  parent_anywhere (one_dot_more dots) front back,
)

-- A path with a part `..` between slashes, at any place, is refused.
validate_object_path-parent :
    (front back : Points) → validate_object_path (front ++ b'/' ∷ b'.' ∷ b'.' ∷ b'/' ∷ back) ≡ false
unfolding validate_object_path
validate_object_path-parent front back = ground (arith, parent_anywhere (some 0) front back)
