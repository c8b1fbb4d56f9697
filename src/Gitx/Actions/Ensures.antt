-- ===== src/Gitx/Actions/Ensures.antt =====
-- What is known where a step goes on, and where it leaves its method.
use alex_cachyos.Prelude.{String, ◌≡◌, sym, subst, Option, List, [], ◌∷◌}
use alex_cachyos.Gitx.Actions.{CheckoutError, Step, proceed, finish, Action, resume}

-- The git commands that leave the checkout as it is, with all their arguments.
pub data Reading : List String → Type 0 where
  reads_origin : Reading ("remote" ∷ "get-url" ∷ "origin" ∷ [])
  reads_branch : Reading ("branch" ∷ "--show-current" ∷ [])
  fetches_main : Reading ("fetch" ∷ "--no-tags" ∷ "origin" ∷ "main" ∷ [])
  resolves : (revision : String) → Reading ("rev-parse" ∷ revision ∷ [])
  reads_status : Reading ("status" ∷ "--porcelain=v1" ∷ "-z" ∷ [])
  compares : (old new : String) → Reading ("merge-base" ∷ "--is-ancestor" ∷ old ∷ new ∷ [])
  lists_changes : (commit : String) → Reading ("diff" ∷ "--name-only" ∷ "-z" ∷ "HEAD" ∷ commit ∷ [])

pub fetch_of :
    {branch : String} → branch ≡ "main" → Reading ("fetch" ∷ "--no-tags" ∷ "origin" ∷ branch ∷ [])
fetch_of main =
    subst (λ branch. Reading ("fetch" ∷ "--no-tags" ∷ "origin" ∷ branch ∷ [])) (sym main)
      fetches_main

-- Where a step goes on, its value and the state satisfy `Q`; where it leaves, the state satisfies
-- `Left`.
pub data Ensures {W R A : Type 0} (Left : W → Type 0) (Q : A → W → Type 0)
    : Step R A × W → Type 0 where
  goes : {a : A} {w : W} → Q a w → Ensures Left Q (proceed a, w)
  leaves : {r : R} {err : Option CheckoutError} {w : W} → Left w → Ensures Left Q (finish r err, w)

pub Ensures-bind :
    {W R A B : Type 0} {Left : W → Type 0} {Q : A → W → Type 0} {Q' : B → W → Type 0}
    {f : A → Action W R B} {step : Step R A × W}
    → Ensures Left Q step
    → ((a : A) (w : W) → Q a w → Ensures Left Q' (f a w))
    → Ensures Left Q' (resume f step)
Ensures-bind (goes {a} {w} h) k = k a w h
Ensures-bind (leaves h) k = leaves h

pub Ensures-map :
    {W R A : Type 0} {Left Left' : W → Type 0} {Q Q' : A → W → Type 0} {step : Step R A × W}
    → Ensures Left Q step
    → ((w : W) → Left w → Left' w)
    → ((a : A) (w : W) → Q a w → Q' a w)
    → Ensures Left' Q' step
Ensures-map (goes {a} {w} h) l k = goes (k a w h)
Ensures-map (leaves {r} {err} {w} h) l k = leaves (l w h)

pub Ensures-state :
    {W R A : Type 0} {P : W → Type 0} {step : Step R A × W} → Ensures P (λ _ w. P w) step → P step.1
Ensures-state (goes h) = h
Ensures-state (leaves h) = h
