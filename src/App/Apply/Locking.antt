-- ===== src/App/Apply/Locking.antt =====
-- The lock that internal/app/apply.go holds while it executes.
use alex_cachyos.Prelude.{String, ◌≡◌, ◌∙◌, Bool, true, false, Option, none, some, List}
use alex_cachyos.Planner.Types.{Plan}
use alex_cachyos.Planner.Network.{NetworkGroup, network_groups}
use alex_cachyos.App.Apply.{
  Receipt, Applier, execute, publish, apply_dry, apply_refused, apply_locked, apply_plan, apply,
  LockReply, prepare, with_lock, with_plan, with_envelope,
}

-- The lock is taken if the factory says so.
abbrev pub is_locked : LockReply → Bool
is_locked LockReply.locked = true
is_locked _ = false

module _ {W : Type 0} (a : Applier W) (held : W → Bool)
    (acquires : (w : W) → held w ≡ false → held (a.lock w).1 ≡ is_locked (a.lock w).0)
    (releases : (w : W) → held (a.release w).1 ≡ false)
    (executes : (plan : Plan) (dry : Bool) (w : W) → held (execute a plan dry w).1 ≡ held w)
    (publishes : (value : Receipt) (w : W) → held (publish a value w).1 ≡ held w) where
  module _ (value : Receipt) (plan : Plan) (groups : List NetworkGroup) where
    dry-free : (w : W) → held w ≡ false → held (apply_dry a value plan groups w).1 ≡ false
    unfolding apply_dry
    dry-free w h = publishes _ _ ∙ executes plan true w ∙ h

    locked-free : (w : W) → held (apply_locked a value plan groups w).1 ≡ false
    unfolding apply_locked
    locked-free w = releases _

    lock-free :
        (reply : LockReply × W)
        → held reply.1 ≡ is_locked reply.0
        → held (with_lock a value plan groups reply).1 ≡ false
    unfolding apply_refused
    lock-free (LockReply.locked, w) h = locked-free w
    lock-free (LockReply.contended, w) h = publishes _ w ∙ h
    lock-free (LockReply.refused, w) h = publishes _ w ∙ h

  plan-free :
      (dry : Bool) (kept : Receipt) (plan : Plan) (digest : String) (w : W)
      → held w ≡ false
      → held (apply_plan a dry kept plan digest w).1 ≡ false
  unfolding apply_plan
  plan-free true kept plan digest w h =
      dry-free (prepare a kept true digest (network_groups plan)) plan (network_groups plan) w h
  plan-free false kept plan digest w h =
      lock-free (prepare a kept false digest (network_groups plan)) plan (network_groups plan)
        (a.lock w) (acquires w h)

  cloned-free :
      (dry : Bool) (kept : Receipt) (cloned : Option (Plan × String)) (w : W)
      → held w ≡ false
      → held (with_plan a dry kept cloned w).1 ≡ false
  cloned-free dry kept none w h = h
  cloned-free dry kept (some (plan, digest)) w h = plan-free dry kept plan digest w h

  envelope-free :
      (dry : Bool) (plan : Plan) (cloned : Option Receipt) (w : W)
      → held w ≡ false
      → held (with_envelope a dry plan cloned w).1 ≡ false
  envelope-free dry plan none w h = h
  envelope-free dry plan (some kept) w h = cloned-free dry kept (a.clone_plan plan) w h

  -- An application that starts without the lock ends without it, whatever fails on the way, if the
  -- lock factory takes the lock exactly when it reports so, a release gives it up, and neither the
  -- executor nor the store touches it.
  pub apply-held :
      (envelope : Receipt) (plan : Plan) (dry : Bool) (w : W)
      → held w ≡ false
      → held (apply a envelope plan dry w).1 ≡ false
  unfolding apply
  apply-held envelope plan dry w h = envelope-free dry plan (a.clone_envelope envelope) w h
