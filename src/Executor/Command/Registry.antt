-- ===== src/Executor/Command/Registry.antt =====
-- What a mutator's registry holds, and what a step can therefore make it run.
use alex_cachyos.Prelude.{
  ℕ, String, ◌≡◌, ◌≢◌, refl, ap, Bool, true, false, not, ◌||◌, List, [], ◌∷◌, Option, none, some,
  Map, lookup, lookup-insert, ◌==◌, is_some, eq_iff, arith, if◌then◌else◌, inl, inr,
}
use alex_cachyos.Planner.Types.{Step}
use alex_cachyos.Runner.Request.{CommandRequest, Verdict, valid, validate_command_request}
use alex_cachyos.Runner.Ports.{Runner}
use alex_cachyos.Executor.Command.{
  CommandError, network_port_required, NetworkPort, CommandMutator, Made, made, refused, admit,
  and_then, register, with_network, same_metadata, authorized, authorize, dispatch,
  new_command_mutator, mutate,
}
use alex_cachyos.Executor.Command.Running.{
  IsRun, IsStart, if-IsRun, run_request-IsRun, authorize-IsRun,
}

-- Every entry is a valid request under its own operation, and `needs` tells of each one that
-- wants the network.
pub record IsRegistry (fold : ℕ → ℕ) (registry : Map CommandRequest) (needs : Bool) : Type 0 where
  pub at :
      (id : String) (r : CommandRequest)
      → lookup id registry ≡ some r
      → (validate_command_request fold r ≡ valid)
        × (r.operation ≡ id)
        × (r.network ≡ "required" → needs ≡ true)

module _ (fold : ℕ → ℕ) where
  admit-IsRegistry :
      (request : CommandRequest) (registry more : Map CommandRequest) (needs : Bool)
      → IsRegistry fold registry needs
      → admit (validate_command_request fold request) request registry ≡ made more
      → IsRegistry fold more (needs || request.network == "required")
  admit-IsRegistry request registry more needs inv h =
      go (validate_command_request fold request) refl h
    where
      go :
          (v : Verdict)
          → validate_command_request fold request ≡ v
          → admit v request registry ≡ made more
          → IsRegistry fold more (needs || request.network == "required")
      go v checked h = record {
        at = λ id r e.
            unfold admit in
            ground (
              arith,
              inv.at id r,
              lookup-insert request.operation id request registry,
              eq_iff request.operation id,
              eq_iff request.network "required",
            );
      }

  register-IsRegistry :
      (requests : List CommandRequest) (registry registry' : Map CommandRequest)
      (needs needs' : Bool)
      → IsRegistry fold registry needs
      → register fold registry needs requests ≡ made (registry', needs')
      → IsRegistry fold registry' needs'
  unfolding register
  register-IsRegistry [] registry registry' needs needs' inv h = record {
    at = λ id r e. ground (arith, inv.at id r);
  }
  register-IsRegistry (request ∷ requests) registry registry' needs needs' inv h =
      go (register-IsRegistry requests)
        (admit (validate_command_request fold request) request registry) refl h
    where
      go :
          ((q q' : Map CommandRequest) (n n' : Bool)
            → IsRegistry fold q n
            → register fold q n requests ≡ made (q', n')
            → IsRegistry fold q' n')
          → (m : Made (Map CommandRequest))
          → admit (validate_command_request fold request) request registry ≡ m
          → and_then m
              (λ more. register fold more (needs || request.network == "required") requests)
            ≡ made (registry', needs')
          → IsRegistry fold registry' needs'
      go rest (refused err) e h = cc
      go rest (made more) e h =
          rest more registry' (needs || request.network == "required") needs'
            (admit-IsRegistry request registry more needs inv e) h

-- The requests that a step may make a mutator run.
pub record IsAllowed (fold : ℕ → ℕ) (step : Step) (r : CommandRequest) : Type 0 where
  pub is_valid : validate_command_request fold r ≡ valid
  pub named : r.operation ≡ step.id
  pub same_scope : step.scope ≡ r.scope
  pub same_network : step.network ≡ r.network

module _ {W : Type 0} (P : W → Type 0) where
  if_keeps :
      (b : Bool) (x y : Option CommandError × W)
      → (b ≡ true → P x.1)
      → (b ≡ false → P y.1)
      → P (if b then x else y).1
  if_keeps true x y p q = p refl
  if_keeps false x y p q = q refl

  module _ (runner : Runner W) (r : CommandRequest) (run : (v : W) → P v → P (runner r v).1) (w : W)
      (p : P w) where
    authorized_keeps :
        (port : NetworkPort W) (answer : Option String)
        → P (port r w).1
        → P (authorized answer runner r (port r w).1).1
    unfolding authorized
    authorized_keeps port (some text) q = q
    authorized_keeps port none q = run _ q

    authorize_keeps :
        (network : Option (NetworkPort W))
        → ((port : NetworkPort W) → network ≡ some port → P (port r w).1)
        → P (authorize network runner r w).1
    unfolding authorize
    authorize_keeps none auth = p
    authorize_keeps (some port) auth = authorized_keeps port _ (auth port refl)

module _ (fold : ℕ → ℕ) {W : Type 0} where
  -- What `NewCommandMutator` makes sure of.
  record IsMade (m : CommandMutator W) : Type 0 where
    needs : Bool
    registry : IsRegistry fold m.requests needs
    reachable : needs ≡ true → is_some m.network ≡ true

  new_command_mutator-IsMade :
      (runner : Option (Runner W)) (requests : List CommandRequest)
      (network : Option (NetworkPort W)) (m : CommandMutator W)
      → new_command_mutator fold runner requests network ≡ made m
      → IsMade m
  unfolding new_command_mutator
  new_command_mutator-IsMade none requests network m h = cc
  new_command_mutator-IsMade (some runner) requests network m h =
      go (register fold [] false requests) refl h
    where
      go :
          (found : Made (Map CommandRequest × Bool))
          → register fold [] false requests ≡ found
          → and_then found (with_network fold runner network) ≡ made m
          → IsMade m
      go (refused err) e h = cc
      go (made (registry, needs)) e h =
          let inv =
            register-IsRegistry fold requests [] registry false needs
              (record { at = λ id r p. unfold lookup in cc }) e in
          record {
            needs = needs;
            registry = record { at = λ id r p. ground (arith, inv.at id r) };
            reachable = ground arith;
          }

  lookup-IsAllowed :
      (m : CommandMutator W) (step : Step) (r : CommandRequest)
      → IsMade m
      → lookup step.id m.requests ≡ some r
      → same_metadata step r ≡ true
      → IsAllowed fold step r
  lookup-IsAllowed m step r inv h same =
      ground
        (arith, inv.registry.at step.id r, eq_iff step.scope r.scope, eq_iff step.network r.network)

  module _ (m : CommandMutator W) (inv : IsMade m) (step : Step) (w : W) where
    dispatch_port :
        (found : Option CommandRequest)
        → lookup step.id m.requests ≡ found
        → (dispatch found m step w).0 ≢ some network_port_required
    unfolding dispatch
    dispatch_port none e h = cc
    dispatch_port (some r) e h =
        ground (arith, inv.registry.at step.id r e, inv.reachable, eq_iff r.network "required")

    dispatch-IsRun :
        (found : Option CommandRequest)
        → lookup step.id m.requests ≡ found
        → (dispatch found m step w).0 ≡ none
        → (r : CommandRequest) × (lookup step.id m.requests ≡ some r)
          × IsAllowed fold step r
          × IsRun m.runner r (IsStart m.network r w) (dispatch found m step w).1
    unfolding dispatch
    dispatch-IsRun none e h = cc
    dispatch-IsRun (some r) e h = (
      r,
      e,
      lookup-IsAllowed m step r inv e (ground arith),
      if-IsRun m.runner r (IsStart m.network r w) (not (same_metadata step r)) _ _
          (λ _ p. absurd (cc p))
          (λ _.
            if-IsRun m.runner r (IsStart m.network r w) (r.network == "required") _ _
              (λ wanted.
                authorize-IsRun m.runner r (IsStart m.network r w) w m.network (λ port there passed.
                  inr (wanted, port, there, ap (λ answer. (answer, (port r w).1)) passed)))
              (λ unwanted.
                run_request-IsRun m.runner r (IsStart m.network r w) w (inl (unwanted, refl))))
          h,
    )

    dispatch_keeps :
        (P : W → Type 0)
        → ((r : CommandRequest) (v : W) → IsAllowed fold step r → P v → P (m.runner r v).1)
        → ((port : NetworkPort W) (r : CommandRequest) (v : W)
            → m.network ≡ some port
            → P v
            → P (port r v).1)
        → P w
        → (found : Option CommandRequest) → lookup step.id m.requests ≡ found
        → P (dispatch found m step w).1
    unfolding dispatch
    dispatch_keeps P run auth p none e = p
    dispatch_keeps P run auth p (some r) e =
        if_keeps P (not (same_metadata step r)) _ _ (λ _. p)
          λ same.
            let allowed = lookup-IsAllowed m step r inv e (ground arith) in
            if_keeps P (r.network == "required") _ _
              (λ _.
                authorize_keeps P m.runner r (λ v. run r v allowed) w p m.network
                  (λ port e. auth port r w e p))
              (λ _. run r w allowed p)

  module _ (runner : Option (Runner W)) (requests : List CommandRequest)
      (network : Option (NetworkPort W)) {m : CommandMutator W}
      (is_made : new_command_mutator fold runner requests network ≡ made m) (step : Step)
      (w : W) where
    -- A mutator that `NewCommandMutator` made never finds its network port missing.
    mutate-ne-network_port_required : (mutate m step w).0 ≢ some network_port_required
    unfolding mutate
    mutate-ne-network_port_required h =
        dispatch_port m (new_command_mutator-IsMade runner requests network m is_made) step w _ refl
          h

    -- If a mutator that `NewCommandMutator` made reports success, the step has a request in the
    -- registry that is valid, bears the step's identifier as its operation, and has the step's scope
    -- and network class; and the runner ran this request without an error and with exit code 0, and
    -- nothing else happened to the machine, save that for a request that wants the network the
    -- network port was asked first and let it pass.
    pub mutate-IsAllowed :
        (mutate m step w).0 ≡ none
        → (r : CommandRequest) × (lookup step.id m.requests ≡ some r)
          × IsAllowed fold step r
          × IsRun m.runner r (IsStart m.network r w) (mutate m step w).1
    unfolding mutate
    mutate-IsAllowed h =
        dispatch-IsRun m (new_command_mutator-IsMade runner requests network m is_made) step w _
          refl h

    -- A property of the machine that the mutator's network port keeps, and that its runner keeps on
    -- the step's allowed requests, is kept: nothing else touches the machine.
    pub mutate_keeps :
        (P : W → Type 0)
        → ((r : CommandRequest) (v : W) → IsAllowed fold step r → P v → P (m.runner r v).1)
        → ((port : NetworkPort W) (r : CommandRequest) (v : W)
            → m.network ≡ some port
            → P v
            → P (port r v).1)
        → P w
        → P (mutate m step w).1
    unfolding mutate
    mutate_keeps P run auth h =
        dispatch_keeps m (new_command_mutator-IsMade runner requests network m is_made) step w P run
          auth h _ refl
