-- ===== src/Runner/Exec/Bounds.antt =====
-- Bounds on what a process's output can take up.
use mathlib.Core.List.{append-nil, append_assoc}
use native.Mathlib.Nat.{sub-zero, zero-sub, suc-sub-suc}
use alex_cachyos.Prelude.{
  ℕ, zero, suc, ◌-◌, ◌≤◌, ◌≡◌, refl, sym, ap, ◌∙◌, inl, inr, Bool-cases, ltb, List, [], ◌∷◌, ◌++◌,
  length, take, length-append, arith,
}
use alex_cachyos.Runner.Request.{CommandRequest}
use alex_cachyos.Runner.Exec.{write, write_all, redact_and_bound, stream}

-- One write after another, as one text.
abbrev pub joined : List (List ℕ) → List ℕ
joined [] = []
joined (p ∷ ps) = p ++ joined ps

take_all : (p : List ℕ) (n : ℕ) → length p ≤ n → take n p ≡ p
take_all [] zero h = refl
take_all [] (suc n) h = refl
take_all (b ∷ p) zero h = absurd (omega arith)
take_all (b ∷ p) (suc n) h = ground (arith, take_all p n)

take-nil : (n : ℕ) → take {A = ℕ} n [] ≡ []
take-nil zero = refl
take-nil (suc n) = refl

take-append : (n : ℕ) (p q : List ℕ) → take n (p ++ q) ≡ take n p ++ take (n - length p) q
take-append n [] q = rw (sub-zero, take-nil)
take-append zero (b ∷ p) q = rw zero-sub
take-append (suc n) (b ∷ p) q = rw suc-sub-suc (ap (λ r. b ∷ r) (take-append n p q))

length-take : (n : ℕ) (p : List ℕ) → length (take n p) ≤ n
length-take zero p = omega arith
length-take (suc n) [] = omega arith
length-take (suc n) (b ∷ p) = omega (arith, length-take n p)

take-append_take : (n : ℕ) (p q : List ℕ) → take n (take n p ++ q) ≡ take n (p ++ q)
take-append_take zero p q = refl
take-append_take (suc n) [] q = refl
take-append_take (suc n) (b ∷ p) q = ap (λ r. b ∷ r) (take-append_take n p q)

-- A write appends what fits.
write_lem :
    (limit : ℕ) (buffer p : List ℕ)
    → write limit buffer p ≡ buffer ++ take (limit - length buffer) p
unfolding write
write_lem limit buffer p = elim (Bool-cases (ltb 0 (limit - length buffer))) [
  | inl some_room ↦ rw some_room (elim (Bool-cases (ltb (limit - length buffer) (length p))) [
    | inl short ↦ rw short
    | inr fits ↦
        rw fits
          (ap (λ q. buffer ++ q) (take_all p _ (omega arith) ∙ sym (take_all p _ (ground arith))))
  ])
  | inr full ↦
      rw (full, let e : limit - length buffer ≡ 0 = ground arith in e) (sym (append-nil buffer))
]

write_all-take :
    (limit : ℕ) (buffer : List ℕ) (ps : List (List ℕ))
    → length buffer ≤ limit
    → write_all limit buffer ps ≡ take limit (buffer ++ joined ps)
unfolding write_all
write_all-take limit buffer [] h = rw append-nil (sym (take_all buffer limit h))
write_all-take limit buffer (p ∷ ps) h =
    let room = limit - length buffer in
    rw (write_lem limit buffer p) (
      write_all-take limit (buffer ++ take room p) ps
        (omega (arith, length-append buffer (take room p), length-take room p))
      ∙ rw append_assoc (
          take-append limit buffer (take room p ++ joined ps)
          ∙ ap (λ q. take limit buffer ++ q) (take-append_take room p (joined ps))
          ∙ sym (take-append limit buffer (p ++ joined ps))))

redact_and_bound-le :
    (redact : List ℕ → List ℕ) (output : List ℕ) (limit : ℕ)
    → length (redact_and_bound redact output limit) ≤ limit
unfolding redact_and_bound
redact_and_bound-le redact [] limit = omega arith
redact_and_bound-le redact (b ∷ output) limit =
    ground (arith, length-take limit (redact (b ∷ output)))

-- A `boundedBuffer` holds exactly the first `limit` bytes of what was written, however the writes
-- cut it up.
write_all_lem : (limit : ℕ) (ps : List (List ℕ)) → write_all limit [] ps ≡ take limit (joined ps)
write_all_lem limit ps = write_all-take limit [] ps (omega arith)

-- What a command result keeps of a stream is never longer than the request's output limit,
-- whatever the process writes and whatever the redaction puts in.
pub stream-le :
    (redact : List ℕ → List ℕ) (r : CommandRequest) (writes : List (List ℕ))
    → length (stream redact r writes) ≤ r.output_limit
unfolding stream
stream-le redact r writes =
    ground (arith, redact_and_bound-le redact (write_all r.output_limit [] writes) r.output_limit)
