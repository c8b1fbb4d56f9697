-- ===== src/Planner/Digest/Splits.antt =====
-- JSON objects that are written the same hold the same fields.
use mathlib.Core.List.{append_assoc}
use alex_cachyos.Prelude.{
  ℕ, String, ◌≡◌, refl, sym, ap, ◌∙◌, Bool, true, false, ◌||◌, some, List, [], ◌∷◌, ◌++◌, beq_nat,
  codes, arith,
}
use alex_cachyos.Planner.Digest.{
  Libraries, Writing, written, refused, ◌>>=◌, separator, enclosed, write_text, write_fields,
  write_object,
}

-- A value in an object or an array is followed by a comma or a closing bracket.
abbrev pub ends_value : List ℕ → Bool
ends_value [] = false
ends_value (c ∷ rest) = beq_nat c b',' || (beq_nat c b'}' || beq_nat c b']')

-- What JSON promises of the encodings: a text begins with a quote and says where it ends, and a value
-- ends where a comma or a closing bracket follows.
pub record JsonLaws (libraries : Libraries) : Type 1 where
  pub IsValue : List ℕ → Type 0
  pub marshal-IsValue :
      (v : libraries.Value) (bytes : List ℕ) → libraries.marshal v ≡ some bytes → IsValue bytes
  pub null-IsValue : IsValue (codes "null")
  pub value_apart :
      (x y a b : List ℕ)
      → IsValue x
      → IsValue y
      → ends_value a ≡ true
      → ends_value b ≡ true
      → x ++ a ≡ y ++ b
      → (x ≡ y) × (a ≡ b)
  pub text_quoted : (s : String) → (rest : List ℕ) × (libraries.marshal_text s ≡ b'"' ∷ rest)
  pub text_apart :
      (s t : String) (a b : List ℕ)
      → libraries.marshal_text s ++ a ≡ libraries.marshal_text t ++ b
      → (s ≡ t) × (a ≡ b)

pub bind-written :
    (u : Writing) (f : List ℕ → Writing) (x : List ℕ)
    → (u >>= f) ≡ written x
    → (p : List ℕ) × (u ≡ written p) × (f p ≡ written x)
bind-written (written p) f x e = (p, refl, e)
bind-written (refused err) f x e = absurd (cc e)

pub written_inj : (x y : List ℕ) → written x ≡ written y → x ≡ y
written_inj x y e = cc e

pub tail_equal : (c d : ℕ) (a b : List ℕ) → ◌≡◌ {A = List ℕ} (c ∷ a) (d ∷ b) → (c ≡ d) × (a ≡ b)
tail_equal c d a b e = (cc e, cc e)

-- Where two writings stand in front of what ends a value, the bytes tell them apart: they agree as `R`
-- says, and so does what follows.
abbrev pub Splits : Writing → Writing → Type 0 → Type 0
Splits u v R =
    (x y a b : List ℕ)
    → u ≡ written x
    → v ≡ written y
    → ends_value a ≡ true
    → ends_value b ≡ true
    → x ++ a ≡ y ++ b
    → R × (a ≡ b)

-- Two lists of fields with the same names, or of which one ends before the other.
pub data Fields : List (String × Writing) → List (String × Writing) → Type 0 → Type 1 where
  done : Fields [] [] (Unit {0})
  shorter : {f : String × Writing} {fs : List (String × Writing)} → Fields [] (f ∷ fs) ⊥
  longer : {f : String × Writing} {fs : List (String × Writing)} → Fields (f ∷ fs) [] ⊥
  both :
      {name : String} {u v : Writing} {us vs : List (String × Writing)} {R P : Type 0}
      → Splits u v R
      → Fields us vs P
      → Fields ((name, u) ∷ us) ((name, v) ∷ vs) (R × P)

pub Splits-map : {u v : Writing} {R R' : Type 0} → (R → R') → Splits u v R → Splits u v R'
Splits-map f splits x y a b wx wy ea eb e =
    let (agree, rest) = splits x y a b wx wy ea eb e in (f agree, rest)

module _ (libraries : Libraries) (laws : JsonLaws libraries) where
  pub text-Splits :
      (s t : String) → Splits (write_text libraries s) (write_text libraries t) (s ≡ t)
  text-Splits s t x y a b wx wy ea eb e = laws.text_apart s t a b (cc (wx, wy, e))

  -- What begins a further field is no closing bracket.
  field_starts :
      (first : Bool) (name : String) (rest : List ℕ)
      → (c : ℕ) × (more : List ℕ) × (separator first ++ (libraries.marshal_text name ++ rest)
          ≡ c ∷ more)
        × (beq_nat c b'}' ≡ false)
  field_starts true name rest =
      let (more, quoted) = laws.text_quoted name in
      (b'"', more ++ rest, ap (λ n. n ++ rest) quoted, refl)
  field_starts false name rest = (b',', libraries.marshal_text name ++ rest, refl, refl)

  field_assoc : (n p q t : List ℕ) → (n ++ b':' ∷ (p ++ q)) ++ t ≡ n ++ b':' ∷ (p ++ (q ++ t))
  field_assoc n p q t = append_assoc n _ t ∙ ap (λ z. n ++ b':' ∷ z) (append_assoc p q t)

  field_append :
      (first : Bool) (n p q t : List ℕ)
      → (separator first ++ (n ++ b':' ∷ (p ++ q))) ++ t
        ≡ separator first ++ (n ++ b':' ∷ (p ++ (q ++ t)))
  field_append true n p q t = field_assoc n p q t
  field_append false n p q t = ap (λ z. b',' ∷ z) (field_assoc n p q t)

  pub separator_cancel :
      (first : Bool) (s t : List ℕ) → separator first ++ s ≡ separator first ++ t → s ≡ t
  separator_cancel true s t e = e
  separator_cancel false s t e = (tail_equal _ _ _ _ e).1

  -- A field that is written, with what follows.
  field_lem :
      (first : Bool) (name : String) (u : Writing) (us : List (String × Writing)) (x : List ℕ)
      → write_fields libraries first ((name, u) ∷ us) ≡ written x
      → (p : List ℕ) × (q : List ℕ) × (u ≡ written p)
        × (write_fields libraries false us ≡ written q)
        × ((t : List ℕ)
            → x ++ t ≡ separator first ++ (libraries.marshal_text name ++ b':' ∷ (p ++ (q ++ t))))
  unfolding write_fields
  field_lem first name u us x e =
      let (p, u_is, after) = bind-written u _ x e in
      let (q, us_is, last) = bind-written (write_fields libraries false us) _ x after in
      (
        p,
        q,
        u_is,
        us_is,
        λ t.
            ap (λ z. z ++ t) (sym (written_inj _ _ last))
            ∙ field_append first (libraries.marshal_text name) p q t,
      )

  fields_end :
      (us : List (String × Writing)) (q a : List ℕ)
      → write_fields libraries false us ≡ written q
      → ends_value (q ++ b'}' ∷ a) ≡ true
  unfolding write_fields
  fields_end [] q a e = ap (λ z. ends_value (z ++ b'}' ∷ a)) (sym (written_inj _ _ e))
  fields_end ((name, u) ∷ us) q a e =
      let (p, r, u_is, us_is, q_is) = field_lem false name u us q e in
      ap ends_value (q_is (b'}' ∷ a))

  -- No list of fields is the front of a longer one.
  fields_longer :
      (f : String × Writing) (fs : List (String × Writing)) (first : Bool) (x a b : List ℕ)
      → write_fields libraries first (f ∷ fs) ≡ written x
      → x ++ b'}' ∷ a ≡ b'}' ∷ b
      → ⊥
  fields_longer (name, u) fs first x a b wx e =
      let (p, q, _, _, x_is) = field_lem first name u fs x wx in
      let (c, more, starts, other) = field_starts first name (b':' ∷ (p ++ (q ++ b'}' ∷ a))) in
      let here = (tail_equal _ _ _ _ (sym starts ∙ sym (x_is (b'}' ∷ a)) ∙ e)).0 in
      absurd (ground (arith, here, other))

  pub fields_split :
      {us vs : List (String × Writing)} {P : Type 0}
      → Fields us vs P
      → (first : Bool) (x y a b : List ℕ) → write_fields libraries first us ≡ written x
      → write_fields libraries first vs ≡ written y
      → x ++ b'}' ∷ a ≡ y ++ b'}' ∷ b
      → P × (a ≡ b)
  unfolding write_fields
  fields_split done first x y a b wx wy e =
      let shown =
        ap (λ z. z ++ b'}' ∷ a) (written_inj _ _ wx)
        ∙ e
        ∙ ap (λ z. z ++ b'}' ∷ b) (sym (written_inj _ _ wy)) in
      (tt, (tail_equal _ _ _ _ shown).1)
  fields_split (shorter {f} {fs}) first x y a b wx wy e = absurd (
      fields_longer f fs first y b a wy
        (sym e ∙ ap (λ z. z ++ b'}' ∷ a) (sym (written_inj _ _ wx))))
  fields_split (longer {f} {fs}) first x y a b wx wy e =
      absurd
        (fields_longer f fs first x a b wx (e ∙ ap (λ z. z ++ b'}' ∷ b) (sym (written_inj _ _ wy))))
  fields_split (both {name} {u} {v} {us} {vs} splits fields) first x y a b wx wy e =
      let (p, q, up, usq, x_is) = field_lem first name u us x wx in
      let (p', q', vp, vsq, y_is) = field_lem first name v vs y wy in
      let named = separator_cancel first _ _ (sym (x_is (b'}' ∷ a)) ∙ e ∙ y_is (b'}' ∷ b)) in
      let behind = (tail_equal _ _ _ _ (laws.text_apart name name _ _ named).1).1 in
      let (agree, rest) =
        splits p p' (q ++ b'}' ∷ a) (q' ++ b'}' ∷ b) up vp (fields_end us q a usq)
          (fields_end vs q' b vsq) behind in
      let (agrees, after) = fields_split fields false q q' a b usq vsq rest in
      ((agree, agrees), after)

  -- What is enclosed, with what follows.
  pub enclosed_lem :
      (opening closing : ℕ) (items : Writing) (x : List ℕ)
      → enclosed opening closing items ≡ written x
      → (p : List ℕ) × (items ≡ written p) × ((t : List ℕ) → x ++ t ≡ opening ∷ (p ++ closing ∷ t))
  enclosed_lem opening closing items x e =
      let (p, is, last) = bind-written items _ x e in
      (
        p,
        is,
        λ t.
            ap (λ z. z ++ t) (sym (written_inj _ _ last))
            ∙ ap (λ z. opening ∷ z) (append_assoc p (closing ∷ []) t),
      )

  pub object_split :
      {us vs : List (String × Writing)} {P : Type 0}
      → Fields us vs P
      → (x y a b : List ℕ) → write_object libraries us ≡ written x
      → write_object libraries vs ≡ written y
      → x ++ a ≡ y ++ b
      → P × (a ≡ b)
  object_split {us} {vs} fields x y a b wx wy e =
      let (p, us_is, x_is) = enclosed_lem b'{' b'}' (write_fields libraries true us) x wx in
      let (q, vs_is, y_is) = enclosed_lem b'{' b'}' (write_fields libraries true vs) y wy in
      fields_split fields true p q a b us_is vs_is
        (tail_equal _ _ _ _ (sym (x_is a) ∙ e ∙ y_is b)).1

  pub object-Splits :
      {us vs : List (String × Writing)} {P : Type 0}
      → Fields us vs P
      → Splits (write_object libraries us) (write_object libraries vs) P
  object-Splits fields x y a b wx wy ea eb e = object_split fields x y a b wx wy e

  pub object_starts :
      (us : List (String × Writing)) (p : List ℕ)
      → write_object libraries us ≡ written p
      → (c : ℕ) × (more : List ℕ) × (p ≡ c ∷ more) × (beq_nat c b']' ≡ false)
  object_starts us p e =
      let (q, us_is, last) =
        bind-written (write_fields libraries true us) (λ q. written (b'{' ∷ (q ++ b'}' ∷ []))) p
          e in
      (b'{', q ++ b'}' ∷ [], sym (written_inj _ _ last), refl)
