-- ===== src/Planner/Digest/Arrays.antt =====
-- JSON arrays that are written the same hold the same items.
use mathlib.Core.List.{append_assoc}
use alex_cachyos.Prelude.{
  ℕ, ◌≡◌, sym, ap, ◌∙◌, Bool, true, false, List, [], ◌∷◌, ◌++◌, map, beq_nat, arith,
}
use alex_cachyos.Planner.Digest.{Libraries, Writing, written, separator, write_items, write_array}
use alex_cachyos.Planner.Digest.Splits.{
  ends_value, JsonLaws, Splits, bind-written, written_inj, tail_equal, separator_cancel,
  enclosed_lem,
}

-- Each pair of items agrees.
abbrev pub Pairwise {ℓ} : {A : Type ℓ} → (A → A → Type 0) → List A → List A → Type 0
Pairwise R [] [] = Unit
Pairwise R [] (y ∷ ys) = ⊥
Pairwise R (x ∷ xs) [] = ⊥
Pairwise R (x ∷ xs) (y ∷ ys) = R x y × Pairwise R xs ys

module _ (libraries : Libraries) (laws : JsonLaws libraries) where
  module _ {A : Type 0} (f : A → Writing) (R : A → A → Type 0)
      (splits : (s t : A) → Splits (f s) (f t) (R s t))
      (starts : (s : A) (p : List ℕ)
        → f s ≡ written p
        → (c : ℕ) × (more : List ℕ) × (p ≡ c ∷ more) × (beq_nat c b']' ≡ false)) where
    item_lem :
        (first : Bool) (u : Writing) (us : List Writing) (x : List ℕ)
        → write_items libraries first (u ∷ us) ≡ written x
        → (p : List ℕ) × (q : List ℕ) × (u ≡ written p)
          × (write_items libraries false us ≡ written q)
          × ((t : List ℕ) → x ++ t ≡ separator first ++ (p ++ (q ++ t)))
    unfolding write_items
    item_lem first u us x e =
        let (p, u_is, after) = bind-written u _ x e in
        let (q, us_is, last) = bind-written (write_items libraries false us) _ x after in
        (
          p,
          q,
          u_is,
          us_is,
          λ t.
              ap (λ z. z ++ t) (sym (written_inj _ _ last))
              ∙ append_assoc (separator first) _ t
              ∙ ap (λ z. separator first ++ z) (append_assoc p q t),
        )

    items_end :
        (us : List Writing) (q a : List ℕ)
        → write_items libraries false us ≡ written q
        → ends_value (q ++ b']' ∷ a) ≡ true
    unfolding write_items
    items_end [] q a e = ap (λ z. ends_value (z ++ b']' ∷ a)) (sym (written_inj _ _ e))
    items_end (u ∷ us) q a e =
        let (p, r, u_is, us_is, q_is) = item_lem false u us q e in ap ends_value (q_is (b']' ∷ a))

    items_longer :
        (s : A) (ss : List A) (first : Bool) (x a b : List ℕ)
        → write_items libraries first (map f (s ∷ ss)) ≡ written x
        → x ++ b']' ∷ a ≡ b']' ∷ b
        → ⊥
    items_longer s ss true x a b wx e =
        let (p, q, s_is, _, x_is) = item_lem true (f s) (map f ss) x wx in
        let (c, more, begins, other) = starts s p s_is in
        let shown = ap (λ z. z ++ (q ++ b']' ∷ a)) (sym begins) ∙ sym (x_is (b']' ∷ a)) ∙ e in
        absurd (ground (arith, (tail_equal _ _ _ _ shown).0, other))
    items_longer s ss false x a b wx e =
        let (p, q, s_is, _, x_is) = item_lem false (f s) (map f ss) x wx in
        absurd (ground (arith, (tail_equal _ _ _ _ (sym (x_is (b']' ∷ a)) ∙ e)).0))

    items_split :
        (ss ts : List A) (first : Bool) (x y a b : List ℕ)
        → write_items libraries first (map f ss) ≡ written x
        → write_items libraries first (map f ts) ≡ written y
        → x ++ b']' ∷ a ≡ y ++ b']' ∷ b
        → Pairwise R ss ts × (a ≡ b)
    unfolding write_items
    items_split [] [] first x y a b wx wy e =
        let shown =
          ap (λ z. z ++ b']' ∷ a) (written_inj _ _ wx)
          ∙ e
          ∙ ap (λ z. z ++ b']' ∷ b) (sym (written_inj _ _ wy)) in
        (tt, (tail_equal _ _ _ _ shown).1)
    items_split [] (t ∷ ts) first x y a b wx wy e = absurd (
        items_longer t ts first y b a wy
          (sym e ∙ ap (λ z. z ++ b']' ∷ a) (sym (written_inj _ _ wx))))
    items_split (s ∷ ss) [] first x y a b wx wy e =
        absurd (
          items_longer s ss first x a b wx (e ∙ ap (λ z. z ++ b']' ∷ b) (sym (written_inj _ _ wy))))
    items_split (s ∷ ss) (t ∷ ts) first x y a b wx wy e =
        let (p, q, sp, ssq, x_is) = item_lem first (f s) (map f ss) x wx in
        let (p', q', tp, tsq, y_is) = item_lem first (f t) (map f ts) y wy in
        let behind =
          separator_cancel libraries laws first _ _ (sym (x_is (b']' ∷ a)) ∙ e ∙ y_is (b']' ∷ b)) in
        let (agree, rest) =
          splits s t p p' (q ++ b']' ∷ a) (q' ++ b']' ∷ b) sp tp (items_end (map f ss) q a ssq)
            (items_end (map f ts) q' b tsq) behind in
        let (agrees, after) = items_split ss ts false q q' a b ssq tsq rest in
        ((agree, agrees), after)

    pub array-Splits :
        (ss ts : List A)
        → Splits
            (write_array libraries (map f ss))
            (write_array libraries (map f ts))
            (Pairwise R ss ts)
    array-Splits ss ts x y a b wx wy ea eb e =
        let (p, ss_is, x_is) =
          enclosed_lem libraries laws b'[' b']' (write_items libraries true (map f ss)) x wx in
        let (q, ts_is, y_is) =
          enclosed_lem libraries laws b'[' b']' (write_items libraries true (map f ts)) y wy in
        items_split ss ts true p q a b ss_is ts_is
          (tail_equal _ _ _ _ (sym (x_is a) ∙ e ∙ y_is b)).1
