-- ===== src/Planner/DigestExamples.antt =====
-- The digest of a plan of one step, over libraries in which a JSON value is one number.
use alex_cachyos.Prelude.{
  none, true, Bool-cases, inl, inr, ap, any, Option, ℕ, ◌≡◌, refl, String, false, some, List, [],
  ◌∷◌, ◌++◌, length, codes, contains, arith, sorted_set, distinct, sort_by, if◌then◌else◌, beq_nat,
}
use text.Mathlib.TextEquality.{Char-path}
use alex_cachyos.Prelude.Numbers.{decimal}
use alex_cachyos.Planner.Types.{JsonValue, Step, Plan, Disposition}
use alex_cachyos.Executor.Types.{Decoded, eof, syntax_error, value}
use alex_cachyos.Planner.Digest.{
  Libraries, digest, normalize, Writing, written, refused, write_inverse, write_fields, write_items,
  write_step, write_steps, write_selection, write_string_set, write_canonical_json, canonical_json,
}
use alex_cachyos.Planner.Digest.Splits.{ends_value, JsonLaws, tail_equal}
use alex_cachyos.Planner.Digest.Apart.{AgreeingPlan, normalize-AgreeingPlan}
use alex_cachyos.Planner.Digest.Unordered.{SamePlan, digest-SamePlan}
use alex_cachyos.Planner.Digest.Payloads.{is_digest, digest-is_payload}

-- The number 0 stands for what is no JSON value.
abbrev decode_number : JsonValue → Decoded ℕ
decode_number [] = eof
decode_number (n ∷ rest) = if beq_nat n 0 then syntax_error else value n rest

abbrev libraries : Libraries
libraries = record {
  Value = ℕ;
  decode = decode_number;
  marshal = λ n. some (n ∷ []);
  marshal_text = λ text. b'"' ∷ (codes text ++ b'"' ∷ []);
  sha256 = λ bytes. decimal (length bytes);
}

abbrev step : List String → JsonValue → Step
step dependencies desired = record {
  id = "install";
  module_name = "apps";
  depends_on = dependencies;
  description = "";
  scope = "user";
  network = "none";
  operation = "install";
  disposition = Disposition.apply;
  desired = desired;
  observed = [];
  inverse = some (record { operation = "uninstall"; value = 1 ∷ [] });
}

abbrev plan : List String → List String → JsonValue → Plan
plan chosen dependencies desired = record {
  selection = record { only = []; with_modules = chosen; without = [] };
  steps = step dependencies desired ∷ [];
}

abbrev sorted_plan : Plan
sorted_plan = plan ("apps" ∷ "desktop" ∷ []) ("a" ∷ "b" ∷ []) (7 ∷ [])

abbrev shuffled_plan : Plan
shuffled_plan = plan ("desktop" ∷ "apps" ∷ "apps" ∷ []) ("b" ∷ "a" ∷ "b" ∷ []) (7 ∷ [])

same_plans : SamePlan sorted_plan shuffled_plan
unfolding contains
same_plans = (((λ v. refl), (λ v. ground arith), (λ v. refl)), ((refl, (λ v. ground arith)), tt))

digest-SamePlan_example : digest libraries sorted_plan ≡ digest libraries shuffled_plan
digest-SamePlan_example = digest-SamePlan libraries sorted_plan shuffled_plan same_plans

-- Two values in one payload are refused.
digest-is_payload_example : is_digest (digest libraries (plan [] [] (7 ∷ 8 ∷ []))) ≡ false
unfolding write_canonical_json canonical_json
digest-is_payload_example = digest-is_payload libraries (plan [] [] (7 ∷ 8 ∷ []))

normalized :
    normalize libraries (record {
      selection = record { only = "b" ∷ "a" ∷ []; with_modules = []; without = [] };
      steps = [];
    })
    ≡ written
        (codes "{\"selection\":{\"only\":[\"a\",\"b\"],\"with\":[],\"without\":[]},\"steps\":[]}\n")
unfolding normalize write_fields write_items write_steps write_selection write_string_set sorted_set
    distinct sort_by contains
normalized = refl

-- The library's texts with their lengths in front, so that they say where they end, and numbers that
-- are none of the marks that end a value.
abbrev marshal_number : ℕ → Option JsonValue
marshal_number n = if ends_value (n ∷ []) then none else some (n ∷ [])

abbrev self_delimiting : Libraries
self_delimiting = record libraries {
  Value = ℕ;
  decode = decode_number;
  marshal = marshal_number;
  marshal_text = λ text. b'"' ∷ length (codes text) ∷ codes text;
}

abbrev IsPlain : List ℕ → Type 0
IsPlain bytes = any (λ n. ends_value (n ∷ [])) bytes ≡ false

marshal_number-IsPlain : (n : ℕ) (bytes : List ℕ) → marshal_number n ≡ some bytes → IsPlain bytes
marshal_number-IsPlain n bytes e = elim (Bool-cases (ends_value (n ∷ []))) [
  | inl mark ↦ absurd (ground (arith, mark, e))
  | inr plain ↦ ground (arith, plain, e)
]

plain_apart :
    (x y a b : List ℕ)
    → IsPlain x
    → IsPlain y
    → ends_value a ≡ true
    → ends_value b ≡ true
    → x ++ a ≡ y ++ b
    → (x ≡ y) × (a ≡ b)
plain_apart [] [] a b px py ea eb e = (refl, e)
plain_apart [] (d ∷ y) a b px py ea eb e = absurd (ground (arith, py, ap ends_value e, ea))
plain_apart (c ∷ x) [] a b px py ea eb e = absurd (ground (arith, px, ap ends_value e, eb))
plain_apart (c ∷ x) (d ∷ y) a b px py ea eb e =
    let (heads, tails) = tail_equal _ _ _ _ e in
    let (same, rest) = plain_apart x y a b (ground (arith, px)) (ground (arith, py)) ea eb tails in
    (cc (heads, same), rest)

fronts_apart : (x y a b : List ℕ) → length x ≡ length y → x ++ a ≡ y ++ b → (x ≡ y) × (a ≡ b)
fronts_apart [] [] a b len e = (refl, e)
fronts_apart [] (d ∷ y) a b len e = absurd (omega (arith, len))
fronts_apart (c ∷ x) [] a b len e = absurd (omega (arith, len))
fronts_apart (c ∷ x) (d ∷ y) a b len e =
    let (heads, tails) = tail_equal _ _ _ _ e in
    let (same, rest) = fronts_apart x y a b (omega (arith, len)) tails in (cc (heads, same), rest)

codes_equal_lem : (s t : String) → codes s ≡ codes t → s ≡ t
codes_equal_lem String.[] String.[] e = refl
codes_equal_lem String.[] (String.◌∷◌ d t) e = absurd (cc e)
codes_equal_lem (String.◌∷◌ c s) String.[] e = absurd (cc e)
codes_equal_lem (String.◌∷◌ c s) (String.◌∷◌ d t) e =
    let (heads, tails) = tail_equal _ _ _ _ e in
    let c≡d = Char-path c d heads in
    let s≡t = codes_equal_lem s t tails in λ i. String.◌∷◌ (c≡d i) (s≡t i)

json_laws : JsonLaws self_delimiting
json_laws = record {
  IsValue = IsPlain;
  marshal-IsValue = marshal_number-IsPlain;
  null-IsValue = refl;
  value_apart = plain_apart;
  text_quoted = λ s. (_, refl);
  text_apart = λ s t a b e.
      let behind = (tail_equal _ _ _ _ e).1 in
      let (long, tails) = tail_equal _ _ _ _ behind in
      let (same, rest) = fronts_apart (codes s) (codes t) a b long tails in
      (codes_equal_lem s t same, rest);
}

abbrev bytes_of : Writing → List ℕ
bytes_of (written bytes) = bytes
bytes_of (refused err) = []

abbrev form : List ℕ
form = bytes_of (normalize self_delimiting sorted_plan)

same_form :
    (normalize self_delimiting sorted_plan ≡ written form)
    × (normalize self_delimiting shuffled_plan ≡ written form)
unfolding normalize write_fields write_items write_step write_steps write_selection write_inverse
    write_string_set write_canonical_json canonical_json sorted_set distinct sort_by contains
same_form = (refl, refl)

normalize-AgreeingPlan_example : AgreeingPlan self_delimiting sorted_plan shuffled_plan
normalize-AgreeingPlan_example =
    normalize-AgreeingPlan self_delimiting json_laws sorted_plan shuffled_plan form same_form.0
      same_form.1
