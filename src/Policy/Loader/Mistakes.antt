-- ===== src/Policy/Loader/Mistakes.antt =====
-- Documents with mistakes that the loader does not report as its own error.
use smart_bandwidth_optimize.Base.{
  ℕ, ◌≡◌, ◌≢◌, refl, ap, sym, ◌∙◌, Bool, false, Option, some, List, [], ◌∷◌, map, arith, length,
}
use smart_bandwidth_optimize.Base.Text.{Text, codes, text_eq, lower}
use smart_bandwidth_optimize.Base.Float.{Float}
use smart_bandwidth_optimize.Base.Dynamic.{
  Value, null, str, mapping, Fields, ok, raised, attribute_error, Conversions, get, to_text,
  get_or_empty, as_mapping, end, field, ok_injective,
}
use smart_bandwidth_optimize.Classifier.{
  Packet, ClassificationRule, has_text, protocols_match, matches,
}
use smart_bandwidth_optimize.Policy.{PolicyRule, to_classification_rule}
use smart_bandwidth_optimize.Policy.Loader.{
  LoadError, load_protocols, parse_rule, parse, load_string,
}
use smart_bandwidth_optimize.Policy.Loader.Checks.{parse_rule_parts}

module _ {F : Type 0} ⦃d : Float F⦄ (c : Conversions F) where
  -- The document is neither empty nor a mapping.
  abbrev pub IsScalarOrList : Value F → Type 0
  IsScalarOrList null = ⊥
  IsScalarOrList (mapping fs) = ⊥
  IsScalarOrList _ = Unit

  -- A document that is neither empty nor a mapping makes `load_string` raise an `AttributeError`, not its
  -- own exception.
  pub load_string_no_mapping :
      (safe_load : Text → Option (Value F)) (text : Text) (v : Value F)
      → safe_load text ≡ some v
      → IsScalarOrList v
      → load_string c safe_load text ≡ raised attribute_error
  unfolding load_string parse
  load_string_no_mapping safe_load text null e h = absurd h
  load_string_no_mapping safe_load text (mapping fs) e h = absurd h
  load_string_no_mapping safe_load text v e h = rw (e, load_string) refl

  letters : Text → List (Value F)
  letters s = map (λ x. str (x ∷ [])) s

  load_protocols_text :
      (fs : Fields F) (x : ℕ) (s : Text)
      → get (codes "protocols") fs ≡ some (str (x ∷ s))
      → load_protocols c fs ≡ ok (map (λ y. lower (y ∷ [])) (x ∷ s))
  unfolding load_protocols
  load_protocols_text fs x s h = rw h (ap ok (go (x ∷ s)))
    where
      go :
          (s : Text)
          → map (λ v. lower (to_text c v)) (map (λ y. str (y ∷ [])) s) ≡ map (λ y. lower (y ∷ [])) s
      go [] = refl
      go (y ∷ ys) = ap (◌∷◌ (lower (y ∷ []))) (go ys)

  no_letter : (s q : Text) → length q ≢ 1 → has_text (map (λ y. lower (y ∷ [])) s) q ≡ false
  unfolding has_text lower text_eq
  no_letter [] q h = refl
  no_letter (y ∷ s) [] h = no_letter s [] h
  no_letter (y ∷ s) (a ∷ []) h = absurd (h refl)
  no_letter (y ∷ s) (a ∷ b ∷ q) h = ground (arith, no_letter s (a ∷ b ∷ q) h)

  match_of :
      (raw m : Fields F) {v : Value F}
      → get (codes "match") raw ≡ some (mapping m)
      → get (codes "protocols") m ≡ some v
      → get_or_empty (codes "match") raw (mapping end) ≡ mapping m
  unfolding get
  match_of raw end h k = cc
  match_of raw (field j w fs) h k = rw h refl

  length-lower : (q : Text) → length (lower q) ≡ length q
  unfolding lower
  length-lower [] = refl
  length-lower (y ∷ q) = omega (arith, length-lower q)

  refused :
      (search : Text → Text → Bool) (r : ClassificationRule) (p : Packet F) (y : Text)
      (ys : List Text)
      → r.protocols ≡ y ∷ ys
      → has_text (y ∷ ys) (lower p.protocol) ≡ false
      → matches search r p ≡ false
  unfolding matches protocols_match
  refused search r p y ys e h = ground (arith, e, h)

  -- A rule whose `protocols` is a text and no list, such as `protocols: udp`, is read without an error,
  -- but it matches no packet whose protocol has other than one letter: the loader goes through the
  -- letters of the text.
  matches-text_protocols :
      (raw m : Fields F) (i x : ℕ) (s : Text) {r : PolicyRule F} (search : Text → Text → Bool)
      (p : Packet F)
      → parse_rule c (mapping raw) i ≡ ok r
      → get (codes "match") raw ≡ some (mapping m)
      → get (codes "protocols") m ≡ some (str (x ∷ s))
      → length p.protocol ≢ 1
      → matches search (to_classification_rule r) p ≡ false
  unfolding to_classification_rule
  matches-text_protocols raw m i x s {r} search p read found text other =
      let (raw', m', e1, e2, e3, e4) = parse_rule_parts c (mapping raw) i read in
      let here : raw ≡ raw' = ok_injective raw raw' e1 in
      let e2' : as_mapping {E = LoadError} (get_or_empty (codes "match") raw (mapping end))
          ≡ ok m' =
        rw here e2 in
      let there : m ≡ m' = ok_injective m m' (rw (match_of raw m found text) at e2') in
      let letters_of : map (λ y. lower (y ∷ [])) (x ∷ s) ≡ r.protocols =
        ok_injective _ _ (sym (load_protocols_text m x s text) ∙ rw there e3) in
      refused search (to_classification_rule r) p (lower (x ∷ [])) (map (λ y. lower (y ∷ [])) s)
        (sym letters_of)
        (no_letter (x ∷ s) (lower p.protocol) (λ e. other (sym (length-lower p.protocol) ∙ e)))
