-- ===== src/License/Keys.antt =====
-- The form of a key: stripping, splitting, and what an accepted key looks like.
use smart_bandwidth_optimize.Base.{
  ℕ, ◌≡◌, ◌≢◌, refl, ap, subst, sym, ◌∙◌, Bool, false, not, Option, none, some, [], ◌∷◌, ◌++◌,
  arith, All, ◌==◌, Option-cases, inl, inr, or_else, Bool-cases,
}
use mathlib.Core.Option.{some-injective}
use smart_bandwidth_optimize.Base.Text.{Text, codes, Bytes, text_eq, text_eq_sound, lower}
use smart_bandwidth_optimize.Base.Float.{Float}
use smart_bandwidth_optimize.Base.Dynamic.{
  Value, ok, Conversions, bind_ok, guard_ok, ok_injective, as_mapping, get, sequence, nil,
}
use smart_bandwidth_optimize.License.{
  LicenseError, LicenseKey, is_space, lstrip, rstrip, strip, split_last, sign, get_secret,
  read_payload, parse_parts, parse_license_key, as_features, check_signature, decode_payload,
  parts_of, empty_key,
}

pub rstrip_plain : (test : ℕ → Bool) (s : Text) → All (λ c. test c ≡ false) s → rstrip test s ≡ s
unfolding rstrip
rstrip_plain test [] h = refl
rstrip_plain test (c ∷ []) h = rw h.0 refl
rstrip_plain test (c ∷ x ∷ s) h = rw (rstrip_plain test (x ∷ s) h.1, rstrip) refl

lstrip_plain : (test : ℕ → Bool) (s : Text) → All (λ c. test c ≡ false) s → lstrip test s ≡ s
unfolding lstrip
lstrip_plain test [] h = refl
lstrip_plain test (c ∷ s) h = rw h.0 refl

pub strip_plain : (s : Text) → All (λ c. is_space c ≡ false) s → strip s ≡ s
unfolding strip
strip_plain s h = rw (rstrip_plain is_space s h) (lstrip_plain is_space s h)

split_last-none : (s : Text) → All (λ c. c ≢ b'.') s → split_last s ≡ none
unfolding split_last
split_last-none [] h = refl
split_last-none (c ∷ s) h = rw (split_last-none s h.1) (ground (arith, h.0))

pub split_last-dot :
    (a b : Text) → All (λ c. c ≢ b'.') b → split_last (a ++ (b'.' ∷ b)) ≡ some (a, b)
unfolding split_last
split_last-dot [] b h = rw (split_last-none b h) refl
split_last-dot (c ∷ a) b h = rw (split_last-dot a b h) refl

pub split_last_sound : (s a b : Text) → split_last s ≡ some (a, b) → s ≡ a ++ (b'.' ∷ b)
unfolding split_last
split_last_sound [] a b h = cc
split_last_sound (c ∷ s) a b h = by_rest (split_last s) refl (λ x y e. split_last_sound s x y e)
  where
    by_rest :
        (o : Option (Text × Text))
        → split_last s ≡ o
        → ((x y : Text) → split_last s ≡ some (x, y) → s ≡ x ++ (b'.' ∷ y))
        → c ∷ s ≡ a ++ (b'.' ∷ b)
    by_rest none absent ih = elim (Bool-cases (c == b'.')) [
      | inl dot ↦ ground (arith, absent, h, dot)
      | inr other ↦ absurd (ground (arith, absent, h, other))
    ]
    by_rest (some (x, y)) found ih =
        let same : (c ∷ x, y) ≡ (a, b) =
          some-injective (c ∷ x, y) (a, b) (ground (arith, found, h)) in
        subst (λ (p : Text × Text). c ∷ s ≡ p.0 ++ (b'.' ∷ p.1)) same (ap (◌∷◌ c) (ih x y found))

parts_of_sound : (s a b : Text) → parts_of s ≡ ok (a, b) → s ≡ a ++ (b'.' ∷ b)
parts_of_sound s a b h = elim (Option-cases (split_last s)) [
  | inl none_found ↦ absurd (ground (arith, none_found, h))
  | inr (p, found) ↦
      split_last_sound s a b
        (found ∙ ap some (ok_injective {E = LicenseError} p (a, b) (ground (arith, found, h))))
]

module _ {F : Type 0} ⦃d : Float F⦄ (c : Conversions F) (hmac : Text → Text → Text)
    (decode : Text → Option Bytes) (loads : Bytes → Option (Value F)) where
  -- A key that is accepted.
  pub record IsSigned (key_string secret : Text) (k : LicenseKey F) : Type 0 where
    pub signature : Text
    pub form : strip key_string ≡ k.raw_payload ++ (b'.' ∷ signature)
    pub signed : lower signature ≡ lower (sign hmac k.raw_payload secret)
    pub content : Value F
    pub decoded : decode_payload c hmac decode loads k.raw_payload ≡ ok content
    pub read : read_payload c k.raw_payload content ≡ ok k

  check_signature_sound :
      (b64 provided secret : Text)
      → check_signature c hmac decode loads b64 provided secret ≡ ok tt
      → lower provided ≡ lower (sign hmac b64 secret)
  check_signature_sound b64 provided secret h =
      text_eq_sound (lower provided) (lower (sign hmac b64 secret)) (ground (arith, h))

  read_payload-raw :
      (b64 : Text) (v : Value F) {k : LicenseKey F}
      → read_payload c b64 v ≡ ok k
      → k.raw_payload ≡ b64
  unfolding read_payload
  read_payload-raw b64 v {k} h =
      let (fs, e1, h1) = bind_ok (as_mapping v) _ h in
      let (features, e2, h2) =
        bind_ok (as_features c (or_else (get (codes "features") fs) (sequence nil))) _ h1 in
      sym (ap (λ (x : LicenseKey F). x.raw_payload) (ok_injective _ k h2))

  parse_parts-IsSigned :
      (key_string b64 provided secret : Text) {k : LicenseKey F}
      → strip key_string ≡ b64 ++ (b'.' ∷ provided)
      → parse_parts c hmac decode loads b64 provided secret ≡ ok k
      → IsSigned key_string secret k
  unfolding parse_parts
  parse_parts-IsSigned key_string b64 provided secret {k} form h =
      let (_, signed, h1) = bind_ok (check_signature c hmac decode loads b64 provided secret) _ h in
      let (v, decoded, h2) = bind_ok (decode_payload c hmac decode loads b64) _ h1 in
      let same = read_payload-raw b64 v h2 in
      record {
        signature = provided;
        form = form ∙ ap (λ b. b ++ (b'.' ∷ provided)) (sym same);
        signed =
            check_signature_sound b64 provided secret signed
            ∙ ap (λ b. lower (sign hmac b secret)) (sym same);
        content = v;
        decoded = ap (decode_payload c hmac decode loads) same ∙ decoded;
        read = ap (λ b. read_payload c b v) same ∙ h2;
      }

  -- `parse_license_key` accepts only a key that, without the space around it, is a payload, a dot and a
  -- signature which is that of the payload under the effective secret, up to the case of letters; the
  -- licence is what the payload says.
  pub parse_license_key-IsSigned :
      (env : Option Text) (key_string : Text) (secret : Option Text) {k : LicenseKey F}
      → parse_license_key c hmac decode loads env key_string secret ≡ ok k
      → IsSigned key_string (or_else secret (get_secret env)) k
  unfolding parse_license_key
  parse_license_key-IsSigned env key_string secret h =
      let (present, h1) = guard_ok (not (text_eq (strip key_string) [])) empty_key _ h in
      let (parts, found, h2) = bind_ok (parts_of (strip key_string)) _ h1 in
      parse_parts-IsSigned key_string parts.0 parts.1 (or_else secret (get_secret env))
        (parts_of_sound (strip key_string) parts.0 parts.1 found) h2
