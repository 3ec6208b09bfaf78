-- ===== src/License/RoundTrip.antt =====
-- A key that `generate_trial` makes, as `parse_license_key` reads it.
use smart_bandwidth_optimize.Base.{
  ℕ, ◌≡◌, ◌≢◌, refl, ap, ◌∙◌, Bool, true, false, Option, none, some, List, [], ◌∷◌, ◌++◌, arith,
  All, ◌==◌, leb, if◌then◌else◌, or_else, length, map,
}
use smart_bandwidth_optimize.Base.Text.{
  Text, Bytes, text_eq, text_eq_refl, text_eq-differ, lower, lower_code,
}
use smart_bandwidth_optimize.Base.Float.{Float}
use smart_bandwidth_optimize.Base.Dynamic.{
  Value, str, ok, failed, ◌>>◌, guard, Conversions, elements, get, to_text,
}
use smart_bandwidth_optimize.Coordinator.{is_ascii}
use smart_bandwidth_optimize.License.{
  LicenseKey, tier_features, is_space, rstrip, padding, sign, get_secret, secret_or_dev, texts,
  trial_payload, generate_trial, read_payload, parse_parts, parse_license_key, check_signature,
  decode_payload, parts_of, bad_signature,
}
use smart_bandwidth_optimize.License.Keys.{strip_plain, split_last-dot}

-- A printable ASCII character that is no space.
abbrev pub IsGraphic : ℕ → Type 0
IsGraphic c = (leb 33 c ≡ true) × (leb c 126 ≡ true)

graphic-is_space : (c : ℕ) → IsGraphic c → is_space c ≡ false
unfolding is_space
graphic-is_space c (low, high) = ground arith

graphic-is_ascii : (s : Text) → All IsGraphic s → is_ascii (lower s) ≡ true
unfolding is_ascii lower lower_code
graphic-is_ascii [] h = refl
graphic-is_ascii (c ∷ s) h = ground (arith, graphic-is_ascii s h.1, h.0)

rstrip-All : (P : ℕ → Type 0) (test : ℕ → Bool) (s : Text) → All P s → All P (rstrip test s)
unfolding rstrip
rstrip-All P test [] h = tt
rstrip-All P test (c ∷ s) h = by_rest (rstrip test s) (rstrip-All P test s h.1)
  where
    by_rest :
        (rest : Text)
        → All P rest
        → All P (elim rest [ [] ↦ if test c then [] else c ∷ [] | x ∷ r ↦ c ∷ x ∷ r ])
    by_rest [] k = elim (test c) as (λ b. All P (if b then [] else c ∷ [])) [
      | true ↦ tt
      | false ↦ (h.0, tt)
    ]
    by_rest (x ∷ r) k = (h.0, k)

plain_of : (s : Text) → All IsGraphic s → All (λ c. is_space c ≡ false) s
plain_of [] h = tt
plain_of (c ∷ s) h = (graphic-is_space c h.0, plain_of s h.1)

joined-IsGraphic :
    (a b : Text) → All IsGraphic a → All IsGraphic b → All IsGraphic (a ++ (b'.' ∷ b))
joined-IsGraphic [] b h k = ((refl, refl), k)
joined-IsGraphic (c ∷ a) b h k = (h.0, joined-IsGraphic a b h.1 k)

joined_nonempty : (a b : Text) → text_eq (a ++ (b'.' ∷ b)) [] ≡ false
unfolding text_eq
joined_nonempty [] b = refl
joined_nonempty (c ∷ a) b = refl

module _ {F : Type 0} where
  -- The licence that a trial key stands for.
  abbrev pub trial_license :
      Option (List Text) → Text → Text → Text → Option Text → Text → LicenseKey F
  trial_license features tier customer today expires b64 = record {
    tier = tier;
    features = or_else features (tier_features tier);
    customer = customer;
    issued = today;
    expires = expiry expires;
    raw_payload = b64;
  }
    where
      expiry : Option Text → Option (Value F)
      expiry none = none
      expiry (some []) = none
      expiry (some (x ∷ s)) = some (str (x ∷ s))

module _ {F : Type 0} ⦃d : Float F⦄ (c : Conversions F) where
  map-to_text : (ss : List Text) → map (λ v. to_text c v) (elements (texts ss)) ≡ ss
  map-to_text [] = refl
  map-to_text (s ∷ ss) = ap (◌∷◌ s) (map-to_text ss)

  read_payload-trial :
      (features : Option (List Text)) (tier customer today : Text) (expires : Option Text)
      (b64 : Text)
      → read_payload c b64 (trial_payload features tier customer today expires)
        ≡ ok (trial_license features tier customer today expires b64)
  unfolding read_payload get text_eq
  read_payload-trial features tier customer today none b64 =
      rw (map-to_text (or_else features (tier_features tier))) refl
  read_payload-trial features tier customer today (some []) b64 =
      rw (map-to_text (or_else features (tier_features tier))) refl
  read_payload-trial features tier customer today (some (x ∷ s)) b64 =
      rw (map-to_text (or_else features (tier_features tier))) refl

-- A character of a digest in hexadecimal, as far as the form of a key is concerned.
abbrev pub IsHex : ℕ → Type 0
IsHex c = IsGraphic c × (c ≢ b'.')

hex-IsGraphic : (s : Text) → All IsHex s → All IsGraphic s
hex-IsGraphic [] h = tt
hex-IsGraphic (c ∷ s) h = (h.0.0, hex-IsGraphic s h.1)

hex_no_dot : (s : Text) → All IsHex s → All (λ c. c ≢ b'.') s
hex_no_dot [] h = tt
hex_no_dot (c ∷ s) h = (h.0.1, hex_no_dot s h.1)

module _ {F : Type 0} ⦃d : Float F⦄ (c : Conversions F) (hmac : Text → Text → Text)
    (encode : Bytes → Text) (decode : Text → Option Bytes) (dumps : Value F → Bytes)
    (loads : Bytes → Option (Value F)) where
  abbrev pub encoded : Value F → Text
  encoded payload = rstrip (λ c. c == b'=') (encode (dumps payload))

  -- What is asked of the libraries: a digest is hexadecimal, base64 is printable and is read back without
  -- its padding, and the JSON of the payload is read back.
  pub record IsReliable (payload : Value F) : Type 0 where
    pub digest : (secret text : Text) → All IsHex (hmac secret text)
    pub alphabet : All IsGraphic (encode (dumps payload))
    pub decoded :
        decode (encoded payload ++ padding (length (encoded payload))) ≡ some (dumps payload)
    pub loaded : loads (dumps payload) ≡ some payload

  parse_license_key-parts :
      (b64 sig : Text) (env key_secret : Option Text)
      → All IsGraphic b64
      → All IsHex sig
      → parse_license_key c hmac decode loads env (b64 ++ (b'.' ∷ sig)) key_secret
        ≡ parse_parts c hmac decode loads b64 sig (or_else key_secret (get_secret env))
  unfolding parse_license_key
  parse_license_key-parts b64 sig env key_secret h k =
      let clean =
        plain_of (b64 ++ (b'.' ∷ sig)) (joined-IsGraphic b64 sig h (hex-IsGraphic sig k)) in
      rw
        (
          strip_plain (b64 ++ (b'.' ∷ sig)) clean,
          joined_nonempty b64 sig,
          parts_of,
          split_last-dot b64 sig (hex_no_dot sig k),
        )
        refl

  check_signature-hex :
      (b64 sig secret : Text)
      → ((a b : Text) → All IsHex (hmac a b))
      → All IsHex sig
      → check_signature c hmac decode loads b64 sig secret
        ≡ guard (text_eq (lower sig) (lower (sign hmac b64 secret))) bad_signature
  check_signature-hex b64 sig secret digest k =
      rw
        (
          check_signature,
          graphic-is_ascii sig (hex-IsGraphic sig k),
          graphic-is_ascii (sign hmac b64 secret)
              (hex-IsGraphic (sign hmac b64 secret) (digest secret b64)),
        )
        refl

  module _ (features : Option (List Text)) (tier customer today : Text)
      (expires secret : Option Text)
      (libraries : IsReliable (trial_payload features tier customer today expires))
      (env key_secret : Option Text) where
    abbrev payload : Value F
    payload = trial_payload features tier customer today expires

    abbrev key : Text
    key = generate_trial hmac encode dumps today features tier customer expires secret

    abbrev signature : Text
    signature = sign hmac (encoded payload) (secret_or_dev secret)

    abbrev effective : Text
    effective = or_else key_secret (get_secret env)

    parse_key : parse_license_key c hmac decode loads env key key_secret ≡ (
        guard
          (text_eq (lower signature) (lower (sign hmac (encoded payload) effective)))
          bad_signature
        >> ok (trial_license features tier customer today expires (encoded payload)))
    unfolding parse_parts generate_trial
    parse_key =
        let plain =
          rstrip-All IsGraphic (λ c. c == b'=') (encode (dumps payload)) libraries.alphabet in
        let hex = libraries.digest (secret_or_dev secret) (encoded payload) in
        parse_license_key-parts (encoded payload) signature env key_secret plain hex
        ∙ rw
            (
              check_signature-hex (encoded payload) signature effective libraries.digest hex,
              decode_payload,
              libraries.decoded,
              libraries.loaded,
              read_payload-trial c features tier customer today expires (encoded payload),
            )
            refl

    -- A key that `generate_trial` makes is accepted wherever the effective secret is the one it was signed
    -- with, and the licence has what it was made for. Digests are hexadecimal, base64 is printable and is
    -- read back without its padding, and the JSON of the payload is read back.
    pub parse_license_key-generate_trial :
        secret_or_dev secret ≡ or_else key_secret (get_secret env)
        → parse_license_key c hmac decode loads env
            (generate_trial hmac encode dumps today features tier customer expires secret)
            key_secret
          ≡ ok (trial_license features tier customer today expires (encoded payload))
    parse_license_key-generate_trial same =
        parse_key ∙ rw (same, text_eq_refl (lower (sign hmac (encoded payload) effective))) refl

    -- A key that `generate_trial` makes is refused for its signature wherever the signature under the
    -- effective secret is another one. Digests are hexadecimal, base64 is printable and is read back
    -- without its padding, and the JSON of the payload is read back.
    parse_license_key-generate_trial_other :
        lower (sign hmac (encoded payload) (secret_or_dev secret))
          ≢ lower (sign hmac (encoded payload) (or_else key_secret (get_secret env)))
        → parse_license_key c hmac decode loads env
            (generate_trial hmac encode dumps today features tier customer expires secret)
            key_secret
          ≡ failed bad_signature
    parse_license_key-generate_trial_other differ =
        parse_key
        ∙ rw
            (text_eq-differ (lower signature) (lower (sign hmac (encoded payload) effective))
              differ)
            refl
