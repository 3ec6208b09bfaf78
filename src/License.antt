-- ===== src/License.antt =====
-- bandwidth_optimizer/license.py: licence keys, their signature and the features that they enable. The
-- libraries are arguments: `hmac` is the hex digest of two texts' encodings, `encode` and `decode` are
-- base64, `dumps` and `loads` JSON, `fromisoformat` gives a date as its ordinal, and `env` is the value of
-- BANDWIDTHOS_LICENSE_SECRET.
pub mod Keys
pub mod RoundTrip
use smart_bandwidth_optimize.Base.{
  ℕ, ◌+◌, ◌-◌, ◌%◌, ◌<◌, Bool, true, false, not, ◌&&◌, ◌||◌, Option, none, some, List, [], ◌∷◌,
  ◌++◌, map, if◌then◌else◌, ◌==◌, leb, ltb, length, or_else,
}
use smart_bandwidth_optimize.Base.Text.{Text, Bytes, codes, text_eq, lower}
use smart_bandwidth_optimize.Base.Float.{Float}
use smart_bandwidth_optimize.Base.Dynamic.{
  Value, null, boolean, str, sequence, mapping, Items, nil, cons, Fields, end, field, type_error,
  Result, ok, failed, raised, ◌>>=◌, ◌>>◌, guard, Conversions, elements, get, as_mapping, to_text,
  is_truthy,
}
use smart_bandwidth_optimize.Classifier.{has_text}
use smart_bandwidth_optimize.Coordinator.{is_ascii}

abbrev pub dev_secret : Text
dev_secret = codes "bandwidthos-dev-key"

-- `TIER_FEATURES.get(tier, [])`
unfoldable pub tier_features : Text → List Text
tier_features tier =
    if text_eq tier (codes "pro") || text_eq tier (codes "enterprise")
    then codes "pvm" ∷ codes "sla" ∷ codes "multi_node" ∷ []
    else []

-- `LicenseError`, by what its message says.
pub data LicenseError : Type 0 where
  feature_missing : Text → LicenseError
  expired empty_key bad_format bad_signature malformed_payload features_not_list : LicenseError

-- `expires` is what the payload has, which may be no text.
pub record LicenseKey (F : Type 0) : Type 0 where
  pub tier : Text
  pub features : List Text
  pub customer : Text
  pub issued : Text
  pub expires : Option (Value F)
  pub raw_payload : Text

unfoldable pub has_feature : {F : Type 0} → LicenseKey F → Text → Bool
has_feature k feature = has_text k.features feature

unfoldable pub require_feature : {F : Type 0} → LicenseKey F → Text → Result LicenseError (Unit {0})
require_feature k feature = guard (has_feature k feature) (feature_missing feature)

abbrev pub texts : {F : Type 0} → List Text → Items F
texts [] = nil
texts (s ∷ ss) = cons (str s) (texts ss)

module _ {F : Type 0} ⦃d : Float F⦄ (fromisoformat : Text → Option ℕ) (today : ℕ) where
  -- A text that is no date never expires; `fromisoformat` wants a text.
  abbrev is_past : Value F → Result LicenseError Bool
  is_past (str s) = elim (fromisoformat s) [ none ↦ ok false | some e ↦ ok (ltb e today) ]
  is_past _ = raised type_error

  unfoldable pub is_expired : LicenseKey F → Result LicenseError Bool
  is_expired k = elim k.expires [
    | none ↦ ok false
    | some v ↦ if is_truthy v then is_past v else ok false
  ]

  abbrev pub to_dict : LicenseKey F → Result LicenseError (Value F)
  to_dict k = is_expired k >>= λ past. ok (
      mapping (
        field (str (codes "tier")) (str k.tier) (
          field (str (codes "features")) (sequence (texts k.features)) (
            field (str (codes "customer")) (str k.customer) (
              field (str (codes "issued")) (str k.issued) (
                field (str (codes "expires")) (or_else k.expires null)
                  (field (str (codes "expired")) (boolean past) end)))))))

  unfoldable pub require_valid : LicenseKey F → Result LicenseError (Unit {0})
  require_valid k = is_expired k >>= λ past. guard (not past) expired

-- The characters that `str.strip` takes away.
unfoldable pub is_space : ℕ → Bool
is_space c =
    (leb 9 c && leb c 13)
    || (leb 28 c && leb c 32)
    || (c == 0x85)
    || (c == 0xa0)
    || (c == 0x1680)
    || (leb 0x2000 c && leb c 0x200a)
    || (c == 0x2028)
    || (c == 0x2029)
    || (c == 0x202f)
    || (c == 0x205f)
    || (c == 0x3000)

module _ (test : ℕ → Bool) where
  unfoldable pub lstrip : Text → Text
  lstrip [] = []
  lstrip (c ∷ s) = if test c then lstrip s else c ∷ s

  unfoldable pub rstrip : Text → Text
  rstrip [] = []
  rstrip (c ∷ s) = elim (rstrip s) [ [] ↦ if test c then [] else c ∷ [] | x ∷ r ↦ c ∷ x ∷ r ]

unfoldable pub strip : Text → Text
strip s = lstrip is_space (rstrip is_space s)

-- `s.rsplit(".", 1)`, if there is a dot.
unfoldable pub split_last : Text → Option (Text × Text)
split_last [] = none
split_last (c ∷ s) = elim (split_last s) [
  | some (a, b) ↦ some (c ∷ a, b)
  | none ↦ if c == b'.' then some ([], s) else none
]

unfoldable pub padding : ℕ → Text
padding n =
    let k = n % 4 in
    if k == 0
    then codes "===="
    else if k == 1
    then codes "==="
    else if k == 2
    then codes "=="
    else codes "="

abbrev pub sign : (Text → Text → Text) → Text → Text → Text
sign hmac b64_payload secret = hmac secret b64_payload

abbrev pub get_secret : Option Text → Text
get_secret env = or_else env dev_secret

-- `secret or _DEV_SECRET`
abbrev pub secret_or_dev : Option Text → Text
secret_or_dev none = dev_secret
secret_or_dev (some []) = dev_secret
secret_or_dev (some (c ∷ s)) = c ∷ s

module _ {F : Type 0} where
  abbrev pub text_or_null : Option Text → Value F
  text_or_null none = null
  text_or_null (some s) = str s

  abbrev pub trial_payload : Option (List Text) → Text → Text → Text → Option Text → Value F
  trial_payload features tier customer today expires = mapping (
      field (str (codes "tier")) (str tier) (
        field (str (codes "features")) (sequence (texts (or_else features (tier_features tier)))) (
          field (str (codes "customer")) (str customer) (
            field (str (codes "issued")) (str today)
              (field (str (codes "expires")) (text_or_null expires) end)))))

  -- `today` is the date in ISO format.
  unfoldable pub generate_trial :
      (Text → Text → Text)
      → (Bytes → Text)
      → (Value F → Bytes)
      → Text
      → Option (List Text)
      → Text
      → Text
      → Option Text
      → Option Text
      → Text
  generate_trial hmac encode dumps today features tier customer expires secret =
      let b64 =
        rstrip (λ c. c == b'=')
          (encode (dumps (trial_payload features tier customer today expires))) in
      b64 ++ (b'.' ∷ sign hmac b64 (secret_or_dev secret))

abbrev parts_of : Text → Result LicenseError (Text × Text)
parts_of key = elim (split_last key) [ none ↦ failed bad_format | some parts ↦ ok parts ]

module _ {F : Type 0} ⦃d : Float F⦄ (c : Conversions F) where
  -- `str(payload.get(key, default))`
  abbrev text_or : Text → Text → Fields F → Text
  text_or key default fs = elim (get key fs) [ none ↦ default | some v ↦ to_text c v ]

  abbrev as_features : Value F → Result LicenseError (List (Value F))
  as_features (sequence vs) = ok (elements vs)
  as_features _ = failed features_not_list

  -- `payload.get("expires") or None`
  abbrev truthy_or_none : Option (Value F) → Option (Value F)
  truthy_or_none none = none
  truthy_or_none (some v) = if is_truthy v then some v else none

  -- `hmac.compare_digest` on two texts: `none` is the `TypeError` for text that is not ASCII.
  abbrev compare_digest : Text → Text → Option Bool
  compare_digest a b = if is_ascii a && is_ascii b then some (text_eq a b) else none

  -- The licence of a payload, once the signature is accepted.
  unfoldable pub read_payload : Text → Value F → Result LicenseError (LicenseKey F)
  read_payload b64 payload = do
    fs ← as_mapping payload
    features ← as_features (or_else (get (codes "features") fs) (sequence nil))
    ok (record {
      tier = text_or (codes "tier") (codes "community") fs;
      features = map (λ v. to_text c v) features;
      customer = text_or (codes "customer") [] fs;
      issued = text_or (codes "issued") [] fs;
      expires = truthy_or_none (get (codes "expires") fs);
      raw_payload = b64;
    })

  module _ (hmac : Text → Text → Text) (decode : Text → Option Bytes)
      (loads : Bytes → Option (Value F)) where
    abbrev decode_payload : Text → Result LicenseError (Value F)
    decode_payload b64 = elim (decode (b64 ++ padding (length b64))) [
      | none ↦ failed malformed_payload
      | some bytes ↦ elim (loads bytes) [ none ↦ failed malformed_payload | some v ↦ ok v ]
    ]

    abbrev check_signature : Text → Text → Text → Result LicenseError (Unit {0})
    check_signature b64 provided secret =
        elim (compare_digest (lower provided) (lower (sign hmac b64 secret))) [
          | none ↦ raised type_error
          | some equal ↦ guard equal bad_signature
        ]

    unfoldable pub parse_parts : Text → Text → Text → Result LicenseError (LicenseKey F)
    parse_parts b64 provided secret = do
      check_signature b64 provided secret
      payload ← decode_payload b64
      read_payload b64 payload

    unfoldable pub parse_license_key :
        Option Text → Text → Option Text → Result LicenseError (LicenseKey F)
    unfolding parse_parts
    parse_license_key env key_string secret = do
      let key = strip key_string
      guard (not (text_eq key [])) empty_key
      parts ← parts_of key
      parse_parts parts.0 parts.1 (or_else secret (get_secret env))
