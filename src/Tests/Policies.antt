-- ===== src/Tests/Policies.antt =====
-- The policy loader and the licences on concrete inputs.
use smart_bandwidth_optimize.Base.{
  ◌+◌, ◌%◌, ◌≡◌, refl, arith, true, Option, none, some, [], ◌∷◌, ◌++◌, ◌==◌, length, or_else,
}
use smart_bandwidth_optimize.Base.Int.{pos, ◌*ℤ◌}
use smart_bandwidth_optimize.Base.Text.{Text, Bytes, codes, text_eq, lower, lower_code}
use smart_bandwidth_optimize.Base.Float.{num, lt}
use smart_bandwidth_optimize.Base.Fixed.{Fixed, fixed_float}
use smart_bandwidth_optimize.Base.Dynamic.{Value, null, mapping, ok, Conversions, get, to_text}
use smart_bandwidth_optimize.Config.{TrafficPriority, high, low}
use smart_bandwidth_optimize.Policy.{PolicyRule, Policy}
use smart_bandwidth_optimize.Policy.Loader.{load_string}
use smart_bandwidth_optimize.Policy.Loader.RoundTrip.{load_string-print}
use smart_bandwidth_optimize.Policy.Loader.RoundTrip.Print.{print}
use smart_bandwidth_optimize.Policy.Loader.RoundTrip.Rules.{IsPrintable}
use smart_bandwidth_optimize.Policy.Loader.Checks.{IsChecked, load_string-IsChecked}
use smart_bandwidth_optimize.License.{
  rstrip, padding, trial_payload, generate_trial, parse_license_key,
}
use smart_bandwidth_optimize.License.Keys.{IsSigned, parse_license_key-IsSigned}
use smart_bandwidth_optimize.License.RoundTrip.{
  encoded, trial_license, IsReliable, parse_license_key-generate_trial,
}

abbrev conversions : Conversions Fixed
conversions = record {
  text_int = λ s. none;
  text_float = λ s. none;
  float_int = λ x. none;
  show = λ v. [];
  is_negative = λ x. lt x (num 0);
}

abbrev video : PolicyRule Fixed
video = record {
  name = codes "video";
  priority = high;
  ports = pos 443 ∷ [];
  protocols = codes "tcp" ∷ [];
  payload_pattern = none;
  bandwidth_min_pct = pos 0;
  description = codes "calls";
  value_coefficient = pos 2000;
}

video-IsPrintable : IsPrintable conversions video
unfolding lower lower_code ◌*ℤ◌
video-IsPrintable = record {
  named = λ e. cc;
  lowered = (refl, tt);
  patterned = λ e. cc;
  positive = refl;
}

abbrev fraction : TrafficPriority → Fixed
fraction p = pos 200

fraction_within :
    (p : TrafficPriority)
    → (fixed_float.le (num 0) (fraction p) ≡ true) × (fixed_float.le (fraction p) (num 1) ≡ true)
unfolding ◌*ℤ◌
fraction_within p = (refl, refl)

abbrev document : Text → Option (Value Fixed)
document text = some (print (video ∷ []) low fraction)

abbrev policy : Policy Fixed
policy = record {
  rules = video ∷ [];
  default_priority = low;
  bandwidth_budget = λ p. some (fraction p);
}

load_string-print_example : load_string conversions document (codes "rules") ≡ ok policy
load_string-print_example =
    load_string-print conversions low fraction fraction_within document (codes "rules") (video ∷ [])
      (video-IsPrintable, tt) refl

load_string-IsChecked_example : IsChecked conversions policy
load_string-IsChecked_example = load_string-IsChecked conversions document (codes "rules") (
    load_string-print conversions low fraction fraction_within document (codes "rules") (video ∷ [])
      (video-IsPrintable, tt) refl)

-- A digest of one letter, from the length of the secret.
abbrev digest : Text → Text → Text
digest secret text = (b'a' + length secret % 6) ∷ []

abbrev encode : Bytes → Text
encode bytes = bytes ++ codes "=="

abbrev decode : Text → Option Bytes
decode text = some (rstrip (λ c. c == b'=') text)

-- The JSON of a payload is its customer here.
abbrev dumps : Value Fixed → Bytes
dumps (mapping fs) = to_text conversions (or_else (get (codes "customer") fs) null)
dumps _ = []

abbrev payload_for : Text → Value Fixed
payload_for customer = trial_payload none (codes "pro") customer (codes "2026-01-01") none

abbrev loads : Bytes → Option (Value Fixed)
loads bytes = some (payload_for bytes)

libraries : IsReliable conversions digest encode decode dumps loads (payload_for (codes "acme"))
unfolding rstrip padding get text_eq
libraries = record {
  digest = λ secret text. (((ground arith, ground arith), ground arith), tt);
  alphabet = (
    (refl, refl),
    ((refl, refl), ((refl, refl), ((refl, refl), ((refl, refl), ((refl, refl), tt))))),
  );
  decoded = refl;
  loaded = refl;
}

abbrev acme_key : Text
acme_key =
    generate_trial digest encode dumps (codes "2026-01-01") none (codes "pro") (codes "acme") none
      (some (codes "key"))

parse_license_key-generate_trial_example :
    parse_license_key conversions digest decode loads none acme_key (some (codes "key"))
    ≡ ok (
        trial_license none
          (codes "pro")
          (codes "acme")
          (codes "2026-01-01")
          none
          (encoded conversions digest encode decode dumps loads (payload_for (codes "acme"))))
parse_license_key-generate_trial_example =
    parse_license_key-generate_trial conversions digest encode decode dumps loads none (codes "pro")
      (codes "acme") (codes "2026-01-01") none (some (codes "key")) libraries none
      (some (codes "key")) refl

parse_license_key-IsSigned_example :
    IsSigned conversions digest decode loads acme_key (codes "key") (
      trial_license none
        (codes "pro")
        (codes "acme")
        (codes "2026-01-01")
        none
        (encoded conversions digest encode decode dumps loads (payload_for (codes "acme"))))
parse_license_key-IsSigned_example =
    parse_license_key-IsSigned conversions digest decode loads none acme_key (some (codes "key")) (
      parse_license_key-generate_trial conversions digest encode decode dumps loads none
        (codes "pro") (codes "acme") (codes "2026-01-01") none (some (codes "key")) libraries none
        (some (codes "key")) refl)
