-- ===== src/Value.antt =====
-- bandwidth_optimizer/value.py: the value coefficients of flows. This module has the presets, the policy
-- with its overrides at run time, and the contract; the children have the queue's key, the tracker of
-- delivered and lost value, and the tuner.
pub mod Coefficients
pub mod Key
pub mod ValueScheduler
pub mod Losses
pub mod Tuner
use smart_bandwidth_optimize.Base.{
  ℕ, Bool, true, false, not, ◌&&◌, Option, none, some, List, [], ◌∷◌, map, if◌then◌else◌, or_else,
}
use smart_bandwidth_optimize.Base.Int.{ℤ, pos}
use smart_bandwidth_optimize.Base.Text.{Text, codes, text_eq}
use smart_bandwidth_optimize.Base.Float.{Float, num, lit, lt, eq_by, max}
use smart_bandwidth_optimize.Base.Dict.{lookup, insert, remove}
use smart_bandwidth_optimize.Config.{TrafficPriority, critical, high, medium, background}
use smart_bandwidth_optimize.Classifier.{Packet, ports_match, protocols_match}
use smart_bandwidth_optimize.Policy.{PolicyRule, Policy}

-- A preset. Its rationale is a text that nothing reads.
pub record TrafficPreset (F : Type 0) : Type 0 where
  pub name : Text
  pub description : Text
  pub ports : List ℤ
  pub protocols : List Text
  pub priority : TrafficPriority
  pub value_coefficient : F

pub record ValueCoefficientsGuide (F : Type 0) : Type 0 where
  pub scale : F

pub record FlowValuePolicy (F : Type 0) : Type 0 where
  pub rules : List (PolicyRule F)
  pub default : F
  pub overrides : List (Text × F)

pub record ValueSlaContract (F : Type 0) : Type 0 where
  pub tenant_id : Text
  pub min_value_rate_per_sec : F
  pub value_coefficient : F

module _ {F : Type 0} ⦃d : Float F⦄ where
  open d use {times, le}

  abbrev preset : Text → Text → List ℕ → List Text → TrafficPriority → F → TrafficPreset F
  preset name description ports protocols priority value = record {
    name = name;
    description = description;
    ports = map pos ports;
    protocols = protocols;
    priority = priority;
    value_coefficient = value;
  }

  unfoldable pub traffic_presets : List (TrafficPreset F)
  traffic_presets =
      let udp = codes "udp" in
      let tcp = codes "tcp" in
      preset (codes "voip") (codes "VoIP / real-time audio (SIP + RTP)")
        (5060 ∷ 5061 ∷ 5004 ∷ 5005 ∷ []) (udp ∷ tcp ∷ []) critical (num 100)
      ∷ preset (codes "interactive_api")
          (codes "Interactive / revenue-generating API calls (HTTPS)") (443 ∷ 8443 ∷ []) (tcp ∷ [])
          high (num 50)
      ∷ preset (codes "video_conference") (codes "Video conferencing and live streaming")
          (8801 ∷ 8802 ∷ 3478 ∷ 3479 ∷ []) (udp ∷ tcp ∷ []) high (num 40)
      ∷ preset (codes "interactive_web") (codes "Interactive web browsing, DNS, SSH")
          (80 ∷ 8080 ∷ 53 ∷ 22 ∷ []) (tcp ∷ udp ∷ []) high (num 20)
      ∷ preset (codes "email") (codes "Email and asynchronous messaging (SMTP / IMAP / POP3)")
          (25 ∷ 465 ∷ 587 ∷ 993 ∷ 995 ∷ 110 ∷ 143 ∷ []) (tcp ∷ []) medium (num 5)
      ∷ preset (codes "bulk_transfer") (codes "Bulk transfers, backups, software updates, P2P")
          (6881 ∷ 6882 ∷ 6883 ∷ 21 ∷ 20 ∷ []) (tcp ∷ udp ∷ []) background (lit 1 2)
      ∷ []

  unfoldable pub guide : F → ValueCoefficientsGuide F
  guide revenue_scale = record { scale = max (num 0) revenue_scale }

  abbrev scaled : F → TrafficPreset F → TrafficPreset F
  scaled scale p = record p { value_coefficient = times p.value_coefficient scale }

  unfoldable pub presets : ValueCoefficientsGuide F → List (TrafficPreset F)
  presets g =
      if eq_by le g.scale (num 1) then traffic_presets else map (scaled g.scale) traffic_presets

  -- `ValueCoefficientsGuide.get`: its loop over the presets.
  find_preset : F → Text → List (TrafficPreset F) → Option (TrafficPreset F)
  find_preset scale name [] = none
  find_preset scale name (p ∷ ps) =
      if text_eq p.name name
      then (if not (eq_by le scale (num 1)) then some (scaled scale p) else some p)
      else find_preset scale name ps

  unfoldable pub get : ValueCoefficientsGuide F → Text → Option (TrafficPreset F)
  unfolding find_preset
  get g name = find_preset g.scale name traffic_presets

  -- The constructor of `FlowValuePolicy`.
  unfoldable pub init : List (PolicyRule F) → F → FlowValuePolicy F
  init rules default_coefficient = record {
    rules = rules;
    default = max (num 0) default_coefficient;
    overrides = [];
  }

  unfoldable pub rule_matches : PolicyRule F → Packet F → Bool
  rule_matches r p = if ports_match r.ports p then protocols_match r.protocols p else false

  -- The loop of `get_coefficient` over the rules.
  unfoldable pub coefficient_from : List (PolicyRule F) → List (Text × F) → F → Packet F → F
  coefficient_from [] overrides default p = default
  coefficient_from (r ∷ rs) overrides default p =
      if rule_matches r p
      then or_else (lookup text_eq r.name overrides) r.value_coefficient
      else coefficient_from rs overrides default p

  unfoldable pub get_coefficient : FlowValuePolicy F → Packet F → F
  get_coefficient v p = coefficient_from v.rules v.overrides v.default p

  unfoldable pub assign : FlowValuePolicy F → Packet F → Packet F × F
  assign v p = let coeff = get_coefficient v p in (record p { value_coefficient = coeff }, coeff)

  unfoldable pub set_override : FlowValuePolicy F → Text → F → FlowValuePolicy F
  set_override v name coefficient = record v {
    overrides = insert text_eq name (max (num 0) coefficient) v.overrides;
  }

  unfoldable pub get_override : FlowValuePolicy F → Text → Option F
  get_override v name = lookup text_eq name v.overrides

  unfoldable pub clear_override : FlowValuePolicy F → Text → FlowValuePolicy F
  clear_override v name = record v { overrides = remove text_eq name v.overrides }

  unfoldable pub from_policy : Policy F → F → FlowValuePolicy F
  from_policy p default_coefficient = init p.rules default_coefficient

  -- The rule for a preset; `overrides` holds coefficients by the presets' names.
  unfoldable pub preset_rule : List (Text × F) → TrafficPreset F → PolicyRule F
  preset_rule overrides p = record {
    name = p.name;
    priority = p.priority;
    ports = p.ports;
    protocols = p.protocols;
    payload_pattern = none;
    bandwidth_min_pct = num 0;
    description = p.description;
    value_coefficient = or_else (lookup text_eq p.name overrides) p.value_coefficient;
  }

  unfoldable pub from_presets : F → List (Text × F) → FlowValuePolicy F
  from_presets revenue_scale overrides =
      init (map (preset_rule overrides) (presets (guide revenue_scale))) (num 1)

  unfoldable pub is_violated : ValueSlaContract F → F → Bool
  is_violated c current_rate = lt current_rate c.min_value_rate_per_sec
