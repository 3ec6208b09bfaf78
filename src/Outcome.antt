-- ===== src/Outcome.antt =====
-- `ProcessResult` of bandwidth_optimizer/optimizer.py, and the calls of a component that may raise.
use smart_bandwidth_optimize.Base.{ℕ, ◌-◌, Bool, Option}
use smart_bandwidth_optimize.Base.Text.{Text}
use smart_bandwidth_optimize.Classifier.{Packet}
use smart_bandwidth_optimize.Filter.{DropReason}
use smart_bandwidth_optimize.Flow.{FlowRecord}

-- `drop_reason`: empty, the filter's, or the name of the exception's type.
pub data Reason (F : Type 0) : Type 0 where
  no_reason : Reason F
  filtered : DropReason F → Reason F
  circuit_open : Reason F
  error : Text → Reason F

pub record ProcessResult (F : Type 0) : Type 0 where
  pub packet : Packet F
  pub dropped : Bool
  pub drop_reason : Reason F
  pub compressed : Bool
  pub original_payload_size : ℕ
  pub compressed_payload_size : ℕ
  pub flow_record : Option (FlowRecord F)

-- `max(0, original_payload_size - compressed_payload_size)`
unfoldable pub bytes_saved : {F : Type 0} → ProcessResult F → ℕ
bytes_saved r = r.original_payload_size - r.compressed_payload_size

-- An exception: the name of its type, and its message.
pub record Exception : Type 0 where
  pub type_name : Text
  pub message : Text

-- A call either returns or raises.
pub data Outcome {ℓ} (A : Type ℓ) : Type ℓ where
  returned : A → Outcome A
  raised : Exception → Outcome A
