-- ===== src/Agent/Heartbeat.antt =====
-- A heartbeat of an agent, as the coordinator takes it.
use smart_bandwidth_optimize.Base.Text.{Text}
use smart_bandwidth_optimize.Base.Float.{Float}
