-- ===== src/Coordinator/Registry.antt =====
-- The registry: who gets in, who stays, and who is found.
use smart_bandwidth_optimize.Base.{◌≡◌, ◌≢◌, arith, true, false, none, some, if◌then◌else◌}
use smart_bandwidth_optimize.Base.Text.{Text, Bytes, text_eq, lower, text_eq_sound, text_eq_refl}
use smart_bandwidth_optimize.Base.Float.{Float, lt}
use smart_bandwidth_optimize.Base.Dict.{
  lookup, IsDistinct, text_eq-IsEq, lookup-insert_self, lookup-insert_other,
  keep_entries-IsDistinct, lookup-keep_entries,
}
use smart_bandwidth_optimize.Coordinator.{
  sign_payload, is_ascii, verify_payload, Agent, AgentCoordinator, ingest, is_checked,
  ingest_authenticated, is_live, evict_stale, get_agent,
}

-- Verification accepts what signing produced, in any case of the letters, and nothing else: if digests are
-- lower-case ASCII, the signature verifies exactly when it is the digest up to case.
pub verify_payload-sign_payload :
    (hmac : Text → Bytes → Text) (secret : Text) (payload : Bytes) (signature : Text)
    → ((s : Text) (b : Bytes) → (is_ascii (hmac s b) ≡ true) × (lower (hmac s b) ≡ hmac s b))
    → (verify_payload hmac secret payload (sign_payload hmac secret payload) ≡ true)
      × (verify_payload hmac secret payload signature ≡ true
          → lower signature ≡ sign_payload hmac secret payload)
unfolding verify_payload sign_payload
verify_payload-sign_payload hmac secret payload signature digests = (
  ground (arith, digests secret payload, text_eq_refl (hmac secret payload)),
  λ h. ground (arith, h, text_eq_sound (hmac secret payload) (lower signature)),
)

module _ {Stats F : Type 0} ⦃d : Float F⦄ where
  open d use {minus}

  -- With authentication required and a secret set, an agent's statistics are taken exactly when the
  -- signature verifies; otherwise always. What is refused changes nothing; what is accepted is what
  -- `get_agent` then finds for the node, and no other node's entry changes.
  ingest_authenticated_lem :
      (hmac : Text → Bytes → Text) (c : AgentCoordinator Stats F) (now : F) (node_id : Text)
      (raw_body : Bytes) (signature : Text) (stats : Stats)
      → let (c', accepted) = ingest_authenticated hmac c now node_id raw_body signature stats in
        (accepted
          ≡ (if is_checked c then verify_payload hmac c.auth_secret raw_body signature else true))
        × (accepted ≡ false → c' ≡ c)
        × (accepted ≡ true → get_agent c' node_id ≡ some stats)
        × ((other : Text) → other ≢ node_id → get_agent c' other ≡ get_agent c other)
  unfolding ingest_authenticated ingest get_agent
  ingest_authenticated_lem hmac c now node_id raw_body signature stats =
      let a : Agent Stats F = record { stats = stats; last_seen = now } in
      (
        ground arith,
        λ h. ground (arith, h),
        λ h. ground (arith, h, lookup-insert_self text_eq-IsEq node_id a c.registry),
        λ other ne. ground (arith, lookup-insert_other text_eq-IsEq node_id other a c.registry ne),
      )

  -- Eviction removes exactly the agents that were last seen before the cutoff, and keeps the names distinct.
  get_agent-evict_stale :
      (c : AgentCoordinator Stats F) (now : F) (node_id : Text)
      → IsDistinct text_eq c.registry
      → IsDistinct text_eq (evict_stale c now).registry
        × (get_agent (evict_stale c now) node_id ≡ (elim (lookup text_eq node_id c.registry) [
          | none ↦ none
          | some a ↦ if lt a.last_seen (minus now c.ttl) then none else some a.stats
        ]))
  unfolding evict_stale get_agent is_live
  get_agent-evict_stale c now node_id distinct = (
    keep_entries-IsDistinct text_eq-IsEq (is_live (minus now c.ttl)) c.registry distinct,
    ground (
      arith,
      lookup-keep_entries text_eq-IsEq (is_live (minus now c.ttl)) node_id c.registry distinct,
    ),
  )
