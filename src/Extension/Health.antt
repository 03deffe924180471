-- ===== src/Extension/Health.antt =====
-- What `populateExtraFields` of nodelet/pkg/utils/extensionfile/extension.go reports.
use nodelet.Shared.{
  ◌≡◌, ◌≢◌, ◌↔◌, ◌⊎◌, Bool, true, false, arith, eq_iff, pos, ◌==◌, ltb_ℤ, ◌&&◌, ◌||◌, not,
}
use nodelet.Config.{
  Config, error_state, ok_state, retrying_state, converging_state, service_state_true,
  service_state_false, num_retries_for_error_state,
}
use nodelet.Extension.{ExtensionData, populate_extra_fields}

-- Whether the service runs although it should not, or does not run although it should.
abbrev pub is_off : Config → ExtensionData → Bool
is_off cfg d =
    cfg.kube_service_state == service_state_true && not d.kube_running
    || cfg.kube_service_state == service_state_false && d.kube_running

-- `populateExtraFields` reports the failed state, for a state that was not failed, exactly when the
-- service is not marked as running, it is not as the configuration wants it, and the attempts are
-- past the limit.
pub populate-failed_iff :
    (cfg : Config) (d : ExtensionData)
    → d.node_state ≢ error_state
    → ((populate_extra_fields cfg d).node_state ≡ error_state)
      ↔ ((d.service_state == service_state_true) ≡ false)
        × (is_off cfg d ≡ true)
        × (ltb_ℤ (pos num_retries_for_error_state) d.start_attempts ≡ true)
unfolding populate_extra_fields
populate-failed_iff cfg d h = ground (
  arith,
  eq_iff ok_state error_state,
  eq_iff retrying_state error_state,
  eq_iff converging_state error_state,
  eq_iff cfg.kube_service_state service_state_true,
  eq_iff cfg.kube_service_state service_state_false,
  eq_iff service_state_true service_state_false,
)

-- Whether the service is as the configuration wants it.
abbrev pub is_as_wanted : Config → ExtensionData → Bool
is_as_wanted cfg d =
    cfg.kube_service_state == service_state_true && d.kube_running
    || cfg.kube_service_state == service_state_false && not d.kube_running

-- `populateExtraFields` reports the ok state, for a state that was not ok, exactly when the service
-- is marked as running or is as the configuration wants it.
pub populate-ok_iff :
    (cfg : Config) (d : ExtensionData)
    → d.node_state ≢ ok_state
    → ((populate_extra_fields cfg d).node_state ≡ ok_state)
      ↔ (((d.service_state == service_state_true) ≡ true) ⊎ (is_as_wanted cfg d ≡ true))
unfolding populate_extra_fields
populate-ok_iff cfg d h = ground (
  arith,
  eq_iff error_state ok_state,
  eq_iff retrying_state ok_state,
  eq_iff converging_state ok_state,
  eq_iff cfg.kube_service_state service_state_true,
  eq_iff cfg.kube_service_state service_state_false,
  eq_iff service_state_true service_state_false,
)

-- `populateExtraFields` done twice is the same as done once, under one configuration.
pub populate_idem :
    (cfg : Config) (d : ExtensionData)
    → populate_extra_fields cfg (populate_extra_fields cfg d) ≡ populate_extra_fields cfg d
unfolding populate_extra_fields
populate_idem cfg d = ground arith
