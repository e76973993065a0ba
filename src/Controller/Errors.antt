-- ===== src/Controller/Errors.antt =====
-- The errors that src/controller-events.ts and src/controller.ts throw, named for the guard that
-- throws them; guards with one reason share a constructor. `type_error` is the run-time error of a
-- property read of `undefined`, `schema` is a refusal by a zod schema, `bounds` one by
-- `snapshotBoundedContractInput`.
pub data Error : Type 0 where
  bounds schema type_error : Error
  predecessor_at_one fact_digest event_id snapshot_digest : Error
  protocol_interval event_pair genesis_identity genesis_content late_draft : Error
  event_before_creation active_after_expiry : Error
  duplicate_ledger ledger_order revision_limit revision_lineage revision_coherence : Error
  revision_validity revision_after_event duplicate_manifest revision_bounds : Error
  revision_watermark revision_unchanged : Error
  duplicate_assessment assessment_protocol phase_order second_development : Error
  holdout_without_nomination window_without_holdout window_source : Error
  policy_validity policy_nomination assessment_policy : Error
  evidence_without_collection assessment_without_evidence development_evidence : Error
  ledger_without_policy deployment_coherence stale_state stale_reason : Error
  needs_collection needs_evidence needs_nomination needs_holdout : Error
  registered_sequence registered_content collecting_sequence collecting_content : Error
  ready_sequence ready_content nominated_sequence nominated_content : Error
  shadow_sequence shadow_content confirmed_sequence confirmed_deployment : Error
  promotion_sequence promotion_window monitoring_sequence monitoring_deployment : Error
  hold_sequence hold_result rollback_sequence rollback_window : Error
  wrong_controller wrong_study wrong_protocol sequence_gap predecessor_chain : Error
  time_regression before_protocol outside_protocol outside_policy : Error
  retired_terminal invalid_from_state registration_validity : Error
  unauthentic_decision policy_identity wrong_phase : Error
  missing_source source_mismatch source_conflict : Error
  development_protocol development_source shadow_policy holdout_policy : Error
  window_policy window_early ledger_start ledger_revision ledger_predecessor : Error
  ledger_bounds ledger_watermark ledger_unchanged : Error
  window_missing window_assessment_policy window_assessment_source : Error
  deployment_policy deployment_time expiry_time expiry_early : Error
  not_live conflicting_event too_many_events too_many_sources : Error
  genesis_needed prefix_mismatch anchor_mismatch anchor_identity no_policy no_window : Error
  development_status time_before_creation : Error
