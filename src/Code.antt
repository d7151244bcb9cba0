-- ===== src/Code.antt =====
-- The `code` of the errors that the stores of the extension marketplace throw
-- (ai-backend/src/extension_*_store.js): one constructor for each code, whichever class has it.
pub data Code : Type 0 where
  invalid_namespace reserved_namespace invalid_account invalid_display_name secret_audit_field :
      Code
  namespace_not_found namespace_forbidden namespace_conflict : Code
  transfer_same_owner transfer_not_pending transfer_forbidden transfer_mismatch : Code
  invalid_release_identity invalid_release_version release_not_found release_conflict : Code
  invalid_release_state : Code
  invalid_artifact_identity invalid_artifact_version invalid_artifact_metadata : Code
  invalid_artifact_url invalid_artifact_digest invalid_artifact_size : Code
  artifact_release_frozen artifact_binding_conflict artifact_cas_corrupt artifact_not_found : Code
  artifact_required artifact_scan_required invalid_scan_state scan_already_final : Code
  invalid_scanner review_auth_required : Code
  invalid_moderation_input invalid_moderation_release invalid_case_id invalid_report_reason : Code
  moderation_release_not_found duplicate_open_report case_not_found wrong_case_type : Code
  case_already_resolved invalid_moderation_decision release_not_actionable : Code
  report_not_appealable duplicate_open_appeal : Code
  invalid_trust_epoch invalid_trust_feed_ttl invalid_signing_key_id invalid_signing_release : Code
  signing_key_required invalid_descriptor_digest invalid_signing_artifacts : Code
  trust_key_material_conflict trust_key_revoked trust_key_not_found trust_key_already_revoked : Code
  active_signer_revocation_requires_rotation signature_conflict signature_self_check_failed : Code
