-- ===== src/Tests/Witnesses.antt =====
-- The properties at the runs of Tests.History, Tests.Transfers, Tests.Reports and Tests.Syncing.
use fabushi_backend.Prelude.{if◌then◌else◌, text_Eq, ◌≡◌, true, none, some, inl, ok, err}
use fabushi_backend.Code.{invalid_release_identity, invalid_release_version, transfer_not_pending}
use fabushi_backend.Text.{Text, codes}
use fabushi_backend.Table
use fabushi_backend.Identity.{ReleaseKey, key_Eq, normalized_key}
use fabushi_backend.Identity.Laws.{raw_of, normalized_key_idem}
use fabushi_backend.Release.Rows.{Release}
use fabushi_backend.Artifact.Rows.{rows_of}
use fabushi_backend.Artifact.Scans.{some_artifact, all_passed}
use fabushi_backend.Market.{run}
use fabushi_backend.Market.Approval.{approved_scanned}
use fabushi_backend.Market.Lifecycle.{Evolves, release_life}
use fabushi_backend.Market.Immutable.{approved_immutable}
use fabushi_backend.Publisher.{Store, Namespace, accept_transfer}
use fabushi_backend.Publisher.Calls.{Move, view}
use fabushi_backend.Publisher.Calls as Publishers
use fabushi_backend.Publisher.Ownership.{step-Move}
use fabushi_backend.Publisher.Handover.{handover, accept-cancel}
use fabushi_backend.Tests.Fixtures.{ascii_locale, toy_platform, toy_entries}
use fabushi_backend.Tests.History.{alice, tool, history, later, marketplace, tool_approved}
use fabushi_backend.Tests.Transfers.{
  bob, acme, transfer, claimed, offering, acceptance, story, bob_known, transfer_trimmed, shouting,
}
use fabushi_backend.Release.Rows as Releases
use fabushi_backend.Moderation.Rows.{Case, actioned}
use fabushi_backend.Moderation.Names.{case_id, moderation_key}
use fabushi_backend.Moderation.Resolution.{resolve_report_revokes}
use fabushi_backend.Tests.Reports.{catalog, complaints, verdict, ruled, complaint_ruled}
use fabushi_backend.Prelude.{ltb, length, take}
use fabushi_backend.Sync.Log.{
  sync_from, difference, events_after, current_sequence, last_sequence, empty_log,
}
use fabushi_backend.Sync.Retention.{full_history, sync_complete}
use fabushi_backend.Tests.Syncing.{entries, kept, kept_bounds}
use fabushi_backend.Prelude.{arith}
use fabushi_backend.Sync.Cursor.{encode_cursor, decode_cursor, from}
use fabushi_backend.Sync.Cursor.Laws.{decode_cursor-encode_cursor}
use fabushi_backend.Prelude.{map, false, ◌==◌, ◌&&◌, nat_Eq}
use fabushi_backend.Published.{Envelope}
use fabushi_backend.Artifact.Scans.{public_artifact}
use fabushi_backend.Signing.Rows.{Signer, verify_envelope}
use fabushi_backend.Signing.Payload.{canonical_payload}
use fabushi_backend.Signing.Releases.{trusted}
use fabushi_backend.Signing.Trust.{revoke_trust_key-trusted}
use fabushi_backend.Market.Signed.{approved_signed}
use fabushi_backend.Tests.Fixtures.{toy_crypto}
use fabushi_backend.Tests.Rotation.{rotated, first_envelope, first_withdrawn}

approved_scanned_example :
    (some_artifact (rows_of marketplace.artifacts.artifacts tool) ≡ true)
    × (all_passed (rows_of marketplace.artifacts.artifacts tool) ≡ true)
approved_scanned_example =
    approved_scanned ascii_locale toy_platform toy_entries 10 history tool tool_approved.0
      tool_approved.1 (inl tool_approved.2)

approved_immutable_example :
    rows_of (run ascii_locale toy_platform toy_entries marketplace later).artifacts.artifacts tool
    ≡ rows_of marketplace.artifacts.artifacts tool
approved_immutable_example =
    approved_immutable ascii_locale toy_platform toy_entries 10 history later tool tool_approved.0
      tool_approved.1 (inl tool_approved.2)

release_life_example :
    (row' : Release toy_entries.Descriptor) × (Table.get
        (run ascii_locale toy_platform toy_entries marketplace later).releases.releases
        tool
      ≡ some row')
    × Evolves tool_approved.0 row'
release_life_example =
    release_life ascii_locale toy_platform toy_entries marketplace later tool tool_approved.0
      tool_approved.1

step-Move_example :
    Move (codes "bob") (view (Table.get offering.namespaces (codes "acme"))) (
      view (Table.get (Publishers.step ascii_locale offering acceptance).namespaces (codes "acme")))
step-Move_example =
    step-Move ascii_locale offering acceptance (codes "bob") (codes "acme") bob_known

handover_example :
    (st'' : Store) × (row : Namespace) × (accept_transfer ascii_locale story.3.0 acme bob
        (some transfer)
        3
      ≡ ok st'')
    × (Table.get st''.namespaces (codes "acme") ≡ some row)
    × (row.owner_account_id ≡ codes "bob")
    × (row.pending_transfer_id ≡ none)
    × (row.pending_target_account_id ≡ none)
handover_example =
    handover ascii_locale claimed acme alice bob (codes "acme") (codes "bob") transfer 2 3 story.0
      bob_known story.3.1 transfer_trimmed.0 transfer_trimmed.1

accept-cancel_example :
    accept_transfer ascii_locale story.4.0 acme bob (some transfer) 5 ≡ err transfer_not_pending
accept-cancel_example =
    accept-cancel ascii_locale offering acme alice bob (some transfer) (codes "acme") (codes "bob")
      4 5 story.0 bob_known story.4.1

normalized_key_idem_example :
    normalized_key ascii_locale invalid_release_identity invalid_release_version (raw_of tool)
    ≡ ok tool
normalized_key_idem_example =
    normalized_key_idem ascii_locale invalid_release_identity invalid_release_version shouting tool
      story.1

resolve_report_revokes_example :
    (id : Text) × (row : Case) × (row' : Case) × (key : ReleaseKey) × (release : Release
      toy_entries.Descriptor)
    × (case_id verdict.case_id ≡ ok id)
    × (Table.get complaints.cases id ≡ some row)
    × (Table.get ruled.1.cases id ≡ some row')
    × (row'.state ≡ actioned)
    × (row'.resolved_at_ms ≡ some 11)
    × (moderation_key ascii_locale (raw_of row.key) ≡ ok key)
    × (Table.get ruled.0.releases key ≡ some release)
    × (release.state ≡ Releases.revoked)
resolve_report_revokes_example =
    resolve_report_revokes ascii_locale catalog complaints verdict 11 ruled.0 ruled.1
      complaint_ruled.0 complaint_ruled.1

sync_complete_example :
    let rows = events_after (full_history empty_log entries).events (codes "alice") 2 in
    sync_from kept (codes "alice") 1 2
    ≡ difference
        (encode_cursor (
          if ltb 1 (length rows)
          then last_sequence 2 (take 1 rows)
          else current_sequence kept (codes "alice")))
        (ltb 1 (length rows))
        (take 1 rows)
sync_complete_example = sync_complete 2 entries (codes "alice") 1 2 kept_bounds.0 kept_bounds.1

decode_cursor-encode_cursor_example : decode_cursor (some (encode_cursor 1024)) ≡ from 1024
decode_cursor-encode_cursor_example = decode_cursor-encode_cursor 1024 (omega arith)

approved_signed_example :
    (e : Envelope) × (s : Signer) × (Table.get marketplace.signing.signatures tool ≡ some e)
    × (verify_envelope toy_crypto e ≡ true)
    × (e.key_id ≡ s.key_id)
    × (e.trust_epoch ≡ s.trust_epoch)
    × (canonical_payload toy_crypto
          (some s)
          (toy_entries.identity tool_approved.0.descriptor)
          tool_approved.0.descriptor_digest
          (map public_artifact (rows_of marketplace.artifacts.artifacts tool))
        ≡ ok e.payload)
approved_signed_example =
    approved_signed ascii_locale toy_platform toy_entries 10 history tool tool_approved.0
      tool_approved.1 (inl tool_approved.2)

revoke_trust_key-trusted_example : trusted toy_crypto first_withdrawn.2.0 first_envelope ≡ (
    if (codes "k1" == first_envelope.key_id) && (1 == first_envelope.trust_epoch)
    then false
    else trusted toy_crypto rotated first_envelope)
revoke_trust_key-trusted_example =
    revoke_trust_key-trusted toy_crypto rotated first_withdrawn.2.0 (some (codes " k1")) (some 1)
      none 3 (codes "k1") 1 first_envelope first_withdrawn.0 first_withdrawn.1 first_withdrawn.2.1
