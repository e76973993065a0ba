-- ===== src/Window/Schema.antt =====
-- src/window.ts, the zod schemas, as tests of values of the types in Window/Types.antt.
use tasc.Base.{Bool, true, ◌&&◌, Option, none, some, leb, nat_eq, option_eq}
use tasc.Text.{Text, text_eq, is_slug, is_digest}
use tasc.Timestamp.{is_contract_timestamp}
use tasc.Work.{max_safe_integer}
use tasc.Window.Types.{
  MembershipRule, Capacity, unavailable, reported, ManifestBody, Changes, capacity_eq,
}

abbrev pub valid_rule : MembershipRule → Bool
valid_rule r = is_slug r.seed && leb r.sample_basis_points 10000

abbrev pub valid_capacity : Capacity → Bool
valid_capacity (unavailable reason) = is_slug reason
valid_capacity (reported r) =
    is_digest r.declaration_digest
    && is_digest r.frozen_policy_digest
    && is_contract_timestamp r.event_time_start_inclusive
    && is_contract_timestamp r.event_time_end_exclusive

abbrev pub valid_predecessor : Option Text → Bool
valid_predecessor none = true
valid_predecessor (some d) = is_digest d

-- `windowManifestBodySchema`.
unfoldable pub valid_body : ManifestBody → Bool
valid_body m =
    is_slug m.window_id
    && is_digest m.protocol_digest
    && is_digest m.frozen_policy_digest
    && is_contract_timestamp m.event_time_start_inclusive
    && is_contract_timestamp m.event_time_end_exclusive
    && is_contract_timestamp m.ingestion_watermark
    && is_slug m.closure_reason
    && valid_rule m.membership_rule
    && is_digest m.membership_digest
    && (leb 1 m.revision && leb m.revision max_safe_integer)
    && valid_predecessor m.predecessor_manifest_digest
    && is_digest m.trace_set_digest
    && is_digest m.evaluator_set_digest
    && valid_capacity m.capacity_evidence

-- `windowManifestRevisionChangesSchema`.
unfoldable pub valid_changes : Changes → Bool
valid_changes c =
    is_contract_timestamp c.ingestion_watermark
    && is_slug c.closure_reason
    && is_digest c.trace_set_digest
    && is_digest c.evaluator_set_digest
    && valid_capacity c.capacity_evidence
