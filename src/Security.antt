-- ===== src/Security.antt =====
-- engine/internal/security/audit_logger.go: the security audit log over its table
-- audit.security_audit_logs.
pub mod Laws
use quantumbilling.Common.{
  ℕ, ◌-◌, List, [], ◌∷◌, ◌++◌, Text, text, text_eq, is_empty, Bool, true, false, Option, none, some,
  leb, ltb, ◌==◌, length, take, if◌then◌else◌,
}

abbrev pub violation_invalid_key : Text
violation_invalid_key = text "invalid_key"

abbrev pub violation_budget_exhausted : Text
violation_budget_exhausted = text "budget_exhausted"

abbrev pub violation_rate_limit : Text
violation_rate_limit = text "rate_limit"

abbrev pub violation_guardrail_block : Text
violation_guardrail_block = text "guardrail_blocked"

unfoldable pub valid_violation_types : List Text
valid_violation_types =
    violation_invalid_key ∷ violation_budget_exhausted ∷ violation_rate_limit
    ∷ violation_guardrail_block ∷ []

-- The loop of `IsValidViolationType`
any_eq : List Text → Text → Bool
any_eq [] t = false
any_eq (v ∷ vs) t = let rest = any_eq vs t in if text_eq v t then true else rest

unfoldable pub is_valid_violation_type : Text → Bool
unfolding any_eq valid_violation_types
is_valid_violation_type t = any_eq valid_violation_types t

-- strings.TrimSpace, and the host that net.SplitHostPort finds.
pub record Strings : Type 0 where
  pub trim_space : Text → Text
  pub split_host_port : Text → Option Text

-- What the logger reads of a request: the header X-Forwarded-For and the address of the peer.
pub record Client : Type 0 where
  pub forwarded_for : Text
  pub remote_addr : Text

-- The first of the parts of strings.Split at the commas.
unfoldable pub first_part : Text → Text
first_part [] = []
first_part (c ∷ s) = let rest = first_part s in if c == b',' then [] else c ∷ rest

unfoldable pub extract_ip : Strings → Client → Text
unfolding first_part
extract_ip lib r =
    if is_empty r.forwarded_for
    then elim (lib.split_host_port r.remote_addr) [ none ↦ r.remote_addr | some host ↦ host ]
    else lib.trim_space (first_part r.forwarded_for)

-- `s[:maxLen-15]` panics where `maxLen` is below 15, which is `none`.
unfoldable pub truncate : Text → ℕ → Option Text
truncate s max_len =
    if leb (length s) max_len
    then some s
    else if ltb max_len 15
    then none
    else some (take (max_len - 15) s ++ text "... (truncated)")

-- A row, with NULL for no organization.
pub record AuditRow : Type 0 where
  pub org_id : Option Text
  pub violation_type : Text
  pub ip_address : Text
  pub details : Text
  pub triggered_by : Text
  pub created_at : ℕ

-- The handle: nil, one whose statements fail, or one that serves the table, the oldest row first:
-- whether the types and the constraints of its columns take the values of a row, in whose column id
-- nothing is put.
pub data AuditTable : Type 0 where
  missing : AuditTable
  broken : AuditTable
  ready : (AuditRow → Bool) → List AuditRow → AuditTable

abbrev pub nullable : Text → Option Text
nullable org_id = if is_empty org_id then none else some org_id

pub record Violation : Type 0 where
  pub violation_type : Text
  pub org_id : Text
  pub key_prefix : Text
  pub detail : Text
  pub client : Client

abbrev pub max_detail : ℕ
max_detail = 1000

abbrev pub new_row : Strings → ℕ → Violation → Text → AuditRow
new_row lib now v details = record {
  org_id = nullable v.org_id;
  violation_type = v.violation_type;
  ip_address = extract_ip lib v.client;
  details = details;
  triggered_by = v.key_prefix;
  created_at = now;
}

-- The statement's error is only logged.
insert : AuditRow → AuditTable → AuditTable
insert row missing = missing
insert row broken = broken
insert row (ready takes rows) = ready takes (if takes row then rows ++ row ∷ [] else rows)

-- `LogViolation`
unfoldable pub log_violation : Strings → ℕ → Violation → AuditTable → AuditTable
unfolding truncate insert
log_violation lib now v table = elim (truncate v.detail max_detail) [
  | none ↦ table
  | some details ↦ insert (new_row lib now v details) table
]
