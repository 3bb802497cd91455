-- ===== src/Audit.antt =====
-- AuditLogger of tripmate/core/audit.py. The time and the request's context are arguments; the line
-- that is written to the log stream is left out.
pub mod Retention
use multi_ai_agent.Common.{
  ℕ, String, Bool, Option, none, some, List, [], ◌∷◌, ◌++◌, ltb, length, truthy, if◌then◌else◌,
}
use multi_ai_agent.Store.{or_empty}
use multi_ai_agent.Redaction.{Json, dict, Entries, end, redact_sensitive_data}

pub data AuditEventType : Type 0 where
  auth_failure approval_decision admin_action access_denied config_change : AuditEventType

pub record AuditEntry : Type 0 where
  pub timestamp : ℕ
  pub event_type : AuditEventType
  pub action : String
  pub actor : String
  pub target_id : String
  pub status : String
  pub client_ip : String
  pub request_id : String
  pub details : Json

pub record AuditLogger : Type 0 where
  pub max_retained_entries : ℕ
  pub entries : List AuditEntry

-- What a caller passes.
pub record AuditRecord : Type 0 where
  pub event_type : AuditEventType
  pub action : String
  pub actor : Option String
  pub target_id : Option String
  pub status : String
  pub client_ip : String
  pub request_id : Option String
  pub details : Option Entries

-- The clock, and the user and the request of the context.
pub record Context : Type 0 where
  pub now : ℕ
  pub user_id : Option String
  pub request_id : Option String

-- `a or b or c`
abbrev first_given : Option String → Option String → String → String
first_given a b c =
    if truthy (or_empty a) then or_empty a else if truthy (or_empty b) then or_empty b else c

abbrev pub or_no_details : Option Entries → Entries
or_no_details none = end
or_no_details (some d) = d

unfoldable pub new_logger : ℕ → AuditLogger
new_logger n = record { max_retained_entries = n; entries = [] }

-- `pop(0)`
abbrev pub pop_first {ℓ} : {A : Type ℓ} → List A → List A
pop_first [] = []
pop_first (x ∷ xs) = xs

-- `sub`, `lower` and the setting CAPTURE_PROMPTS are those of Redaction.
module _ (sub : String → String → String → String) (lower : String → String) (setting : Bool) where
  unfoldable pub entry_of : Context → AuditRecord → AuditEntry
  entry_of ctx r = record {
    timestamp = ctx.now;
    event_type = r.event_type;
    action = r.action;
    actor = first_given r.actor ctx.user_id "anonymous";
    target_id = or_empty r.target_id;
    status = r.status;
    client_ip = r.client_ip;
    request_id = first_given r.request_id ctx.request_id "unknown";
    details = redact_sensitive_data sub lower setting (dict (or_no_details r.details)) none;
  }

  unfoldable pub record_entry : Context → AuditRecord → AuditLogger → AuditLogger × AuditEntry
  unfolding entry_of
  record_entry ctx r l =
      let made = entry_of ctx r in
      let longer = l.entries ++ made ∷ [] in
      (
        record l {
          entries = if ltb l.max_retained_entries (length longer) then pop_first longer else longer;
        },
        made,
      )

unfoldable pub get_entries : AuditLogger → List AuditEntry
get_entries l = l.entries

unfoldable pub clear : AuditLogger → AuditLogger
clear l = record l { entries = [] }
