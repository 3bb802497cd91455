-- ===== src/Tests/Logs.antt =====
-- Runs of the redaction and of the audit log.
use multi_ai_agent.Common.{ℕ, String, false, some, none, List, [], ◌∷◌, ◌≡◌, refl, map}
use multi_ai_agent.Redaction.{str, dict, entry, end, or_setting, mask_of, redact_sensitive_data}
use multi_ai_agent.Redaction.Secrecy.{
  Alike, dict_alike, shown, unseen, no_entries, same, hides, redact_sensitive_data_secret,
}
use multi_ai_agent.Audit.{admin_action, AuditRecord, Context, new_logger}
use multi_ai_agent.Audit.Retention.{last_of, run_records, entries_of, redacted, run_records_lem}

abbrev keep_text : String → String → String → String
keep_text pattern replacement s = s

abbrev as_is : String → String
as_is s = s

two_logins :
    Alike
      (hides as_is (or_setting none false))
      (dict (entry "name" (str "ann") (entry "password" (str "hunter2") end)))
      (dict (entry "name" (str "ann") (entry "password" (str "letmein") end)))
unfolding mask_of
two_logins = dict_alike (
    shown "name" (same (str "ann"))
      (unseen "password" (str "hunter2") (str "letmein") refl no_entries))

redact_sensitive_data_secret_example :
    redact_sensitive_data keep_text as_is false
      (dict (entry "name" (str "ann") (entry "password" (str "hunter2") end)))
      none
    ≡ redact_sensitive_data keep_text as_is false
        (dict (entry "name" (str "ann") (entry "password" (str "letmein") end)))
        none
redact_sensitive_data_secret_example =
    redact_sensitive_data_secret keep_text as_is false none
      (dict (entry "name" (str "ann") (entry "password" (str "hunter2") end)))
      (dict (entry "name" (str "ann") (entry "password" (str "letmein") end))) two_logins

abbrev did : String → AuditRecord
did what = record {
  event_type = admin_action;
  action = what;
  actor = none;
  target_id = none;
  status = "SUCCESS";
  client_ip = "";
  request_id = none;
  details = none;
}

abbrev at : ℕ → Context
at now = record { now = now; user_id = some "ann"; request_id = none }

abbrev three_records : List (Context × AuditRecord)
three_records = (at 1, did "a") ∷ (at 2, did "b") ∷ (at 3, did "c") ∷ []

run_records_lem_example :
    let kept = (run_records keep_text as_is false three_records (new_logger 2)).entries in
    (kept ≡ last_of 2 (entries_of keep_text as_is false three_records))
    × (map (λ e. e.details) kept ≡ last_of 2 (map (redacted keep_text as_is false) three_records))
run_records_lem_example = run_records_lem keep_text as_is false 2 three_records
