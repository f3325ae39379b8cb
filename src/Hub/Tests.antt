-- ===== src/Hub/Tests.antt =====
-- The runtime hub at concrete events.
use gn_drive.Common.{
  ◌≡◌, ℕ, refl, String, List, [], ◌∷◌, some, none, lookup, insert, remove, length, drop, ◌-◌,
}
use gn_drive.Hub.{
  BusEvent, FlowExecutionEvent, flow_execution, sync_progress, split_busy_key, split_colon, capped,
  after, new, synced_flow, on_event, apply_flow, append_log, take_chars, label,
}
use gn_drive.Hub.Logs.{log_of, history_from, after-log_of}
use gn_drive.Hub.Bounds.{IsShortLog, after-IsShortLog}

abbrev flow_event : String → String → String → FlowExecutionEvent
flow_event flow op status = record { flow_id = flow; op_id = op; status = status; error = "" }

abbrev morning : List (ℕ × BusEvent)
morning =
    (1, flow_execution (flow_event "f1" "" "running"))
    ∷ (2, flow_execution (flow_event "f1" "" "running"))
    ∷ (
      3,
      sync_progress (record {
        task_id = "t1";
        profile_id = "f1:op1";
        action = "push";
        state = "running";
        transferred = 10;
        errors = 0;
        error_message = "";
      }),
    )
    ∷ (4, flow_execution (flow_event "f1" "" "completed"))
    ∷ []

busy_key : split_busy_key "f1:op1:x" ≡ some ("f1", "op1:x")
unfolding split_busy_key split_colon
busy_key = refl

leading_colon : split_busy_key ":op1" ≡ none
unfolding split_busy_key split_colon
leading_colon = refl

two_entries : length (log_of "f1" (after morning new)) ≡ 2
unfolding after on_event apply_flow append_log capped label take_chars lookup insert remove
    split_busy_key split_colon synced_flow
two_entries = refl

after-log_of_example :
    log_of "f1" (after morning new)
    ≡ drop (length (history_from "f1" [] morning) - 40) (history_from "f1" [] morning)
after-log_of_example = after-log_of morning "f1"

after-IsShortLog_example : IsShortLog (log_of "f1" (after morning new))
after-IsShortLog_example = after-IsShortLog morning "f1"
