-- ===== src/Commands/Dispatch.antt =====
-- The dispatch of `_execute_command` of bridge/agent.py by the command's type, with the send.
use pdd_bridge_agent.Prelude.{
  ℕ, ◌+◌, Bool, not, ◌||◌, Option, some, [], ◌∷◌, ◌++◌, String, str_eq, ltb, if◌then◌else◌, length,
  drop,
}
use pdd_bridge_agent.Text.{strip, is_blank, or_text}
use pdd_bridge_agent.Json
use pdd_bridge_agent.Json.{Value, Fields, end, field, null, bool, num, text, obj, other}
use pdd_bridge_agent.Timing.{takeover_expired}
use pdd_bridge_agent.Commands.Channel.{Agent, World, note, field_of, sent, opened, pulled, applied}
use pdd_bridge_agent.Commands.Verdicts.{
  sent_text_key, only_question_marks, unsupported_type, expired_result, marks_result,
  session_result, pull_result, open_result, send_result, really_sent,
}

-- `str(cmd.get("type") or "send_text").strip() or "send_text"`
unfoldable pub type_of : Fields → String
type_of cmd =
    or_text (strip (Json.to_text (Json.or_value (Json.get cmd "type") (text "send_text"))))
      "send_text"

abbrev meta_of : Fields → Fields
meta_of cmd = Json.dict_or_empty (Json.get cmd "meta")

-- `_command_expired` on the command's own fields
unfoldable pub expired : World → Fields → Bool
unfolding type_of field_of
expired w cmd =
    let parent = Json.text_or_empty (Json.get (meta_of cmd) "takeover_parent_msg_id") in
    takeover_expired w.tolerance w.parent_max_age w.now (type_of cmd)
      (Json.is_true (Json.get (meta_of cmd) "manual_direct"))
      (w.read_stamp (Json.get cmd "created_at")) parent
      (w.parent_time (field_of cmd "account") (field_of cmd "buyer_id") parent)

-- `_note_self_send`: the buffer keeps the last 400 rows.
unfoldable pub note_self_send : ℕ → String → String → String → Agent → Agent
unfolding sent_text_key
note_self_send now account buyer content a =
    if is_blank (sent_text_key content)
    then a
    else (let rows =
          a.self_sends
          ++ record { account = account; buyer_id = buyer; content = content; ts = now } ∷ [] in
        record a { self_sends = if ltb 400 (length rows) then drop 1 rows else rows })

-- The send itself: noted before the platform is called, counted by what it answers.
unfoldable pub send : World → String → Fields → Agent → Agent × Option Fields
unfolding note_self_send field_of
send w id cmd a =
    let account = field_of cmd "account" in
    let buyer = field_of cmd "buyer_id" in
    let content = field_of cmd "content" in
    let a' = note (sent id account buyer content) (note_self_send w.now account buyer content a) in
    (
      (if really_sent w.answer then record a' { sent_ok = a'.sent_ok + 1 } else a'),
      some (send_result w.answer),
    )

abbrev is_known : String → Bool
is_known t =
    str_eq t "send_text"
    || str_eq t "open_chat"
    || str_eq t "pull_history"
    || str_eq t "session_state"

-- The dispatch of `_execute_command` by the command's type: the agent and the result, `none` where
-- an exception leaves the handler.
unfoldable pub dispatch : World → String → Fields → Agent → Agent × Option Fields
unfolding send expired type_of only_question_marks
dispatch w id cmd a =
    let t = type_of cmd in
    if not (is_known t)
    then (a, some unsupported_type)
    else if str_eq t "session_state"
    then (note (applied id) a, some (session_result w))
    else if expired w cmd
    then (a, some expired_result)
    else if str_eq t "pull_history"
    then (note (pulled id) a, pull_result w)
    else if str_eq t "open_chat"
    then (note (opened id) a, some (open_result w))
    else if only_question_marks (field_of cmd "content")
    then (a, some marks_result)
    else send w id cmd a
