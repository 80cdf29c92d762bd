-- ===== src/Commands/Verdicts.antt =====
-- The results that `_execute_command` of bridge/agent.py makes, of its own and of what the platform
-- answers, and the texts that it looks at.
use Prim.Native.String.{◌++◌ as append_text}
use pdd_bridge_agent.Prelude.{
  Bool, true, false, not, ◌&&◌, ◌||◌, Option, none, some, String, Char, code, leb, nat_eq,
  if◌then◌else◌,
}
use pdd_bridge_agent.Text.{is_blank}
use pdd_bridge_agent.Json
use pdd_bridge_agent.Json.{Value, Fields, end, field, null, bool, num, text, obj, other}
use pdd_bridge_agent.Commands.Channel.{Answer, World, dict, value, raised}

-- The characters that `_sent_text_key` keeps: digits, ASCII letters, CJK.
abbrev is_kept : Char → Bool
is_kept c =
    let n = code c in
    (leb b'0' n && leb n b'9')
    || (leb b'A' n && leb n b'Z')
    || (leb b'a' n && leb n b'z')
    || (leb 0x4e00 n && leb n 0x9fff)

unfoldable pub sent_text_key : String → String
sent_text_key String.[] = String.[]
sent_text_key (String.◌∷◌ c s) =
    if is_kept c then String.◌∷◌ c (sent_text_key s) else sent_text_key s

abbrev all_marks : String → Bool
all_marks String.[] = true
all_marks (String.◌∷◌ c s) = nat_eq (code c) b'?' && all_marks s

-- `content and content.replace("?", "").strip() == "" and set(content) <= {"?"}`
unfoldable pub only_question_marks : String → Bool
only_question_marks content = not (is_blank content) && all_marks content

-- A result of up to four fields that the agent makes itself.
abbrev pub verdict : String → Value → String → Fields → Fields
verdict status real_send error rest =
    field "ok" (bool false)
      (field "status" (text status) (field "error" (text error) (field "real_send" real_send rest)))

abbrev pub unsupported_type : Fields
unsupported_type =
    verdict "blocked" (bool false) "unsupported_command_type" (field "retryable" (bool false) end)

abbrev pub expired_result : Fields
expired_result =
    verdict "expired" (bool false) "automatic_command_expired_or_unverifiable_time"
      (field "retryable" (bool false) (field "via" (text "expired") end))

abbrev pub marks_result : Fields
marks_result =
    verdict "blocked" (bool false) "content is only question marks"
      (field "error_user" (text "发送内容异常（只有 ???），已拦截；请重新输入中文再发") (field "via" (text "blocked") end))

-- An exception during a send: nobody knows whether the buyer got the message.
abbrev exception_result : String → Fields
exception_result e =
    verdict "indeterminate" null e (
      field "error_user" (text "桥接发送过程异常；为避免重复发送，请人工核对会话")
        (field "via" (text "send_exception") end))

-- `_apply_session_state`: its own `try` turns an exception into a result.
abbrev pub session_result : World → Fields
session_result w =
    if not w.workbench
    then field "ok" (bool false)
        (field "status" (text "unsupported") (field "error" (text "local_workbench_url 未配置") end))
    else elim w.answer [
      | raised e ↦ verdict "failed" (bool false) e end
      | _ ↦ field "ok" (bool true) (
          field "status" (text "applied")
            (field "real_send" (bool false) (field "via" (text "local_seat") end)))
    ]

-- `r or {}` where it is a dict, the value otherwise
abbrev dict_of : String → Bool → Fields
dict_of s true = field "ok" (bool true) (field "raw_result" (text s) end)
dict_of s false = end

-- The result of a history pull; an exception leaves no result.
abbrev pub pull_result : World → Option Fields
pull_result w =
    if w.has_source
    then elim w.answer [ dict d ↦ some d | value s b ↦ some (dict_of s b) | raised e ↦ none ]
    else some (
        verdict "unsupported" (bool false) "pddbridge source 未启动"
          (field "error_user" (text "当前不是 PDD 直连模式，无法拉历史") end))

abbrev open_defaults : Fields → Fields
open_defaults d =
    Json.set_default (Json.set_default d "via" (text "open_chat")) "real_send" (bool false)

abbrev pub open_result : World → Fields
open_result w =
    if w.has_open_chat
    then elim w.answer [
      | dict d ↦ open_defaults d
      | value s true ↦ open_defaults (field "ok" (bool true) (field "via" (text "open_chat") end))
      | value s false ↦ open_defaults end
      | raised e ↦
          verdict "error" (bool false) e (
            field "error_user" (text (append_text "跳转会话失败：" e))
              (field "via" (text "open_chat") end))
    ]
    else open_defaults (
        verdict "unsupported" (bool false) "platform has no open_chat"
          (field "error_user" (text "当前平台桥接暂不支持一键跳转会话，请在官方客户端手动打开") end))

abbrev pub send_result : Answer → Fields
send_result (dict d) = d
send_result (value s b) = field "ok" (bool b) (field "raw_result" (text (if b then s else "")) end)
send_result (raised e) = exception_result e

abbrev pub really_sent : Answer → Bool
really_sent (dict d) = Json.is_true (Json.get d "real_send")
really_sent _ = false
