-- ===== src/Session/Scenarios.antt =====
-- The session service on a concrete history (internal/session), and the theorem on its log at work.
use opspilot_go_dev_kit.Prelude.{
  ◌≡◌, refl, List, [], ◌∷◌, ◌++◌, ok, err, if◌then◌else◌, is_some, keep,
}
use opspilot_go_dev_kit.Prelude.Decimal.{decimal, write_digits}
use opspilot_go_dev_kit.Prelude.Dict.{find, put}
use opspilot_go_dev_kit.Session.{
  Message, AppendMessageInput, SessionStore, new_session_store, list_messages, create_session,
  append_message, store_session, store_message, new_session_id, new_message_id, appended_message,
  session_not_found,
}
use opspilot_go_dev_kit.Session.Log.{
  Reach, started, created, appended, accepted, of_session, list_messages-log,
}

abbrev opened : SessionStore
opened =
    (create_session 62135596800000000007 (record { tenant_id = "t1"; user_id = "u1" })
      new_session_store).1

abbrev hello : AppendMessageInput
hello = record { session_id = "sess-7-1"; role = "user"; content = "hello" }

abbrev lost : AppendMessageInput
lost = record hello { session_id = "sess-9-9" }

abbrev after_hello : SessionStore
after_hello = (append_message 62135596800000000008 hello opened).1

abbrev history : SessionStore
history = (append_message 62135596800000000009 lost after_hello).1

list_messages_test :
    list_messages "sess-7-1" history
    ≡ ok (
        record {
          id = "msg-8-1";
          session_id = "sess-7-1";
          role = "user";
          content = "hello";
          created_at = 62135596800000000008;
        }
        ∷ [])
unfolding list_messages create_session append_message store_session store_message new_session_id
    new_message_id appended_message new_session_store find put decimal write_digits
list_messages_test = refl

abbrev log : List Message
log =
    (([] ++ accepted (append_message 62135596800000000008 hello opened).0)
      ++ accepted (append_message 62135596800000000009 lost after_hello).0)

history_reached : Reach log history
history_reached = appended 62135596800000000009 lost (
    appended 62135596800000000008 hello
      (created 62135596800000000007 (record { tenant_id = "t1"; user_id = "u1" }) started))

list_messages-log_example : list_messages "sess-7-1" history ≡ (
    if is_some (find "sess-7-1" history.sessions)
    then ok (keep (of_session "sess-7-1") log)
    else err (session_not_found "sess-7-1"))
list_messages-log_example = list_messages-log history_reached "sess-7-1"
