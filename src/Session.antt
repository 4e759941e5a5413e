-- ===== src/Session.antt =====
-- internal/session: the sessions of users and their messages, from service.go over the store of
-- memory_store.go, which `NewService` gives it. A method of the store holds its mutex throughout.
pub mod Log
mod Scenarios
use opspilot_go_dev_kit.Prelude.{
  ℕ, ◌+◌, ◌-◌, ◌%◌, ◌^◌, String, ◌<>◌, Bool, true, false, Option, none, some, List, [], ◌∷◌, ◌++◌,
  Result, ok, err, if◌then◌else◌, or_else, is_some,
}
use opspilot_go_dev_kit.Prelude.Clock.{next_uint64, unix_nano}
use opspilot_go_dev_kit.Prelude.Decimal.{decimal}
use opspilot_go_dev_kit.Prelude.Dict.{Dict, find, put}

pub record Session : Type 0 where
  pub id : String
  pub tenant_id : String
  pub user_id : String
  pub created_at : ℕ

pub record Message : Type 0 where
  pub id : String
  pub session_id : String
  pub role : String
  pub content : String
  pub created_at : ℕ

pub record CreateSessionInput : Type 0 where
  pub tenant_id : String
  pub user_id : String

pub record AppendMessageInput : Type 0 where
  pub session_id : String
  pub role : String
  pub content : String

-- The store, and the package's two atomic counters.
pub record SessionStore : Type 0 where
  pub sessions : Dict Session
  pub messages : Dict (List Message)
  pub session_id_sequence : ℕ
  pub message_id_sequence : ℕ

unfoldable pub new_session_store : SessionStore
new_session_store = record {
  sessions = [];
  messages = [];
  session_id_sequence = 0;
  message_id_sequence = 0;
}

-- The error is the id in `session %q not found`.
pub data SessionError : Type 0 where
  session_not_found : String → SessionError

unfoldable pub new_session_id : ℕ → ℕ → String
new_session_id now sequence = "sess-" <> decimal (unix_nano now) <> "-" <> decimal sequence

unfoldable pub new_message_id : ℕ → ℕ → String
new_message_id now sequence = "msg-" <> decimal (unix_nano now) <> "-" <> decimal sequence

abbrev pub messages_of : String → SessionStore → List Message
messages_of id s = or_else (find id s.messages) []

unfoldable pub store_session : Session → SessionStore → Result SessionError Session × SessionStore
store_session session s = (ok session, record s { sessions = put session.id session s.sessions })

unfoldable pub store_message : Message → SessionStore → Result SessionError Message × SessionStore
store_message message s =
    if is_some (find message.session_id s.sessions)
    then (
      ok message,
      record s {
        messages =
            put message.session_id (messages_of message.session_id s ++ message ∷ []) s.messages;
      },
    )
    else (err (session_not_found message.session_id), s)

unfoldable pub list_messages : String → SessionStore → Result SessionError (List Message)
list_messages id s =
    if is_some (find id s.sessions) then ok (messages_of id s) else err (session_not_found id)

unfoldable pub create_session :
    ℕ → CreateSessionInput → SessionStore → Result SessionError Session × SessionStore
unfolding store_session new_session_id
create_session now input s =
    let n = next_uint64 s.session_id_sequence in
    store_session
      (record {
        id = new_session_id now n;
        tenant_id = input.tenant_id;
        user_id = input.user_id;
        created_at = now;
      })
      (record s { session_id_sequence = n })

unfoldable pub appended_message : ℕ → ℕ → AppendMessageInput → Message
unfolding new_message_id
appended_message now sequence input = record {
  id = new_message_id now sequence;
  session_id = input.session_id;
  role = input.role;
  content = input.content;
  created_at = now;
}

unfoldable pub append_message :
    ℕ → AppendMessageInput → SessionStore → Result SessionError Message × SessionStore
unfolding store_message appended_message
append_message now input s =
    let n = next_uint64 s.message_id_sequence in
    store_message (appended_message now n input) (record s { message_id_sequence = n })
