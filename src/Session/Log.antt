-- ===== src/Session/Log.antt =====
-- What a session's messages are after any calls of the session service (internal/session).
use opspilot_go_dev_kit.Prelude.{
  ℕ, String, ◌≡◌, inl, inr, refl, sym, ap, ◌∙◌, Bool, List, [], ◌∷◌, ◌++◌, Result, ok, err, ◌==◌,
  eq_iff, if◌then◌else◌, is_some, keep, Bool-cases,
}
use opspilot_go_dev_kit.Prelude.Dict.{find, find-put}
use opspilot_go_dev_kit.Session.{
  Message, SessionError, CreateSessionInput, AppendMessageInput, SessionStore, new_session_store,
  session_not_found, messages_of, list_messages, store_message, store_session, create_session,
  append_message,
}

-- What an answer adds to the log of accepted messages.
abbrev pub accepted : Result SessionError Message → List Message
accepted (ok message) = message ∷ []
accepted (err _) = []

-- The calls of the service in any order, with the messages accepted so far, the oldest first.
pub data Reach : List Message → SessionStore → Type 0 where
  started : Reach [] new_session_store
  created :
      {log : List Message} {s : SessionStore} (now : ℕ) (input : CreateSessionInput)
      → Reach log s
      → Reach log (create_session now input s).1
  appended :
      {log : List Message} {s : SessionStore} (now : ℕ) (input : AppendMessageInput)
      → Reach log s
      → Reach (log ++ accepted (append_message now input s).0) (append_message now input s).1

abbrev pub of_session : String → Message → Bool
of_session id message = message.session_id == id

keep-append :
    (p : Message → Bool) (xs ys : List Message) → keep p (xs ++ ys) ≡ keep p xs ++ keep p ys
unfolding keep
keep-append p [] ys = refl
keep-append p (x ∷ xs) ys = elim (Bool-cases (p x)) [
  | inl e ↦ rw e (ap (λ r. x ∷ r) (keep-append p xs ys))
  | inr e ↦ rw e (keep-append p xs ys)
]

-- The store holds of each session the part of the log that is for it.
abbrev Refines : List Message → SessionStore → Type 0
Refines log s = (id : String) → messages_of id s ≡ keep (of_session id) log

append-nil : (xs : List Message) → xs ++ [] ≡ xs
append-nil [] = refl
append-nil (x ∷ xs) = ap (λ r. x ∷ r) (append-nil xs)

stored-Refines :
    (message : Message) (log : List Message) (s : SessionStore)
    → Refines log s
    → Refines (log ++ accepted (store_message message s).0) (store_message message s).1
unfolding store_message keep
stored-Refines message log s h id =
    elim (Bool-cases (is_some (find message.session_id s.sessions))) [
      | inr missing ↦
          rw (store_message, missing) (h id ∙ ap (keep (of_session id)) (sym (append-nil log)))
      | inl there ↦
          let split = keep-append (of_session id) log (message ∷ []) in
          elim (Bool-cases (message.session_id == id)) [
            | inl same ↦
                let e : message.session_id ≡ id = (eq_iff message.session_id id).0 same in
                rw (store_message, there)
                  (rw (find-put, same)
                    (ap (λ ms. ms ++ message ∷ []) (ap (λ i. messages_of i s) e ∙ h id)
                      ∙ sym (split ∙ rw same)))
            | inr other ↦
                rw (store_message, there)
                  (rw (find-put, other)
                    (h id ∙ sym (split ∙ rw other (append-nil (keep (of_session id) log)))))
          ]
    ]

Reach-Refines : {log : List Message} {s : SessionStore} → Reach log s → Refines log s
unfolding new_session_store find keep create_session store_session append_message
Reach-Refines started id = refl
Reach-Refines (created now input r) id = Reach-Refines r id
Reach-Refines (appended {log} {s} now input r) id =
    stored-Refines _ log (record s { message_id_sequence = _ }) (Reach-Refines r) id

-- After any calls of the session service from its start, `ListMessages` of a session that exists gives
-- exactly the messages that were accepted for it, in the order in which they were appended, and of any
-- other id the error.
pub list_messages-log :
    {log : List Message} {s : SessionStore} (r : Reach log s) (id : String)
    → list_messages id s ≡ (
        if is_some (find id s.sessions)
        then ok (keep (of_session id) log)
        else err (session_not_found id))
unfolding list_messages
list_messages-log {log} {s} r id =
    ap (λ ms. if is_some (find id s.sessions) then ok ms else err (session_not_found id))
      (Reach-Refines r id)
