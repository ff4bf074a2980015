-- ===== src/Store/Tests.antt =====
-- chic/store: runs at concrete inputs.
use chic_mcp.Prelude.{◌≡◌, refl, arith, [], ◌∷◌, ◌++◌, nat_eq, string_eq}
use chic_mcp.Prelude.Int.{pos}
use chic_mcp.Store.Chat.{
  Store, MessageRow, append_message, start_session, messages_since, recent_messages, session_epoch,
}
use chic_mcp.Store.Chat.Session.{IsValid, SeesSame, append_message-Recent, start_session-Fresh}

abbrev hello : MessageRow
hello = record { id = 1; user_id = 7; role = "user"; content = "hello" }

abbrev store : Store
store = record { messages = hello ∷ []; next_id = 2; summaries = []; preferences = [] }

store-IsValid : IsValid store
store-IsValid = (omega arith, (omega arith, tt))

abbrev next : Store
next = append_message 7 "assistant" "hi" store

append_message-Recent_example :
    (recent_messages 7 (pos 6) next
      ≡ recent_messages 7 (pos 5) store
        ++ record { id = 2; role = "assistant"; content = "hi" } ∷ [])
    × (session_epoch 7 next ≡ session_epoch 7 store)
    × (next.summaries ≡ store.summaries)
    × (next.preferences ≡ store.preferences)
    × SeesSame 8 store next
append_message-Recent_example =
    append_message-Recent 7 8 "assistant" "hi" 5 store store-IsValid refl refl

abbrev fresh : Store
fresh = start_session 7 store

start_session-Fresh_example :
    (recent_messages 7 (pos 6) fresh ≡ [])
    × (session_epoch 7 fresh ≡ 2)
    × (messages_since 7 (session_epoch 7 fresh) (pos 6) fresh ≡ [])
    × IsValid fresh
    × SeesSame 8 store fresh
start_session-Fresh_example = start_session-Fresh 7 8 (pos 6) store store-IsValid refl
