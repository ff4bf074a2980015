-- ===== src/Agent/Turn/Logged.antt =====
-- What a turn leaves in the messages.
use mathlib.Core.List.{append-nil, append_assoc}
use chic_mcp.Prelude.{
  ℕ, suc, ◌-◌, ◌≡◌, refl, sym, ◌∙◌, Bool, ◌&&◌, ◌||◌, not, Option, none, some, List, [], ◌∷◌, ◌++◌,
  String, take, length, leb, ◌==◌, string_eq, if◌then◌else◌, Bool-cases, inl, inr,
}
use chic_mcp.Prelude.Int.{ℤ, pos, negsuc}
use chic_mcp.Prelude.Words.{strip}
use chic_mcp.Store.Chat.{
  Message, MessageRow, Store, append_message, session_epoch, put_session_summary,
}
use chic_mcp.Agent.Rate.{Buckets, allow}
use chic_mcp.Agent.History.{total_chars, summary_keep_recent, condense_tail, condense_history}
use chic_mcp.Agent.Summary.{summarize_into}
use chic_mcp.Agent.Turn.{
  Answer, answer, clarify, spent, failed, Request, Config, clarify_result, persist_one, persist,
  stored_text, finish, request_of, answer_turn, handle,
}

-- The text that a turn is answered with, if the model answers
abbrev pub reply_of : Answer → Option String
reply_of (answer out) = some (strip out)
reply_of (clarify question options allow_custom) =
    some ((clarify_result question options allow_custom).text)
reply_of spent = none
reply_of failed = none

-- A text that is kept: it is not empty, and SQLite takes it.
abbrev pub is_kept : (String → Bool) → String → String → Bool
is_kept writes role content = not (content == "") && writes role

abbrev pub row_if : Bool → ℕ → ℕ → String → String → List MessageRow
row_if kept id user_id role content =
    if kept then record { id = id; user_id = user_id; role = role; content = content } ∷ [] else []

-- The rows of a turn, the user's before the answer
abbrev pub turn_rows : (String → Bool) → ℕ → ℕ → String → String → List MessageRow
turn_rows writes next user_id text reply =
    row_if (is_kept writes "user" text) next user_id "user" text
    ++ row_if (is_kept writes "assistant" reply)
        (if is_kept writes "user" text then suc next else next) user_id "assistant" reply

-- The rows of a turn that may have no answer
abbrev pub reply_rows : (String → Bool) → ℕ → ℕ → String → Option String → List MessageRow
reply_rows writes next user_id text none = []
reply_rows writes next user_id text (some reply) = turn_rows writes next user_id text reply

-- The limiter or the lack of a vision model refuses the message.
abbrev pub is_refused : Config → ℕ → ℕ → String → Buckets → Bool
is_refused c user_id now_ts data_uri buckets =
    not (allow c.hz c.rate_per_hour user_id now_ts buckets).0
    || (not (data_uri == "") && not c.has_vision)

abbrev SameLog : Store → Store → Type 0
SameLog s t = (s.messages ≡ t.messages) × (s.next_id ≡ t.next_id)

persist_one-messages :
    (writes : String → Bool) (u : ℕ) (role content : String) (s : Store)
    → ((persist_one writes u role content s).messages
        ≡ s.messages ++ row_if (is_kept writes role content) s.next_id u role content)
      × ((persist_one writes u role content s).next_id
          ≡ (if is_kept writes role content then suc s.next_id else s.next_id))
unfolding persist_one append_message
persist_one-messages writes u role content s = elim (Bool-cases (content == "")) [
  | inl empty ↦ rw (empty) (sym (append-nil s.messages), refl)
  | inr text ↦ elim (Bool-cases (writes role)) [
    | inl taken ↦ rw (text, taken) (refl, refl)
    | inr lost ↦ rw (text, lost) (sym (append-nil s.messages), refl)
  ]
]

persist-messages :
    (writes : String → Bool) (u : ℕ) (text reply : String) (s : Store)
    → (persist writes u text reply s).messages
      ≡ s.messages ++ turn_rows writes s.next_id u text reply
unfolding persist
persist-messages writes u text reply s =
    let first = persist_one-messages writes u "user" text s in
    let second =
      persist_one-messages writes u "assistant" reply (persist_one writes u "user" text s) in
    second.0 ∙ rw (first.0, first.1) (append_assoc s.messages _ _)

finish-messages :
    (writes : String → Bool) (u : ℕ) (stored : String) (b : Buckets) (a : Answer) (s : Store)
    → (finish writes u stored b a s).store.messages
      ≡ s.messages ++ reply_rows writes s.next_id u stored (reply_of a)
unfolding finish
finish-messages writes u stored b (answer out) s = persist-messages writes u stored (strip out) s
finish-messages writes u stored b (clarify q os more) s =
    persist-messages writes u stored ((clarify_result q os more).text) s
finish-messages writes u stored b spent s = sym (append-nil s.messages)
finish-messages writes u stored b failed s = sym (append-nil s.messages)

condense_tail-SameLog :
    (summarize : String → List Message → String) (budget u epoch : ℕ) (summary : String)
    (tail : List Message) (s : Store)
    → SameLog ((condense_tail summarize budget u epoch summary tail s).2) s
unfolding condense_tail put_session_summary
condense_tail-SameLog summarize budget u epoch summary tail s =
    elim (Bool-cases (leb (total_chars tail) budget || leb (length tail) summary_keep_recent)) [
      | inl short ↦ rw short (refl, refl)
      | inr long ↦
          elim (Bool-cases
            (summarize summary (take (length tail - summary_keep_recent) tail) == "")) [
              | inl fails ↦ rw (long, fails) (refl, refl)
              | inr made ↦ rw (long, made) (refl, refl)
            ]
    ]

condense_history-SameLog :
    (summarize : String → List Message → String) (budget depth : ℤ) (u epoch : ℕ) (s : Store)
    → SameLog ((condense_history summarize budget depth u epoch s).2) s
unfolding condense_history
condense_history-SameLog summarize (negsuc k) depth u epoch s = (refl, refl)
condense_history-SameLog summarize (pos budget) depth u epoch s =
    condense_tail-SameLog summarize budget u epoch _ _ s

request_of-SameLog :
    (c : Config) (user_id : ℕ) (text data_uri : String) (s : Store)
    → SameLog ((request_of c user_id text data_uri s).1) s
unfolding request_of
request_of-SameLog c user_id text data_uri s =
    condense_history-SameLog (summarize_into c.complete) c.summary_char_budget c.history_depth
      user_id (session_epoch user_id s) s

module _ (c : Config) (user_id : ℕ)
    (keeps : (r : Request) (s : Store) → ((c.run r s).1).messages ≡ s.messages)
    (keeps_id : (r : Request) (s : Store) → ((c.run r s).1).next_id ≡ s.next_id) where
  answer_turn-messages :
      (text data_uri : String) (b : Buckets) (s : Store)
      → (answer_turn c user_id text data_uri b s).store.messages
        ≡ s.messages
          ++ reply_rows c.writes s.next_id user_id (stored_text text data_uri) (
              reply_of (
                (c.run
                  ((request_of c user_id text data_uri s).0)
                  ((request_of c user_id text data_uri s).1)).0))
  unfolding answer_turn
  answer_turn-messages text data_uri b s =
      let q = request_of c user_id text data_uri s in
      let ran = c.run (q.0) (q.1) in
      let same = request_of-SameLog c user_id text data_uri s in
      finish-messages c.writes user_id (stored_text text data_uri) b (ran.0) (ran.1)
      ∙ rw (keeps (q.0) (q.1), keeps_id (q.0) (q.1), same.0, same.1) refl

  -- If the model's run adds no message, a turn that is refused, or that the model does not answer,
  -- leaves the messages as they were, and any other adds the user's text and the answer after them,
  -- under the next ids, leaving out what is empty or what SQLite does not take.
  pub handle-messages :
      (now_ts : ℕ) (text data_uri : String) (b : Buckets) (s : Store)
      → (handle c user_id now_ts text data_uri b s).store.messages
        ≡ s.messages
          ++ (if is_refused c user_id now_ts data_uri b
              then []
              else reply_rows c.writes s.next_id user_id (stored_text text data_uri) (
                  reply_of (
                    (c.run
                      ((request_of c user_id text data_uri s).0)
                      ((request_of c user_id text data_uri s).1)).0)))
  unfolding handle
  handle-messages now_ts text data_uri b s =
      let asked = allow c.hz c.rate_per_hour user_id now_ts b in
      elim (Bool-cases (asked.0)) [
        | inr limited ↦ rw limited (sym (append-nil s.messages))
        | inl allowed ↦ elim (Bool-cases (not (data_uri == "") && not c.has_vision)) [
          | inl blind ↦ rw (allowed, blind) (sym (append-nil s.messages))
          | inr sees ↦ rw (allowed, sees) (answer_turn-messages text data_uri (asked.1) s)
        ]
      ]
