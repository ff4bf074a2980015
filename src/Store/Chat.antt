-- ===== src/Store/Chat.antt =====
-- The messages, summaries and preferences of chic/store/db.py (`Store`), each table a list in the
-- order of insertion. SQLite gives a new row of `messages` the next id.
pub mod Session
use chic_mcp.Prelude.{
  ℕ, zero, suc, ◌+◌, ◌-◌, max, Bool, true, false, ◌&&◌, ◌||◌, Option, none, some, List, [], ◌∷◌,
  ◌++◌, map, filter, take, drop, length, String, ltb, leb, ◌==◌, nat_eq, string_eq, pair_eq,
  if◌then◌else◌,
}
use chic_mcp.Prelude.Int.{ℤ, pos_part}
use chic_mcp.Prelude.Dict.{Dict, get, put, remove}
use chic_mcp.Prelude.Sort.{sort}

-- `MessageRow`, `Message`
pub record MessageRow : Type 0 where
  pub id : ℕ
  pub user_id : ℕ
  pub role : String
  pub content : String

pub record Message : Type 0 where
  pub id : ℕ
  pub role : String
  pub content : String

pub record Preference : Type 0 where
  pub key : String
  pub value : String

-- The tables of the database, and the next id of a message
pub record Store : Type 0 where
  pub messages : List MessageRow
  pub next_id : ℕ
  pub summaries : Dict (ℕ × ℕ) (String × ℕ)
  pub preferences : Dict (ℕ × String) (String × ℕ)

unfoldable pub append_message : ℕ → String → String → Store → Store
append_message user_id role content s = record {
  messages =
      s.messages
      ++ record { id = s.next_id; user_id = user_id; role = role; content = content } ∷ [];
  next_id = suc s.next_id;
  summaries = s.summaries;
  preferences = s.preferences;
}

unfoldable pub start_session : ℕ → Store → Store
unfolding append_message
start_session user_id s = append_message user_id "reset" "" s

-- `coalesce(max(id), 0)` over the user's reset rows
unfoldable pub last_reset : ℕ → List MessageRow → ℕ
last_reset user_id [] = 0
last_reset user_id (m ∷ ms) =
    let rest = last_reset user_id ms in
    if m.user_id == user_id && m.role == "reset" then max m.id rest else rest

unfoldable pub session_epoch : ℕ → Store → ℕ
unfolding last_reset
session_epoch user_id s = last_reset user_id s.messages

abbrev pub to_message : MessageRow → Message
to_message m = record { id = m.id; role = m.role; content = m.content }

-- The user's rows after an id
abbrev pub rows_after : ℕ → ℕ → List MessageRow → List MessageRow
rows_after user_id since ms = filter (λ m. m.user_id == user_id && ltb since m.id) ms

-- `ORDER BY id DESC LIMIT n`, then reversed: the last `n`.
abbrev pub last_n {ℓ} : {A : Type ℓ} → ℕ → List A → List A
last_n n xs = drop (length xs - n) xs

-- `recent_messages`
unfoldable pub recent_messages : ℕ → ℤ → Store → List Message
unfolding session_epoch
recent_messages user_id n s =
    map to_message (last_n (pos_part n) (rows_after user_id (session_epoch user_id s) s.messages))

-- `role.in_(("user", "assistant"))`
abbrev pub is_turn : MessageRow → Bool
is_turn m = m.role == "user" || m.role == "assistant"

-- `messages_since`
unfoldable pub messages_since : ℕ → ℕ → ℤ → Store → List Message
messages_since user_id since_id limit s =
    map to_message (take (pos_part limit) (filter is_turn (rows_after user_id since_id s.messages)))

unfoldable pub get_session_summary : ℕ → ℕ → Store → String × ℕ
get_session_summary user_id epoch s = elim (get s.summaries (user_id, epoch)) as (λ x. String × ℕ) [
  | none ↦ ("", 0)
  | some row ↦ row
]

unfoldable pub put_session_summary : ℕ → ℕ → String → ℕ → Store → Store
put_session_summary user_id epoch summary up_to_id s = record {
  messages = s.messages;
  next_id = s.next_id;
  summaries = put s.summaries (user_id, epoch) (summary, up_to_id);
  preferences = s.preferences;
}

-- `set_preference` at a time
unfoldable pub set_preference : ℕ → ℕ → String → String → Store → Store
set_preference now user_id key value s = record {
  messages = s.messages;
  next_id = s.next_id;
  summaries = s.summaries;
  preferences = put s.preferences (user_id, key) (value, now);
}

unfoldable pub delete_preference : ℕ → String → Store → Store
delete_preference user_id key s = record {
  messages = s.messages;
  next_id = s.next_id;
  summaries = s.summaries;
  preferences = remove s.preferences (user_id, key);
}

abbrev pub max_rendered_preferences : ℕ
max_rendered_preferences = 50

-- `preferences`; `ahead` is the order in which SQLite compares two keys.
unfoldable pub preferences_of : (String → String → Bool) → ℕ → Store → List Preference
preferences_of ahead user_id s =
    let own = filter (λ e. e.0.0 == user_id) s.preferences in
    let recent = take max_rendered_preferences (sort (λ a b. leb (b.1.1) (a.1.1)) own) in
    map (λ e. record { key = e.0.1; value = e.1.0 }) (sort (λ a b. ahead (a.0.1) (b.0.1)) recent)
