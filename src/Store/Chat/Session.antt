-- ===== src/Store/Chat/Session.antt =====
-- Sessions: what a reset hides, what a new message adds, and that users do not see each other.
use mathlib.Core.List.{append-nil}
use chic_mcp.Prelude.{
  ℕ, zero, suc, ◌-◌, max, ◌≤◌, ◌<◌, ◌≡◌, refl, ap, ◌∙◌, Bool, true, false, ◌&&◌, List, [], ◌∷◌,
  ◌++◌, map, filter, take, drop, length, length-append, drop-nil, String, ltb, ◌==◌, nat_eq,
  string_eq, if◌then◌else◌, Bool-cases, All, All-append, inl, inr, arith,
}
use chic_mcp.Prelude.Int.{ℤ, pos, pos_part}
use chic_mcp.Store.Chat.{
  MessageRow, Store, append_message, start_session, last_reset, session_epoch, to_message,
  rows_after, last_n, is_turn, recent_messages, messages_since, get_session_summary, preferences_of,
}

-- Ids are given out from 1, and every message has one that was given out.
abbrev pub IsValid : Store → Type 0
IsValid s = (0 < s.next_id) × All (λ m. m.id < s.next_id) s.messages

last_reset-append :
    (user_id : ℕ) (ms : List MessageRow) (m : MessageRow)
    → last_reset user_id (ms ++ m ∷ [])
      ≡ max (last_reset user_id ms) (if m.user_id == user_id && m.role == "reset" then m.id else 0)
unfolding last_reset
last_reset-append user_id [] m = ground arith
last_reset-append user_id (x ∷ ms) m = ground (arith, last_reset-append user_id ms m)

rows_after-append :
    (user_id since : ℕ) (ms : List MessageRow) (m : MessageRow)
    → rows_after user_id since (ms ++ m ∷ [])
      ≡ rows_after user_id since ms
        ++ (if m.user_id == user_id && ltb since m.id then m ∷ [] else [])
rows_after-append user_id since [] m = ground arith
rows_after-append user_id since (x ∷ ms) m =
    elim (Bool-cases (x.user_id == user_id && ltb since x.id)) [
      | inl kept ↦ rw kept (ap (◌∷◌ x) (rows_after-append user_id since ms m))
      | inr left ↦ rw left (rows_after-append user_id since ms m)
    ]

-- No row has an id after the last one given out.
rows_after-none :
    (user_id since : ℕ) (ms : List MessageRow)
    → All (λ m. m.id < since) ms
    → rows_after user_id since ms ≡ []
rows_after-none user_id since [] a = refl
rows_after-none user_id since (m ∷ ms) a = ground (arith, rows_after-none user_id since ms a.1)

last_reset-lt :
    (user_id n : ℕ) (ms : List MessageRow)
    → All (λ m. m.id < n) ms
    → 0 < n
    → last_reset user_id ms < n
unfolding last_reset
last_reset-lt user_id n [] a h = h
last_reset-lt user_id n (m ∷ ms) a h = ground (arith, last_reset-lt user_id n ms a.1 h)

map-append :
    (xs ys : List MessageRow) → map to_message (xs ++ ys) ≡ map to_message xs ++ map to_message ys
map-append [] ys = refl
map-append (x ∷ xs) ys = ap (◌∷◌ (to_message x)) (map-append xs ys)

drop-append :
    (i : ℕ) (xs : List MessageRow) (m : MessageRow)
    → i ≤ length xs
    → drop i (xs ++ m ∷ []) ≡ drop i xs ++ m ∷ []
drop-append zero xs m h = refl
drop-append (suc i) [] m h = absurd (omega arith)
drop-append (suc i) (x ∷ xs) m h = drop-append i xs m (omega arith)

-- One more row, and a limit one higher
last_n-append :
    (k : ℕ) (xs : List MessageRow) (m : MessageRow)
    → last_n (suc k) (xs ++ m ∷ []) ≡ last_n k xs ++ m ∷ []
last_n-append k xs m =
    ap (λ i. drop i (xs ++ m ∷ [])) (omega (arith, length-append xs (m ∷ [])))
    ∙ drop-append (length xs - k) xs m (omega arith)

self : (user_id : ℕ) → user_id == user_id ≡ true
self user_id = (nat_eq.same_iff user_id user_id).1 refl

epoch-reset :
    (user_id : ℕ) (s : Store)
    → IsValid s
    → session_epoch user_id (start_session user_id s) ≡ s.next_id
unfolding session_epoch start_session
epoch-reset user_id s valid =
    last_reset-append user_id s.messages _
    ∙ rw (self user_id) (omega (arith, last_reset-lt user_id s.next_id s.messages valid.1 valid.0))

ids_grow : (n : ℕ) (ms : List MessageRow) → All (λ m. m.id < n) ms → All (λ m. m.id < suc n) ms
ids_grow n [] a = tt
ids_grow n (m ∷ ms) a = (omega (arith, a.0), ids_grow n ms a.1)

append_message-IsValid :
    (user_id : ℕ) (role content : String) (s : Store)
    → IsValid s
    → IsValid (append_message user_id role content s)
unfolding append_message
append_message-IsValid user_id role content s valid = (
  omega arith,
  All-append (λ m. m.id < suc s.next_id) s.messages _ (ids_grow s.next_id s.messages valid.1)
      (omega arith, tt),
)

rows_after-reset :
    (user_id n : ℕ) (ms : List MessageRow) (m : MessageRow)
    → All (λ x. x.id < n) ms
    → m.id ≡ n
    → rows_after user_id n (ms ++ m ∷ []) ≡ []
rows_after-reset user_id n ms m a e =
    rows_after-append user_id n ms m ∙ rw (rows_after-none user_id n ms a) (ground arith)

epoch-turn :
    (user_id v : ℕ) (role content : String) (s : Store)
    → role == "reset" ≡ false
    → session_epoch v (append_message user_id role content s) ≡ session_epoch v s
unfolding session_epoch append_message
epoch-turn user_id v role content s turn = last_reset-append v s.messages _ ∙ ground arith

rows-own :
    (user_id : ℕ) (s : Store) (m : MessageRow)
    → IsValid s
    → m.user_id ≡ user_id
    → m.id ≡ s.next_id
    → rows_after user_id (session_epoch user_id s) (s.messages ++ m ∷ [])
      ≡ rows_after user_id (session_epoch user_id s) s.messages ++ m ∷ []
unfolding session_epoch
rows-own user_id s m valid own new =
    rows_after-append user_id (last_reset user_id s.messages) s.messages m
    ∙ ap (λ l. rows_after user_id (last_reset user_id s.messages) s.messages ++ l)
        (ground (arith, last_reset-lt user_id s.next_id s.messages valid.1 valid.0))

rows-other :
    (v since : ℕ) (ms : List MessageRow) (m : MessageRow)
    → m.user_id == v ≡ false
    → rows_after v since (ms ++ m ∷ []) ≡ rows_after v since ms
rows-other v since ms m apart =
    rows_after-append v since ms m ∙ rw apart (append-nil (rows_after v since ms))

-- Every read of a user's data gives the same from both stores.
abbrev pub SeesSame : ℕ → Store → Store → Type 0
SeesSame u s t =
    ((n : ℤ) → recent_messages u n t ≡ recent_messages u n s)
    × ((since : ℕ) (limit : ℤ) → messages_since u since limit t ≡ messages_since u since limit s)
    × (session_epoch u t ≡ session_epoch u s)
    × ((epoch : ℕ) → get_session_summary u epoch t ≡ get_session_summary u epoch s)
    × ((ahead : String → String → Bool) → preferences_of ahead u t ≡ preferences_of ahead u s)

append_message-SeesSame :
    (user_id other : ℕ) (role content : String) (s : Store)
    → user_id == other ≡ false
    → SeesSame other s (append_message user_id role content s)
unfolding recent_messages messages_since session_epoch get_session_summary preferences_of
    append_message
append_message-SeesSame user_id other role content s apart =
    let row : MessageRow = record {
      id = s.next_id;
      user_id = user_id;
      role = role;
      content = content;
    } in
    let epoch = last_reset-append other s.messages row ∙ rw apart (omega arith) in
    (
      λ n.
          ap
            (λ since.
              map to_message
                (last_n (pos_part n) (rows_after other since (s.messages ++ row ∷ []))))
            epoch
          ∙ ap (λ l. map to_message (last_n (pos_part n) l))
              (rows-other other (last_reset other s.messages) s.messages row apart),
      λ since limit.
          ap (λ l. map to_message (take (pos_part limit) (filter is_turn l)))
            (rows-other other since s.messages row apart),
      epoch,
      λ epoch. refl,
      λ ahead. refl,
    )

-- Where every id was given out, a message that is no boundary comes last in its own user's session,
-- after the `k` that were last before, and leaves that user's epoch, summaries and preferences as
-- they were. Another user reads the same messages, epoch, summaries and preferences as before.
pub append_message-Recent :
    (user_id other : ℕ) (role content : String) (k : ℕ) (s : Store)
    → IsValid s
    → role == "reset" ≡ false
    → user_id == other ≡ false
    → let next = append_message user_id role content s in
      (recent_messages user_id (pos (suc k)) next
        ≡ recent_messages user_id (pos k) s
          ++ record { id = s.next_id; role = role; content = content } ∷ [])
      × (session_epoch user_id next ≡ session_epoch user_id s)
      × (next.summaries ≡ s.summaries)
      × (next.preferences ≡ s.preferences)
      × SeesSame other s next
unfolding recent_messages append_message
append_message-Recent user_id other role content k s valid turn apart =
    let row : MessageRow = record {
      id = s.next_id;
      user_id = user_id;
      role = role;
      content = content;
    } in
    let rows = rows_after user_id (session_epoch user_id s) s.messages in
    (
      rw (epoch-turn user_id user_id role content s turn, recent_messages)
          (ap (λ l. map to_message (last_n (suc k) l)) (rows-own user_id s row valid refl refl)
            ∙ ap (map to_message) (last_n-append k rows row)
            ∙ map-append (last_n k rows) (row ∷ [])),
      epoch-turn user_id user_id role content s turn,
      refl,
      refl,
      append_message-SeesSame user_id other role content s apart,
    )

-- Where every id was given out, a new session starts empty: its epoch is the id of the boundary, no
-- message is recent, none is a turn since then, and every id is again given out. Another user reads
-- the same messages, epoch, summaries and preferences as before.
pub start_session-Fresh :
    (user_id other : ℕ) (n : ℤ) (s : Store)
    → IsValid s
    → user_id == other ≡ false
    → let next = start_session user_id s in
      (recent_messages user_id n next ≡ [])
      × (session_epoch user_id next ≡ s.next_id)
      × (messages_since user_id (session_epoch user_id next) n next ≡ [])
      × IsValid next
      × SeesSame other s next
unfolding recent_messages messages_since start_session
start_session-Fresh user_id other n s valid apart =
    let epoch = epoch-reset user_id s valid in
    let empty = rows_after-reset user_id s.next_id s.messages _ valid.1 refl in
    (
      rw (epoch, recent_messages)
          (ap (λ rows. map to_message (last_n (pos_part n) rows)) empty ∙ no_last (pos_part n)),
      epoch,
      rw (epoch, messages_since)
          (ap (λ rows. map to_message (take (pos_part n) (filter is_turn rows))) empty
            ∙ no_first (pos_part n)),
      append_message-IsValid user_id "reset" "" s valid,
      append_message-SeesSame user_id other "reset" "" s apart,
    )
  where
    no_last : (k : ℕ) → map to_message (last_n k []) ≡ []
    no_last k = ap (map to_message) (drop-nil (0 - k))

    no_first : (k : ℕ) → map to_message (take k []) ≡ []
    no_first zero = refl
    no_first (suc k) = refl
