-- ===== src/Agent/Memory.antt =====
-- Preferences of a user in chic/agent/agent.py: `_remember`, `_maybe_consolidate`,
-- `_parse_consolidated`, `_aux_run` and the tool `forget_preference`.
-- `loads` is `json.loads` (`none` is its JSONDecodeError) and `show` the text that `str` makes of a
-- value that is no text. `ask` is the model's answer about the current preferences, `none` where
-- the call raises, and `times` is the clock at each write of a consolidation.
pub mod Clean
pub mod Values
pub mod Once
pub mod Unreadable
pub mod Merge
mod Tests
use Prim.Native.String.{◌++◌}
use mathlib.Core.Option
use chic_mcp.Prelude.{
  ℕ, suc, Bool, true, false, ◌||◌, Option, none, some, List, [], ◌∷◌, map, String, length, ltb, leb,
  ◌==◌, string_eq, if◌then◌else◌,
}
use chic_mcp.Prelude.Sets.{contains}
use chic_mcp.Prelude.Words.{strip, collapse, chars, find_char, rfind_char, take_chars, drop_chars}
use chic_mcp.Prelude.Json.{
  Json, Items, Fields, null, bool, num, str, arr, obj, nil, cons, end, field, lookup,
}
use chic_mcp.Store.Chat.{Preference, Store, set_preference, delete_preference, preferences_of}

abbrev pub max_pref_key_len : ℕ
max_pref_key_len = 64

abbrev pub max_pref_value_len : ℕ
max_pref_value_len = 200

abbrev pub consolidate_threshold : ℕ
consolidate_threshold = 8

-- `_aux_run`: a call that raises gives the empty text.
unfoldable pub aux_run : Option String → String
aux_run none = ""
aux_run (some output) = strip output

-- The characters of a text and the keys of an object, as `for` meets them
each_char : String → Items
each_char String.[] = nil
each_char (String.◌∷◌ c s) = cons (str (String.◌∷◌ c String.[])) (each_char s)

each_key : Fields → Items
each_key end = nil
each_key (field k v fs) = cons (str k) (each_key fs)

-- `for e in v`; `none` is a TypeError.
unfoldable pub iterate : Json → Option Items
unfolding each_char each_key
iterate (arr vs) = some vs
iterate (str s) = some (each_char s)
iterate (obj fs) = some (each_key fs)
iterate null = none
iterate (bool b) = none
iterate (num n) = none

-- The entries that the loop runs over
unfoldable pub entries : Json → Option Items
unfolding iterate
entries (obj fs) = elim (lookup fs "preferences") as (λ x. Option Items) [
  | none ↦ some nil
  | some v ↦ iterate v
]
entries null = some nil
entries (bool b) = some nil
entries (num n) = some nil
entries (str s) = some nil
entries (arr vs) = some nil

-- The three tests that skip an entry
unfoldable pub skipped : List String → Preference → Bool
skipped seen p =
    p.key == ""
    || p.value == ""
    || ltb max_pref_key_len (chars p.key)
    || ltb max_pref_value_len (chars p.value)
    || contains seen p.key

-- `s[start : end + 1]`, if there are both braces
unfoldable pub braced : String → Option String
braced s = elim (find_char b'{' s) as (λ x. Option String) [
  | none ↦ none
  | some start ↦ elim (rfind_char b'}' s) as (λ x. Option String) [
    | none ↦ none
    | some last ↦ if leb last start then none else some (drop_chars start (take_chars (suc last) s))
  ]
]

module _ (show : Json → String) where
  -- `str(v)`
  text_of : Json → String
  text_of (str s) = s
  text_of null = show null
  text_of (bool b) = show (bool b)
  text_of (num n) = show (num n)
  text_of (arr vs) = show (arr vs)
  text_of (obj fs) = show (obj fs)

  -- `str(e.get(name, ""))`
  field_text : Fields → String → String
  unfolding text_of
  field_text fs name = elim (lookup fs name) as (λ x. String) [ none ↦ "" | some v ↦ text_of v ]

  -- The key and the value of an entry; `none` is the AttributeError of an entry that is no object.
  unfoldable pub entry : Json → Option Preference
  unfolding field_text
  entry (obj fs) =
      some
        (record { key = collapse (field_text fs "key"); value = collapse (field_text fs "value") })
  entry null = none
  entry (bool b) = none
  entry (num n) = none
  entry (str s) = none
  entry (arr vs) = none

  -- The loop of `_parse_consolidated`; `none` is an exception.
  unfoldable pub collect : List String → Items → Option (List Preference)
  collect seen nil = some []
  collect seen (cons e es) = elim (entry e) as (λ x. Option (List Preference)) [
    | none ↦ none
    | some p ↦ elim (skipped seen p) as (λ x. Option (List Preference)) [
      | true ↦ collect seen es
      | false ↦ Option.map (λ ps. p ∷ ps) (collect (p.key ∷ seen) es)
    ]
  ]

  -- What `json.loads` read
  unfoldable pub collect_parsed : Option Json → Option (List Preference)
  unfolding entries collect
  collect_parsed none = some []
  collect_parsed (some parsed) = elim (entries parsed) as (λ x. Option (List Preference)) [
    | none ↦ none
    | some es ↦ collect [] es
  ]

  -- `_parse_consolidated`
  unfoldable pub parse_consolidated : (String → Option Json) → String → Option (List Preference)
  unfolding braced collect_parsed
  parse_consolidated loads raw = elim (braced (strip raw)) as (λ x. Option (List Preference)) [
    | none ↦ some []
    | some s ↦ collect_parsed (loads s)
  ]

-- The two loops that write
unfoldable pub delete_missing : List String → ℕ → List Preference → Store → Store
delete_missing keep user_id [] s = s
delete_missing keep user_id (p ∷ ps) s =
    delete_missing keep user_id ps
      (if contains keep p.key then s else delete_preference user_id p.key s)

unfoldable pub set_all : (ℕ → ℕ) → ℕ → ℕ → List Preference → Store → Store
set_all times i user_id [] s = s
set_all times i user_id (p ∷ ps) s =
    set_all times (suc i) user_id ps (set_preference (times i) user_id p.key p.value s)

-- The keys of preferences
abbrev pub keys : List Preference → List String
keys ps = map (λ p. p.key) ps

unfoldable pub merge : (ℕ → ℕ) → ℕ → List Preference → List Preference → Store → Store
unfolding delete_missing set_all
merge times user_id current desired s =
    set_all times 0 user_id desired (delete_missing (keys desired) user_id current s)

-- `not desired or len(desired) > len(current)`
rejected : List Preference → List Preference → Bool
rejected current [] = true
rejected current (p ∷ ps) = ltb (length current) (length (p ∷ ps))

-- What follows the parse: the store, and whether the call returned
unfoldable pub apply_desired :
    (ℕ → ℕ) → ℕ → List Preference → Option (List Preference) → Store → Store × Bool
unfolding rejected
apply_desired times user_id current none s = (s, false)
apply_desired times user_id current (some desired) s =
    if rejected current desired then (s, true) else (merge times user_id current desired s, true)

-- A stored preference: the answer, where the consolidation returned
answered : String → String → Store × Bool → Option String × Store
answered key value (s, true) = (some ("OK: сохранено " ++ key ++ " = " ++ value), s)
answered key value (s, false) = (none, s)

module _ (ahead : String → String → Bool) (ask : List Preference → Option String)
    (loads : String → Option Json) (show : Json → String) (times : ℕ → ℕ) (user_id : ℕ) where
  -- `_maybe_consolidate`
  unfoldable pub maybe_consolidate : Store → Store × Bool
  unfolding apply_desired
  maybe_consolidate s =
      let current = preferences_of ahead user_id s in
      let text = aux_run (ask current) in
      if ltb (length current) consolidate_threshold
      then (s, true)
      else if text == ""
      then (s, true)
      else apply_desired times user_id current (parse_consolidated show loads text) s

  -- `_remember`; no answer is an exception.
  unfoldable pub remember : ℕ → String → String → Store → Option String × Store
  unfolding answered
  remember now raw_key raw_value s =
      let key = collapse raw_key in
      let value = collapse raw_value in
      if key == ""
      then (some "ERROR: key обязателен и не может быть пустым", s)
      else if ltb max_pref_key_len (chars key)
      then (some "ERROR: key слишком длинный (макс 64 символов)", s)
      else if value == ""
      then (some "ERROR: value обязателен для remember_preference", s)
      else if ltb max_pref_value_len (chars value)
      then (some "ERROR: value слишком длинный (макс 200 символов); сохрани короче и по сути", s)
      else answered key value (maybe_consolidate (set_preference now user_id key value s))

-- The tool `forget_preference`
unfoldable pub forget_tool : ℕ → String → Store → String × Store
forget_tool user_id raw_key s =
    let key = collapse raw_key in
    if key == ""
    then ("ERROR: key обязателен и не может быть пустым", s)
    else ("OK: предпочтение " ++ key ++ " удалено", delete_preference user_id key s)
