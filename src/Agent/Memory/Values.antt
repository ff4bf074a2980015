-- ===== src/Agent/Memory/Values.antt =====
-- The value of each preference after the writes of a consolidation.
use mathlib.Core.Option
use chic_mcp.Prelude.{
  ℕ, suc, ◌≡◌, refl, Bool, true, false, ◌&&◌, not, Option, none, some, List, [], ◌∷◌, String, ◌==◌,
  string_eq, nat_eq, pair_eq, if◌then◌else◌, arith,
}
use chic_mcp.Prelude.Dict.{get, get-put, get-remove}
use chic_mcp.Prelude.Sets.{contains}
use chic_mcp.Store.Chat.{Preference, Store, set_preference, delete_preference}
use chic_mcp.Agent.Memory.{delete_missing, set_all, keys, merge}

-- The value that is stored for a user under a key
abbrev pub value_of : Store → ℕ → String → Option String
value_of s v k = Option.map (λ r. r.0) (get s.preferences (v, k))

-- The value that a list of preferences has for a key: the last one, where it has several
abbrev pub value_in : List Preference → String → Option String
value_in [] k = none
value_in (p ∷ ps) k = elim (value_in ps k) as (λ x. Option String) [
  | some x ↦ some x
  | none ↦ if p.key == k then some p.value else none
]

abbrev pub or_value : Option String → Option String → Option String
or_value none y = y
or_value (some x) y = some x

value-set :
    (now u v : ℕ) (key k val : String) (s : Store)
    → value_of (set_preference now u key val s) v k
      ≡ (if u == v && key == k then some val else value_of s v k)
unfolding set_preference
value-set now u v key k val s = ground (arith, get-put s.preferences (u, key) (v, k) (val, now))

value-delete :
    (u v : ℕ) (key k : String) (s : Store)
    → value_of (delete_preference u key s) v k
      ≡ (if u == v && key == k then none else value_of s v k)
unfolding delete_preference
value-delete u v key k s = ground (arith, get-remove s.preferences (u, key) (v, k))

value-set_all :
    (times : ℕ → ℕ) (i u v : ℕ) (k : String) (ps : List Preference) (s : Store)
    → value_of (set_all times i u ps s) v k
      ≡ (if u == v then or_value (value_in ps k) (value_of s v k) else value_of s v k)
unfolding set_all
value-set_all times i u v k [] s = ground arith
value-set_all times i u v k (p ∷ ps) s = ground (
  arith,
  value-set_all times (suc i) u v k ps (set_preference (times i) u p.key p.value s),
  value-set (times i) u v p.key k p.value s,
)

value-delete_missing :
    (keep : List String) (u v : ℕ) (k : String) (ps : List Preference) (s : Store)
    → value_of (delete_missing keep u ps s) v k
      ≡ (if u == v && (contains (keys ps) k && not (contains keep k)) then none else value_of s v k)
unfolding delete_missing contains
value-delete_missing keep u v k [] s = ground arith
value-delete_missing keep u v k (p ∷ ps) s = ground (
  arith,
  string_eq.same_iff p.key k,
  value-delete_missing keep u v k ps s,
  value-delete_missing keep u v k ps (delete_preference u p.key s),
  value-delete u v p.key k s,
)

contains-keys :
    (ps : List Preference) (k : String)
    → contains (keys ps) k ≡ (elim (value_in ps k) as (λ x. Bool) [ none ↦ false | some x ↦ true ])
unfolding contains
contains-keys [] k = refl
contains-keys (p ∷ ps) k = ground (arith, contains-keys ps k)

pub value-merge :
    (times : ℕ → ℕ) (u v : ℕ) (k : String) (current desired : List Preference) (s : Store)
    → value_of (merge times u current desired s) v k ≡ (
        if u == v
        then or_value
            (value_in desired k)
            (if contains (keys current) k then none else value_of s v k)
        else value_of s v k)
unfolding merge
value-merge times u v k current desired s = ground (
  arith,
  value-set_all times 0 u v k desired (delete_missing (keys desired) u current s),
  value-delete_missing (keys desired) u v k current s,
  contains-keys desired k,
)
