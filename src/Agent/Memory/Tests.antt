-- ===== src/Agent/Memory/Tests.antt =====
-- Preferences of chic/agent/agent.py: runs at concrete inputs.
use chic_mcp.Prelude.{
  ℕ, ◌≡◌, Bool, true, ◌&&◌, refl, arith, Option, none, some, List, [], ◌∷◌, String, string_eq,
}
use chic_mcp.Prelude.Words.{collapse, strip, is_blank, find_char, rfind_char}
use chic_mcp.Prelude.Json.{Json, null, str, arr, obj, nil, cons, end, field, lookup}
use chic_mcp.Prelude.Dict.{put, remove}
use chic_mcp.Prelude.Sets.{contains}
use chic_mcp.Prelude.Sort.{sort}
use chic_mcp.Store.Chat.{Preference, Store, preferences_of, set_preference, delete_preference}
use chic_mcp.Agent.Memory.{
  aux_run, parse_consolidated, maybe_consolidate, remember, entry, skipped, merge,
}
use chic_mcp.Agent.Memory.Clean.{IsClean, remember-IsClean}
use chic_mcp.Agent.Memory.Merge.{IsRaised, after_set, fits, breaks, remember_raises}

two_words : collapse "  first\n second " ≡ "first second"
unfolding collapse is_blank
two_words = refl

abbrev remembered : List (ℕ × String) → List ((ℕ × String) × (String × ℕ))
remembered [] = []
remembered (k ∷ ks) = (k, ("yes", 1)) ∷ remembered ks

abbrev store : Store
store = record {
  messages = [];
  next_id = 1;
  summaries = [];
  preferences =
      remembered (
        (7, "a") ∷ (7, "b") ∷ (7, "c") ∷ (7, "d") ∷ (7, "e") ∷ (7, "f") ∷ (7, "g") ∷ (7, "h") ∷ []);
}

abbrev as_stored : String → String → Bool
as_stored a b = true

abbrev no_list : List Preference → Option String
no_list ps = some "{\"preferences\": null}"

abbrev null_list : String → Option Json
null_list s = some (obj (field "preferences" null end))

abbrev shown : Json → String
shown v = "None"

abbrev clock : ℕ → ℕ
clock i = 100

abbrev one_stored : Store
one_stored = record {
  messages = [];
  next_id = 1;
  summaries = [];
  preferences = remembered ((7, "a") ∷ []);
}

one_stored-IsClean : IsClean one_stored
unfolding is_blank
one_stored-IsClean = (((refl, refl, omega arith), (refl, refl, omega arith)), tt)

remember-IsClean_example :
    IsClean ((remember as_stored no_list null_list shown clock 7 100 " a " "b\nc" one_stored).1)
remember-IsClean_example =
    remember-IsClean as_stored no_list null_list shown clock 7 100 " a " "b\nc" one_stored
      one_stored-IsClean

-- An answer that makes one preference of the eight
abbrev one_list : String → Option Json
one_list s = some (
    obj (
      field "preferences"
        (arr (cons (obj (field "key" (str "tone") (field "value" (str "brief") end))) nil)) end))

-- The consolidation merges it.
merged :
    preferences_of as_stored 7
      ((maybe_consolidate as_stored no_list one_list shown clock 7 store).0)
    ≡ record { key = "tone"; value = "brief" } ∷ []
unfolding maybe_consolidate preferences_of put sort aux_run parse_consolidated collapse strip
    is_blank find_char rfind_char lookup entry skipped contains merge set_preference
    delete_preference remove
merged = refl

-- The call raises on an answer whose preferences are null.
raised : (remember as_stored no_list null_list shown clock 7 100 "a" "no" store).0 ≡ none
unfolding remember maybe_consolidate preferences_of put sort aux_run parse_consolidated collapse
    strip is_blank find_char rfind_char lookup set_preference
raised = refl

remember_raises_example :
    IsRaised
      ((fits 64 (collapse "a") && fits 200 (collapse "no"))
        && breaks null_list as_stored no_list 7 (after_set 7 100 "a" "no" store))
      (after_set 7 100 "a" "no" store)
      (remember as_stored no_list null_list shown clock 7 100 "a" "no" store)
remember_raises_example =
    remember_raises as_stored no_list null_list shown clock 7 100 "a" "no" store
