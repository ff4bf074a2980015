-- ===== src/Moysklad/Dates.antt =====
-- chic/moysklad/dates.py: the text of a moment parameter.
pub mod Stable
use chic_mcp.Prelude.{
  ℕ, Bool, true, false, ◌||◌, List, [], ◌∷◌, ◌++◌, take, length, leb, ◌==◌, nat_eq, if◌then◌else◌,
}
use chic_mcp.Prelude.Sets.{contains}
use chic_mcp.Prelude.Text.{Text, codes, is_empty, strip}

-- `s.partition("T")`: what stands before the first T, and what after it.
unfoldable pub before : ℕ → Text → Text
before c [] = []
before c (d ∷ s) = if d == c then [] else d ∷ before c s

unfoldable pub behind : ℕ → Text → Text
behind c [] = []
behind c (d ∷ s) = if d == c then s else behind c s

-- `s.removesuffix("Z")`
unfoldable pub remove_suffix : ℕ → Text → Text
remove_suffix c [] = []
remove_suffix c (d ∷ []) = if d == c then [] else d ∷ []
remove_suffix c (d ∷ e ∷ s) = d ∷ remove_suffix c (e ∷ s)

-- The branch for a T between date and time.
join_time : Text → Text
unfolding before behind remove_suffix
join_time s =
    let time_part = remove_suffix b'Z' (behind b'T' s) in
    before b'T' s ++ 32 ∷ (if leb 8 (length time_part) then take 8 time_part else time_part)

-- `normalize_moment` behind its `strip`.
stamp : Text → Text → Text
unfolding join_time contains
stamp time [] = []
stamp time (c ∷ s) =
    if contains (c ∷ s) 32
    then c ∷ s
    else if contains (c ∷ s) b'T'
    then join_time (c ∷ s)
    else (c ∷ s) ++ time

unfoldable pub normalize_moment : Text → Text
unfolding stamp strip
normalize_moment s = stamp (codes " 00:00:00") (strip s)

-- `normalize_moment_end`
end_stamp : Text → Text
unfolding normalize_moment
end_stamp [] = []
end_stamp (c ∷ s) =
    if contains (c ∷ s) 32 || contains (c ∷ s) b'T'
    then normalize_moment (c ∷ s)
    else (c ∷ s) ++ codes " 23:59:59"

unfoldable pub normalize_moment_end : Text → Text
unfolding end_stamp strip
normalize_moment_end s = end_stamp (strip s)
