-- ===== src/Moysklad/Tests.antt =====
-- chic/moysklad: runs at concrete inputs.
use chic_mcp.Prelude.{
  ℕ, zero, suc, ◌≤◌, ◌<◌, ◌≡◌, refl, arith, false, Option, some, none, List, [], ◌∷◌, ◌++◌, take,
  drop, length, nat_eq, string_eq, if◌then◌else◌, inr,
}
use chic_mcp.Prelude.Int.{pos}
use chic_mcp.Prelude.Text.{Text, codes}
use chic_mcp.Prelude.Json
use chic_mcp.Prelude.Json.{Json, Fields, truthy, lookup}
use chic_mcp.Moysklad.Errors.{parse_api_error}
use chic_mcp.Moysklad.Options.{DocumentQuery}
use chic_mcp.Moysklad.Client.Transport.{
  Reply, http_error, response, Response, network, returned, raised, backoff, do_get,
}
use chic_mcp.Moysklad.Client.Transport.Attempts.{
  verdict, Again, waits_for, do_get-final, do_get-exhausted,
}
use chic_mcp.Moysklad.Client.Pages
use chic_mcp.Moysklad.Client.Pages.{ListResponse, page_size_of, paginate}
use chic_mcp.Moysklad.Client.Pages.Complete.{Serves, cut, paginate-cut, paginate_overshoots}

abbrev fives : Fields
fives = Fields.field "errors" (Json.num (pos 5)) Fields.end

-- A body whose `errors` is a number
number_of_errors : parse_api_error 400 (some (Json.obj fives)) ≡ none
unfolding parse_api_error Json.get lookup truthy
number_of_errors = refl

abbrev july : Text
july = codes " 2026-07-01 "

abbrev query : DocumentQuery
query = record {
  from_date = codes "2026-07-01";
  to = codes "2026-07-31";
  counterparty_id = codes "c1";
  state_id = [];
  organization_id = [];
  store_id = [];
  filter = codes "applicable=true" ∷ [];
  search = codes "tea";
  expand = [];
  limit = pos 0;
  order = [];
}

abbrev ok : Response
ok = record {
  status = 200;
  body = none;
  headers = record { lognex_retry_after = []; retry_after = [] };
}

-- The first attempt fails, the second succeeds.
abbrev second_succeeds : ℕ → Reply
second_succeeds zero = http_error 3
second_succeeds (suc n) = response ok

abbrev never : ℕ → Reply
never n = http_error n

first_fails : (j : ℕ) → j < 1 → Again (second_succeeds j)
unfolding verdict
first_fails zero h = (false, network 3, pos 0, refl)
first_fails (suc j) h = absurd (omega arith)

all_fail : (j : ℕ) → j ≤ 2 → Again (never j)
unfolding verdict
all_fail j h = (false, network j, pos 0, refl)

do_get-final_example :
    do_get 500 3 second_succeeds
    ≡ record { outcome = returned none; requests = 2; waits = waits_for 500 second_succeeds 0 1 }
unfolding verdict
do_get-final_example =
    do_get-final 500 3 second_succeeds 1 (returned none) (omega arith) first_fails refl

do_get-exhausted_example : do_get 500 2 never ≡ record {
  outcome = raised (network 2);
  requests = 3;
  waits = waits_for 500 never 0 2 ++ (if false then [] else backoff 500 2 (pos 0));
}
unfolding verdict
do_get-exhausted_example = do_get-exhausted 500 2 never false (network 2) (pos 0) all_fail refl

abbrev rows : List ℕ
rows = 1 ∷ 2 ∷ 3 ∷ 4 ∷ 5 ∷ []

abbrev slices : ℕ → ℕ → Option (ListResponse ℕ)
slices limit offset = some (record { rows = take limit (drop offset rows); size = 5 })

served : Serves slices rows
served = record { size = 5; reported = inr refl; page = λ limit offset. refl }

paginate-cut_example :
    paginate slices 2 none (pos 4) 6
    ≡ Pages.returned (cut (page_size_of 2 none (pos 4)) (pos 4) rows)
paginate-cut_example = paginate-cut slices rows served 2 (omega arith) none (pos 4) 6 (omega arith)

paginate_overshoots_example :
    (all : List ℕ) × (paginate slices 3 none (pos 4) 6 ≡ Pages.returned all) × (4 < length all)
paginate_overshoots_example =
    paginate_overshoots slices rows served 3 (omega arith) (pos 4) 6 (omega arith) (omega arith)
      (ground arith) (omega arith)
