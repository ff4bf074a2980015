-- ===== src/Moysklad/Errors.antt =====
-- chic/moysklad/errors.py: the first error's message of a 4xx or 5xx body.
use chic_mcp.Prelude.{ℕ, Option, none, some, if◌then◌else◌}
use chic_mcp.Prelude.Json
use chic_mcp.Prelude.Json.{Json, Items, Fields, truthy, or_else}

pub record MoyskladError : Type 0 where
  pub status_code : ℕ
  pub message : Json

-- `row.get("errorMessage") or row.get("error") or ""`; a row that is no object has no `get`, and
-- that AttributeError is caught.
message_of_row : Json → Json
message_of_row (Json.obj fs) =
    or_else (Json.get fs "errorMessage") (or_else (Json.get fs "error") (Json.str ""))
message_of_row _ = Json.str ""

-- `rows[0]` and what follows: `none` is the TypeError that the handler does not name.
message_of_rows : Json → Option Json
unfolding message_of_row
message_of_rows (Json.arr (Items.cons row rows)) = some (message_of_row row)
message_of_rows (Json.num n) = none
message_of_rows (Json.bool b) = none
message_of_rows _ = some (Json.str "")

-- `parse_api_error`, from what `json.loads(body)` gives: `none` there is its ValueError.
unfoldable pub parse_api_error : ℕ → Option Json → Option MoyskladError
unfolding message_of_rows
parse_api_error status (some (Json.obj fs)) =
    if truthy (Json.get fs "errors")
    then (elim (message_of_rows (Json.get fs "errors")) [
      | some m ↦ some (record { status_code = status; message = m })
      | none ↦ none
    ])
    else some (record { status_code = status; message = Json.str "" })
parse_api_error status _ = some (record { status_code = status; message = Json.str "" })
