-- ===== src/Report/Fetch.antt =====
-- `CmdbReader.fetch`: the rows of a table, page by page, up to a maximum.
pub mod Whole
use Prim.Native.String
use mac_service_now_cmdb.Base.{
  ℕ, zero, suc, ◌+◌, ◌-◌, min, String, Bool, true, false, Option, none, some, List, [], ◌∷◌, ◌++◌,
  map, ltb, length, if◌then◌else◌,
}
use mac_service_now_cmdb.Text.{lower, strip, truthy, join}
use mac_service_now_cmdb.Dict.{Dict, lookup, mem}
use mac_service_now_cmdb.Json.Value.{
  pos, Value, null, bool, int, str, arr, obj, to_list, to_dict, get,
}
use mac_service_now_cmdb.Json.Show.{show}
use mac_service_now_cmdb.Errors.{service_now, Result, ok, err, ◌>>=◌}
use mac_service_now_cmdb.Client.{Request, Send, entries_of, result_of, request_json, table_path}

-- `PAGE_SIZE`
abbrev pub page_size : ℕ
page_size = 500

-- One field of a CI in both of its forms.
pub record Cell : Type 0 where
  pub value : String
  pub display : String

-- `Cell.best`
abbrev pub best : Cell → String
best c = if truthy c.display then c.display else c.value

-- `Cell.empty`
abbrev pub is_empty : Cell → Bool
is_empty c = if truthy c.value then false else if truthy c.display then false else true

abbrev pub Row : Type 0
Row = Dict Cell

-- `_text`
unfoldable pub text : Value → String
unfolding show strip
text null = ""
text (bool true) = "true"
text (bool false) = "false"
text v = strip (show v)

-- `_to_cell`
unfoldable pub to_cell : Value → Cell
unfolding text
to_cell (obj fs) = record {
  value = text (get "value" (to_dict fs));
  display = text (get "display_value" (to_dict fs));
}
to_cell v = record { value = text v; display = "" }

-- `tuple(dict.fromkeys(fields))`
unfoldable pub distinct : List String → List String → List String
distinct seen [] = seen
distinct seen (f ∷ fs) = distinct (if mem f seen then seen else seen ++ f ∷ []) fs

module _ (table : String) (fields : List String) where
  -- `_to_row`
  abbrev pub row_of : Dict Value → Row
  row_of raw = map (λ name. (name, to_cell (get name raw))) fields

  unfoldable pub rows_of : List Value → Result (List Row)
  rows_of [] = ok []
  rows_of (v ∷ vs) = entries_of v >>= λ raw. rows_of vs >>= λ rows. ok (row_of raw ∷ rows)

  abbrev pub page_request : String → ℕ → ℕ → Request
  page_request query size offset = record {
    method = "GET";
    path = table_path table;
    params =
        ("sysparm_query", str query)
        ∷ ("sysparm_fields", str (join "," fields))
        ∷ ("sysparm_limit", int (pos size))
        ∷ ("sysparm_offset", int (pos offset))
        ∷ ("sysparm_display_value", str "all")
        ∷ ("sysparm_exclude_reference_link", str "true")
        ∷ [];
    json_body = null;
  }

  -- `[]` for a result that is missing, and an error for one that is no list
  unfoldable pub listed : Value → Result (List Value)
  listed null = ok []
  listed (arr xs) = ok (to_list xs)
  listed _ =
      err (service_now (join "" ("query " ∷ table ∷ " returned an unexpected result shape" ∷ [])))

  unfoldable pub fetch_page : Send → String → ℕ → ℕ → Result (List Row)
  unfolding listed rows_of request_json
  fetch_page send query size offset =
      request_json send (String.◌++◌ "query " table) (page_request query size offset)
      >>= result_of
      >>= listed
      >>= rows_of

  -- What follows a page: the end, if it is short.
  unfoldable pub go_on :
      ℕ
      → List Row
      → Result (List Row)
      → (List Row → Option (Result (List Row × Bool)))
      → Option (Result (List Row × Bool))
  go_on size rows (err e) next = some (err e)
  go_on size rows (ok page) next =
      if ltb (length page) size then some (ok (rows ++ page, false)) else next (rows ++ page)

  -- The loop, with the rounds that are left; `none` if there are too few. The offset is the number of
  -- the rows so far.
  unfoldable pub fetch_from : ℕ → Send → String → ℕ → List Row → Option (Result (List Row × Bool))
  unfolding go_on fetch_page
  fetch_from zero send query max_rows rows =
      if ltb (length rows) max_rows then none else some (ok (rows, true))
  fetch_from (suc rounds) send query max_rows rows =
      let size = min page_size (max_rows - length rows) in
      if ltb (length rows) max_rows
      then go_on size rows (fetch_page send query size (length rows))
          (fetch_from rounds send query max_rows)
      else some (ok (rows, true))

  -- `fetch`: every full page has a row, so as many rounds as rows are enough.
  unfoldable pub fetch : Send → String → ℕ → Option (Result (List Row × Bool))
  unfolding fetch_from
  fetch send query max_rows = fetch_from max_rows send query max_rows []
