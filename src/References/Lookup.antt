-- ===== src/References/Lookup.antt =====
-- `_fold`, `_alias` and `_lookup`
use mac_service_now_cmdb.Base.{
  ℕ, ◌*◌, String, none, some, List, [], ◌∷◌, ◌&&◌, length, if◌then◌else◌,
}
use mac_service_now_cmdb.Text.{truthy, strip, lower}
use mac_service_now_cmdb.Dict.{Dict, lookup, insert, setdefault}
use mac_service_now_cmdb.Json.Value.{Value, get_or_empty}
use mac_service_now_cmdb.Json.Show.{show}
use mac_service_now_cmdb.Errors.{Result, ok, ◌>>=◌}
use mac_service_now_cmdb.Client.{Send, entries_of, query_table}
use mac_service_now_cmdb.Query.{build_or_query, chunked}

abbrev pub company_table : String
company_table = "core_company"

abbrev pub model_table : String
model_table = "cmdb_model"

abbrev pub lookup_chunk_size : ℕ
lookup_chunk_size = 40

-- `name.strip().lower()`
abbrev pub folded : String → String
folded name = lower (strip name)

fold_from : Dict String → Dict String → Dict String
fold_from acc [] = acc
fold_from acc ((k, v) ∷ d) =
    let acc' = if truthy (strip v) then insert (folded k) (strip v) acc else acc in fold_from acc' d

-- `_fold`
unfoldable pub fold : Dict String → Dict String
unfolding fold_from
fold aliases = fold_from [] aliases

-- `_alias`
unfoldable pub alias : Dict String → String → String
alias aliases name = elim (lookup (folded name) aliases) [ none ↦ name | some a ↦ a ]

-- One row of a lookup; the first record of a name counts.
unfoldable pub learn_row : Dict String → Value → Result (Dict String)
learn_row found row = entries_of row >>= λ d.
    let name = folded (show (get_or_empty "name" d)) in
    let id = show (get_or_empty "sys_id" d) in
    ok (if truthy name && truthy id then setdefault name id found else found)

unfoldable pub learn_rows : Dict String → List Value → Result (Dict String)
unfolding learn_row
learn_rows found [] = ok found
learn_rows found (row ∷ rows) = learn_row found row >>= λ found'. learn_rows found' rows

unfoldable pub look_up_chunks :
    Send → String → Dict String → List (List String) → Result (Dict String)
unfolding learn_rows
look_up_chunks send table found [] = ok found
look_up_chunks send table found (chunk ∷ chunks) = build_or_query "name" chunk none >>= λ query.
    query_table send table query ("sys_id" ∷ "name" ∷ []) (length chunk * 4) >>= λ rows.
    learn_rows found rows >>= λ found'. look_up_chunks send table found' chunks

-- `_lookup`
unfoldable pub look_up : Send → String → List String → Result (Dict String)
unfolding look_up_chunks
look_up send table names = look_up_chunks send table [] (chunked names lookup_chunk_size)
