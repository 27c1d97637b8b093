-- ===== src/References/Ids.antt =====
-- Every sys_id that a cache holds or a name comes to is a text that is not empty.
use mac_service_now_cmdb.Base.{
  String, ◌≡◌, Bool, true, Option, none, some, inl, inr, List, [], ◌∷◌, map, not, Option-cases,
  arith, All, length, ◌*◌, ◌==◌, if-elim,
}
use mac_service_now_cmdb.Text.{truthy, lower, strip}
use mac_service_now_cmdb.Dict.{Dict, lookup, insert, setdefault, update, mem}
use mac_service_now_cmdb.Json.Value.{Value, get_or_empty}
use mac_service_now_cmdb.Json.Show.{show}
use mac_service_now_cmdb.Errors.Gives.{Gives, Gives-any, Gives-bind}
use mac_service_now_cmdb.Errors.{Result}
use mac_service_now_cmdb.Query.{build_or_query}
use mac_service_now_cmdb.Client.{Send, entries_of, query_table}
use mac_service_now_cmdb.References.Lookup.{folded, learn_row, learn_rows, look_up_chunks, look_up}
use mac_service_now_cmdb.References.Names.{
  Names, Created, create_record, Resolved, keep_created, resolve_unknown, resolve_key, cached_or,
  resolve, text_or_empty,
}

abbrev pub Ids : Dict String → Type 0
Ids = All (λ e. truthy e.1 ≡ true)

-- There is no sys_id, or it is a text that is not empty.
abbrev pub IsId : Option String → Type 0
IsId none = Unit
IsId (some id) = truthy id ≡ true

IsId-lookup : (k : String) (d : Dict String) → Ids d → IsId (lookup k d)
unfolding lookup
IsId-lookup k [] h = tt
IsId-lookup k ((j, v) ∷ d) h =
    if-elim IsId (j == k) (some v) (lookup k d) (λ y. h.0) (λ n. IsId-lookup k d h.1)

pub Ids-insert : (k v : String) (d : Dict String) → truthy v ≡ true → Ids d → Ids (insert k v d)
unfolding insert
Ids-insert k v [] t h = (t, tt)
Ids-insert k v ((j, w) ∷ d) t h =
    if-elim Ids (j == k) ((j, v) ∷ d) ((j, w) ∷ insert k v d) (λ y. (t, h.1))
      (λ n. (h.0, Ids-insert k v d t h.1))

Ids-setdefault : (k v : String) (d : Dict String) → truthy v ≡ true → Ids d → Ids (setdefault k v d)
Ids-setdefault k v d t h = elim (Option-cases (lookup k d)) [
  | inl n ↦ rw (n, setdefault) (Ids-insert k v d t h)
  | inr (w, s) ↦ rw (s, setdefault) h
]

pub Ids-update : (d e : Dict String) → Ids d → Ids e → Ids (update d e)
unfolding update
Ids-update d [] hd he = hd
Ids-update d ((k, v) ∷ e) hd he = Ids-update (insert k v d) e (Ids-insert k v d he.0 hd) he.1

learn_row-Ids : (found : Dict String) (row : Value) → Ids found → Gives Ids (learn_row found row)
unfolding learn_row
learn_row-Ids found row h =
    Gives-bind (λ d. Unit {0}) Ids (entries_of row) _ (Gives-any (entries_of row))
      (λ d u.
        if-elim Ids _ _ found
          (λ y.
            Ids-setdefault (folded (show (get_or_empty "name" d))) (show (get_or_empty "sys_id" d))
              found (ground arith) h)
          (λ n. h))

learn_rows-Ids :
    (found : Dict String) (rows : List Value) → Ids found → Gives Ids (learn_rows found rows)
unfolding learn_rows
learn_rows-Ids found [] h = h
learn_rows-Ids found (row ∷ rows) h =
    Gives-bind Ids Ids (learn_row found row) _ (learn_row-Ids found row h)
      (λ found' h'. learn_rows-Ids found' rows h')

look_up_chunks-Ids :
    (send : Send) (table : String) (found : Dict String) (chunks : List (List String))
    → Ids found
    → Gives Ids (look_up_chunks send table found chunks)
unfolding look_up_chunks
look_up_chunks-Ids send table found [] h = h
look_up_chunks-Ids send table found (chunk ∷ chunks) h =
    Gives-bind (λ q. Unit {0}) Ids (build_or_query "name" chunk none) _
      (Gives-any (build_or_query "name" chunk none))
      (λ q u.
        let rows = query_table send table q ("sys_id" ∷ "name" ∷ []) (length chunk * 4) in
        Gives-bind (λ r. Unit {0}) Ids rows _ (Gives-any rows)
          (λ r u'.
            Gives-bind Ids Ids (learn_rows found r) _ (learn_rows-Ids found r h)
              (λ found' h'. look_up_chunks-Ids send table found' chunks h')))

pub look_up-Ids :
    (send : Send) (table : String) (names : List String) → Gives Ids (look_up send table names)
unfolding look_up
look_up-Ids send table names = look_up_chunks-Ids send table [] _ tt

-- What a name comes to, with the names after it.
abbrev pub IsResolved : Resolved → Type 0
IsResolved r = IsId r.sys_id × Ids r.names.cache

keep_created-IsResolved :
    (key : String) (n : Names) (c : Created) → Ids n.cache → IsResolved (keep_created key n c)
unfolding keep_created
keep_created-IsResolved key n (none, blank) h = (tt, h)
keep_created-IsResolved key n (some id, blank) h =
    if-elim IsResolved (truthy id) _ _ (λ y. (y, Ids-insert (lower key) id n.cache y h))
      (λ y. (tt, h))

cached_or-IsResolved :
    (n : Names) (id : Option String) (rest : Result Resolved)
    → Ids n.cache
    → IsId id
    → Gives IsResolved rest
    → Gives IsResolved (cached_or n id rest)
cached_or-IsResolved n (some id) rest h i g = (i, h)
cached_or-IsResolved n none rest h i g = g

module _ (create : Bool) (send : Send) (table : String) (extra : Dict Value) where
  resolve_unknown-IsResolved :
      (key : String) (n : Names)
      → Ids n.cache
      → Gives IsResolved (resolve_unknown create send table extra key n)
  unfolding resolve_unknown
  resolve_unknown-IsResolved key n h =
      if-elim (Gives IsResolved) create _ _
        (λ y.
          Gives-bind (λ c. Unit {0}) IsResolved (create_record send table key extra) _
            (Gives-any (create_record send table key extra))
            (λ c u. keep_created-IsResolved key n c h))
        (λ y. (tt, h))

  resolve_key-IsResolved :
      (key : String) (n : Names)
      → Ids n.cache
      → Gives IsResolved (resolve_key create send table extra key n)
  unfolding resolve_key
  resolve_key-IsResolved key n h =
      if-elim (Gives IsResolved) (not (truthy key)) _ _ (λ y. (tt, h))
        (λ y.
          cached_or-IsResolved n (lookup (lower key) n.cache) _ h
            (IsId-lookup (lower key) n.cache h)
            (if-elim (Gives IsResolved) (mem (lower key) (map lower n.missing)) _ _ (λ m. (tt, h))
              (λ m. resolve_unknown-IsResolved key n h)))

  -- A name comes to no sys_id or to one that is not empty, and so do the names kept for later.
  pub resolve-IsResolved :
      (name : Option String) (n : Names)
      → Ids n.cache
      → Gives IsResolved (resolve create send table extra name n)
  unfolding resolve
  resolve-IsResolved name n h = resolve_key-IsResolved (strip (text_or_empty name)) n h
