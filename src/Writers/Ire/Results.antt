-- ===== src/Writers/Ire/Results.antt =====
-- What the results of a batch say of the devices that were sent.
use Prim.Native.String
use mac_service_now_cmdb.Base.{
  String, ◌≡◌, ◌≢◌, refl, sym, ◌∙◌, ap, ap₂, Bool, true, false, Option, none, some, List, [], ◌∷◌,
  map, arith, if◌then◌else◌, ◌⊎◌, inl, inr, if-elim,
}
use mac_service_now_cmdb.Dict.{Dict, lookup}
use mac_service_now_cmdb.Json.Value.{Value, get, as_dict}
use mathlib.Core.Bool.{true≢false}
use mac_service_now_cmdb.Errors.{Result, ok, err, ok-injective, ◌>>=◌}
use mac_service_now_cmdb.Errors.Gives.{
  Gives, Gives-any, Gives-bind, Gives-map, Gives-self, returned,
}
use mac_service_now_cmdb.Http.Response.{Response, is_success}
use mac_service_now_cmdb.Writers.Errors.{
  error_message, collect_item_errors, errors_in, item_errors, log_context_suffix,
}
use mac_service_now_cmdb.Client.{Request, Send, or_empty}
use mac_service_now_cmdb.Text.{truthy}
use mac_service_now_cmdb.Writers.Types.{CiPayload, WriteResult}
use mac_service_now_cmdb.Writers.Ire.{
  Settings, operations, append_last, operation_of, from_action, from_errors, parse_item,
  parse_results, items_of, envelope, text_or_none, refusal, write_request, endpoint, accepted,
  answered, write,
}

-- A result is an error with a message and no CI, or it has no message and one of the three actions,
-- marked as simulated in a dry run.
abbrev pub IsError : WriteResult → Type 0
IsError r = (r.action ≡ "error") × (r.sys_id ≡ none) × (r.errors ≢ [])

abbrev pub marked : Bool → String → String
marked dry_run action = if dry_run then String.◌++◌ "dry_run:" action else action

abbrev pub IsDone : Bool → WriteResult → Type 0
IsDone dry_run r =
    (r.errors ≡ [])
    × ((r.action ≡ marked dry_run "inserted")
        ⊎ (r.action ≡ marked dry_run "updated")
        ⊎ (r.action ≡ marked dry_run "unchanged"))

abbrev pub IsSound : Bool → WriteResult → Type 0
IsSound dry_run r = IsError r ⊎ IsDone dry_run r

append_last-ne-nil : (suffix e : String) (es : List String) → append_last suffix (e ∷ es) ≢ []
append_last-ne-nil suffix e [] h = cc
append_last-ne-nil suffix e (f ∷ es) h = cc

-- The known operations give the three actions.
known_action :
    (op action : String)
    → lookup op operations ≡ some action
    → (action ≡ "inserted") ⊎ (action ≡ "updated") ⊎ (action ≡ "unchanged")
unfolding lookup
known_action op action h = ground arith

marked-of :
    (dry_run : Bool) (action : String)
    → (action ≡ "inserted") ⊎ (action ≡ "updated") ⊎ (action ≡ "unchanged")
    → (marked dry_run action ≡ marked dry_run "inserted")
      ⊎ (marked dry_run action ≡ marked dry_run "updated")
      ⊎ (marked dry_run action ≡ marked dry_run "unchanged")
marked-of dry_run action (inl e) = inl (ap (marked dry_run) e)
marked-of dry_run action (inr (inl e)) = inr (inl (ap (marked dry_run) e))
marked-of dry_run action (inr (inr e)) = inr (inr (ap (marked dry_run) e))

from_action-IsSound :
    (dry_run : Bool) (suffix id : String) (item : Value) (o : Option String)
    → ((a : String) → o ≡ some a → (a ≡ "inserted") ⊎ (a ≡ "updated") ⊎ (a ≡ "unchanged"))
    → IsSound dry_run (from_action dry_run suffix id item o)
unfolding from_action
from_action-IsSound dry_run suffix id item none known = inl (refl, refl, λ q. cc)
from_action-IsSound dry_run suffix id item (some a) known =
    inr (refl, marked-of dry_run a (known a refl))

from_errors-IsSound :
    (dry_run : Bool) (suffix id : String) (item : Value) (errors : List String)
    → IsSound dry_run (from_errors dry_run suffix id item errors)
unfolding from_errors
from_errors-IsSound dry_run suffix id item (e ∷ es) =
    inl (refl, refl, append_last-ne-nil suffix e es)
from_errors-IsSound dry_run suffix id item [] =
    from_action-IsSound dry_run suffix id item (lookup (operation_of item) operations)
      (known_action (operation_of item))

-- One of the errors of an item has a text.
abbrev pub Says : List Value → Type 0
Says [] = ⊥
Says (x ∷ xs) = (truthy (error_message x) ≡ true) ⊎ Says xs

abbrev CollectedBy : List Value → List String → Type 0
CollectedBy errors [] = ¬ Says errors
CollectedBy errors (m ∷ ms) = Says errors

CollectedBy-first :
    (x : Value) (xs : List Value) (b : Bool) (ms : List String)
    → truthy (error_message x) ≡ b
    → CollectedBy xs ms
    → CollectedBy (x ∷ xs) (elim b [ true ↦ error_message x ∷ ms | false ↦ ms ])
CollectedBy-first x xs true ms e h = inl e
CollectedBy-first x xs false [] e h = λ s. elim s [ inl y ↦ true≢false (sym y ∙ e) | inr t ↦ h t ]
CollectedBy-first x xs false (m ∷ ms) e h = inr h

collect_item_errors-CollectedBy : (xs : List Value) → CollectedBy xs (collect_item_errors xs)
unfolding collect_item_errors
collect_item_errors-CollectedBy [] = λ s. s
collect_item_errors-CollectedBy (x ∷ xs) =
    CollectedBy-first x xs (truthy (error_message x)) (collect_item_errors xs) refl
      (collect_item_errors-CollectedBy xs)

-- The action that an operation stands for
abbrev pub action_of : Value → Option String
action_of item = lookup (operation_of item) operations

module _ (dry_run : Bool) (suffix : String) where
  -- The result of an item whose errors are these: an error when one of them has a text, or when the
  -- operation is not known; otherwise the action of the operation, with the CI of the item.
  abbrev Judged : Value → List Value → WriteResult → Type 0
  Judged item errors r =
      (Says errors × IsError r)
      ⊎ ((¬ Says errors) × (action_of item ≡ none) × IsError r)
      ⊎ ((action : String) × (¬ Says errors)
          × (action_of item ≡ some action)
          × (r.action ≡ marked dry_run action)
          × (r.sys_id ≡ text_or_none (get "sysId" (as_dict item)))
          × (r.errors ≡ []))

  -- The result of a device is its own, from its item.
  abbrev pub IsOwn : String → Value → WriteResult → Type 0
  IsOwn id item r =
      (r.intune_id ≡ id)
      × IsSound dry_run r
      × (errors : List Value) × (errors_in (get "errors" (as_dict item)) ≡ ok errors)
      × Judged item errors r

  -- The results of the devices, each from the item at its position; a device without one is an error.
  abbrev pub AreOwn : List CiPayload → List Value → List WriteResult → Type 0
  AreOwn [] items [] = Unit
  AreOwn [] items (r ∷ rs) = ⊥
  AreOwn (p ∷ batch) items [] = ⊥
  AreOwn (p ∷ batch) [] (r ∷ rs) = (r.intune_id ≡ p.intune_id) × IsError r × AreOwn batch [] rs
  AreOwn (p ∷ batch) (item ∷ items) (r ∷ rs) = IsOwn p.intune_id item r × AreOwn batch items rs

  from_action-Judged :
      (id : String) (item : Value) (errors : List Value) (o : Option String)
      → ¬ Says errors
      → action_of item ≡ o
      → Judged item errors (from_action dry_run suffix id item o)
  unfolding from_action
  from_action-Judged id item errors none n e = inr (inl (n, e, (refl, refl, λ q. cc)))
  from_action-Judged id item errors (some a) n e = inr (inr (a, n, e, refl, refl, refl))

  from_errors-Judged :
      (id : String) (item : Value) (errors : List Value) (ms : List String)
      → CollectedBy errors ms
      → Judged item errors (from_errors dry_run suffix id item ms)
  unfolding from_errors
  from_errors-Judged id item errors [] h = from_action-Judged id item errors (action_of item) h refl
  from_errors-Judged id item errors (m ∷ ms) h =
      inl (h, (refl, refl, append_last-ne-nil suffix m ms))

  -- A device gets the result that is its own, whatever came back.
  intune_id-from_errors :
      (id : String) (item : Value) (ms : List String)
      → (from_errors dry_run suffix id item ms).intune_id ≡ id
  unfolding from_errors from_action
  intune_id-from_errors id item ms = ground arith

  parse_item-IsOwn :
      (id : String) (item : Value) → Gives (IsOwn id item) (parse_item dry_run suffix id item)
  unfolding parse_item item_errors
  parse_item-IsOwn id item =
      let read = errors_in (get "errors" (as_dict item)) in
      Gives-bind (λ d. Unit {0}) (IsOwn id item) (or_empty item) _ (Gives-any (or_empty item))
        (λ d u.
          Gives-bind (λ ms. (xs : List Value) × (read ≡ ok xs) × CollectedBy xs ms) (IsOwn id item)
            (read >>= λ xs. ok (collect_item_errors xs)) _
            (Gives-bind (λ xs. read ≡ ok xs)
              (λ ms. (xs : List Value) × (read ≡ ok xs) × CollectedBy xs ms) read _
              (Gives-self read) (λ xs e. (xs, e, collect_item_errors-CollectedBy xs)))
            (λ ms (xs, e, c). (
              intune_id-from_errors id item ms,
              from_errors-IsSound dry_run suffix id item ms,
              xs,
              e,
              from_errors-Judged id item xs ms c,
            )))

  parse_results-AreOwn :
      (batch : List CiPayload) (items : List Value)
      → Gives (AreOwn batch items) (parse_results dry_run suffix batch items)
  unfolding parse_results
  parse_results-AreOwn [] items = tt
  parse_results-AreOwn (p ∷ batch) [] =
      Gives-bind (AreOwn batch []) (AreOwn (p ∷ batch) []) (parse_results dry_run suffix batch []) _
        (parse_results-AreOwn batch []) (λ rs h. (refl, (refl, refl, λ q. cc), h))
  parse_results-AreOwn (p ∷ batch) (item ∷ items) =
      Gives-bind (IsOwn p.intune_id item) (AreOwn (p ∷ batch) (item ∷ items))
        (parse_item dry_run suffix p.intune_id item) _ (parse_item-IsOwn p.intune_id item)
        (λ r own.
          Gives-bind (AreOwn batch items) (AreOwn (p ∷ batch) (item ∷ items))
            (parse_results dry_run suffix batch items) _ (parse_results-AreOwn batch items)
            (λ rs h. (own, h)))

  pub ids-AreOwn :
      (batch : List CiPayload) (items : List Value) (rs : List WriteResult)
      → AreOwn batch items rs
      → map (λ r. r.intune_id) rs ≡ map (λ p. p.intune_id) batch
  ids-AreOwn [] items [] h = refl
  ids-AreOwn [] items (r ∷ rs) h = absurd h
  ids-AreOwn (p ∷ batch) [] [] h = absurd h
  ids-AreOwn (p ∷ batch) (item ∷ items) [] h = absurd h
  ids-AreOwn (p ∷ batch) [] (r ∷ rs) (e, _, h) = ap₂ (λ i l. i ∷ l) e (ids-AreOwn batch [] rs h)
  ids-AreOwn (p ∷ batch) (item ∷ items) (r ∷ rs) (own, h) =
      ap₂ (λ i l. i ∷ l) own.0 (ids-AreOwn batch items rs h)

-- The items of a response that was accepted, with what is written behind its errors
abbrev pub ItemsOf : Response → List Value → String → Type 0
ItemsOf r items suffix =
    (is_success r ≡ true)
    × (payload : Value) × (r.body ≡ some payload)
    × (result : Dict Value) × (envelope payload ≡ ok result)
    × (items_of (get "items" result) ≡ ok items)
    × (suffix ≡ log_context_suffix (text_or_none (get "logContextId" result)))

-- What `write` has when it returns: the results of the items that the service gave for this batch.
abbrev pub Answers : Settings → Send → List CiPayload → List WriteResult → Type 0
Answers s send [] rs = rs ≡ []
Answers s send (p ∷ batch) rs =
    (r : Response) × (send (write_request s (p ∷ batch)) ≡ ok r)
    × (items : List Value) × (suffix : String) × ItemsOf r items suffix
    × AreOwn s.dry_run suffix (p ∷ batch) items rs

module _ (s : Settings) (batch : List CiPayload) where
  abbrev FromResponse : Response → List WriteResult → Type 0
  FromResponse r rs =
      (items : List Value) × (suffix : String) × ItemsOf r items suffix
      × AreOwn s.dry_run suffix batch items rs

  accepted-FromResponse :
      (r : Response) (body : Option Value)
      → is_success r ≡ true
      → r.body ≡ body
      → Gives (FromResponse r) (accepted s batch body)
  unfolding accepted
  accepted-FromResponse r none y b = tt
  accepted-FromResponse r (some payload) y b =
      Gives-bind (λ d. envelope payload ≡ ok d) (FromResponse r) (envelope payload) _
        (Gives-self (envelope payload))
        (λ d e.
          let suffix = log_context_suffix (text_or_none (get "logContextId" d)) in
          let read = items_of (get "items" d) in
          Gives-bind (λ items. read ≡ ok items) (FromResponse r) read _ (Gives-self read)
            (λ items i.
              Gives-map (AreOwn s.dry_run suffix batch items) (FromResponse r)
                (parse_results s.dry_run suffix batch items)
                (λ rs h. (items, suffix, (y, payload, b, d, e, i, refl), h))
                (parse_results-AreOwn s.dry_run suffix batch items)))

  answered-FromResponse :
      (a : Result Response)
      → Gives (λ rs. (r : Response) × (a ≡ ok r) × FromResponse r rs) (answered s batch a)
  unfolding answered
  answered-FromResponse (err e) = tt
  answered-FromResponse (ok r) =
      if-elim (Gives (λ rs. (q : Response) × (ok r ≡ ok q) × FromResponse q rs)) (is_success r)
        (accepted s batch r.body) (err (refusal s batch r))
        (λ y.
          Gives-map (FromResponse r) (λ rs. (q : Response) × (ok r ≡ ok q) × FromResponse q rs)
            (accepted s batch r.body) (λ rs h. (r, refl, h))
            (accepted-FromResponse r r.body y refl))
        (λ n. tt)

-- A batch that `write` returns from has one result for each device, in order, from the item at the
-- device's position in the answer to the batch's own request. It carries the device's id. Where one of
-- the item's errors has a text, where its operation is not known, and where there is no item, it is an
-- error with a message and no CI; otherwise it has no message, the action of the operation, marked
-- as simulated in a dry run, and the item's CI.
pub write-Answers :
    (s : Settings) (send : Send) (batch : List CiPayload) (rs : List WriteResult)
    → write s send batch ≡ ok rs
    → Answers s send batch rs
unfolding write
write-Answers s send [] rs h = sym (ok-injective h)
write-Answers s send (p ∷ batch) rs h =
    let sent = send (write_request s (p ∷ batch)) in
    let (r, e, (items, suffix, i, own)) =
      returned (λ rs. (r : Response) × (sent ≡ ok r) × FromResponse s (p ∷ batch) r rs)
        (answered s (p ∷ batch) sent) rs (answered-FromResponse s (p ∷ batch) sent) h in
    (r, e, items, suffix, i, own)

-- In a dry run `write` depends on the service only at the endpoint that commits nothing.
pub dry_run-write :
    (s : Settings) (send send' : Send) (batch : List CiPayload)
    → s.dry_run ≡ true
    → ((q : Request) → q.path ≡ "/api/now/identifyreconcile/query" → send q ≡ send' q)
    → write s send batch ≡ write s send' batch
unfolding write endpoint
dry_run-write s send send' [] d same = refl
dry_run-write s send send' (p ∷ batch) d same =
    rw (same (write_request s (p ∷ batch)) (rw d refl)) refl
