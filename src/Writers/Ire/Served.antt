-- ===== src/Writers/Ire/Served.antt =====
-- The bulk writer does what a run asks of a writer.
use Prim.Native.String
use mathlib.Core.Path.{subst}
use mac_service_now_cmdb.Base.{
  String, ◌≡◌, refl, sym, ap, Bool, true, false, Option, none, some, List, [], ◌∷◌, map, All,
  Bool-cases, inl, inr,
}
use mac_service_now_cmdb.Json.Value.{Value, get, as_dict}
use mac_service_now_cmdb.Dict.{Dict}
use mac_service_now_cmdb.Writers.Errors.{
  collect_item_errors, errors_in, item_errors, refusal_detail, log_context_suffix,
}
use mac_service_now_cmdb.Errors.{service_now, Result, ok, err}
use mac_service_now_cmdb.Client.{Request, Send, or_empty}
use mac_service_now_cmdb.Http.Response.{Response, is_success}
use mac_service_now_cmdb.Writers.Types.{CiPayload, WriteResult, failure}
use mac_service_now_cmdb.Writers.Ire.{
  Settings, refusal, refusal_from, envelope, items_of, from_errors, parse_item, parse_results,
  text_or_none, accepted, answered, write, write_request,
}
use mac_service_now_cmdb.Writers.Ire.Results.{Answers, ids-AreOwn, write-Answers}
use mac_service_now_cmdb.Sync.Write.Accounts.{Fits}

-- The errors of an item that is not empty can be read.
abbrev pub IsReadable : Value → Type 0
IsReadable item =
    ((d : Dict Value) × (or_empty item ≡ ok d))
    × ((errors : List Value) × (errors_in (get "errors" (as_dict item)) ≡ ok errors))

-- A JSON body whose result is a dictionary, or missing, with a list of such items, or none.
abbrev pub IsEnvelope : Option Value → Type 0
IsEnvelope none = ⊥
IsEnvelope (some v) =
    (result : Dict Value) × (items : List Value) × (envelope v ≡ ok result)
    × (items_of (get "items" result) ≡ ok items)
    × All IsReadable items

-- The service answers. A response that reports success can be read, and one that does not has no
-- errors, or errors that can be read.
abbrev pub IsServed : Result Response → Type 0
IsServed (ok r) =
    (is_success r ≡ true → IsEnvelope r.body)
    × (is_success r ≡ false → (d : String) × (refusal_detail r ≡ ok d))
IsServed (err _) = ⊥

-- A batch comes to results, or to a `ServiceNowError`.
abbrev IsHandled : Result (List WriteResult) → Type 0
IsHandled (ok rs) = Unit
IsHandled (err (service_now m)) = Unit
IsHandled (err _) = ⊥

-- A result without an error
abbrev Returns : {A : Type 0} → Result A → Type 0
Returns {A} r = (a : A) × (r ≡ ok a)

module _ (dry_run : Bool) (suffix : String) where
  parse_item-Returns :
      (id : String) (item : Value) → IsReadable item → Returns (parse_item dry_run suffix id item)
  unfolding parse_item item_errors
  parse_item-Returns id item ((d, e), (errors, f)) =
      (from_errors dry_run suffix id item (collect_item_errors errors), rw (e, f) refl)

  parse_results-Returns :
      (batch : List CiPayload) (items : List Value)
      → All IsReadable items
      → Returns (parse_results dry_run suffix batch items)
  unfolding parse_results
  parse_results-Returns [] items h = ([], refl)
  parse_results-Returns (p ∷ batch) [] h =
      let (rs, e) = parse_results-Returns batch [] tt in
      let missing : String = "no IRE result returned for this item" in
      (failure p.intune_id (String.◌++◌ missing suffix ∷ []) ∷ rs, rw e refl)
  parse_results-Returns (p ∷ batch) (item ∷ items) (r, h) =
      let (a, e) = parse_item-Returns p.intune_id item r in
      let (rs, f) = parse_results-Returns batch items h in (a ∷ rs, rw (e, f) refl)

returned-IsHandled : (a : Result (List WriteResult)) → Returns a → IsHandled a
returned-IsHandled a (rs, e) = subst IsHandled (sym e) tt

module _ (s : Settings) (b : List CiPayload) where
  accepted-IsHandled : (body : Option Value) → IsEnvelope body → IsHandled (accepted s b body)
  unfolding accepted
  accepted-IsHandled none h = absurd h
  accepted-IsHandled (some v) (result, items, e, f, a) =
      rw (e, f)
        (returned-IsHandled _ (
          parse_results-Returns s.dry_run
            (log_context_suffix (text_or_none (get "logContextId" result))) b items a))

  refused-IsHandled :
      (r : Response) → (d : String) × (refusal_detail r ≡ ok d) → IsHandled (err (refusal s b r))
  unfolding refusal_from
  refused-IsHandled r (d, e) = subst (λ x. IsHandled (err (refusal_from s b r x))) (sym e) tt

  answered-IsHandled : (a : Result Response) → IsServed a → IsHandled (answered s b a)
  unfolding answered
  answered-IsHandled (ok r) h = elim (Bool-cases (is_success r)) [
    | inl y ↦ rw y (accepted-IsHandled r.body (h.0 y))
    | inr n ↦ rw n (refused-IsHandled r (h.1 n))
  ]
  answered-IsHandled (err e) h = absurd h

write-IsHandled :
    (s : Settings) (send : Send)
    → ((q : Request) → IsServed (send q))
    → (b : List CiPayload) → IsHandled (write s send b)
unfolding write
write-IsHandled s send h [] = tt
write-IsHandled s send h (p ∷ b) =
    answered-IsHandled s (p ∷ b) (send (write_request s (p ∷ b))) (h (write_request s (p ∷ b)))

handled-Fits :
    (b : List CiPayload) (a : Result (List WriteResult))
    → IsHandled a
    → ((rs : List WriteResult) → a ≡ ok rs → map (λ r. r.intune_id) rs ≡ map (λ p. p.intune_id) b)
    → Fits b a
handled-Fits b (ok rs) h f = f rs refl
handled-Fits b (err (service_now m)) h f = tt
handled-Fits b (err e) h f = absurd h

Answers-ids :
    (s : Settings) (send : Send) (b : List CiPayload) (rs : List WriteResult)
    → Answers s send b rs
    → map (λ r. r.intune_id) rs ≡ map (λ p. p.intune_id) b
Answers-ids s send [] rs h = ap (map (λ r. r.intune_id)) h
Answers-ids s send (p ∷ b) rs (r, e, items, suffix, i, h) =
    ids-AreOwn s.dry_run suffix (p ∷ b) items rs h

-- When the service answers every request, with a JSON dictionary and readable items where it reports
-- success, and with no errors or readable ones where it does not, the bulk writer answers every batch
-- with one result for each device in order or with a `ServiceNowError`.
pub write-Fits :
    (s : Settings) (send : Send)
    → ((q : Request) → IsServed (send q))
    → (b : List CiPayload) → Fits b (write s send b)
write-Fits s send h b =
    handled-Fits b (write s send b) (write-IsHandled s send h b)
      (λ rs e. Answers-ids s send b rs (write-Answers s send b rs e))
