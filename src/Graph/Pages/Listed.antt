-- ===== src/Graph/Pages/Listed.antt =====
-- A listing that ends is yielded whole, and the server's filter does not change what is kept.
use mathlib.Core.Option
use mac_service_now_cmdb.Base.{
  ℕ, zero, suc, ◌≤◌, String, ◌≡◌, refl, sym, ap, ap₂, fun_ext, ◌∙◌, true, false, Option, none, some,
  List, [], ◌∷◌, ◌++◌, map, eqb, arith,
}
use mac_service_now_cmdb.Json.Value.{Value, str, obj, of_dict, to_dict-of_dict, is_true}
use mac_service_now_cmdb.Errors.{Result, ok}
use mac_service_now_cmdb.Http.Response.{Response, is_success}
use mac_service_now_cmdb.Client.{Request, Send}
use mac_service_now_cmdb.Graph.Devices.{Device, Stream, finished, yielded, all_of, corporate}
use mac_service_now_cmdb.Graph.Pages.{
  Settings, Page, read_request, read_page, yield_all, follow, paged, listed, pages_from,
  ownership_filter, devices_request, without_filter, first_answer, iter_managed_devices,
}

abbrev pub dictionaries : List Device → List Value
dictionaries ds = map (λ d. obj (of_dict d)) ds

-- The answer is a page that holds the devices.
pub record IsPage (r : Response) (ds : List Device) (page : Page) : Type 0 where
  pub success : is_success r ≡ true
  pub is_read : read_page r.body ≡ ok page
  pub holds : page.items ≡ dictionaries ds

-- The request is answered by pages that hold the devices in order, of which the last has no link.
pub data Lists (send : Send) : Request → List Device → Type 0 where
  last :
      {q : Request} {ds : List Device} (r : Response) (page : Page)
      → send q ≡ ok r
      → IsPage r ds page
      → is_true page.next_link ≡ false
      → Lists send q ds
  more :
      {q : Request} {all : List Device} (ds rest : List Device) (r : Response) (page : Page)
      (url : String)
      → send q ≡ ok r
      → IsPage r ds page
      → page.next_link ≡ str url
      → is_true (str url) ≡ true
      → Lists send (read_request url []) rest
      → all ≡ ds ++ rest
      → Lists send q all

abbrev pub page_count : {send : Send} {q : Request} {ds : List Device} → Lists send q ds → ℕ
page_count (last r page a p l) = 1
page_count (more ds rest r page url a p l t s e) = suc (page_count s)

yield_all-dictionaries :
    (ds : List Device) (s : Stream) → yield_all (dictionaries ds) s ≡ all_of ds s
unfolding yield_all
yield_all-dictionaries [] s = refl
yield_all-dictionaries (d ∷ ds) s = ap₂ yielded (to_dict-of_dict d) (yield_all-dictionaries ds s)

all_of-append : (ds es : List Device) (s : Stream) → all_of (ds ++ es) s ≡ all_of ds (all_of es s)
all_of-append [] es s = refl
all_of-append (d ∷ ds) es s = ap (yielded d) (all_of-append ds es s)

listed-page :
    (r : Response) (ds : List Device) (page : Page) (next : String → Option Stream)
    → IsPage r ds page
    → listed (ok r) next ≡ Option.map (all_of ds) (follow page.next_link next)
unfolding listed paged
listed-page r ds page next p =
    rw (p.success, p.is_read)
      (ap (λ (f : Stream → Stream). Option.map f (follow page.next_link next))
        (fun_ext (λ s. ap (λ l. yield_all l s) p.holds ∙ yield_all-dictionaries ds s)))

follow_none :
    (link : Value) (next : String → Option Stream)
    → is_true link ≡ false
    → follow link next ≡ some finished
unfolding follow
follow_none link next h = rw h refl

follow_link :
    (link : Value) (url : String) (next : String → Option Stream)
    → link ≡ str url
    → is_true (str url) ≡ true
    → follow link next ≡ next url
unfolding follow
follow_link link url next e t = ap (λ l. follow l next) e ∙ rw t refl

page_count_pos :
    {send : Send} {q : Request} {ds : List Device} (s : Lists send q ds) → 1 ≤ page_count s
page_count_pos (last r page a p l) = omega arith
page_count_pos (more ds rest r page url a p l t s e) = omega arith

next_page :
    (send : Send) (pages : ℕ) (url : String)
    → pages_from (suc pages) send url ≡ listed (send (read_request url [])) (pages_from pages send)
unfolding pages_from
next_page send pages url = refl

-- With as many pages allowed as there are, the stream is that of the devices, and it ends.
pub listed-Lists :
    (send : Send) (pages : ℕ) {q : Request} {ds : List Device} (s : Lists send q ds)
    → page_count s ≤ suc pages
    → listed (send q) (pages_from pages send) ≡ some (all_of ds finished)
listed-Lists send pages {ds} (last r page a p l) h =
    ap (λ o. listed o (pages_from pages send)) a
    ∙ listed-page r ds page (pages_from pages send) p
    ∙ ap (Option.map (all_of ds)) (follow_none page.next_link (pages_from pages send) l)
listed-Lists send zero (more ds rest r page url a p l t s e) h =
    absurd (omega (arith, page_count_pos s))
listed-Lists send (suc pages) (more ds rest r page url a p l t s e) h =
    ap (λ o. listed o (pages_from (suc pages) send)) a
    ∙ listed-page r ds page (pages_from (suc pages) send) p
    ∙ ap (Option.map (all_of ds)) (
        follow_link page.next_link url (pages_from (suc pages) send) l t
        ∙ next_page send pages url
        ∙ listed-Lists send pages s (omega arith))
    ∙ ap some (sym (all_of-append ds rest finished) ∙ ap (λ l. all_of l finished) (sym e))

-- What Graph does with a filter: it lists devices of which the corporate ones are all that there are,
-- be it that it applies the filter or ignores it, or it rejects the filter by a 400.
pub data Filters (send : Send) (cfg : Settings) (pages : ℕ) (all : List Device) (f : String)
    : Type 0 where
  answered :
      (ds : List Device) (s : Lists send (devices_request cfg (some f)) ds)
      → page_count s ≤ suc pages
      → corporate cfg.ownership ds ≡ corporate cfg.ownership all
      → Filters send cfg pages all f
  rejected :
      (r : Response)
      → send (devices_request cfg (some f)) ≡ ok r
      → r.status ≡ 400
      → Filters send cfg pages all f

success-status : (r : Response) → is_success r ≡ true → eqb r.status 400 ≡ false
unfolding is_success
success-status r h = ground (arith, h)

kept_answer :
    {send : Send} {q : Request} {ds : List Device} (again : Result Response)
    → Lists send q ds
    → without_filter (send q) again ≡ send q
unfolding without_filter
kept_answer again (last r page a p l) = rw (a, success-status r p.success) refl
kept_answer again (more ds rest r page url a p l t s e) = rw (a, success-status r p.success) refl

rejected_again :
    (r : Response) (again : Result Response) → r.status ≡ 400 → without_filter (ok r) again ≡ again
unfolding without_filter
rejected_again r again e = ground (arith, e)

-- The stream ends behind devices of which the corporate ones are all that there are.
abbrev pub Yields : String → List Device → Option Stream → Type 0
Yields ownership all o =
    (ds : List Device) × (o ≡ some (all_of ds finished))
    × (corporate ownership ds ≡ corporate ownership all)

module _ (send : Send) (cfg : Settings) (pages : ℕ) (all : List Device)
    (s : Lists send (devices_request cfg none) all) (b : page_count s ≤ suc pages) where
  first_answer-Yields :
      (o : Option String)
      → ((f : String) → o ≡ some f → Filters send cfg pages all f)
      → Yields cfg.ownership all (listed (first_answer cfg send o) (pages_from pages send))
  unfolding first_answer
  first_answer-Yields none h = (all, listed-Lists send pages s b, refl)
  first_answer-Yields (some f) h = elim (h f refl) [
    | answered ds t c e ↦ (
      ds,
      ap (λ a. listed a (pages_from pages send)) (kept_answer (send (devices_request cfg none)) t)
          ∙ listed-Lists send pages t c,
      e,
    )
    | rejected r a e ↦ (
      all,
      ap (λ x. listed (without_filter x (send (devices_request cfg none))) (pages_from pages send))
            a
          ∙ ap (λ x. listed x (pages_from pages send))
              (rejected_again r (send (devices_request cfg none)) e)
          ∙ listed-Lists send pages s b,
      refl,
    )
  ]

  pub iter_managed_devices-Yields :
      ((f : String) → ownership_filter cfg ≡ some f → Filters send cfg pages all f)
      → Yields cfg.ownership all (iter_managed_devices pages cfg send)
  unfolding iter_managed_devices
  iter_managed_devices-Yields h = first_answer-Yields (ownership_filter cfg) h
