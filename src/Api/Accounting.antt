-- ===== src/Api/Accounting.antt =====
-- The counts of a batch response.
use insider_notification.Base.{
  ℕ, suc, ◌+◌, ◌≤◌, ◌<◌, All, eqb, String, Bool, true, false, Option, none, some, List, [], ◌∷◌,
  map, length, length-map, length-append, count, count-append, ltb, ◌≡◌, refl, ap, ◌∙◌, inl, inr,
  arith, if◌then◌else◌, Bool-cases,
}
use insider_notification.Effect.{Result, ok, err}
use insider_notification.Platform.{Platform}
use insider_notification.Domain.{Notification}
use insider_notification.Requests.{CreateRequest, to_notification}
use insider_notification.Store.{Ids, NotificationRepository}
use insider_notification.Ports.{Publisher}
use insider_notification.Batch.{BatchResult, create_batch}
use insider_notification.Batch.Results.{Fits, length-create_batch, create_batch-Fit}
use insider_notification.Api.Responses.{HttpResponse, BatchItemResult, BatchResponse, batch_body}
use insider_notification.Api.Items.{
  Refuses, Serves, Answers, All-append, All-weaken, validate_items-Split, validate_items-at,
  report_items-at, report_items-Serves,
}
use insider_notification.Api.{
  sort_item, converted, validate_items, report_items, count_accepted, create_batch_of,
  batch_response, batch_of, some_text, count_id,
}

abbrev is_some : Option String → Bool
is_some none = false
is_some (some id) = true

abbrev pub has_id : BatchItemResult → Bool
has_id r = is_some r.id

has_id-count :
    (p : Platform) (o : Option ℕ) (a b : ℕ)
    → a ≡ b
    → (if is_some (some_text p o) then 1 else 0) + a ≡ count_id o + b
has_id-count p none a b h = omega arith
has_id-count p (some id) a b h = omega arith

count_id-le : (o : Option ℕ) → count_id o ≤ 1
count_id-le none = omega arith
count_id-le (some id) = omega arith

abbrev Sorted : ℕ → List (ℕ × Notification) × List BatchItemResult → Type 0
Sorted n x = (length x.0 + length x.1 ≡ n) × (count has_id x.1 ≡ 0)

-- Every request of a batch is valid or rejected without an id.
sort_item-Sorted :
    (p : Platform) (i n : ℕ) (c : Result Notification)
    (x : List (ℕ × Notification) × List BatchItemResult)
    → Sorted n x
    → Sorted (suc n) (sort_item p i c x)
sort_item-Sorted p i n (ok m) (v, w) (h, none_) = (omega arith, none_)
sort_item-Sorted p i n (err e) (v, w) (h, none_) = (omega arith, omega arith)

validate_items-Sorted :
    (p : Platform) (i : ℕ) (rs : List CreateRequest) → Sorted (length rs) (validate_items p i rs)
unfolding validate_items
validate_items-Sorted p i [] = (omega arith, refl)
validate_items-Sorted p i (r ∷ rs) =
    sort_item-Sorted p i (length rs) (converted (to_notification p r)) _
      (validate_items-Sorted p (suc i) rs)

-- The reports on the valid items have an id where the service's results have one.
report_items-count :
    (p : Platform) (valid : List (ℕ × Notification)) (results : List BatchResult)
    → length results ≡ length valid
    → (length (report_items p valid results) ≡ length valid)
      × (count has_id (report_items p valid results) ≡ count_accepted results)
unfolding report_items count_accepted
report_items-count p [] [] h = (refl, refl)
report_items-count p [] (r ∷ results) h = absurd (omega arith)
report_items-count p (v ∷ valid) [] h = absurd (omega arith)
report_items-count p ((i, n) ∷ valid) (r ∷ results) h =
    let (len, ids) = report_items-count p valid results (omega arith) in
    (ap suc len, has_id-count p r.id _ _ ids)

count_accepted-le : (results : List BatchResult) → count_accepted results ≤ length results
unfolding count_accepted
count_accepted-le [] = omega arith
count_accepted-le (r ∷ results) =
    let rest = count_accepted-le results in let one = count_id-le r.id in omega arith

-- Each request has one result, at its index, which tells what became of it, and the counts of a
-- response agree with its results and with the number of requests.
pub record Accounts (p : Platform) (requests : List CreateRequest) (b : BatchResponse)
    : Type 0 where
  pub total : b.total ≡ length requests
  pub one_each : length b.results ≡ length requests
  pub sum : b.accepted + b.rejected ≡ length requests
  pub ids : count has_id b.results ≡ b.accepted
  pub answers : All (Answers p requests) b.results
  pub indices : (j : ℕ) → j < length requests → count (λ r. eqb r.index j) b.results ≡ 1

module _ {S : Type 0} (p : Platform) (ids : Ids S) (repo : NotificationRepository S)
    (publisher : Publisher S) where
  batch_response-Accounts :
      (requests : List CreateRequest) (x : S × (ℕ × List BatchResult × Result (Unit {0}))) (t : S)
      (resp : HttpResponse)
      → length x.1.1 ≡ length (validate_items p 0 requests).0
      → All Fits x.1.1
      → (let (valid, rejected) = validate_items p 0 requests in
          batch_response p ids repo publisher (length requests) valid rejected x ≡ (t, ok resp))
      → (b : BatchResponse) × (resp ≡ record { status = 207; body = batch_body b })
        × Accounts p requests b
  batch_response-Accounts requests (s, (id, results, err e)) t resp same fits h = cc
  batch_response-Accounts requests (s, (id, results, ok _)) t resp same fits h =
      let valid = (validate_items p 0 requests).0 in
      let rejected = (validate_items p 0 requests).1 in
      let (sum, none_) = validate_items-Sorted p 0 requests in
      let (good, bad) = validate_items-Split p 0 requests in
      let (len, with_id) = report_items-count p valid results same in
      let small = count_accepted-le results in
      (
        batch_of p (length requests) valid rejected id results,
        cc,
        record {
          total = refl;
          one_each = length-append rejected _ ∙ omega arith;
          sum = omega arith;
          ids = count-append has_id rejected _ ∙ omega arith;
          answers =
              All-append (Answers p requests) rejected _
                (All-weaken (Refuses p 0 requests) (Answers p requests) rejected (λ r h. inl h) bad)
                (All-weaken (Serves p 0 requests) (Answers p requests) _ (λ r h. inr h)
                  (report_items-Serves p requests valid results same good fits));
          indices = λ j below.
              let once = validate_items-at p 0 j requests (omega arith) (omega arith) in
              let told = report_items-at p j valid results same in
              count-append (λ (r : BatchItemResult). eqb r.index j) rejected _ ∙ omega arith;
        },
      )

  -- A batch that is answered without an error has at most 1000 requests and is answered with 207:
  -- there is one result for each request, and each index of a request is that of one result. The
  -- result of a request that is not valid is rejected, without an id and with what is wrong with
  -- it; that of a valid one is accepted with an id and no error, or rejected with an internal error
  -- and no id. Accepted and rejected add up to the total, and the number of results with an id is
  -- the number of the accepted ones.
  pub create_batch_of-Accounts :
      (requests : List CreateRequest) (s t : S) (resp : HttpResponse)
      → create_batch_of p ids repo publisher requests s ≡ (t, ok resp)
      → (length requests ≤ 1000)
        × ((b : BatchResponse) × (resp ≡ record { status = 207; body = batch_body b })
            × Accounts p requests b)
  unfolding create_batch_of
  create_batch_of-Accounts requests s t resp h = elim (Bool-cases (ltb 1000 (length requests))) [
    | inl many ↦ cc (rw many at h)
    | inr few ↦ (
      ground arith,
      batch_response-Accounts requests
          (create_batch p ids repo publisher (map (λ v. v.1) (validate_items p 0 requests).0) s) t
          resp (length-create_batch p ids repo publisher _ s ∙ length-map _ _)
          (create_batch-Fit p ids repo publisher _ s) (rw few at h),
    )
  ]
