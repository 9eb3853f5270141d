-- ===== src/Api/Items.antt =====
-- What the results of a batch say of its requests: `createBatch` of
-- api/internal/transport/http/notification.go.
use insider_notification.Base.{
  ℕ, suc, ◌+◌, ◌≤◌, ◌<◌, String, none, some, List, [], ◌∷◌, ◌++◌, All, length, count, get_elem?,
  ◌≡◌, ◌⊎◌, refl, ap, ◌∙◌, inl, inr, arith, eqb, if◌then◌else◌, Bool-cases,
}
use insider_notification.Errors.{Error, message}
use insider_notification.Effect.{Result, ok, err}
use insider_notification.Platform.{Platform}
use insider_notification.Domain.{Notification}
use insider_notification.Requests.{CreateRequest, to_notification}
use insider_notification.Batch.{BatchResult}
use insider_notification.Batch.Results.{Fits}
use insider_notification.Api.Responses.{BatchItemResult, details_none}
use insider_notification.Api.{
  sort_item, converted, validate_items, report_items, some_text, internal_error,
}

-- The request is the one numbered `j`, where the first one has the number `i`.
abbrev pub At : (i : ℕ) → List CreateRequest → (j : ℕ) → CreateRequest → Type 0
At i rs j q = (k : ℕ) × (j ≡ i + k) × (get_elem? rs k ≡ some q)

-- The request at the index of the result is not valid, and the result says so.
abbrev pub Refuses : Platform → (i : ℕ) → List CreateRequest → BatchItemResult → Type 0
Refuses p i rs r =
    (q : CreateRequest) × (e : Error) × At i rs r.index q
    × (converted (to_notification p q) ≡ err e)
    × (r.status ≡ "rejected")
    × (r.id ≡ none)
    × (r.error
        ≡ some
            (record { code = "VALIDATION_ERROR"; message = message p e; details = details_none }))

-- It is valid, and the result gives its id, or the failure of the service.
abbrev pub Tells : BatchItemResult → Type 0
Tells r =
    ((r.status ≡ "accepted") × ((id : String) × (r.id ≡ some id)) × (r.error ≡ none))
    ⊎ ((r.status ≡ "rejected")
        × (r.id ≡ none)
        × ((text : String) × (r.error
              ≡ some (record { code = "INTERNAL_ERROR"; message = text; details = details_none }))))

abbrev pub IsValidAt : Platform → (i : ℕ) → List CreateRequest → ℕ × Notification → Type 0
IsValidAt p i rs (j, n) =
    (q : CreateRequest) × At i rs j q × (converted (to_notification p q) ≡ ok n)

abbrev pub Serves : Platform → (i : ℕ) → List CreateRequest → BatchItemResult → Type 0
Serves p i rs r =
    ((q : CreateRequest) × (n : Notification) × At i rs r.index q
      × (converted (to_notification p q) ≡ ok n))
    × Tells r

abbrev pub Answers : Platform → List CreateRequest → BatchItemResult → Type 0
Answers p rs r = Refuses p 0 rs r ⊎ Serves p 0 rs r

pub All-weaken :
    {A : Type 0} (P Q : A → Type 0) (xs : List A) → ((a : A) → P a → Q a) → All P xs → All Q xs
All-weaken P Q [] f h = tt
All-weaken P Q (x ∷ xs) f (h, hs) = (f x h, All-weaken P Q xs f hs)

pub All-append :
    {A : Type 0} (P : A → Type 0) (xs ys : List A) → All P xs → All P ys → All P (xs ++ ys)
All-append P [] ys h k = k
All-append P (x ∷ xs) ys (h, hs) k = (h, All-append P xs ys hs k)

later :
    (i : ℕ) (r : CreateRequest) (rs : List CreateRequest) (j : ℕ) (q : CreateRequest)
    → At (suc i) rs j q
    → At i (r ∷ rs) j q
later i r rs j q (k, number, there) = (suc k, omega arith, there)

abbrev pub Split :
    Platform
    → (i : ℕ) → List CreateRequest
    → List (ℕ × Notification) × List BatchItemResult
    → Type 0
Split p i rs x = All (IsValidAt p i rs) x.0 × All (Refuses p i rs) x.1

sort_item-Split :
    (p : Platform) (i : ℕ) (r : CreateRequest) (rs : List CreateRequest) (c : Result Notification)
    (x : List (ℕ × Notification) × List BatchItemResult)
    → converted (to_notification p r) ≡ c
    → Split p (suc i) rs x
    → Split p i (r ∷ rs) (sort_item p i c x)
sort_item-Split p i r rs c (valid, rejected) h (good, bad) = go c h
  where
    first : At i (r ∷ rs) i r
    first = (0, omega arith, refl)

    valid_later : All (IsValidAt p i (r ∷ rs)) valid
    valid_later =
        All-weaken (IsValidAt p (suc i) rs) (IsValidAt p i (r ∷ rs)) valid
          (λ v (q, at, well). (q, later i r rs v.0 q at, well)) good

    rejected_later : All (Refuses p i (r ∷ rs)) rejected
    rejected_later =
        All-weaken (Refuses p (suc i) rs) (Refuses p i (r ∷ rs)) rejected
          (λ x (q, e, at, wrong, status, id, why).
            (q, e, later i r rs x.index q at, wrong, status, id, why))
          bad

    go :
        (c : Result Notification)
        → converted (to_notification p r) ≡ c
        → Split p i (r ∷ rs) (sort_item p i c (valid, rejected))
    go (ok n) well = (((r, first, well), valid_later), rejected_later)
    go (err e) wrong = (valid_later, ((r, e, first, wrong, refl, refl, refl), rejected_later))

pub validate_items-Split :
    (p : Platform) (i : ℕ) (rs : List CreateRequest) → Split p i rs (validate_items p i rs)
unfolding validate_items
validate_items-Split p i [] = (tt, tt)
validate_items-Split p i (r ∷ rs) =
    sort_item-Split p i r rs _ (validate_items p (suc i) rs) refl
      (validate_items-Split p (suc i) rs)

-- How often an index occurs.
abbrev pub valid_at : ℕ → List (ℕ × Notification) → ℕ
valid_at j = count (λ v. eqb v.0 j)

abbrev pub results_at : ℕ → List BatchItemResult → ℕ
results_at j = count (λ r. eqb r.index j)

sort_item-at :
    (p : Platform) (i j : ℕ) (c : Result Notification)
    (x : List (ℕ × Notification) × List BatchItemResult)
    → valid_at j (sort_item p i c x).0 + results_at j (sort_item p i c x).1
      ≡ (if eqb i j then 1 else 0) + (valid_at j x.0 + results_at j x.1)
sort_item-at p i j (ok n) (valid, rejected) = omega arith
sort_item-at p i j (err e) (valid, rejected) = omega arith

validate_items-below :
    (p : Platform) (i j : ℕ) (rs : List CreateRequest)
    → j < i
    → valid_at j (validate_items p i rs).0 + results_at j (validate_items p i rs).1 ≡ 0
unfolding validate_items
validate_items-below p i j [] h = refl
validate_items-below p i j (r ∷ rs) h =
    let rest = validate_items-below p (suc i) j rs (omega arith) in
    sort_item-at p i j (converted (to_notification p r)) (validate_items p (suc i) rs)
    ∙ ground arith

-- Each index of a request occurs once.
pub validate_items-at :
    (p : Platform) (i j : ℕ) (rs : List CreateRequest)
    → i ≤ j
    → j < i + length rs
    → valid_at j (validate_items p i rs).0 + results_at j (validate_items p i rs).1 ≡ 1
unfolding validate_items
validate_items-at p i j [] low high = absurd (omega arith)
validate_items-at p i j (r ∷ rs) low high =
    sort_item-at p i j (converted (to_notification p r)) (validate_items p (suc i) rs)
    ∙ elim (Bool-cases (eqb i j)) [
      | inl same ↦ (let below = validate_items-below p (suc i) j rs (ground arith) in ground arith)
      | inr other ↦
          (let above = validate_items-at p (suc i) j rs (ground arith) (omega arith) in
            ground arith)
    ]

pub report_items-at :
    (p : Platform) (j : ℕ) (valid : List (ℕ × Notification)) (results : List BatchResult)
    → length results ≡ length valid
    → results_at j (report_items p valid results) ≡ valid_at j valid
unfolding report_items
report_items-at p j [] [] h = refl
report_items-at p j [] (r ∷ results) h = absurd (omega arith)
report_items-at p j (v ∷ valid) [] h = absurd (omega arith)
report_items-at p j ((i, n) ∷ valid) (r ∷ results) h =
    let rest = report_items-at p j valid results (omega arith) in ground arith

Tells-of_Fits :
    (p : Platform) (i : ℕ) (r : BatchResult)
    → Fits r
    → Tells (record {
      index = i;
      status = r.status;
      id = some_text p r.id;
      error = internal_error r.error;
    })
Tells-of_Fits p i r (inl (status, (id, given), well)) =
    inl (status, (p.uuid_text id, ap (some_text p) given), ap internal_error well)
Tells-of_Fits p i r (inr (status, missing, (text, why))) =
    inr (status, ap (some_text p) missing, (text, ap internal_error why))

pub report_items-Serves :
    (p : Platform) (rs : List CreateRequest) (valid : List (ℕ × Notification))
    (results : List BatchResult)
    → length results ≡ length valid
    → All (IsValidAt p 0 rs) valid
    → All Fits results
    → All (Serves p 0 rs) (report_items p valid results)
unfolding report_items
report_items-Serves p rs [] [] h good fits = tt
report_items-Serves p rs [] (r ∷ results) h good fits = absurd (omega arith)
report_items-Serves p rs (v ∷ valid) [] h good fits = absurd (omega arith)
report_items-Serves p rs ((i, n) ∷ valid) (r ∷ results) h ((q, at, well), good) (fit, fits) = (
  ((q, n, at, well), Tells-of_Fits p i r fit),
  report_items-Serves p rs valid results (omega arith) good fits,
)
