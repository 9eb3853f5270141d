-- ===== src/Store/Postgres/Ascending.antt =====
-- The cursor of a page in ascending order: `List` of
-- api/internal/db/postgres/notification_repo.go, called first with a page number and the order asc,
-- then with the cursor that it gave.
use insider_notification.Base.{
  ℕ, zero, suc, ◌+◌, ◌-◌, ◌<◌, ◌^◌, Option, none, some, List, [], ◌∷◌, take, length, get_elem?, All,
  ◌≡◌, ◌≢◌, sym, ap, subst, ◌∙◌, arith,
}
use insider_notification.Effect.{Result, ok, err, then_on, pure}
use insider_notification.Platform.{Platform}
use insider_notification.Store.{DbNotification, ListFilter}
use insider_notification.Store.Postgres.{
  Bun, apply_filters, size_of, offset_query, list_query, cut_page, page_reply, read_page, list,
}
use insider_notification.Store.Postgres.Rows.{below, below-All, All-get_elem?}
use insider_notification.Store.Postgres.Paging.{
  Snapshot, Cut, cut_page-Cut, size-positive, matching, concat, Covers, follow, follow-Covers,
}

-- Each id is below those that follow, as it is with version 7 UUIDs in the order of creation.
abbrev pub IsAscending : List DbNotification → Type 0
IsAscending [] = Unit
IsAscending (e ∷ es) = All (λ (x : DbNotification). e.id < x.id) es × IsAscending es

IsAscending-get :
    (es : List DbNotification) (j k : ℕ) (d e : DbNotification)
    → IsAscending es
    → get_elem? es j ≡ some d
    → get_elem? es (j + suc k) ≡ some e
    → d.id < e.id
IsAscending-get [] j k d e sorted here there = cc
IsAscending-get (x ∷ es) zero k d e (first, rest) here there =
    let same : x ≡ d = cc in
    let step : suc k ≡ zero + suc k = omega arith in
    let at : get_elem? es k ≡ some e = ap (get_elem? (x ∷ es)) step ∙ there in
    subst (λ (y : DbNotification). y.id < e.id) same
      (All-get_elem? (λ (y : DbNotification). x.id < y.id) es k e first at)
IsAscending-get (x ∷ es) (suc j) k d e (first, rest) here there =
    let step : suc (j + suc k) ≡ suc j + suc k = omega arith in
    IsAscending-get es j k d e rest here (ap (get_elem? (x ∷ es)) step ∙ there)

concat-All :
    (c : ℕ) (es : List DbNotification) (e : DbNotification)
    → c < e.id
    → All (λ (x : DbNotification). x.id < c) es
    → All (λ (x : DbNotification). x.id ≢ e.id) es
concat-All c [] e above all = tt
concat-All c (x ∷ es) e above (one, all) = (omega arith, concat-All c es e above all)

abbrev cut_of : Result (List DbNotification × ℕ × Option ℕ) → List DbNotification × Option ℕ
cut_of (ok (page, total, next)) = (page, next)
cut_of (err e) = ([], none)

module _ {S : Type 0} (p : Platform) {db : Bun S} (f : ListFilter) (s : S)
    (snap : Snapshot db s) where
  open snap use {table}

  -- The rows of the numbered page and of those after it, as the database gives them.
  abbrev pub Reads : List DbNotification → Type 0
  Reads rows =
      db.select_rows (offset_query p f (apply_filters f) (size_of f.page_size)) s
      ≡ (s, ok (take (size_of f.page_size + 1) rows))

  numbered_page :
      (rows : List DbNotification)
      → f.cursor_id ≡ none
      → Reads rows
      → (total : ℕ) × (list p db f s
          ≡ (s, ok (page_reply p db f total (take (size_of f.page_size + 1) rows))))
  unfolding list
  numbered_page rows no_cursor reads = (
    length (matching p f s snap),
    ap (then_on (read_page p db f)) (snap.count_lem (apply_filters f))
        ∙ ap
            (λ o.
              then_on (λ ns. pure (page_reply p db f (length (matching p f s snap)) ns))
                (db.select_rows (list_query p f (size_of f.page_size) o) s))
            no_cursor
        ∙ ap (then_on (λ ns. pure (page_reply p db f (length (matching p f s snap)) ns))) reads,
  )

  -- The cursor of a page is the id of its last row.
  last_of_page :
      (rows page : List DbNotification) (total c : ℕ)
      → f.cursor_id ≡ none
      → size_of f.page_size + 1 < 2 ^ 63
      → Reads rows
      → list p db f s ≡ (s, ok (page, total, some c))
      → (d : DbNotification) × (get_elem? rows (size_of f.page_size - 1) ≡ some d) × (d.id ≡ c)
  last_of_page rows page total c no_cursor small reads answer =
      let (n, listed) = numbered_page rows no_cursor reads in
      let cut = cut_page-Cut (size_of f.page_size) rows (size-positive f.page_size) small in
      let same : cut_page (size_of f.page_size) (take (size_of f.page_size + 1) rows)
          ≡ (page, some c) =
        ap (λ x. cut_of x.1) (sym listed ∙ answer) in
      let (shown, more, last) = subst (Cut (size_of f.page_size) rows) same cut in last

  -- A page by its number, in an order of ascending ids, gives a next cursor c: none of the rows
  -- after that page is in any of the pages that a client gets by following the cursor c, which the
  -- client is to get them from. The rows stand unchanged meanwhile, and the page size is one that
  -- an int64 can count up from.
  pub ascending-skips :
      (rows page : List DbNotification) (total c fuel k : ℕ) (pages : List (List DbNotification))
      (e : DbNotification)
      → f.cursor_id ≡ none
      → size_of f.page_size + 1 < 2 ^ 63
      → Reads rows
      → IsAscending rows
      → list p db f s ≡ (s, ok (page, total, some c))
      → length (below c (matching p f s snap)) < fuel
      → follow p db f fuel c s ≡ some pages
      → get_elem? rows (size_of f.page_size + k) ≡ some e
      → All (λ (x : DbNotification). x.id ≢ e.id) (concat pages)
  ascending-skips rows page total c fuel k pages e no_cursor small reads sorted answer enough
        followed after =
      let (d, at, last) = last_of_page rows page total c no_cursor small reads answer in
      let positive = size-positive f.page_size in
      let place : size_of f.page_size + k ≡ size_of f.page_size - 1 + suc k = omega arith in
      let above =
        IsAscending-get rows (size_of f.page_size - 1) k d e sorted at
          (ap (get_elem? rows) (sym place) ∙ after) in
      let covers = follow-Covers p f s snap fuel c small enough in
      let (same, short) =
        subst (Covers p f s snap (below c (matching p f s snap))) followed covers in
      subst (All (λ (x : DbNotification). x.id ≢ e.id)) (sym same) (
        concat-All c (below c (matching p f s snap)) e (omega arith)
          (below-All c (matching p f s snap)))
