-- ===== src/Store/Postgres/Paging.antt =====
-- A client that follows the cursors of `List` from page to page.
use insider_notification.Base.{
  ℕ, zero, suc, ℤ, pos, negsuc, ◌+◌, ◌-◌, ◌≤◌, ◌<◌, ◌^◌, ◌%◌, false, Option, none, some, List, [],
  ◌∷◌, ◌++◌, select, take, drop, length, get_elem?, take_all, take-drop, length-drop, length-take,
  take-take, get_elem?-take, get_elem?-below, get_elem?-length, All, int64, eqb, eqb_refl, ◌≡◌,
  refl, sym, ap, subst, ◌∙◌, arith, dec_lt, lt→ltb,
}
use native.Mathlib.Nat.{mod-eq_of_lt}
use insider_notification.Effect.{Result, ok, err, then_on, pure}
use insider_notification.Platform.{Platform}
use insider_notification.Store.{DbNotification, ListFilter}
use insider_notification.Store.Postgres.{
  Condition, id_below, Bun, apply_filters, size_of, keyset_query, cut_page, page_reply, read_page,
  list,
}
use insider_notification.Store.Postgres.Rows.{
  meets_all, IsDescending, below, select-below, select-IsDescending, below-drop, below-below,
  below-bound,
}

-- What the database answers to the two queries of a page after a cursor: `table` is its rows with
-- the highest id first. A query with a bound on the id, in the order of descending ids, gives the
-- first `n` rows that meet its conditions; neither query changes the state.
pub record Snapshot {S : Type 0} (db : Bun S) (s : S) : Type 0 where
  pub table : List DbNotification
  pub now : ℕ
  pub descending : IsDescending table
  pub count_lem :
      (cs : List Condition)
      → db.count_rows cs s ≡ (s, ok (length (select (meets_all now cs) table)))
  pub select_lem :
      (cs : List Condition) (c n : ℕ)
      → db.select_rows
          (record {
            where_ = cs ++ id_below c ∷ [];
            order_by = "id DESC";
            limit = some (pos n);
            offset = none;
          })
          s
        ≡ (s, ok (take n (select (meets_all now (cs ++ id_below c ∷ [])) table)))

abbrev pub add_page :
    List DbNotification → Option (List (List DbNotification)) → Option (List (List DbNotification))
add_page page none = none
add_page page (some pages) = some (page ∷ pages)

-- What the client makes of one answer: it goes on where there is a next cursor.
abbrev pub after_page :
    {S : Type 0}
    → (ℕ → Option (List (List DbNotification)))
    → S × Result (List DbNotification × ℕ × Option ℕ)
    → Option (List (List DbNotification))
after_page again (s, err e) = none
after_page again (s, ok (page, total, none)) = some (page ∷ [])
after_page again (s, ok (page, total, some c)) = add_page page (again c)

-- The pages after a cursor, if they are no more than `fuel`.
unfoldable pub follow :
    {S : Type 0}
    → Platform
    → Bun S
    → ListFilter
    → (fuel cursor : ℕ) → S
    → Option (List (List DbNotification))
follow p db f zero cursor s = none
follow p db f (suc fuel) cursor s =
    after_page (λ c. follow p db f fuel c s) (list p db (record f { cursor_id = some cursor }) s)

abbrev pub concat : List (List DbNotification) → List DbNotification
concat [] = []
concat (page ∷ pages) = page ++ concat pages

int64-small : (n : ℕ) → n < 2 ^ 63 → int64 n ≡ pos n
int64-small n small =
    let whole : n % 2 ^ 64 ≡ n = mod-eq_of_lt (omega arith) in
    rw whole (rw (lt→ltb n (2 ^ 63) small) refl)

-- The end of the pages, or one page and the cursor of its last row.
abbrev pub Cut : ℕ → List DbNotification → List DbNotification × Option ℕ → Type 0
Cut size es (page, none) = (page ≡ es) × (length es ≤ size)
Cut size es (page, some c) =
    (page ≡ take size es)
    × (size < length es)
    × ((e : DbNotification) × (get_elem? es (size - 1) ≡ some e) × (e.id ≡ c))

eqb-false : (a b : ℕ) → a < b → eqb a b ≡ false
eqb-false a b h = ground arith

pub cut_page-Cut :
    (size : ℕ) (es : List DbNotification)
    → 0 < size
    → size + 1 < 2 ^ 63
    → Cut size es (cut_page size (take (size + 1) es))
unfolding cut_page
cut_page-Cut size es some_size small =
    let long = length-take (size + 1) es in
    elim (dec_lt size (length es)) [
      | yes more ↦
          let full : length (take (size + 1) es) ≡ size + 1 = omega arith in
          let (e, at) = get_elem?-below es (size - 1) (omega arith) in
          let read : get_elem? (take (size + 1) es) (size - 1) ≡ some e =
            get_elem?-take (size - 1) (size + 1) es (omega arith) ∙ at in
          rw (full, int64-small (size + 1) small, eqb_refl (size + 1), read)
            (take-take size (size + 1) es (omega arith), more, (e, at, refl))
      | no fewer ↦
          let all = take_all (size + 1) es (omega arith) in
          rw (all, int64-small (size + 1) small, eqb-false (length es) (size + 1) (omega arith))
            (refl, omega arith)
    ]

append_nil : (es : List DbNotification) → es ++ [] ≡ es
append_nil [] = refl
append_nil (e ∷ es) = ap (◌∷◌ e) (append_nil es)

pub size-positive : (v : ℤ) → 0 < size_of v
size-positive (pos zero) = omega arith
size-positive (pos (suc n)) = omega arith
size-positive (negsuc n) = omega arith

module _ {S : Type 0} (p : Platform) {db : Bun S} (f : ListFilter) (s : S)
    (snap : Snapshot db s) where
  open snap use {table, now}

  -- The rows that the filter selects, the highest id first.
  abbrev pub matching : List DbNotification
  matching = select (meets_all now (apply_filters f)) table

  abbrev pub size : ℕ
  size = size_of f.page_size

  abbrev at : ℕ → ListFilter
  at cursor = record f { cursor_id = some cursor }

  -- The rows that are read for the page after a cursor.
  select-page :
      (cursor : ℕ)
      → size + 1 < 2 ^ 63
      → db.select_rows (keyset_query (apply_filters f) size cursor) s
        ≡ (s, ok (take (size + 1) (below cursor matching)))
  select-page cursor small =
      ap
        (λ l.
          db.select_rows
            (record {
              where_ = apply_filters f ++ id_below cursor ∷ [];
              order_by = "id DESC";
              limit = some l;
              offset = none;
            })
            s)
        (int64-small (size + 1) small)
      ∙ snap.select_lem (apply_filters f) cursor (size + 1)
      ∙ ap (λ es. (s, ok (take (size + 1) es))) (select-below now cursor (apply_filters f) table)

  -- The answer with the page after a cursor.
  list-page :
      (cursor : ℕ)
      → size + 1 < 2 ^ 63
      → list p db (at cursor) s
        ≡ (s, ok (page_reply p db f (length matching) (take (size + 1) (below cursor matching))))
  unfolding list apply_filters
  list-page cursor small =
      ap (then_on (read_page p db (at cursor))) (snap.count_lem (apply_filters f))
      ∙ ap (then_on (λ ns. pure (page_reply p db f (length matching) ns)))
          (select-page cursor small)

  -- The pages hold the rows in their order, and none has more than the page size.
  abbrev pub Covers : List DbNotification → Option (List (List DbNotification)) → Type 0
  Covers es none = ⊥
  Covers es (some pages) =
      (concat pages ≡ es) × All (λ (page : List DbNotification). length page ≤ size) pages

  add_page-Covers :
      (es : List DbNotification) (o : Option (List (List DbNotification)))
      → Covers (drop size es) o
      → Covers es (add_page (take size es) o)
  add_page-Covers es none h = absurd h
  add_page-Covers es (some pages) (same, short) =
      let len = length-take size es in
      (ap (λ l. take size es ++ l) same ∙ take-drop size es, (omega arith, short))

  abbrev next_page : ℕ → ℕ → Option (List (List DbNotification))
  next_page fuel c = follow p db f fuel c s

  after_page-Covers :
      (fuel cursor : ℕ) (cut : List DbNotification × Option ℕ)
      → Cut size (below cursor matching) cut
      → ((e : DbNotification)
          → get_elem? (below cursor matching) (size - 1) ≡ some e
          → Covers (drop size (below cursor matching)) (next_page fuel e.id))
      → Covers
          (below cursor matching)
          (after_page (next_page fuel) (s, ok (cut.0, length matching, cut.1)))
  after_page-Covers fuel cursor (page, none) (same, few) rest = (
    append_nil page ∙ same,
    (subst (λ (es : List DbNotification). length es ≤ size) (sym same) few, tt),
  )
  after_page-Covers fuel cursor (page, some c) (same, more, (e, found, id)) rest =
      subst (λ es. Covers (below cursor matching) (add_page es (next_page fuel c))) (sym same)
        (subst
          (λ d.
            Covers (below cursor matching)
              (add_page (take size (below cursor matching)) (next_page fuel d)))
          id (add_page-Covers (below cursor matching) (next_page fuel e.id) (rest e found)))

  -- The rows after a full page are those below its last row.
  rest_of_page :
      (cursor : ℕ) (e : DbNotification)
      → get_elem? (below cursor matching) (size - 1) ≡ some e
      → (below e.id matching ≡ drop size (below cursor matching))
        × (length (below e.id matching) < length (below cursor matching))
  rest_of_page cursor e found =
      let low = below-bound cursor (size - 1) matching e found in
      let positive = size-positive f.page_size in
      let whole : suc (size - 1) ≡ size = omega arith in
      let rest : below e.id matching ≡ drop size (below cursor matching) =
        sym (below-below e.id cursor matching (omega arith))
        ∙ below-drop (below cursor matching) (size - 1) e
            (select-IsDescending _ matching (select-IsDescending _ table snap.descending)) found
        ∙ ap (λ k. drop k (below cursor matching)) whole in
      let some_rows = get_elem?-length (below cursor matching) (size - 1) e found in
      let fewer = length-drop size (below cursor matching) in
      let same = ap (length {A = DbNotification}) rest in (rest, omega arith)

  -- A client that starts below any bound and follows the cursors gets, in no more pages than there
  -- are rows and one more, every row that the filter selects below the bound, once and in the
  -- order of descending ids, in pages of at most the page size: as long as the table does not
  -- change, and for a page size that an int64 can count up from.
  pub follow-Covers :
      (fuel cursor : ℕ)
      → size + 1 < 2 ^ 63
      → length (below cursor matching) < fuel
      → Covers (below cursor matching) (follow p db f fuel cursor s)
  unfolding follow
  follow-Covers zero cursor small enough = absurd (omega arith)
  follow-Covers (suc fuel) cursor small enough =
      subst (λ x. Covers (below cursor matching) (after_page (next_page fuel) x))
        (sym (list-page cursor small))
        (after_page-Covers fuel cursor _
          (cut_page-Cut size (below cursor matching) (size-positive f.page_size) small)
          (λ e found.
            let (rest, fewer) = rest_of_page cursor e found in
            subst (λ es. Covers es (next_page fuel e.id)) rest
              (follow-Covers fuel e.id small (omega arith))))
