-- ===== src/Tests/Postgres.antt =====
-- The repository of Store/Postgres on databases in memory: one whose rows are those of Memory, and
-- one that is a table which never changes.
use insider_notification.Base.{
  ℕ, zero, ◌+◌, ◌<◌, ℤ, pos, Bool, true, false, ◌&&◌, Option, none, some, List, [], ◌∷◌, ◌++◌, ◌≡◌,
  ◌≢◌, refl, ap, sym, ◌∙◌, subst, arith, eqb, ◌==◌, select, take, drop, length, All,
}
use insider_notification.Errors.{Error, other, sql_no_rows, is_db_not_found}
use insider_notification.Effect.{Result, ok, err, fail}
use insider_notification.Store.{DbNotification, ListFilter}
use insider_notification.Store.Postgres.{
  Bun, blank, apply_filters, cut_page, offset_query, list, size_of, new_notification_repository,
}
use insider_notification.Store.Postgres.Rows.{meets, meets_all, below}
use insider_notification.Store.Postgres.Paging.{
  Snapshot, Covers, matching, concat, follow, follow-Covers,
}
use insider_notification.Store.Postgres.Ascending.{ascending-skips}
use insider_notification.Store.Postgres.Contract.{merge, DatabaseLaws, postgres-Evolves}
use insider_notification.Service.Contract.{update}
use insider_notification.Service.Evolution.{Evolves}
use insider_notification.History.{perform_all}
use insider_notification.Tests.Api.{one_row, calls}
use insider_notification.Tests.Memory.{
  platform, Memory, insert, insert_all, atomic, ids, publisher, insert_ok, insert_keeps,
  insert_all_keeps, atomic_keeps, insert_sent, fresh_id_fresh, send_table, send_ok,
}

-- Whether an update that omits zero fields has nothing to set.
abbrev is_unset : Option ℕ → Bool
is_unset none = true
is_unset (some v) = false

abbrev is_zero : ℤ → Bool
is_zero (pos zero) = true
is_zero v = false

abbrev sets_nothing : DbNotification → Bool
sets_nothing n =
    eqb n.created_at 0
    && eqb n.updated_at 0
    && is_unset n.batch_id
    && n.recipient == ""
    && n.channel == ""
    && n.content == ""
    && n.priority == ""
    && n.status == ""
    && is_unset n.deliver_after
    && is_zero n.max_attempts

abbrev row_of : Option DbNotification → Result DbNotification
row_of (some e) = ok e
row_of none = err sql_no_rows

abbrev set_at :
    Bool → Option DbNotification → DbNotification → Memory → Memory × Result DbNotification
set_at true o n s = (s, err (other "bun: empty SET clause is not allowed in the UPDATE query"))
set_at false none n s = (s, err sql_no_rows)
set_at false (some e) n s =
    let e' = record (merge n e) { updated_at = 6 } in
    (record s { table = update s.table n.id e' }, ok e')

abbrev memory_db : Bun Memory
memory_db = record {
  insert = insert;
  insert_all = λ es s. atomic s (insert_all es s);
  select_pk = λ id s. (s, row_of (s.table id));
  select_rows = λ q. fail (other "not supported");
  count_rows = λ cs. fail (other "not supported");
  update_pk = λ n s. set_at (sets_nothing n) (s.table n.id) n s;
}

row_of-ok : (o : Option DbNotification) (e : DbNotification) → row_of o ≡ ok e → o ≡ some e
row_of-ok (some d) e h = ground arith
row_of-ok none e h = cc

row_of-none : (o : Option DbNotification) (x : Error) → row_of o ≡ err x → o ≡ none
row_of-none none x h = refl
row_of-none (some d) x h = cc

row_of-foreign :
    (o : Option DbNotification) (x : Error) → row_of o ≡ err x → is_db_not_found x ≡ false
unfolding is_db_not_found
row_of-foreign none x h =
    let same : sql_no_rows ≡ x = cc in subst (λ y. is_db_not_found y ≡ false) same refl
row_of-foreign (some d) x h = cc

set_at-merges :
    (b : Bool) (o : Option DbNotification) (s s' : Memory) (n e' : DbNotification)
    → set_at b o n s ≡ (s', ok e')
    → (e : DbNotification) × (o ≡ some e)
      × (e' ≡ record (merge n e) { updated_at = e'.updated_at })
      × (s'.table ≡ update s.table n.id e')
set_at-merges true o s s' n e' h = cc
set_at-merges false none s s' n e' h = cc
set_at-merges false (some e) s s' n e' h =
    let one : record (merge n e) { updated_at = 6 } ≡ e' = cc in
    (
      e,
      refl,
      sym one ∙ ap (λ (x : DbNotification). record (merge n e) { updated_at = x.updated_at }) one,
      ap (λ (x : Memory). x.table) (sym (ap (λ x. x.0) h)) ∙ ap (update s.table n.id) one,
    )

set_at-error :
    (b : Bool) (o : Option DbNotification) (s s' : Memory) (n : DbNotification) (x : Error)
    → set_at b o n s ≡ (s', err x)
    → s'.table ≡ s.table
set_at-error true o s s' n x h = ap (λ (t : Memory). t.table) (sym (ap (λ y. y.0) h))
set_at-error false none s s' n x h = ap (λ (t : Memory). t.table) (sym (ap (λ y. y.0) h))
set_at-error false (some e) s s' n x h = cc

set_at-sent :
    (b : Bool) (o : Option DbNotification) (s : Memory) (n : DbNotification)
    → (set_at b o n s).0.sent ≡ s.sent
set_at-sent true o s n = refl
set_at-sent false none s n = refl
set_at-sent false (some e) s n = refl

database_laws : DatabaseLaws ids memory_db publisher
database_laws = record {
  row = λ s. s.table;
  sent = λ s. s.sent;
  new_row = λ s. refl;
  new_v7_row = λ s. refl;
  new_v7_sent = λ s. refl;
  new_v7_fresh = λ s s' id h. fresh_id_fresh (s.table s.next) s id refl (ap (λ x. x.1) h);
  insert_stamped = λ s s' e e' h. (insert_ok (s.table e.id) s s' e e' h).0;
  insert_row = λ s s' e e' h. (insert_ok (s.table e.id) s s' e e' h).1;
  insert_keeps = λ s e old id h. insert_keeps (s.table e.id) s e old id refl h;
  insert_all_keeps =
      λ s es old id h. atomic_keeps (insert_all es s) s old id h (insert_all_keeps es s old id h);
  insert_sent = λ s e. insert_sent (s.table e.id) s e;
  select_row = λ s id. refl;
  select_sent = λ s id. refl;
  select_ok = λ s s' id e h. row_of-ok (s.table id) e (ap (λ x. x.1) h);
  select_none = λ s s' id x h _. row_of-none (s.table id) x (ap (λ x. x.1) h);
  select_foreign = λ s s' id x h. row_of-foreign (s.table id) x (ap (λ x. x.1) h);
  update_merges = λ s s' n e' h. set_at-merges (sets_nothing n) (s.table n.id) s s' n e' h;
  update_empty = λ s s' id e' h. cc;
  update_error = λ s s' n x h. set_at-error (sets_nothing n) (s.table n.id) s s' n x h;
  update_sent = λ s n. set_at-sent (sets_nothing n) (s.table n.id) s n;
  publish_row = λ s t m. send_table s.failing s t m;
  publish_ok = λ s s' t m h. send_ok s.failing s s' t m h;
}

-- A table that never changes, with its rows in the order of descending ids; a query with an offset
-- is one by creation in ascending order.
up : List DbNotification → List DbNotification
up [] = []
up (e ∷ es) = up es ++ e ∷ []

page_at : Option ℤ → Option ℤ → List DbNotification → List DbNotification
page_at (some (pos n)) (some (pos o)) es = take n (drop o (up es))
page_at (some (pos n)) none es = take n es
page_at l o es = es

unfoldable table_db : Bun (List DbNotification)
unfolding page_at
table_db = record {
  insert = λ e. fail (other "read only");
  insert_all = λ es. fail (other "read only");
  select_pk = λ id. fail (other "not supported");
  select_rows = λ q s. (s, ok (page_at q.limit q.offset (select (meets_all 0 q.where_) s)));
  count_rows = λ cs s. (s, ok (length (select (meets_all 0 cs) s)));
  update_pk = λ n. fail (other "read only");
}

abbrev row : ℕ → DbNotification
row id = record (blank id "pending") { created_at = id }

abbrev rows : List DbNotification
rows = row 3 ∷ row 2 ∷ row 1 ∷ []

unfoldable snapshot : Snapshot table_db rows
unfolding table_db
snapshot = record {
  table = rows;
  now = 0;
  descending = ((omega arith, (omega arith, tt)), ((omega arith, tt), (tt, tt)));
  count_lem = λ cs. refl;
  select_lem = λ cs c n. refl;
}

-- Pages of one row, in ascending order.
abbrev one_by_one : ListFilter
one_by_one = record {
  status = "pending";
  channel = "";
  batch_id = none;
  date_from = none;
  date_to = none;
  page_size = pos 1;
  cursor_id = none;
  page = pos 1;
  sort = "created_at";
  order = "asc";
}

selected : matching platform one_by_one rows snapshot ≡ rows
unfolding snapshot apply_filters meets
selected = refl

few : length (below 4 (matching platform one_by_one rows snapshot)) < 5
unfolding snapshot apply_filters meets
few = omega arith

follow-Covers_example :
    Covers platform one_by_one rows snapshot
      (below 4 (matching platform one_by_one rows snapshot))
      (follow platform table_db one_by_one 5 4 rows)
follow-Covers_example = follow-Covers platform one_by_one rows snapshot 5 4 (omega arith) few

-- The first page holds the row 1, and its cursor is 1.
reads_up :
    table_db.select_rows
      (offset_query platform one_by_one (apply_filters one_by_one) (size_of one_by_one.page_size))
      rows
    ≡ (rows, ok (take (size_of one_by_one.page_size + 1) (row 1 ∷ row 2 ∷ row 3 ∷ [])))
unfolding table_db apply_filters meets page_at up
reads_up = refl

first_page : list platform table_db one_by_one rows ≡ (rows, ok (row 1 ∷ [], 3, some 1))
unfolding table_db list apply_filters meets page_at up cut_page
first_page = refl

rest_of_pages : follow platform table_db one_by_one 5 1 rows ≡ some ([] ∷ [])
unfolding table_db list apply_filters meets page_at up cut_page follow
rest_of_pages = refl

none_below : length (below 1 (matching platform one_by_one rows snapshot)) < 5
unfolding snapshot apply_filters meets
none_below = omega arith

ascending-skips_example : All (λ (x : DbNotification). x.id ≢ (row 2).id) (concat ([] ∷ []))
ascending-skips_example =
    ascending-skips platform one_by_one rows snapshot (row 1 ∷ row 2 ∷ row 3 ∷ []) (row 1 ∷ []) 3 1
      5 0 ([] ∷ []) (row 2) refl (omega arith) reads_up
      ((omega arith, (omega arith, tt)), ((omega arith, tt), (tt, tt))) first_page none_below
      rest_of_pages refl

postgres-Evolves_example : Evolves (database_laws.row one_row) (
    database_laws.row (
      perform_all platform ids
        (new_notification_repository platform memory_db)
        publisher
        calls
        one_row))
postgres-Evolves_example = postgres-Evolves platform database_laws calls one_row
