-- ===== src/Store/Postgres.antt =====
-- The repository of notifications in Postgres: api/internal/db/postgres/notification_repo.go. The
-- query builder bun and the database are a parameter that takes a statement as it was built.
pub mod Rows
pub mod Paging
pub mod Ascending
pub mod Contract
use Prim.Native.String
use insider_notification.Base.{
  ℕ, zero, suc, ℤ, pos, ◌+◌, ◌-◌, ◌*◌, String, Bool, true, false, Option, none, some, List, [], ◌∷◌,
  ◌++◌, ◌==◌, length, take, get_elem?, int64, eqz, is_positive, pos_part, if◌then◌else◌,
}
use insider_notification.Errors.{Error, db_not_found, is_no_rows}
use insider_notification.Effect.{M, Result, ok, err, pure, fail, ◌>>=◌, on_error}
use insider_notification.Platform.{Platform}
use insider_notification.Store.{DbNotification, ListFilter, NotificationRepository}

-- The arguments of `Where`.
pub data Condition : Type 0 where
  status_is channel_is : String → Condition
  batch_is : ℕ → Condition
  created_from created_until : (t : ℕ) → Condition
  id_below : ℕ → Condition
  id_in : List ℕ → Condition
  deliver_after_set deliver_after_passed : Condition

-- What a `SelectQuery` was built with; `order_by` is the text of `OrderExpr`.
pub record SelectQuery : Type 0 where
  pub where_ : List Condition
  pub order_by : String
  pub limit : Option ℤ
  pub offset : Option ℤ

-- The calls of bun: `NewInsert` of one row and of several, `NewSelect` with `WherePK`, with its
-- conditions and with `Count`, and `NewUpdate` with `OmitZero`, `WherePK` and `Returning("*")`.
pub record Bun (S : Type 0) : Type 0 where
  pub insert : DbNotification → M S DbNotification
  pub insert_all : List DbNotification → M S (List DbNotification)
  pub select_pk : ℕ → M S DbNotification
  pub select_rows : SelectQuery → M S (List DbNotification)
  pub count_rows : List Condition → M S ℕ
  pub update_pk : DbNotification → M S DbNotification

-- `&db.Notification{}` with an id and a status.
abbrev pub blank : ℕ → String → DbNotification
blank id status = record {
  id = id;
  created_at = 0;
  updated_at = 0;
  batch_id = none;
  recipient = "";
  channel = "";
  content = "";
  priority = "";
  status = status;
  deliver_after = none;
  max_attempts = pos 0;
}

abbrev pub unless_empty : String → (String → Condition) → List Condition
unless_empty s c = if s == "" then [] else c s ∷ []

abbrev pub when_given : Option ℕ → (ℕ → Condition) → List Condition
when_given none c = []
when_given (some v) c = c v ∷ []

-- `applyFilters`
unfoldable pub apply_filters : ListFilter → List Condition
apply_filters f =
    unless_empty f.status status_is
    ++ (unless_empty f.channel channel_is
        ++ (when_given f.batch_id batch_is
            ++ (when_given f.date_from created_from ++ when_given f.date_to created_until)))

-- `pageSize`, as the positive number that it is.
abbrev pub size_of : ℤ → ℕ
size_of v = if is_positive v then pos_part v else 20

-- `page`
abbrev pub page_of : ℤ → ℕ
page_of v = if is_positive v then pos_part v else 1

-- The query of a page after a cursor.
abbrev pub keyset_query : List Condition → (size cursor : ℕ) → SelectQuery
keyset_query conds size cursor = record {
  where_ = conds ++ id_below cursor ∷ [];
  order_by = "id DESC";
  limit = some (int64 (size + 1));
  offset = none;
}

-- The query of a page by its number.
abbrev pub offset_query : Platform → ListFilter → List Condition → (size : ℕ) → SelectQuery
offset_query p f conds size = record {
  where_ = conds;
  order_by =
      String.◌++◌ (if f.sort == "updated_at" then "updated_at" else "created_at")
        (String.◌++◌ " " (if p.equal_fold f.order "asc" then "ASC" else "DESC"));
  limit = some (int64 (size + 1));
  offset = some (int64 ((page_of f.page - 1) * size));
}

abbrev pub list_query : Platform → ListFilter → (size : ℕ) → Option ℕ → SelectQuery
list_query p f size none = offset_query p f (apply_filters f) size
list_query p f size (some cursor) = keyset_query (apply_filters f) size cursor

abbrev pub id_at : Option DbNotification → Option ℕ
id_at none = none
id_at (some e) = some e.id

-- The page and the next cursor of the rows that were read.
unfoldable pub cut_page : (size : ℕ) → List DbNotification → List DbNotification × Option ℕ
cut_page size ns =
    if eqz (pos (length ns)) (int64 (size + 1))
    then (take size ns, id_at (get_elem? ns (size - 1)))
    else (ns, none)

abbrev pub not_found : Error → Error
not_found e = if is_no_rows e then db_not_found else e

module _ {S : Type 0} (p : Platform) (db : Bun S) where
  -- `Create`
  abbrev pub create : DbNotification → M S DbNotification
  create n = db.insert n

  -- `CreateBatch`
  unfoldable pub create_batch : List DbNotification → M S (List DbNotification)
  create_batch [] = pure []
  create_batch (n ∷ ns) = db.insert_all (n ∷ ns)

  -- `GetByID`
  unfoldable pub get_by_id : ℕ → M S DbNotification
  get_by_id id = on_error not_found (db.select_pk id)

  -- `GetByIDs`
  unfoldable pub get_by_ids : List ℕ → M S (List DbNotification)
  get_by_ids [] = pure []
  get_by_ids (id ∷ ids) =
      db.select_rows
        (record { where_ = id_in (id ∷ ids) ∷ []; order_by = ""; limit = none; offset = none })

  -- `UpdateStatus`
  abbrev pub update_status : ℕ → String → M S DbNotification
  update_status id status = db.update_pk (blank id status)

  -- `FindScheduledDue`
  abbrev pub find_scheduled_due : M S (List DbNotification)
  find_scheduled_due = db.select_rows (record {
    where_ = deliver_after_set ∷ deliver_after_passed ∷ status_is "pending" ∷ [];
    order_by = "deliver_after ASC";
    limit = some (pos 500);
    offset = none;
  })

  -- `List` after its two queries.
  abbrev pub page_reply : ListFilter → ℕ → List DbNotification → List DbNotification × ℕ × Option ℕ
  page_reply f total ns =
      ((cut_page (size_of f.page_size) ns).0, total, (cut_page (size_of f.page_size) ns).1)

  abbrev pub read_page : ListFilter → ℕ → M S (List DbNotification × ℕ × Option ℕ)
  read_page f total = do
    ns ← db.select_rows (list_query p f (size_of f.page_size) f.cursor_id)
    pure (page_reply f total ns)

  -- `List`
  unfoldable pub list : ListFilter → M S (List DbNotification × ℕ × Option ℕ)
  list f = db.count_rows (apply_filters f) >>= read_page f

  -- `NewNotificationRepository`
  unfoldable pub new_notification_repository : NotificationRepository S
  new_notification_repository = record {
    create = create;
    create_batch = create_batch;
    get_by_id = get_by_id;
    get_by_ids = get_by_ids;
    list = list;
    update_status = update_status;
    find_scheduled_due = find_scheduled_due;
  }
