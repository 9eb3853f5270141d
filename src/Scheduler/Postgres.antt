-- ===== src/Scheduler/Postgres.antt =====
-- The table of the scheduler in Postgres: deliveryscheduler/internal/db/postgres/repository.go. The
-- query builder bun and the database are a parameter.
use Prim.Native.String.{◌++◌}
use insider_notification.Base.{ℕ, ℤ, pos, String, List, [], ◌∷◌, is_positive, if◌then◌else◌}
use insider_notification.Effect.{M, pure, wrapping}
use insider_notification.Platform.{Platform}
use insider_notification.Scheduler.{ScheduledNotification, ScheduledNotificationRepository}

-- `NewInsert` with its `On` and `Set`.
pub record InsertQuery : Type 0 where
  pub model : List ScheduledNotification
  pub on : String
  pub set : String

-- The statements: an insert, a delete of the rows with an id, and a raw statement with a time and a
-- number for its two placeholders, which returns rows.
pub record Bun (S : Type 0) : Type 0 where
  pub insert : InsertQuery → M S (Unit {0})
  pub delete_where_id : String → M S (Unit {0})
  pub raw : (sql : String) (before : ℕ) (limit : ℤ) → M S (List ScheduledNotification)

abbrev pub upsert_query : List ScheduledNotification → InsertQuery
upsert_query ns = record {
  model = ns;
  on = "CONFLICT (notification_id) DO UPDATE";
  set = "scheduled_at = EXCLUDED.scheduled_at";
}

-- The text of the raw statement, without its line breaks.
abbrev pub due_statement : String
due_statement =
    "DELETE FROM scheduled_notifications WHERE notification_id IN ( "
    ++ "SELECT notification_id FROM scheduled_notifications "
    ++ "WHERE scheduled_at IS NOT NULL AND scheduled_at <= ? "
    ++ "ORDER BY scheduled_at ASC LIMIT ? FOR UPDATE SKIP LOCKED ) RETURNING *"

-- `limit`, at least 1.
abbrev pub at_least_one : ℤ → ℤ
at_least_one limit = if is_positive limit then limit else pos 1

module _ {S : Type 0} (p : Platform) (db : Bun S) where
  -- `UpsertAll`
  unfoldable pub upsert_all : List ScheduledNotification → M S (Unit {0})
  upsert_all [] = pure tt
  upsert_all (n ∷ ns) =
      wrapping p "pg batch upsert scheduled notifications: " (db.insert (upsert_query (n ∷ ns)))

  -- `DeleteByNotificationID`
  unfoldable pub delete_by_notification_id : String → M S (Unit {0})
  delete_by_notification_id id =
      wrapping p "pg delete scheduled notification: " (db.delete_where_id id)

  -- `DeleteByScheduledAtBeforeReturning`
  unfoldable pub delete_by_scheduled_at_before_returning :
      (before : ℕ) (limit : ℤ) → M S (List ScheduledNotification)
  delete_by_scheduled_at_before_returning before limit =
      wrapping p "pg find and delete due scheduled notifications: "
        (db.raw due_statement before (at_least_one limit))

  -- `NewScheduledNotificationRepository`
  unfoldable pub new_scheduled_notification_repository : ScheduledNotificationRepository S
  new_scheduled_notification_repository = record {
    upsert_all = upsert_all;
    delete_by_scheduled_at_before_returning = delete_by_scheduled_at_before_returning;
    delete_by_notification_id = delete_by_notification_id;
  }
