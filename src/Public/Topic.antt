-- ===== src/Public/Topic.antt =====
-- The topics of api/public/enums.go, api/public/topics.go, processor/public/topics.go and
-- deliveryscheduler/public/topics.go.
use insider_notification.Base.{String, ◌==◌, if◌then◌else◌}
use insider_notification.Public.Priority

abbrev pub high : String
high = "notify.high"

abbrev pub normal : String
normal = "notify.normal"

abbrev pub low : String
low = "notify.low"

abbrev pub notification_scheduled : String
notification_scheduled = "notify.scheduled"

abbrev pub notification_schedule_cancelled : String
notification_schedule_cancelled = "notify.schedule.cancelled"

abbrev pub status : String
status = "notify.status"

abbrev pub scheduled_notification_due : String
scheduled_notification_due = "notify.scheduled.due"

-- A missing key of the map `TopicByPriority` reads as the empty topic.
unfoldable pub topic_by_priority : String → String
topic_by_priority p =
    if p == Priority.high
    then high
    else if p == Priority.normal
    then normal
    else if p == Priority.low
    then low
    else ""
