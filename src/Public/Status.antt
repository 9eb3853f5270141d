-- ===== src/Public/Status.antt =====
-- The statuses of api/public/enums.go.
use insider_notification.Base.{String}

abbrev pub pending : String
pending = "pending"

abbrev pub delivered : String
delivered = "delivered"

abbrev pub failed : String
failed = "failed"

abbrev pub cancelled : String
cancelled = "cancelled"
