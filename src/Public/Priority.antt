-- ===== src/Public/Priority.antt =====
-- The priorities of api/public/enums.go.
use insider_notification.Base.{String}

abbrev pub high : String
high = "high"

abbrev pub normal : String
normal = "normal"

abbrev pub low : String
low = "low"
