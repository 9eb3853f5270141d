-- ===== src/Public/Channel.antt =====
-- The channels of api/public/enums.go.
use insider_notification.Base.{String}

abbrev pub sms : String
sms = "sms"

abbrev pub email : String
email = "email"

abbrev pub push : String
push = "push"
