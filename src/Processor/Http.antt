-- ===== src/Processor/Http.antt =====
-- The JSON client of shared/httpclient/client.go.
use Prim.Native.String
use insider_notification.Base.{ℕ, String}
use insider_notification.Effect.{M, Result, ◌>>=◌, ◌>>◌, lift, wrapping}
use insider_notification.Platform.{Platform}

-- `Client` with what it uses of net/http and encoding/json. A response is its status code.
pub record HttpClient (S Body : Type 0) : Type 0 where
  pub base_url : String
  pub marshal : Body → Result String
  pub new_request : (method url body : String) → Result (Unit {0})
  pub round_trip : (method url body : String) → M S ℕ

-- `Request` with a payload.
unfoldable pub request :
    {S Body : Type 0} → Platform → HttpClient S Body → (method path : String) → Body → M S ℕ
request p c method path payload =
    let url = String.◌++◌ c.base_url path in
    do
      body ← wrapping p "marshal payload: " (lift (c.marshal payload))
      wrapping p "build request: " (lift (c.new_request method url body))
      wrapping p (String.◌++◌ method (String.◌++◌ " " (String.◌++◌ url ": ")))
          (c.round_trip method url body)
