-- ===== src/Processor/Client.antt =====
-- The delivery client of processor/internal/service/ntfndeliveryclient.go.
pub mod Outcome
use Prim.Native.String
use insider_notification.Base.{ℕ, String, Bool, true, false, ◌-◌, ◌/◌, ◌||◌, eqb, if◌then◌else◌}
use insider_notification.Errors.{message}
use insider_notification.Effect.{Result, ok, err}
use insider_notification.Platform.{Platform}
use insider_notification.Processor.Http.{HttpClient, request}

pub record DeliveryResult : Type 0 where
  pub success : Bool
  pub retryable : Bool
  pub status_code : ℕ
  pub latency_ms : ℕ
  pub provider_msg_id : String
  pub error_message : String

pub record NtfnDeliveryRequestBody : Type 0 where
  pub to : String
  pub channel : String
  pub content : String

-- The interface `NtfnDeliveryClient`.
pub record NtfnDeliveryClient (S : Type 0) : Type 0 where
  pub send : (to channel content : String) → S → S × DeliveryResult

-- The monotonic clock, in nanoseconds.
pub record Clock (S : Type 0) : Type 0 where
  pub now : S → S × ℕ

-- The `switch code` of `Send`.
unfoldable pub classify : Platform → (code latency : ℕ) → DeliveryResult
classify p code latency =
    let result : DeliveryResult = record {
      success = false;
      retryable = false;
      status_code = code;
      latency_ms = latency;
      provider_msg_id = "";
      error_message = "";
    } in
    if eqb code 202
    then record result { success = true }
    else if eqb code 400 || eqb code 401 || eqb code 403
    then record result {
      error_message = String.◌++◌ "non-retryable provider error: " (p.itoa code);
    }
    else record result {
      retryable = true;
      error_message = String.◌++◌ "retryable provider error: " (p.itoa code);
    }

unfoldable pub result_of : Platform → ℕ → Result ℕ → DeliveryResult
result_of p latency (ok code) = classify p code latency
result_of p latency (err e) = record {
  success = false;
  retryable = true;
  status_code = 0;
  latency_ms = latency;
  provider_msg_id = "";
  error_message = message p e;
}

-- `Send`
unfoldable pub send :
    {S : Type 0}
    → Platform
    → Clock S
    → HttpClient S NtfnDeliveryRequestBody
    → (to channel content : String) → S
    → S × DeliveryResult
send p clock c to channel content s =
    let (s1, start) = clock.now s in
    let (s2, response) =
      request p c "POST" "" (record { to = to; channel = channel; content = content }) s1 in
    let (s3, end_) = clock.now s2 in (s3, result_of p ((end_ - start) / 1000000) response)

-- `NewNtfnDeliveryClient`
abbrev pub new_ntfn_delivery_client :
    {S : Type 0} → Platform → Clock S → HttpClient S NtfnDeliveryRequestBody → NtfnDeliveryClient S
new_ntfn_delivery_client p clock c = record { send = send p clock c }
