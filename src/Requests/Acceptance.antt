-- ===== src/Requests/Acceptance.antt =====
-- Which create requests are accepted, and as what notification.
use insider_notification.Base.{
  ℕ, ℤ, String, ◌≡◌, ◌≢◌, refl, ap, subst, ◌⊎◌, ◌↔◌, true, Option, some, none, eq_iff, arith,
  is_positive, ne_of_test, List, [], ◌∷◌, All, length, ◌≤◌, ◌∙◌,
}
use insider_notification.Effect.{M, ◌>>◌, ok, seq-ok}
use insider_notification.Platform.{Platform}
use insider_notification.Public.Channel
use insider_notification.Public.Priority
use insider_notification.Domain.{
  Notification, codes, phone_re_match, phone_codes, phone_digits, all_digits, set_channel,
  set_recipient, set_content, set_priority, set_max_attempts, set_deliver_after, zero_notification,
}
use insider_notification.Requests.{
  CreateRequest, fill, to_notification, set_request_attempts, set_request_time,
}

-- A decimal digit.
abbrev pub IsDigit : ℕ → Type 0
IsDigit c = (48 ≤ c) × (c ≤ 57)

-- A phone number in the international form: a plus sign, a digit from 1 to 9, and 6 to 14 digits.
pub record IsPhone (r : String) : Type 0 where
  pub first : ℕ
  pub others : List ℕ
  pub text : codes r ≡ 43 ∷ first ∷ others
  pub lead : (49 ≤ first) × (first ≤ 57)
  pub digits : All IsDigit others
  pub long : 6 ≤ length others
  pub short : length others ≤ 14

all_digits-All : (cs : List ℕ) → all_digits cs ≡ true → All IsDigit cs
unfolding all_digits
all_digits-All [] h = tt
all_digits-All (c ∷ cs) h = (ground arith, all_digits-All cs (ground arith))

All-all_digits : (cs : List ℕ) → All IsDigit cs → all_digits cs ≡ true
unfolding all_digits
All-all_digits [] h = refl
All-all_digits (c ∷ cs) (h, hs) = let rest = All-all_digits cs hs in ground arith

IsPhone-of_match : (r : String) (cs : List ℕ) → codes r ≡ cs → phone_codes cs ≡ true → IsPhone r
unfolding phone_codes phone_digits
IsPhone-of_match r [] h k = cc
IsPhone-of_match r (c ∷ []) h k = absurd (ground arith)
IsPhone-of_match r (c ∷ d ∷ ds) h k = record {
  first = d;
  others = ds;
  text = let plus : c ≡ 43 = ground arith in h ∙ ap (λ x. x ∷ d ∷ ds) plus;
  lead = ground arith;
  digits = all_digits-All ds (ground arith);
  long = ground arith;
  short = ground arith;
}

match-of_IsPhone : (r : String) → IsPhone r → phone_re_match r ≡ true
unfolding phone_re_match phone_codes phone_digits
match-of_IsPhone r phone =
    let (from1, to9) = phone.lead in
    let well = All-all_digits phone.others phone.digits in
    let long = phone.long in
    let short = phone.short in
    let known : phone_codes (43 ∷ phone.first ∷ phone.others) ≡ true = ground arith in
    ap phone_codes phone.text ∙ known

phone_re_match_iff : (r : String) → (phone_re_match r ≡ true) ↔ IsPhone r
unfolding phone_re_match
phone_re_match_iff r = (λ h. IsPhone-of_match r (codes r) refl h, match-of_IsPhone r)

-- The recipient has the form that its channel asks for.
abbrev pub IsAddress : Platform → (channel recipient : String) → Type 0
IsAddress p ch r =
    (r ≢ "")
    × (((ch ≡ Channel.email) × (p.parse_address r ≡ true))
        ⊎ ((ch ≡ Channel.sms) × IsPhone r)
        ⊎ (ch ≡ Channel.push))

abbrev pub IsPriority : String → Type 0
IsPriority s = (s ≡ Priority.high) ⊎ (s ≡ Priority.normal) ⊎ (s ≡ Priority.low)

-- An attempt limit, when it is given, is positive, and is kept; absent, the field stays zero.
abbrev pub Attempts : Option ℤ → ℤ → Type 0
Attempts none v = v ≡ ℤ.pos 0
Attempts (some w) v = (v ≡ w) × (is_positive w ≡ true)

-- A delivery time, when it is given, is one that parses.
abbrev pub DeliveryTime : Platform → Option String → Option ℕ → Type 0
DeliveryTime p none t = t ≡ none
DeliveryTime p (some text) t = (t ≡ p.parse_rfc3339 text) × (t ≢ none)

-- The request is acceptable and asks for this notification.
pub record AsksFor (p : Platform) (r : CreateRequest) (n : Notification) : Type 0 where
  pub recipient_form : IsAddress p r.channel r.recipient
  pub content_given : r.content ≢ ""
  pub priority_known : IsPriority r.priority
  pub attempts : Attempts r.max_attempts n.max_attempts
  pub time : DeliveryTime p r.deliver_after n.deliver_after
  pub channel : n.channel ≡ r.channel
  pub recipient : n.recipient ≡ r.recipient
  pub content : n.content ≡ r.content
  pub priority : n.priority ≡ r.priority
  pub status : n.status ≡ ""

set_channel-ok :
    (ch : String) (n m : Notification)
    → (set_channel ch n ≡ (m, ok tt)) ↔ (
        ((ch ≡ Channel.sms) ⊎ (ch ≡ Channel.email) ⊎ (ch ≡ Channel.push))
        × (m ≡ record n { channel = ch }))
unfolding set_channel
set_channel-ok ch n m =
    ground (arith, eq_iff ch Channel.sms, eq_iff ch Channel.email, eq_iff ch Channel.push)

set_recipient-ok :
    (p : Platform) (r : String) (n m : Notification)
    → (set_recipient p r n ≡ (m, ok tt))
      ↔ (IsAddress p n.channel r × (m ≡ record n { recipient = r }))
unfolding set_recipient
set_recipient-ok p r n m = ground (
  arith,
  phone_re_match_iff r,
  eq_iff r "",
  eq_iff n.channel Channel.sms,
  eq_iff n.channel Channel.email,
  eq_iff n.channel Channel.push,
  ne_of_test Channel.email Channel.sms refl,
  ne_of_test Channel.email Channel.push refl,
  ne_of_test Channel.sms Channel.push refl,
)

set_content-ok :
    (c : String) (n m : Notification)
    → (set_content c n ≡ (m, ok tt)) ↔ ((c ≢ "") × (m ≡ record n { content = c }))
unfolding set_content
set_content-ok c n m = ground (arith, eq_iff c "")

set_priority-ok :
    (c : String) (n m : Notification)
    → (set_priority c n ≡ (m, ok tt)) ↔ (IsPriority c × (m ≡ record n { priority = c }))
unfolding set_priority
set_priority-ok c n m =
    ground (arith, eq_iff c Priority.high, eq_iff c Priority.normal, eq_iff c Priority.low)

set_request_attempts-ok :
    (v : Option ℤ) (n m : Notification)
    → n.max_attempts ≡ ℤ.pos 0
    → (set_request_attempts v n ≡ (m, ok tt))
      ↔ (Attempts v m.max_attempts × (m ≡ record n { max_attempts = m.max_attempts }))
unfolding set_request_attempts set_max_attempts
set_request_attempts-ok none n m h = ground arith
set_request_attempts-ok (some v) n m h = ground arith

set_request_time-ok :
    (p : Platform) (v : Option String) (n m : Notification)
    → n.deliver_after ≡ none
    → (set_request_time p v n ≡ (m, ok tt))
      ↔ (DeliveryTime p v m.deliver_after × (m ≡ record n { deliver_after = m.deliver_after }))
unfolding set_request_time set_deliver_after
set_request_time-ok p none n m h = ground arith
set_request_time-ok p (some v) n m h = ground arith

-- What is left of `fill` after each of its calls.
module _ (p : Platform) (r : CreateRequest) where
  abbrev from_attempts : M Notification (Unit {0})
  from_attempts = set_request_attempts r.max_attempts >> set_request_time p r.deliver_after

  abbrev from_priority : M Notification (Unit {0})
  from_priority = set_priority r.priority >> from_attempts

  abbrev from_content : M Notification (Unit {0})
  from_content = set_content r.content >> from_priority

  abbrev from_recipient : M Notification (Unit {0})
  from_recipient = set_recipient p r.recipient >> from_content

AsksFor-of_fill :
    (p : Platform) (r : CreateRequest) (n : Notification)
    → fill p r zero_notification ≡ (n, ok tt)
    → AsksFor p r n
unfolding fill
AsksFor-of_fill p r n h =
    let (n1, e1, h1) = seq-ok (from_recipient p r) (set_channel r.channel zero_notification) h in
    let (n2, e2, h2) = seq-ok (from_content p r) (set_recipient p r.recipient n1) h1 in
    let (n3, e3, h3) = seq-ok (from_priority p r) (set_content r.content n2) h2 in
    let (n4, e4, h4) = seq-ok (from_attempts p r) (set_priority r.priority n3) h3 in
    let (n5, e5, h5) =
      seq-ok (set_request_time p r.deliver_after) (set_request_attempts r.max_attempts n4) h4 in
    let (c1, m1) = (set_channel-ok r.channel zero_notification n1).0 e1 in
    let (c2, m2) = (set_recipient-ok p r.recipient n1 n2).0 e2 in
    let (c3, m3) = (set_content-ok r.content n2 n3).0 e3 in
    let (c4, m4) = (set_priority-ok r.priority n3 n4).0 e4 in
    let (c5, m5) = (set_request_attempts-ok r.max_attempts n4 n5 (ground arith)).0 e5 in
    let (c6, m6) = (set_request_time-ok p r.deliver_after n5 n (ground arith)).0 h5 in
    record {
      recipient_form = rw (← ap (λ (m : Notification). m.channel) m1) c2;
      content_given = c3;
      priority_known = c4;
      attempts = subst (Attempts r.max_attempts) (ground arith) c5;
      time = c6;
      channel = ground arith;
      recipient = ground arith;
      content = ground arith;
      priority = ground arith;
      status = ground arith;
    }

fill_of_AsksFor :
    (p : Platform) (r : CreateRequest) (n : Notification)
    → AsksFor p r n
    → fill p r zero_notification ≡ (n, ok tt)
unfolding fill
fill_of_AsksFor p r n a =
    let n1 = record zero_notification { channel = r.channel } in
    let n2 = record n1 { recipient = r.recipient } in
    let n3 = record n2 { content = r.content } in
    let n4 = record n3 { priority = r.priority } in
    let n5 = record n4 { max_attempts = n.max_attempts } in
    let e1 = (set_channel-ok r.channel zero_notification n1).1 (ground arith, refl) in
    let e2 = (set_recipient-ok p r.recipient n1 n2).1 (a.recipient_form, refl) in
    let e3 = (set_content-ok r.content n2 n3).1 (a.content_given, refl) in
    let e4 = (set_priority-ok r.priority n3 n4).1 (a.priority_known, refl) in
    let e5 = (set_request_attempts-ok r.max_attempts n4 n5 refl).1 (a.attempts, refl) in
    let e6 = (set_request_time-ok p r.deliver_after n5 n refl).1 (a.time, ground arith) in
    rw (e1, e2, e3, e4, e5) e6

-- A request is turned into a notification exactly if it asks for that notification: its channel is
-- known; its recipient is not empty and, for an email, is an address that parses, for an SMS, a
-- phone number of a plus sign, a digit from 1 to 9 and 6 to 14 further digits; its content is not
-- empty, however long it is; its priority is known; its limit of attempts, if there is one, is
-- positive; its delivery time, if there is one, parses; and the notification has these fields.
pub to_notification_iff :
    (p : Platform) (r : CreateRequest) (n : Notification)
    → (to_notification p r ≡ (n, ok tt)) ↔ AsksFor p r n
unfolding to_notification
to_notification_iff p r n = (AsksFor-of_fill p r n, fill_of_AsksFor p r n)
