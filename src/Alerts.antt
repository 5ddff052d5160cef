-- ===== src/Alerts.antt =====
-- localgateway/alerts.py: `send` and its throttle. Times are milliseconds of `time.time()`; the URL
-- of the webhook is an argument, and a payload that is handed to the delivery thread is a result.
pub mod Throttle
use local_gateway.Prelude.{
  ltb, if◌then◌else◌, nat_eq, int_eq, Text, text_eq, is_empty, ℕ, ◌-◌, Bool, false, not, Option,
  none, some, [], arith,
}
use local_gateway.Dict.{Dict, get_default, set}

-- _DEDUP_INTERVAL, six hours.
abbrev pub dedup_interval : ℕ
dedup_interval = 21600000

abbrev pub LastSent : Type 0
LastSent = Dict Text ℕ

-- Whether the key was sent within the interval.
unfoldable pub is_throttled : Text → ℕ → LastSent → Bool
is_throttled key now sent = ltb (now - get_default key 0 sent) dedup_interval

unfoldable pub post : Option Text → Bool
post none = false
post (some url) = not (is_empty url)

-- The new times, and whether the alert goes out.
unfoldable pub send : Option Text → ℕ → Option Text → LastSent → LastSent × Bool
send none now url sent = (sent, post url)
send (some key) now url sent =
    if is_throttled key now sent then (sent, false) else (set key now sent, post url)
