-- ===== src/Alerts/Throttle.antt =====
-- The throttle of alerts.py over any calls.
use local_gateway.Prelude.{
  ltb, if◌then◌else◌, Option-cases, ==_refl, nat_eq, int_eq, Text, text_eqb_iff, text_eq, ℕ, ◌+◌,
  ◌≤◌, ◌<◌, ◌≡◌, refl, ap, ◌∙◌, inl, inr, false, Option, some, List, [], ◌∷◌, arith,
}
use local_gateway.Dict.{get_default}
use local_gateway.Dict.Laws.{get_default-set}
use local_gateway.Alerts.{LastSent, dedup_interval, is_throttled, send, post}

pub record Call : Type 0 where
  pub key : Option Text
  pub now : ℕ
  pub url : Option Text

unfoldable pub after : Call → LastSent → LastSent
after c sent = (send c.key c.now c.url sent).0

unfoldable pub run : List Call → LastSent → LastSent
run [] sent = sent
run (c ∷ calls) sent = run calls (after c sent)

-- All calls come within the interval from a time on.
unfoldable pub Within : ℕ → List Call → Type 0
Within t [] = 0 ≤ t
Within t (c ∷ calls) = (t ≤ c.now) × (c.now < t + dedup_interval) × Within t calls

last_sent : Text → LastSent → ℕ
last_sent key sent = get_default key 0 sent

last_sent-after :
    (key : Text) (t : ℕ) (c : Call) (sent : LastSent)
    → last_sent key sent ≡ t
    → c.now < t + dedup_interval
    → last_sent key (after c sent) ≡ t
unfolding last_sent after send is_throttled
last_sent-after key t c sent h lt = elim (Option-cases c.key) [
  | inl e ↦ rw e h
  | inr (k, e) ↦ rw e (
      ground (
        arith,
        get_default-set k key 0 c.now sent,
        h,
        lt,
        text_eqb_iff k key,
        ap (λ j. get_default j 0 sent),
      ))
]

last_sent-run :
    (key : Text) (t : ℕ) (calls : List Call) (sent : LastSent)
    → last_sent key sent ≡ t
    → Within t calls
    → last_sent key (run calls sent) ≡ t
unfolding run Within
last_sent-run key t [] sent h within = h
last_sent-run key t (c ∷ calls) sent h within =
    last_sent-run key t calls (after c sent) (last_sent-after key t c sent h within.1) within.2

last_sent-send :
    (key : Text) (t : ℕ) (url : Option Text) (sent : LastSent)
    → is_throttled key t sent ≡ false
    → last_sent key (send (some key) t url sent).0 ≡ t
unfolding last_sent send
last_sent-send key t url sent h = rw h (get_default-set key key 0 t sent ∙ rw (==_refl key) refl)

-- After an alert under a key at time t, whatever alerts are sent within six hours, the next under the
-- key is dropped if it comes within the six hours, and goes out to a configured webhook if it comes
-- after them.
pub send-run :
    (key : Text) (t now : ℕ) (url later : Option Text) (calls : List Call) (sent : LastSent)
    → is_throttled key t sent ≡ false
    → Within t calls
    → t ≤ now
    → (send (some key) now later (run calls (send (some key) t url sent).0)).1
      ≡ (if ltb now (t + dedup_interval) then false else post later)
unfolding send is_throttled
send-run key t now url later calls sent h within le =
    let known =
      last_sent-run key t calls (send (some key) t url sent).0 (last_sent-send key t url sent h)
        within in
    unfold last_sent in ground (arith, known)
