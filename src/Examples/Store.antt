-- ===== src/Examples/Store.antt =====
-- Cursors and the event store.
use a2a_events_python.Common.{
  ◌+◌, ◌≡◌, ◌≢◌, refl, inl, inr, arith, none, some, [], ◌∷◌, ◌++◌, Text, text, text_eq, text_eq_iff,
  text_eq_refl, ◌∙◌, get, if◌then◌else◌, ltb, Bool-cases,
}
use mathlib.Core.Path.{subst}
use a2a_events_python.Errors.{ok, raise, value_error}
use a2a_events_python.Cursor.{colon, encode, split, offset_for, text_lt}
use a2a_events_python.Cursor.RoundTrip.{split-encode, offset_for-encode}
use a2a_events_python.Cursor.Order.{text_lt-encode}
use a2a_events_python.Cursor.Malformed.{split-superscript}
use a2a_events_python.EventStore.{append, compact, count, live_events, read, record_of, to_offset}
use a2a_events_python.EventStore.Log.{IsValidLog}
use a2a_events_python.EventStore.Range.{range}
use a2a_events_python.EventStore.Reads.{page_of, read_after, unless_expired}
use a2a_events_python.EventStore.Keeps.{IsValid, append_fresh, compact_keeps}
use a2a_events_python.Examples.{orders, orders_log, logs, new_event}

pub orders-named : orders ≢ []
orders-named h = cc

split-encode_example : split (encode orders 7) ≡ ok (orders, 7)
split-encode_example = split-encode orders 7 orders-named (omega arith)

text_lt-encode_example : text_lt (encode orders 9) (encode orders 10) ≡ ltb 9 10
text_lt-encode_example = text_lt-encode orders 9 10 (omega arith) (omega arith)

split-superscript_example : split (orders ++ colon ∷ 178 ∷ []) ≡ raise value_error
split-superscript_example = split-superscript orders 178 orders-named (inl refl)

pub orders_log-IsValidLog : IsValidLog orders orders_log
orders_log-IsValidLog = record {
  named = orders-named;
  ordered = (0, refl, omega arith, (1, refl, omega arith, omega arith));
  bounded = omega arith;
  own = (refl, (refl, tt));
}

pub found_orders : get orders logs ≡ some orders_log
unfolding get text_eq
found_orders = refl

pub logs-IsValid : IsValid logs
unfolding get
logs-IsValid = record {
  at = λ t log found. elim (Bool-cases (text_eq orders t)) [
    | inl same ↦
        let hit : some orders_log ≡ some log = rw same at found in
        let e : orders ≡ t = (text_eq_iff orders t).0 same in
        let f : orders_log ≡ log = cc in
        subst (λ x. IsValidLog x log) e (subst (IsValidLog orders) f orders_log-IsValidLog)
    | inr other ↦ absurd (let missed = rw other at found in cc)
  ];
}

no_end : to_offset orders none ≡ ok none
unfolding to_offset
no_end = refl

pub first_decoded : offset_for orders (encode orders 0) ≡ ok 0
first_decoded =
    offset_for-encode orders orders 0 orders-named (omega arith) ∙ rw (text_eq_refl orders) refl

read_after_example :
    read orders (some (encode orders 0)) none 2 9 9 logs
    ≡ unless_expired 0
        (page_of 1 (range 1 none (live_events 9 orders_log)))
        (live_events 9 orders_log)
read_after_example =
    read_after orders logs orders_log found_orders orders_log-IsValidLog none none no_end 1 9 9
      (encode orders 0) 0 first_decoded

append_fresh_example :
    ((append orders 9 (new_event (text "evt_3")) logs).0
      ≡ ok (record_of orders (count orders logs) 9 (new_event (text "evt_3"))))
    × ((other : Text)
        → count other (append orders 9 (new_event (text "evt_3")) logs).1
          ≡ (if text_eq orders other then count orders logs + 1 else count other logs))
    × IsValid (append orders 9 (new_event (text "evt_3")) logs).1
append_fresh_example =
    append_fresh orders 9 (new_event (text "evt_3")) logs orders_log logs-IsValid found_orders
      (omega arith)

compact_keeps_example :
    IsValid (compact none 9 logs).1
    × ((other : Text) → count other (compact none 9 logs).1 ≡ count other logs)
compact_keeps_example = compact_keeps none 9 logs logs-IsValid

test_encode : encode (text "t") 42 ≡ text "t:0000000000000042"
unfolding encode
test_encode = refl

test_split : split (text "a:b:0000000000000042") ≡ ok (text "a:b", 42)
unfolding split
test_split = refl
