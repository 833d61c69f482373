-- ===== src/Es/Event.antt =====
-- es/event.go: events and their envelopes, and the errors of the package.
use srvbus.Common.{
  ℕ, Option, none, some, List, Uuid, nil_uuid, Result, ok, err, ◌==◌, nat_eq, if◌then◌else◌, ◌++◌,
  ◌≡◌, refl, false, Option-cases, inl, inr, arith,
}
use srvbus.Common.Text.{Str, codes, is_empty, trim}
use srvbus.Ds.{DataItem, new_item, data_of}

-- One constructor for each message of `newESErr` and `fmt.Errorf`; `wrapped` is an
-- `EventServerError` around another error, and `panics` a run-time panic of the source.
pub data EsErr : Type 0 where
  empty_event_name no_reader read_failed empty_event no_sender : EsErr
  empty_topic no_channel not_runned already_started empty_topic_name : EsErr
  topic_exists no_topic : Str → EsErr
  has_subtopic_already no_such_subtopic : Str → Str → EsErr
  subtopics_tree stopped_topic no_subscriber no_subscription no_logger panics : EsErr
  wrapped : EsErr → EsErr

pub record Event : Type 0 where
  pub item : DataItem
  pub at : ℕ

-- How a read of a whole `io.Reader` ends: io.EOF is no failure.
pub data IoErr : Type 0 where
  eof broken : IoErr

event_of : Str → List ℕ → ℕ → Event
event_of name buf now = record { item = new_item name buf; at = now }

after_read : Str → List ℕ → Option IoErr → ℕ → Result EsErr Event
unfolding event_of
after_read name buf (some broken) now = err read_failed
after_read name buf _ now = ok (event_of name buf now)

-- The reader is what `ioutil.ReadAll` gets from it; `none` is a nil reader.
unfoldable new_event_with_reader : Str → Option (List ℕ × Option IoErr) → ℕ → Result EsErr Event
unfolding after_read
new_event_with_reader name none now =
    if is_empty (trim name) then err empty_event_name else err no_reader
new_event_with_reader name (some (buf, e)) now =
    if is_empty (trim name) then err empty_event_name else after_read (trim name) buf e now

unfoldable pub new_event_with_string : Str → Str → ℕ → Result EsErr Event
unfolding event_of
new_event_with_string name text now =
    if is_empty (trim name) then err empty_event_name else ok (event_of (trim name) text now)

-- `Event.String`; the text of a time is the library's.
unfoldable print_event : (ℕ → Str) → Event → Str
print_event show_time e =
    codes "Evt '"
    ++ (e.item.name
        ++ (codes "' @ " ++ (show_time e.at ++ (codes " [" ++ (data_of e.item ++ codes "]")))))

-- `MustEvent`, of what an operation that makes an event answers.
unfoldable must_event : Result EsErr Event → Result EsErr Event
must_event (ok e) = ok e
must_event (err e) = err panics

-- With a name, `MustEvent` does not panic on a text.
must_event-new :
    (name text : Str) (now : ℕ)
    → is_empty (trim name) ≡ false
    → must_event (new_event_with_string name text now) ≡ ok (event_of (trim name) text now)
unfolding must_event new_event_with_string
must_event-new name text now h = rw (h) refl

pub record Envelope : Type 0 where
  pub event : Option Event  -- `none` is a nil pointer
  pub topic : Str
  pub publisher : Uuid
  pub reg_at : ℕ
  pub index : ℕ

-- `EventEnvelope.check`
unfoldable pub check_envelope : Envelope → Option EsErr
check_envelope ee = elim ee.event [
  | none ↦ some empty_event
  | some e ↦ if ee.publisher == nil_uuid then some no_sender else none
]

-- `EventEnvelope.What`
unfoldable what : Envelope → Result EsErr Event
what ee = elim ee.event [ none ↦ err panics | some e ↦ ok e ]

-- An envelope that passes the check has an event to give.
what-check_envelope : (ee : Envelope) → check_envelope ee ≡ none → (e : Event) × (what ee ≡ ok e)
unfolding what check_envelope
what-check_envelope ee h = elim (Option-cases ee.event) [
  | inl nothing ↦ ground arith
  | inr (e, is) ↦ (e, rw (is) refl)
]
