-- ===== src/Es/Server/Emitter.antt =====
-- What `EmitEvent` of the message server, of the service server and of the bus share: the first event
-- adds the emitter's own topic to the event server.
use srvbus.Common.{ℕ, not, Option, none, some, Uuid, if◌then◌else◌}
use srvbus.Common.Text.{Str, is_empty}
use srvbus.Es.Server.{EventServer, root_topic, add_topic_queue, emit_evt}

-- On a present event server; `at` is the emitter's `esTopic`, which is returned as it is afterwards.
unfoldable pub emit_from : ℕ → Str → Uuid → EventServer → Str → Str → Str → EventServer × Str
emit_from now topic id e at name descr =
    let (added, failed) = add_topic_queue now e topic root_topic in
    if is_empty at
    then (elim failed [
      | some x ↦ (added, at)
      | none ↦ (emit_evt now added topic name descr id, topic)
    ])
    else (emit_evt now e at name descr id, at)

-- On an event server that may be absent or stopped
unfoldable pub emit_via :
    ℕ → Str → Uuid → Option EventServer → Str → Str → Str → Option EventServer × Str
unfolding emit_from
emit_via now topic id none at name descr = (none, at)
emit_via now topic id (some e) at name descr =
    let (e', at') = emit_from now topic id e at name descr in
    if not e.runned then (some e, at) else (some e', at')
