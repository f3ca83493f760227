-- ===== src/Msgq/Defs.antt =====
-- src/msgq.cpp. A queue object outlives its place in the table `msgqs` while a send on its behalf
-- awaits a receipt, so that queues are kept by an id that is never used again.
use feeds_service.Prelude.{
  ℕ, ◌+◌, ◌-◌, String, Bool, true, false, Option, none, some, List, [], ◌∷◌, ◌++◌,
}
use feeds_service.Prelude.Tests.{ltb, if◌then◌else◌}
use feeds_service.Obj.{Blob}
use feeds_service.Msgq.Maps.{at_id, at_peer}

pub record MsgQ : Type 0 where
  pub peer : String
  pub q : List Blob
  pub depr : Bool

-- A call of `CommandHandler::send`.
pub record Sending : Type 0 where
  pub peer : String
  pub msg : Blob

-- `objs`: the queue objects; `msgqs`: the table; `sent`: the calls of `send` so far, oldest first;
-- `pending`: for each queue object, how many of its sends await their receipt.
pub record Msgqs : Type 0 where
  pub objs : ℕ → Option MsgQ
  pub msgqs : String → Option ℕ
  pub next : ℕ
  pub sent : List Sending
  pub pending : ℕ → ℕ

-- `alloc_ok`: msg_create or msgq_create succeeds. `send_ok`: the transport takes the message; if it
-- does not, no receipt follows, and `send` does not tell.
pub record Call : Type 0 where
  pub alloc_ok : Bool
  pub send_ok : Bool

-- msgq_init
unfoldable pub msgq_init : Msgqs
msgq_init = record {
  objs = λ id. none;
  msgqs = λ peer. none;
  next = 0;
  sent = [];
  pending = λ id. 0;
}

-- send(q->peer, data, on_msg_receipt, ref(q))
unfoldable pub send_of : Bool → ℕ → String → Blob → Msgqs → Msgqs
send_of ok id peer m s = record s {
  sent = s.sent ++ record { peer = peer; msg = m } ∷ [];
  pending = if ok then at_id id (s.pending id + 1) s.pending else s.pending;
}

unfoldable pub enq_busy : Call → ℕ → Blob → Msgqs → Msgqs × Bool
enq_busy call id m s =
    if call.alloc_ok
    then (
      record s {
        objs =
            at_id id
              (elim (s.objs id) [ none ↦ none | some q ↦ some (record q { q = q.q ++ m ∷ [] }) ])
              s.objs;
      },
      true,
    )
    else (s, false)

-- The queue object is put in the table after the send.
unfoldable pub enq_idle : Call → String → Blob → Msgqs → Msgqs × Bool
enq_idle call to m s =
    if call.alloc_ok
    then (
      send_of call.send_ok s.next to m (record s {
        objs = at_id s.next (some (record { peer = to; q = []; depr = false })) s.objs;
        msgqs = at_peer to (some s.next) s.msgqs;
        next = s.next + 1;
      }),
      true,
    )
    else (s, false)

-- The second part is false where the code returns -1.
unfoldable pub msgq_enq : Call → String → Blob → Msgqs → Msgqs × Bool
msgq_enq call to m s = elim (s.msgqs to) [
  | none ↦ enq_idle call to m s
  | some id ↦ enq_busy call id m s
]

-- The queue object `q` under `id` has no message left, or a next one.
unfoldable pub send_next : Call → ℕ → MsgQ → List Blob → Msgqs → Msgqs
send_next call id q [] s = record s { msgqs = at_peer q.peer none s.msgqs }
send_next call id q (m ∷ rest) s =
    send_of call.send_ok id q.peer m
      (record s { objs = at_id id (some (record q { q = rest })) s.objs })

-- The state of the receipt (received, offline or error) is not looked at.
unfoldable pub on_msg_receipt : Call → ℕ → Msgqs → Msgqs
on_msg_receipt call id s =
    let s1 : Msgqs = record s { pending = at_id id (s.pending id - 1) s.pending } in
    elim (s.objs id) [ none ↦ s1 | some q ↦ if q.depr then s1 else send_next call id q q.q s1 ]

unfoldable pub msgq_peer_offline : String → Msgqs → Msgqs
msgq_peer_offline peer s = elim (s.msgqs peer) [
  | none ↦ s
  | some id ↦ record s {
    msgqs = at_peer peer none s.msgqs;
    objs =
        at_id id (elim (s.objs id) [ none ↦ none | some q ↦ some (record q { depr = true }) ])
          s.objs;
  }
]

-- What happens to the module: a call of it, or a receipt for the queue object `id`, which comes
-- only where a send awaits one.
pub data Event : Type 0 where
  enq : Call → String → Blob → Event
  receipt : Call → ℕ → Event
  offline : String → Event

unfoldable pub handle : Event → Msgqs → Msgqs
handle (enq call to m) s = (msgq_enq call to m s).0
handle (receipt call id) s = if ltb 0 (s.pending id) then on_msg_receipt call id s else s
handle (offline peer) s = msgq_peer_offline peer s

unfoldable pub run : List Event → Msgqs → Msgqs
run [] s = s
run (e ∷ es) s = run es (handle e s)
