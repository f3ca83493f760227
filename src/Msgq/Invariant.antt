-- ===== src/Msgq/Invariant.antt =====
-- What holds of the queue objects, the table and the outstanding receipts.
use feeds_service.Prelude.{
  ℕ, ◌-◌, ◌≤◌, ◌<◌, ◌≡◌, refl, String, str_eq, eq_iff, Bool, true, false, not, ◌&&◌, Option, none,
  some, List, [], ◌∷◌, arith, inl, inr,
}
use feeds_service.Prelude.Tests.{ltb, Bool-cases, Option-cases}
use feeds_service.Obj.{Blob}
use feeds_service.Msgq.Maps.{at_id}
use feeds_service.Msgq.Defs.{
  MsgQ, Msgqs, Call, Event, enq, receipt, offline, msgq_init, send_of, enq_busy, enq_idle, msgq_enq,
  send_next, on_msg_receipt, msgq_peer_offline, handle, run,
}

-- A queue object in use, to the given peer.
abbrev pub is_queue_to : String → Option MsgQ → Bool
is_queue_to peer none = false
is_queue_to peer (some q) = str_eq q.peer peer && not q.depr

pub record IsLinked (s : Msgqs) : Type 0 where
  -- The table leads to a queue object of the peer.
  pub live : (peer : String) (id : ℕ) → s.msgqs peer ≡ some id → is_queue_to peer (s.objs id) ≡ true
  -- A queue object in use that awaits a receipt is in the table.
  pub waits :
      (peer : String) (id : ℕ)
      → is_queue_to peer (s.objs id) ≡ true
      → 0 < s.pending id
      → s.msgqs peer ≡ some id
  pub one : (id : ℕ) → s.pending id ≤ 1
  pub fresh : (id : ℕ) → s.next ≤ id → (s.objs id ≡ none) × (s.pending id ≡ 0)

pub msgq_init-IsLinked : IsLinked msgq_init
unfolding msgq_init
msgq_init-IsLinked = record {
  live = λ peer id h. ground arith;
  waits = λ peer id h w. ground arith;
  one = λ id. omega arith;
  fresh = λ id h. (refl, refl);
}

module _ {s : Msgqs} (h : IsLinked s) where
  enq_idle-IsLinked :
      (call : Call) (to : String) (m : Blob) → s.msgqs to ≡ none → IsLinked (enq_idle call to m s).0
  unfolding enq_idle send_of
  enq_idle-IsLinked call to m idle = elim (Bool-cases call.alloc_ok) [
    | inr e ↦ simp e h
    | inl e ↦ simp e (record {
      live = λ peer id l.
          ground
            (arith, eq_iff peer to, eq_iff to peer, h.live peer id, h.fresh id, h.fresh s.next);
      waits = λ peer id q w.
          ground
            (arith, eq_iff peer to, eq_iff to peer, h.waits peer id, h.fresh id, h.fresh s.next);
      one = λ id. ground (arith, h.one id, h.fresh s.next);
      fresh = λ id l. ground (arith, h.fresh id);
    })
  ]

  enq_busy-IsLinked : (call : Call) (id : ℕ) (m : Blob) → IsLinked (enq_busy call id m s).0
  unfolding enq_busy
  enq_busy-IsLinked call id m = elim (Bool-cases call.alloc_ok) [
    | inr e ↦ simp e h
    | inl e ↦ simp e (record {
      live = λ peer i l. ground (arith, h.live peer i);
      waits = λ peer i q w. ground (arith, h.waits peer i);
      one = h.one;
      fresh = λ i l. ground (arith, h.fresh i);
    })
  ]

  msgq_enq-IsLinked : (call : Call) (to : String) (m : Blob) → IsLinked (msgq_enq call to m s).0
  unfolding msgq_enq
  msgq_enq-IsLinked call to m = elim (Option-cases (s.msgqs to)) [
    | inl idle ↦ rw (idle, msgq_enq) (enq_idle-IsLinked call to m idle)
    | inr (id, busy) ↦ rw (busy, msgq_enq) (enq_busy-IsLinked call id m)
  ]

  -- A receipt that finds a queue object out of use, or in use with nothing to send.
  spent-IsLinked :
      (id : ℕ)
      → ((peer : String) → is_queue_to peer (s.objs id) ≡ false)
      → IsLinked (record s { pending = at_id id (s.pending id - 1) s.pending })
  spent-IsLinked id out = record {
    live = h.live;
    waits = λ peer i q w. ground (arith, out peer, h.waits peer i);
    one = λ i. ground (arith, h.one i, h.one id);
    fresh = λ i l. ground (arith, h.fresh i, h.fresh id);
  }

  send_next-IsLinked :
      (call : Call) (id : ℕ) (q : MsgQ) (l : List Blob)
      → s.objs id ≡ some q
      → q.depr ≡ false
      → 0 < s.pending id
      → IsLinked
          (send_next call id q l (record s { pending = at_id id (s.pending id - 1) s.pending }))
  unfolding send_next send_of
  send_next-IsLinked call id q [] found live w = record {
    live = λ peer i l. ground (
      arith,
      eq_iff peer q.peer,
      eq_iff q.peer peer,
      eq_iff q.peer q.peer,
      h.live peer i,
      h.waits q.peer id,
    );
    waits = λ peer i r v. ground (
      arith,
      eq_iff peer q.peer,
      eq_iff q.peer peer,
      eq_iff q.peer q.peer,
      h.waits peer i,
      h.one i,
      h.live peer i,
      h.waits q.peer id,
    );
    one = λ i. ground (arith, h.one i, h.one id);
    fresh = λ i l. ground (arith, h.fresh i, h.fresh id);
  }
  send_next-IsLinked call id q (m ∷ l) found live w = record {
    live = λ peer i k. ground (arith, h.live peer i);
    waits = λ peer i r v. ground (arith, h.waits peer i, h.one i);
    one = λ i. ground (arith, h.one i, h.one id);
    fresh = λ i k. ground (arith, h.fresh i, h.fresh id);
  }

  on_msg_receipt-IsLinked :
      (call : Call) (id : ℕ) → 0 < s.pending id → IsLinked (on_msg_receipt call id s)
  unfolding on_msg_receipt
  on_msg_receipt-IsLinked call id w = elim (Option-cases (s.objs id)) [
    | inl gone ↦ rw (gone, on_msg_receipt) (spent-IsLinked id (λ peer. rw gone refl))
    | inr (q, found) ↦ elim (Bool-cases q.depr) [
      | inl out ↦ rw (found, on_msg_receipt, out) (spent-IsLinked id (λ peer. ground arith))
      | inr live ↦
          rw (found, on_msg_receipt) (simp live (send_next-IsLinked call id q q.q found live w))
    ]
  ]

  msgq_peer_offline-IsLinked : (peer : String) → IsLinked (msgq_peer_offline peer s)
  unfolding msgq_peer_offline
  msgq_peer_offline-IsLinked peer = elim (Option-cases (s.msgqs peer)) [
    | inl idle ↦ rw (idle, msgq_peer_offline) h
    | inr (id, busy) ↦ elim (Option-cases (s.objs id)) [
      | inl gone ↦ let l = h.live peer id busy in ground arith
      | inr (r, found) ↦
          let l = h.live peer id busy in
          rw (busy, msgq_peer_offline)
            (rw found (record {
              live = λ p i k.
                  ground (arith, eq_iff p peer, eq_iff r.peer p, eq_iff r.peer peer, h.live p i);
              waits = λ p i k w. ground (
                arith,
                eq_iff p peer,
                eq_iff r.peer p,
                eq_iff r.peer peer,
                h.waits p i,
                h.live p i,
              );
              one = h.one;
              fresh = λ i k. ground (arith, h.fresh i);
            }))
    ]
  ]

  pub handle-IsLinked : (e : Event) → IsLinked (handle e s)
  unfolding handle
  handle-IsLinked (enq call to m) = msgq_enq-IsLinked call to m
  handle-IsLinked (receipt call id) = elim (Bool-cases (ltb 0 (s.pending id))) [
    | inl e ↦ simp e (on_msg_receipt-IsLinked call id (ground arith))
    | inr e ↦ simp e h
  ]
  handle-IsLinked (offline peer) = msgq_peer_offline-IsLinked peer

-- After any calls and receipts each entry of the table leads to a queue object in use of its own
-- peer, a queue object that awaits a receipt and is in use is in the table, and no queue object
-- awaits more than one receipt: at most one message of a queue is on its way.
pub run-IsLinked : (es : List Event) (s : Msgqs) → IsLinked s → IsLinked (run es s)
unfolding run
run-IsLinked [] s h = h
run-IsLinked (e ∷ es) s h = run-IsLinked es (handle e s) (handle-IsLinked h e)
