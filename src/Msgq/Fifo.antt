-- ===== src/Msgq/Fifo.antt =====
-- Messages to a peer go out in the order in which they came in.
use feeds_service.Prelude.{
  ℕ, ◌-◌, ◌<◌, ◌≡◌, refl, sym, ap, ◌∙◌, String, str_eq, eq_iff, Bool, true, false, ◌&&◌, ◌||◌, none,
  some, List, [], ◌∷◌, ◌++◌, arith, inl, inr,
}
use mathlib.Core.List.{append_assoc, append-nil}
use feeds_service.Prelude.Tests.{ltb, if◌then◌else◌, Bool-cases, Option-cases}
use feeds_service.Obj.{Blob}
use feeds_service.Msgq.Maps.{at_id}
use feeds_service.Msgq.Defs.{
  MsgQ, Msgqs, Sending, Call, Event, enq, receipt, offline, send_of, enq_busy, enq_idle, msgq_enq,
  send_next, on_msg_receipt, msgq_peer_offline, handle, run,
}
use feeds_service.Msgq.Invariant.{IsLinked, handle-IsLinked}
use feeds_service.Msgq.Spec.{sent_to, sent_to-append, waiting, list_of, account}

-- The message that an event accepts for a peer: `msgq_enq` has returned 0 for it.
abbrev accepts : String → Event → Msgqs → List Blob
accepts peer (enq call to m) s = if str_eq to peer && (msgq_enq call to m s).1 then m ∷ [] else []
accepts peer (receipt call id) s = []
accepts peer (offline p) s = []

pub accepted : String → List Event → Msgqs → List Blob
accepted peer [] s = []
accepted peer (e ∷ es) s = accepts peer e s ++ accepted peer es (handle e s)

-- The peer is reported offline.
abbrev pub is_loss : String → Event → Bool
is_loss peer (offline p) = str_eq p peer
is_loss peer _ = false

abbrev pub is_reported : String → List Event → Bool
is_reported peer [] = false
is_reported peer (e ∷ es) = is_loss peer e || is_reported peer es

pub one_sent :
    (peer to : String) (m : Blob) (xs : List Sending)
    → sent_to peer (xs ++ record { peer = to; msg = m } ∷ [])
      ≡ sent_to peer xs ++ (if str_eq to peer then m ∷ [] else [])
one_sent peer to m xs =
    sent_to-append peer xs (record { peer = to; msg = m } ∷ [])
    ∙ ap (◌++◌ (sent_to peer xs)) (last (str_eq to peer) refl)
  where
    last :
        (b : Bool)
        → str_eq to peer ≡ b
        → sent_to peer (record { peer = to; msg = m } ∷ []) ≡ (if b then m ∷ [] else [])
    last true e = unfold sent_to in rw e refl
    last false e = unfold sent_to in rw e refl

module _ {s : Msgqs} (h : IsLinked s) (peer : String) where
  idle_waiting :
      (call : Call) (to : String) (m : Blob)
      → s.msgqs to ≡ none
      → waiting (enq_idle call to m s).0 peer
        ≡ (if str_eq peer to && call.alloc_ok then some [] else waiting s peer)
  unfolding enq_idle send_of waiting
  idle_waiting call to m idle = elim (Option-cases (s.msgqs peer)) [
    | inl e ↦ ground (arith, eq_iff peer to)
    | inr (id, e) ↦ ground (arith, eq_iff peer to, h.live peer id, h.fresh id)
  ]

  idle_sent :
      (call : Call) (to : String) (m : Blob)
      → sent_to peer (enq_idle call to m s).0.sent
        ≡ sent_to peer s.sent ++ (if str_eq to peer && call.alloc_ok then m ∷ [] else [])
  unfolding enq_idle send_of
  idle_sent call to m = ground (arith, one_sent peer to m s.sent, append-nil (sent_to peer s.sent))

  -- Two peers with one queue object are the same.
  busy_waiting :
      (call : Call) (to : String) (id : ℕ) (m : Blob)
      → s.msgqs to ≡ some id
      → waiting (enq_busy call id m s).0 peer ≡ (
          if str_eq peer to && call.alloc_ok
          then some (list_of (waiting s peer) ++ m ∷ [])
          else waiting s peer)
  unfolding enq_busy waiting
  busy_waiting call to id m busy = elim (Option-cases (s.objs id)) [
    | inl gone ↦ let l = h.live to id busy in ground arith
    | inr (q, found) ↦
        let l = h.live to id busy in
        elim (Option-cases (s.msgqs peer)) [
          | inl e ↦ ground (arith, eq_iff peer to)
          | inr (i, e) ↦
              ground (arith, eq_iff peer to, eq_iff q.peer to, eq_iff q.peer peer, h.live peer i)
        ]
  ]

  next_waiting :
      (call : Call) (id : ℕ) (q : MsgQ) (l : List Blob) (pending : ℕ → ℕ)
      → s.objs id ≡ some q
      → s.msgqs q.peer ≡ some id
      → waiting (send_next call id q l (record s { pending = pending })) peer ≡ (
          if str_eq peer q.peer
          then (elim l [ [] ↦ none | m ∷ rest ↦ some rest ])
          else waiting s peer)
  unfolding send_next send_of waiting
  next_waiting call id q [] pending found there = elim (Option-cases (s.msgqs peer)) [
    | inl e ↦ ground (arith, eq_iff peer q.peer)
    | inr (i, e) ↦ ground (arith, eq_iff peer q.peer)
  ]
  next_waiting call id q (m ∷ l) pending found there = elim (Option-cases (s.msgqs peer)) [
    | inl e ↦ ground (arith, eq_iff peer q.peer)
    | inr (i, e) ↦ ground (arith, eq_iff peer q.peer, eq_iff q.peer peer, h.live peer i)
  ]

  pub next_sent :
      (call : Call) (id : ℕ) (q : MsgQ) (l : List Blob) (pending : ℕ → ℕ)
      → sent_to peer (send_next call id q l (record s { pending = pending })).sent
        ≡ sent_to peer s.sent
          ++ (if str_eq q.peer peer then (elim l [ [] ↦ [] | m ∷ rest ↦ m ∷ [] ]) else [])
  unfolding send_next send_of
  next_sent call id q [] pending = ground (arith, append-nil (sent_to peer s.sent))
  next_sent call id q (m ∷ l) pending = one_sent peer q.peer m s.sent

  offline_waiting :
      (p : String) → str_eq p peer ≡ false → waiting (msgq_peer_offline p s) peer ≡ waiting s peer
  unfolding msgq_peer_offline waiting
  offline_waiting p other = elim (Option-cases (s.msgqs p)) [
    | inl e ↦ rw (e, msgq_peer_offline) refl
    | inr (id, e) ↦ elim (Option-cases (s.objs id)) [
      | inl gone ↦ let l = h.live p id e in ground arith
      | inr (q, found) ↦
          let l = h.live p id e in
          elim (Option-cases (s.msgqs peer)) [
            | inl f ↦ ground (arith, eq_iff peer p, eq_iff p peer)
            | inr (i, f) ↦ ground (
              arith,
              eq_iff peer p,
              eq_iff p peer,
              eq_iff q.peer p,
              eq_iff q.peer peer,
              h.live peer i,
            )
          ]
    ]
  ]

  pub offline_sent : (p : String) → (msgq_peer_offline p s).sent ≡ s.sent
  unfolding msgq_peer_offline
  offline_sent p = elim (Option-cases (s.msgqs p)) [
    | inl e ↦ rw (e, msgq_peer_offline) refl
    | inr (id, e) ↦ rw (e, msgq_peer_offline) refl
  ]

  enq_account :
      (call : Call) (to : String) (m : Blob)
      → account peer (msgq_enq call to m s).0
        ≡ account peer s ++ (if str_eq to peer && (msgq_enq call to m s).1 then m ∷ [] else [])
  unfolding msgq_enq enq_idle enq_busy
  enq_account call to m = elim (Option-cases (s.msgqs to)) [
    | inl idle ↦
        rw (idle, msgq_enq)
          (ground (
            arith,
            eq_iff peer to,
            eq_iff to peer,
            idle_waiting call to m idle,
            idle_sent call to m,
            idle_none idle,
            append-nil (sent_to peer s.sent),
            append-nil (sent_to peer s.sent ++ m ∷ []),
            append-nil (account peer s),
          ))
    | inr (id, busy) ↦
        rw (busy, msgq_enq)
          (ground (
            arith,
            eq_iff peer to,
            eq_iff to peer,
            busy_waiting call to id m busy,
            append-nil (account peer s),
            append_assoc (sent_to peer s.sent) (list_of (waiting s peer)) (m ∷ []),
          ))
  ]
    where
      idle_none : s.msgqs to ≡ none → str_eq peer to ≡ true → waiting s peer ≡ none
      idle_none e same = unfold waiting in ground (arith, eq_iff peer to)

  own_queue :
      (id : ℕ) (q : MsgQ)
      → s.objs id ≡ some q
      → s.msgqs q.peer ≡ some id
      → waiting s q.peer ≡ some q.q
  unfolding waiting
  own_queue id q found there = rw (there, waiting) (rw found refl)

  send_account :
      (call : Call) (id : ℕ) (q : MsgQ) (l : List Blob) (pending : ℕ → ℕ)
      → s.objs id ≡ some q
      → s.msgqs q.peer ≡ some id
      → q.q ≡ l
      → account peer (send_next call id q l (record s { pending = pending })) ≡ account peer s
  send_account call id q [] pending found there e = ground (
    arith,
    eq_iff peer q.peer,
    eq_iff q.peer peer,
    next_waiting call id q [] pending found there,
    next_sent call id q [] pending,
    own_queue id q found there,
    append-nil (sent_to peer s.sent),
  )
  send_account call id q (m ∷ l) pending found there e = ground (
    arith,
    eq_iff peer q.peer,
    eq_iff q.peer peer,
    next_waiting call id q (m ∷ l) pending found there,
    next_sent call id q (m ∷ l) pending,
    own_queue id q found there,
    append-nil (sent_to peer s.sent),
    append_assoc (sent_to peer s.sent) (m ∷ []) l,
  )

  receipt_account :
      (call : Call) (id : ℕ)
      → 0 < s.pending id
      → account peer (on_msg_receipt call id s) ≡ account peer s
  unfolding on_msg_receipt
  receipt_account call id w = elim (Option-cases (s.objs id)) [
    | inl gone ↦ rw (gone, on_msg_receipt) (unfold waiting in refl)
    | inr (q, found) ↦ elim (Bool-cases q.depr) [
      | inl out ↦ rw (found, on_msg_receipt) (simp out (unfold waiting in refl))
      | inr live ↦
          let there : s.msgqs q.peer ≡ some id =
            h.waits q.peer id (rw found (ground (arith, eq_iff q.peer q.peer))) w in
          rw (found, on_msg_receipt)
            (simp live
              (send_account call id q q.q (at_id id (s.pending id - 1) s.pending) found there refl))
    ]
  ]

  offline_account :
      (p : String) → str_eq p peer ≡ false → account peer (msgq_peer_offline p s) ≡ account peer s
  offline_account p other = simp (offline_sent p, offline_waiting p other)

  account-handle :
      (e : Event)
      → is_loss peer e ≡ false
      → account peer (handle e s) ≡ account peer s ++ accepts peer e s
  unfolding handle
  account-handle (enq call to m) kept = enq_account call to m
  account-handle (receipt call id) kept = elim (Bool-cases (ltb 0 (s.pending id))) [
    | inl e ↦ rw (e, append-nil) (receipt_account call id (ground arith))
    | inr e ↦ rw (e, append-nil) refl
  ]
  account-handle (offline p) kept = rw append-nil (offline_account p kept)

-- First in, first out: from a linked state, over any calls and receipts in which the peer is not
-- reported offline, the messages handed over to the peer, followed by those that still wait for it,
-- are those of the start followed by the messages that msgq_enq has accepted for the peer, in
-- order. None is lost, doubled or overtaken, whatever happens to other peers.
pub run-account :
    (es : List Event) (s : Msgqs) (peer : String)
    → IsLinked s
    → is_reported peer es ≡ false
    → account peer (run es s) ≡ account peer s ++ accepted peer es s
unfolding run accepted
run-account [] s peer h kept = sym (append-nil (account peer s))
run-account (e ∷ es) s peer h kept =
    let now : is_loss peer e ≡ false = ground arith in
    let later : is_reported peer es ≡ false = ground arith in
    run-account es (handle e s) peer (handle-IsLinked h e) later
    ∙ rw (account-handle h peer e now)
        (append_assoc (account peer s) (accepts peer e s) (accepted peer es (handle e s)))
