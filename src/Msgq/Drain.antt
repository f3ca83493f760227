-- ===== src/Msgq/Drain.antt =====
-- A queue empties as the receipts come in, and stays as it is where none comes.
use feeds_service.Prelude.{
  ℕ, ◌-◌, ◌<◌, ◌≡◌, refl, ap, ◌∙◌, String, str_eq, eq_iff, true, false, none, some, List, [], ◌∷◌,
  ◌++◌, arith, inl, inr,
}
use mathlib.Core.List.{append_assoc, append-nil}
use feeds_service.Prelude.Tests.{ltb, Bool-cases, Option-cases}
use feeds_service.Obj.{Blob}
use feeds_service.Msgq.Maps.{at_id}
use feeds_service.Msgq.Defs.{
  MsgQ, Msgqs, Call, Event, enq, receipt, offline, send_of, enq_busy, enq_idle, msgq_enq, send_next,
  on_msg_receipt, msgq_peer_offline, handle, run,
}
use feeds_service.Msgq.Invariant.{IsLinked, handle-IsLinked}
use feeds_service.Msgq.Spec.{sent_to, waiting}
use feeds_service.Msgq.Fifo.{is_loss, is_reported, one_sent, next_sent, offline_sent}

-- A receipt for each message of a list, and one more.
pub receipts : Call → ℕ → List Blob → List Event
receipts call id [] = receipt call id ∷ []
receipts call id (m ∷ l) = receipt call id ∷ receipts call id l

-- A queue object in use of a peer, with the messages `l`, that awaits a receipt.
pub record IsBusy (s : Msgqs) (peer : String) (id : ℕ) (l : List Blob) : Type 0 where
  pub entry : s.msgqs peer ≡ some id
  pub queue : s.objs id ≡ some (record { peer = peer; q = l; depr = false })
  pub awaits : s.pending id ≡ 1

receipt_step :
    (call : Call) (s : Msgqs) (peer : String) (id : ℕ) (l : List Blob)
    → IsBusy s peer id l
    → handle (receipt call id) s
      ≡ send_next call id
          (record { peer = peer; q = l; depr = false })
          l
          (record s { pending = at_id id (s.pending id - 1) s.pending })
unfolding handle on_msg_receipt
receipt_step call s peer id l b =
    let more : ltb 0 (s.pending id) ≡ true = simp (b.awaits) refl in
    simp more (rw (b.queue, on_msg_receipt) refl)

next-IsBusy :
    (call : Call) (s : Msgqs) (peer : String) (id : ℕ) (m : Blob) (l : List Blob)
    → call.send_ok ≡ true
    → IsBusy s peer id (m ∷ l)
    → IsBusy (handle (receipt call id) s) peer id l
next-IsBusy call s peer id m l ok b = rw (receipt_step call s peer id (m ∷ l) b) (
    unfold send_next send_of in
    simp ok (record { entry = b.entry; queue = ground arith; awaits = ground (arith, b.awaits) }))

step_sent :
    (call : Call) (s : Msgqs) (peer : String) (id : ℕ) (m : Blob) (l : List Blob)
    → IsBusy s peer id (m ∷ l)
    → sent_to peer (handle (receipt call id) s).sent ≡ sent_to peer s.sent ++ m ∷ []
step_sent call s peer id m l b =
    rw (receipt_step call s peer id (m ∷ l) b)
      (unfold send_next send_of in ground (arith, one_sent peer peer m s.sent, eq_iff peer peer))

last_step :
    (call : Call) (s : Msgqs) (peer : String) (id : ℕ)
    → IsBusy s peer id []
    → (waiting (handle (receipt call id) s) peer ≡ none)
      × (sent_to peer (handle (receipt call id) s).sent ≡ sent_to peer s.sent)
last_step call s peer id b =
    rw (receipt_step call s peer id [] b)
      (unfold send_next waiting in ground (arith, eq_iff peer peer), unfold send_next in refl)

-- A queue of `l` messages that awaits a receipt needs no more than a receipt for each of them and
-- one more, if the transport takes each message: then all of them have been handed over to the
-- peer, in order, and the channel to it is idle.
pub run-receipts :
    (call : Call) (peer : String) (id : ℕ) (l : List Blob) (s : Msgqs)
    → call.send_ok ≡ true
    → IsBusy s peer id l
    → (waiting (run (receipts call id l) s) peer ≡ none)
      × (sent_to peer (run (receipts call id l) s).sent ≡ sent_to peer s.sent ++ l)
unfolding receipts run
run-receipts call peer id [] s ok b = rw append-nil (last_step call s peer id b)
run-receipts call peer id (m ∷ l) s ok b =
    let (idle, all) =
      run-receipts call peer id l (handle (receipt call id) s) ok
        (next-IsBusy call s peer id m l ok b) in
    (
      idle,
      all ∙ rw (step_sent call s peer id m l b) (append_assoc (sent_to peer s.sent) (m ∷ []) l),
    )

-- The queue object of a peer awaits no receipt.
record IsStuck (s : Msgqs) (peer : String) (id : ℕ) : Type 0 where
  entry : s.msgqs peer ≡ some id
  silent : s.pending id ≡ 0

module _ {s : Msgqs} (h : IsLinked s) (peer : String) (id : ℕ) (stuck : IsStuck s peer id) where
  -- Neither a step of the other peers nor one of this peer hands over a message to it.
  record Silent (t : Msgqs) : Type 0 where
    stays : IsStuck t peer id
    sent : sent_to peer t.sent ≡ sent_to peer s.sent

  enq-Silent : (call : Call) (to : String) (m : Blob) → Silent (msgq_enq call to m s).0
  unfolding msgq_enq enq_idle enq_busy send_of
  enq-Silent call to m = elim (Option-cases (s.msgqs to)) [
    | inl idle ↦
        let e = stuck.entry in
        let z = stuck.silent in
        let other : str_eq to peer ≡ false = ground (arith, eq_iff to peer) in
        rw (idle, msgq_enq)
          (record {
            stays = record {
              entry = ground (arith, eq_iff to peer, eq_iff peer to);
              silent = ground (arith, h.live peer id, h.fresh id);
            };
            sent = ground (arith, one_sent peer to m s.sent, append-nil (sent_to peer s.sent));
          })
    | inr (i, busy) ↦
        rw (busy, msgq_enq)
          (record {
            stays = record {
              entry = ground (arith, stuck.entry);
              silent = ground (arith, stuck.silent);
            };
            sent = ground arith;
          })
  ]

  next-IsStuck :
      (call : Call) (i : ℕ) (q : MsgQ) (l : List Blob)
      → 0 < s.pending i
      → str_eq q.peer peer ≡ false
      → IsStuck
          (send_next call i q l (record s { pending = at_id i (s.pending i - 1) s.pending }))
          peer
          id
  unfolding send_next send_of
  next-IsStuck call i q [] w other =
      let e = stuck.entry in
      let z = stuck.silent in
      record {
        entry = ground (arith, eq_iff q.peer peer, eq_iff peer q.peer);
        silent = ground arith;
      }
  next-IsStuck call i q (m ∷ l) w other =
      let e = stuck.entry in
      let z = stuck.silent in record { entry = ground arith; silent = ground arith }

  receipt-Silent : (call : Call) (i : ℕ) → 0 < s.pending i → Silent (on_msg_receipt call i s)
  unfolding on_msg_receipt
  receipt-Silent call i w = elim (Option-cases (s.objs i)) [
    | inl gone ↦ rw (gone, on_msg_receipt) spent
    | inr (q, found) ↦ elim (Bool-cases q.depr) [
      | inl out ↦ rw (found, on_msg_receipt) (simp out spent)
      | inr live ↦
          let there : s.msgqs q.peer ≡ some i =
            h.waits q.peer i (rw found (ground (arith, eq_iff q.peer q.peer))) w in
          let e = stuck.entry in
          let z = stuck.silent in
          let other : str_eq q.peer peer ≡ false = ground (arith, eq_iff q.peer peer) in
          rw (found, on_msg_receipt)
            (simp live (record {
              stays = next-IsStuck call i q q.q w other;
              sent =
                  next_sent h peer call i q q.q (at_id i (s.pending i - 1) s.pending)
                  ∙ rw (other, append-nil) refl;
            }))
    ]
  ]
    where
      apart : i ≡ id → s.pending i ≡ 0
      apart e = let z = stuck.silent in ground arith

      spent : Silent (record s { pending = at_id i (s.pending i - 1) s.pending })
      spent = record {
        stays = record { entry = stuck.entry; silent = ground (arith, stuck.silent, apart) };
        sent = refl;
      }

  offline-Silent : (p : String) → str_eq p peer ≡ false → Silent (msgq_peer_offline p s)
  offline-Silent p other = record {
    stays =
        unfold msgq_peer_offline in
        elim (Option-cases (s.msgqs p)) [
          | inl e ↦ rw (e, msgq_peer_offline) stuck
          | inr (i, e) ↦
              rw (e, msgq_peer_offline)
                (record {
                  entry = ground (arith, eq_iff p peer, eq_iff peer p, stuck.entry);
                  silent = stuck.silent;
                })
        ];
    sent = ap (sent_to peer) (offline_sent h peer p);
  }

  handle-Silent : (e : Event) → is_loss peer e ≡ false → Silent (handle e s)
  unfolding handle
  handle-Silent (enq call to m) kept = enq-Silent call to m
  handle-Silent (receipt call i) kept = elim (Bool-cases (ltb 0 (s.pending i))) [
    | inl e ↦ simp e (receipt-Silent call i (ground arith))
    | inr e ↦ simp e (record { stays = stuck; sent = refl })
  ]
  handle-Silent (offline p) kept = offline-Silent p kept

run_silent :
    (es : List Event) (s : Msgqs) (peer : String) (id : ℕ)
    → IsLinked s
    → IsStuck s peer id
    → is_reported peer es ≡ false
    → sent_to peer (run es s).sent ≡ sent_to peer s.sent
unfolding run
run_silent [] s peer id h stuck kept = refl
run_silent (e ∷ es) s peer id h stuck kept =
    let now : is_loss peer e ≡ false = ground arith in
    let later : is_reported peer es ≡ false = ground arith in
    let next = handle-Silent h peer id stuck e now in
    run_silent es (handle e s) peer id (handle-IsLinked h e) next.stays later ∙ next.sent

-- If the transport refuses the first message to an idle peer, which msgq_enq does not learn of and
-- reports as accepted, then no further message is handed over to that peer, whatever is accepted
-- for it, until the peer is reported offline.
pub run-msgq_enq :
    (es : List Event) (s : Msgqs) (peer : String) (m : Blob) (call : Call)
    → IsLinked s
    → s.msgqs peer ≡ none
    → call.alloc_ok ≡ true
    → call.send_ok ≡ false
    → is_reported peer es ≡ false
    → ((msgq_enq call peer m s).1 ≡ true)
      × (sent_to peer (run es (msgq_enq call peer m s).0).sent ≡ sent_to peer s.sent ++ m ∷ [])
unfolding msgq_enq enq_idle send_of
run-msgq_enq es s peer m call h idle alloc refused kept =
    let linked = handle-IsLinked h (enq call peer m) in
    (
      rw (idle, msgq_enq) (simp alloc refl),
      run_silent es (msgq_enq call peer m s).0 peer s.next (unfold handle in linked) first_stuck
            kept
          ∙ rw (idle, msgq_enq) (ground (arith, one_sent peer peer m s.sent, eq_iff peer peer)),
    )
  where
    first_stuck : IsStuck (msgq_enq call peer m s).0 peer s.next
    first_stuck =
        rw (idle, msgq_enq)
          (record {
            entry = ground (arith, eq_iff peer peer);
            silent = ground (arith, h.fresh s.next);
          })
