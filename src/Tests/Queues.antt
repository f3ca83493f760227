-- ===== src/Tests/Queues.antt =====
-- Two queues, and peers that come and go.
use feeds_service.Prelude.{◌≡◌, refl, true, false, none, [], ◌∷◌, ◌++◌, List}
use feeds_service.Msgq.Defs.{
  Msgqs, Call, Event, enq, receipt, offline, msgq_init, msgq_enq, enq_idle, enq_busy, send_of,
  handle, run,
}
use feeds_service.Msgq.Invariant.{IsLinked, msgq_init-IsLinked, run-IsLinked}
use feeds_service.Msgq.Spec.{sent_to, waiting, account}
use feeds_service.Msgq.Fifo.{accepted, run-account}
use feeds_service.Msgq.Drain.{IsBusy, receipts, run-receipts, run-msgq_enq}

abbrev works : Call
works = record { alloc_ok = true; send_ok = true }

abbrev refuses : Call
refuses = record { alloc_ok = true; send_ok = false }

-- Three messages to "a", one to "b", which goes offline, and a receipt for "a".
abbrev events : List Event
events =
    enq works "a" (1 ∷ [])
    ∷ enq works "b" (9 ∷ [])
    ∷ enq works "a" (2 ∷ [])
    ∷ offline "b"
    ∷ enq works "a" (3 ∷ [])
    ∷ receipt works 0
    ∷ []

run-IsLinked_example : IsLinked (run events msgq_init)
run-IsLinked_example = run-IsLinked events msgq_init msgq_init-IsLinked

run-account_example :
    account "a" (run events msgq_init) ≡ account "a" msgq_init ++ accepted "a" events msgq_init
run-account_example = run-account events msgq_init "a" msgq_init-IsLinked refl

-- "a" awaits a receipt, and two messages wait for it.
abbrev three : Msgqs
three =
    run (enq works "a" (1 ∷ []) ∷ enq works "a" (2 ∷ []) ∷ enq works "a" (3 ∷ []) ∷ []) msgq_init

three-IsBusy : IsBusy three "a" 0 ((2 ∷ []) ∷ (3 ∷ []) ∷ [])
unfolding run handle msgq_enq enq_idle enq_busy send_of msgq_init
three-IsBusy = record { entry = refl; queue = refl; awaits = refl }

run-receipts_example :
    (waiting (run (receipts works 0 ((2 ∷ []) ∷ (3 ∷ []) ∷ [])) three) "a" ≡ none)
    × (sent_to "a" (run (receipts works 0 ((2 ∷ []) ∷ (3 ∷ []) ∷ [])) three).sent
        ≡ sent_to "a" three.sent ++ (2 ∷ []) ∷ (3 ∷ []) ∷ [])
run-receipts_example = run-receipts works "a" 0 ((2 ∷ []) ∷ (3 ∷ []) ∷ []) three refl three-IsBusy

run-msgq_enq_example :
    ((msgq_enq refuses "a" (7 ∷ []) msgq_init).1 ≡ true)
    × (sent_to "a"
          (run
            (enq works "a" (8 ∷ []) ∷ receipt works 0 ∷ enq works "b" [] ∷ [])
            (msgq_enq refuses "a" (7 ∷ []) msgq_init).0).sent
        ≡ sent_to "a" msgq_init.sent ++ (7 ∷ []) ∷ [])
unfolding msgq_init
run-msgq_enq_example =
    run-msgq_enq (enq works "a" (8 ∷ []) ∷ receipt works 0 ∷ enq works "b" [] ∷ []) msgq_init "a"
      (7 ∷ []) refuses msgq_init-IsLinked refl refl refl refl
