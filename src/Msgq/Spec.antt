-- ===== src/Msgq/Spec.antt =====
-- The queue of one peer, seen from outside: what waits for it, and what has been handed over.
use feeds_service.Prelude.{
  ◌≡◌, refl, String, str_eq, Option, none, some, List, [], ◌∷◌, ◌++◌, arith,
}
use feeds_service.Prelude.Tests.{if◌then◌else◌}
use feeds_service.Obj.{Blob}
use feeds_service.Msgq.Defs.{MsgQ, Msgqs, Sending}

-- The messages handed over to a peer, oldest first.
unfoldable pub sent_to : String → List Sending → List Blob
sent_to peer [] = []
sent_to peer (x ∷ xs) =
    let rest = sent_to peer xs in if str_eq x.peer peer then x.msg ∷ rest else rest

pub sent_to-append :
    (peer : String) (xs ys : List Sending)
    → sent_to peer (xs ++ ys) ≡ sent_to peer xs ++ sent_to peer ys
unfolding sent_to
sent_to-append peer [] ys = refl
sent_to-append peer (x ∷ xs) ys = ground (arith, sent_to-append peer xs ys)

abbrev pub messages : Option MsgQ → Option (List Blob)
messages none = none
messages (some q) = some q.q

-- `none`: the channel to the peer is idle.
unfoldable pub waiting : Msgqs → String → Option (List Blob)
waiting s peer = elim (s.msgqs peer) [ none ↦ none | some id ↦ messages (s.objs id) ]

abbrev pub list_of : Option (List Blob) → List Blob
list_of none = []
list_of (some l) = l

-- All that has been handed over to a peer or waits for it.
abbrev pub account : String → Msgqs → List Blob
account peer s = sent_to peer s.sent ++ list_of (waiting s peer)
