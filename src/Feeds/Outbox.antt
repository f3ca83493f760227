-- ===== src/Feeds/Outbox.antt =====
-- What the notification loops do: they append to the outbox, and change nothing else.
use feeds_service.Prelude.{ℕ, String, ◌≡◌, ap, sym, ◌∙◌, List, [], ◌∷◌, ◌++◌, arith, map}
use mathlib.Core.List.{append_assoc, append-nil, map-append}
use feeds_service.Prelude.Tests.{if◌then◌else◌}
use feeds_service.Feeds.State.{
  Server, Env, Msg, Sent, ActiveSuber, send, notify_nodes, notify_subers, notify_owner, nodes_of,
}

-- The messages that reach the queue when `msg` is sent to each of `peers`.
abbrev pub copies : Env → Msg → List String → List Sent
copies env msg peers =
    if env.marshal_ok msg then map (λ p. record { peer = p; msg = msg }) peers else []

-- The nodes of the given subscribers, one after the other.
abbrev pub recipients : List ActiveSuber → List ℕ → List String
recipients ass [] = []
recipients ass (uid ∷ uids) = nodes_of ass uid ++ recipients ass uids

pub send_lem :
    (env : Env) (peer : String) (msg : Msg) (s : Server)
    → send env peer msg s ≡ record s { outbox = s.outbox ++ copies env msg (peer ∷ []) }
unfolding send
send_lem env peer msg s = ground (arith, append-nil s.outbox)

abbrev to_peer : Msg → String → Sent
to_peer msg p = record { peer = p; msg = msg }

copies-nil : (env : Env) (msg : Msg) → copies env msg [] ≡ []
copies-nil env msg = ground arith

copies-append :
    (env : Env) (msg : Msg) (xs ys : List String)
    → copies env msg (xs ++ ys) ≡ copies env msg xs ++ copies env msg ys
copies-append env msg xs ys = ground (arith, map-append (to_peer msg) xs ys)

-- One more stretch of messages behind those of the state before.
append_twice :
    (s : Server) (xs ys zs : List Sent)
    → xs ++ ys ≡ zs
    → record s { outbox = (s.outbox ++ xs) ++ ys } ≡ record s { outbox = s.outbox ++ zs }
append_twice s xs ys zs e =
    ap (λ o. record s { outbox = o }) (append_assoc s.outbox xs ys ∙ ap (◌++◌ s.outbox) e)

append_none : (s : Server) (xs : List Sent) → xs ≡ [] → s ≡ record s { outbox = s.outbox ++ xs }
append_none s xs e = rw (e, append-nil)

pub notify_nodes_lem :
    (env : Env) (msg : Msg) (nodes : List String) (s : Server)
    → notify_nodes env msg nodes s ≡ record s { outbox = s.outbox ++ copies env msg nodes }
unfolding notify_nodes
notify_nodes_lem env msg [] s = append_none s _ (copies-nil env msg)
notify_nodes_lem env msg (node ∷ nodes) s = rw (send_lem env node msg s) (
    notify_nodes_lem env msg nodes _
    ∙ append_twice s _ _ _ (sym (copies-append env msg (node ∷ []) nodes)))

pub notify_subers_lem :
    (env : Env) (msg : Msg) (uids : List ℕ) (s : Server)
    → notify_subers env msg uids s
      ≡ record s { outbox = s.outbox ++ copies env msg (recipients s.ass uids) }
unfolding notify_subers
notify_subers_lem env msg [] s = append_none s _ (copies-nil env msg)
notify_subers_lem env msg (uid ∷ uids) s = rw (notify_nodes_lem env msg (nodes_of s.ass uid) s) (
    notify_subers_lem env msg uids _
    ∙ append_twice s _ _ _
        (sym (copies-append env msg (nodes_of s.ass uid) (recipients s.ass uids))))

pub notify_owner_lem :
    (env : Env) (msg : Msg) (s : Server)
    → notify_owner env msg s ≡ record s { outbox = s.outbox ++ copies env msg (nodes_of s.ass 1) }
unfolding notify_owner
notify_owner_lem env msg s = notify_nodes_lem env msg (nodes_of s.ass 1) s
