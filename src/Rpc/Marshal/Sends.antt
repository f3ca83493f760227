-- ===== src/Rpc/Marshal/Sends.antt =====
-- src/feeds.c and src/rpc.c: when a handler enqueues only messages that their receivers can decode.
use feeds_service.Prelude.{
  ℕ, String, ◌≡◌, refl, Bool, true, false, Option, none, some, List, [], ◌∷◌, ◌++◌, inl, inr, map,
}
use feeds_service.Prelude.Tests.{Bool-cases}
use feeds_service.Obj.{UserInfo, Error}
use feeds_service.Feeds.State.{
  Server, Env, Exit, ret, quit, fail, abort, Sent, Msg, err_resp, finish, send, notify_subers,
  ready, require, or_fail, ◌>>=◌, ◌>>◌,
}
use feeds_service.Feeds.Outbox.{copies, recipients, send_lem, notify_subers_lem}
use feeds_service.Rpc.Marshal.Objects.{is_object}
use feeds_service.Rpc.Marshal.Messages.{rpc_marshal, is_packable, rpc_marshal-is_object}

module _ (owner : UserInfo) where
  abbrev pub IsDecodable : Msg → Type 0
  IsDecodable msg = is_object (rpc_marshal owner msg) ≡ true

  pub data AreDecodable : List Sent → Type 0 where
    no_message : AreDecodable []
    one_message :
        {m : Sent} {ms : List Sent} → IsDecodable m.msg → AreDecodable ms → AreDecodable (m ∷ ms)

  -- How a handler's body ends.
  abbrev pub IsGood : Exit (Server × Msg) → Type 0
  IsGood (ret (s, msg)) = AreDecodable s.outbox × IsDecodable msg
  IsGood (quit s) = AreDecodable s.outbox
  IsGood (fail s e) = AreDecodable s.outbox
  IsGood (abort s) = AreDecodable s.outbox

module _ {owner : UserInfo} where
  both :
      {xs ys : List Sent}
      → AreDecodable owner xs
      → AreDecodable owner ys
      → AreDecodable owner (xs ++ ys)
  both no_message h = h
  both (one_message m ms) h = one_message m (both ms h)

  to_all :
      (msg : Msg) (peers : List String)
      → IsDecodable owner msg
      → AreDecodable owner (map (λ p. record { peer = p; msg = msg }) peers)
  to_all msg [] h = no_message
  to_all msg (p ∷ ps) h = one_message h (to_all msg ps h)

  copied :
      (env : Env) (msg : Msg) (peers : List String)
      → IsDecodable owner msg
      → AreDecodable owner (copies env msg peers)
  copied env msg peers h = elim (Bool-cases (env.marshal_ok msg)) [
    | inl e ↦ rw e (to_all msg peers h)
    | inr e ↦ rw e no_message
  ]

  pub notified :
      (env : Env) (msg : Msg) (uids : List ℕ) (s : Server)
      → AreDecodable owner s.outbox
      → IsDecodable owner msg
      → AreDecodable owner (notify_subers env msg uids s).outbox
  notified env msg uids s h m =
      rw (notify_subers_lem env msg uids s) (both h (copied env msg (recipients s.ass uids) m))

  sent :
      (env : Env) (peer : String) (msg : Msg) (s : Server)
      → AreDecodable owner s.outbox
      → IsDecodable owner msg
      → AreDecodable owner (send env peer msg s).outbox
  sent env peer msg s h m = rw (send_lem env peer msg s) (both h (copied env msg (peer ∷ []) m))

  pub finish-AreDecodable :
      (env : Env) (from : String) (tsx : ℕ) (e : Exit (Server × Msg))
      → IsGood owner e
      → AreDecodable owner (finish env from tsx e).outbox
  unfolding finish
  finish-AreDecodable env from tsx (ret (s, resp)) h = sent env from resp s h.0 h.1
  finish-AreDecodable env from tsx (quit s) h = h
  finish-AreDecodable env from tsx (fail s e) h =
      sent env from (err_resp tsx e) s h
        (unfold is_packable in rpc_marshal-is_object owner (err_resp tsx e))
  finish-AreDecodable env from tsx (abort s) h = h

  module _ (s : Server) (h : AreDecodable owner s.outbox) (k : Exit (Server × Msg)) where
    pub ready-IsGood : (env : Env) → IsGood owner k → IsGood owner (ready env s >> k)
    ready-IsGood env g = elim (Bool-cases env.did_is_ready) [ inl e ↦ rw e g | inr e ↦ rw e h ]

    pub require-IsGood : (b : Bool) (e : Error) → IsGood owner k → IsGood owner (require b s e >> k)
    require-IsGood true e g = g
    require-IsGood false e g = h

  pub or_fail-IsGood :
      {A : Type 0}
      → (s : Server) → AreDecodable owner s.outbox
      → (o : Option A) (e : Error) (f : A → Exit (Server × Msg))
      → ((a : A) → o ≡ some a → IsGood owner (f a))
      → IsGood owner (or_fail o s e >>= f)
  or_fail-IsGood s h none e f g = h
  or_fail-IsGood s h (some a) e f g = g a refl
