-- ===== src/Feeds/Rules/Exits.antt =====
-- Rules for what a handler's body leaves behind on each of its ways out.
use feeds_service.Prelude.{
  ℕ, String, ◌≡◌, refl, Bool, true, false, Option, none, some, List, [], ◌∷◌, inl, inr,
}
use feeds_service.Prelude.Tests.{Bool-cases}
use feeds_service.Obj.{Error, CmtInfo, cmt_stat_str}
use feeds_service.Feeds.State.{
  Server, Env, Sent, Msg, err_resp, cmt_upd_notif, Exit, ret, quit, fail, abort, ◌>>=◌, ◌>>◌,
  require, or_fail, ready, finish, send, notify_subers, notify_owner, nodes_of,
}
use feeds_service.Feeds.Comments.{notify_of_cmt_upd, notify_cmt_nodes, notify_cmt_subers}
use feeds_service.Feeds.Outbox.{send_lem, notify_subers_lem, notify_owner_lem}

abbrev pub LeavesAt {ℓ κ} : {A : Type ℓ} → (Server → Type κ) → (A → Type κ) → Exit A → Type κ
LeavesAt P Q (ret a) = Q a
LeavesAt P Q (quit s) = P s
LeavesAt P Q (fail s e) = P s
LeavesAt P Q (abort s) = P s

-- `P` holds of the state that the body leaves when it stops, and `Q` of its result.
pub record Leaves {ℓ κ} {A : Type ℓ} (P : Server → Type κ) (Q : A → Type κ) (m : Exit A)
    : Type κ where
  pub at : LeavesAt P Q m

-- A predicate that says nothing of the outbox or of whether the process still runs.
pub record IgnoresOutbox {κ} (P : Server → Type κ) : Type κ where
  pub at_outbox : (s : Server) (o : List Sent) → P s → P (record s { outbox = o })
  pub at_abort : (s : Server) (b : Bool) → P s → P (record s { aborted = b })

module _ {ℓ κ} {A : Type ℓ} {P : Server → Type κ} {Q : A → Type κ} where
  pub Leaves-ret : (a : A) → Q a → Leaves P Q (ret a)
  Leaves-ret a h = record { at = h }

  pub Leaves-abort : (s : Server) → P s → Leaves P Q (abort s)
  Leaves-abort s h = record { at = h }

  pub Leaves-ready :
      (env : Env) (s : Server) (k : Exit A) → P s → Leaves P Q k → Leaves P Q (ready env s >> k)
  Leaves-ready env s k h hk = elim (Bool-cases env.did_is_ready) [
    | inl e ↦ rw e hk
    | inr e ↦ rw e (record { at = h })
  ]

  pub Leaves-require :
      (b : Bool) (s : Server) (e : Error) (k : Exit A)
      → P s
      → (b ≡ true → Leaves P Q k)
      → Leaves P Q (require b s e >> k)
  Leaves-require true s e k h hk = hk refl
  Leaves-require false s e k h hk = record { at = h }

  pub Leaves-or_fail {ι} :
      {B : Type ι} (o : Option B) (s : Server) (e : Error) (f : B → Exit A)
      → P s
      → ((b : B) → o ≡ some b → Leaves P Q (f b))
      → Leaves P Q (or_fail o s e >>= f)
  Leaves-or_fail none s e f h hf = record { at = h }
  Leaves-or_fail (some b) s e f h hf = hf b refl

module _ {κ} {P : Server → Type κ} where
  pub Leaves-bind {ℓ ι} :
      {A : Type ℓ} {B : Type ι} {Q : A → Type κ} {R : B → Type κ} (m : Exit A) (f : A → Exit B)
      → Leaves P Q m
      → ((a : A) → Q a → Leaves P R (f a))
      → Leaves P R (m >>= f)
  Leaves-bind (ret a) f hm hf = hf a hm.at
  Leaves-bind (quit s) f hm hf = record { at = hm.at }
  Leaves-bind (fail s e) f hm hf = record { at = hm.at }
  Leaves-bind (abort s) f hm hf = record { at = hm.at }

module _ {κ} {P : Server → Type κ} (ign : IgnoresOutbox P) (env : Env) where
  pub send_keeps : (peer : String) (msg : Msg) (s : Server) → P s → P (send env peer msg s)
  send_keeps peer msg s h = rw (send_lem env peer msg s) (ign.at_outbox s _ h)

  pub notify_subers_keeps :
      (msg : Msg) (uids : List ℕ) (s : Server) → P s → P (notify_subers env msg uids s)
  notify_subers_keeps msg uids s h = rw (notify_subers_lem env msg uids s) (ign.at_outbox s _ h)

  pub notify_owner_keeps : (msg : Msg) (s : Server) → P s → P (notify_owner env msg s)
  notify_owner_keeps msg s h = rw (notify_owner_lem env msg s) (ign.at_outbox s _ h)

  logged_keeps :
      (o : Option String) (msg : Msg) (peer : String) (s : Server)
      → P s
      → Leaves P P
          (elim o as (λ _. Exit Server) [ none ↦ abort s | some _ ↦ ret (send env peer msg s) ])
  logged_keeps none msg peer s h = record { at = h }
  logged_keeps (some t) msg peer s h = record { at = send_keeps peer msg s h }

  notify_of_cmt_upd_keeps :
      (ci : CmtInfo) (peer : String) (s : Server)
      → P s
      → Leaves P P (notify_of_cmt_upd env ci peer s)
  unfolding notify_of_cmt_upd
  notify_of_cmt_upd_keeps ci peer s h = elim (Bool-cases (env.marshal_ok (cmt_upd_notif ci))) [
    | inl e ↦ rw e (logged_keeps (cmt_stat_str ci.stat) (cmt_upd_notif ci) peer s h)
    | inr e ↦ rw e (record { at = h })
  ]

  notify_cmt_nodes_keeps :
      (ci : CmtInfo) (nodes : List String) (s : Server)
      → P s
      → Leaves P P (notify_cmt_nodes env ci nodes s)
  unfolding notify_cmt_nodes
  notify_cmt_nodes_keeps ci [] s h = record { at = h }
  notify_cmt_nodes_keeps ci (node ∷ nodes) s h =
      Leaves-bind _ _ (notify_of_cmt_upd_keeps ci node s h) (notify_cmt_nodes_keeps ci nodes)

  pub notify_cmt_subers_keeps :
      (ci : CmtInfo) (uids : List ℕ) (s : Server)
      → P s
      → Leaves P P (notify_cmt_subers env ci uids s)
  unfolding notify_cmt_subers
  notify_cmt_subers_keeps ci [] s h = record { at = h }
  notify_cmt_subers_keeps ci (uid ∷ uids) s h =
      Leaves-bind _ _ (notify_cmt_nodes_keeps ci (nodes_of s.ass uid) s h)
        (notify_cmt_subers_keeps ci uids)

  -- From what the body leaves to what the handler leaves.
  pub finish_keeps :
      (from : String) (tsx : ℕ) (m : Exit (Server × Msg))
      → Leaves P (λ r. P r.0) m
      → P (finish env from tsx m)
  unfolding finish
  finish_keeps from tsx (ret (s, resp)) h = send_keeps from resp s h.at
  finish_keeps from tsx (quit s) h = h.at
  finish_keeps from tsx (fail s e) h = send_keeps from (err_resp tsx e) s h.at
  finish_keeps from tsx (abort s) h = ign.at_abort s true h.at
