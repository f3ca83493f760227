-- ===== src/Rpc/Marshal/Unblocked.antt =====
-- src/feeds.c and src/rpc.c: hdl_unblock_cmt_req, and what its notifications are marshalled into.
use feeds_service.Prelude.{
  ℕ, String, ◌≡◌, ◌≢◌, refl, sym, ap, ◌∙◌, Bool, true, false, some, List, [], ◌∷◌, ◌++◌, arith,
}
use feeds_service.Prelude.Tests.{ltb}
use feeds_service.Prelude.Lists.{length}
use feeds_service.Obj.{UserInfo, CmtInfo, cmt_stat_str, cmt_available}
use feeds_service.Db.Tables.{Db}
use feeds_service.Db.Comments.{db_cmt_exists, db_cmt_uid, db_set_cmt_status}
use feeds_service.Feeds.State.{
  Server, Env, ret, finish, Chan, send, nodes_of, notify_nodes, notify_subers, holds,
  chan_get_by_id, cmt_exists, cmt_uid, set_cmt_status, Msg, cmt_upd_notif, unblock_cmt_resp,
}
use feeds_service.Feeds.Comments.{
  CmtIdReq, notify_of_cmt_upd, notify_cmt_nodes, notify_cmt_subers, set_cmt_stat, cmt_to, is_author,
  hdl_unblock_cmt_req,
}
use feeds_service.Feeds.Outbox.{copies, recipients}
use feeds_service.Feeds.Requests.Notified.{notified}
use feeds_service.Rpc.Objects.{Obj}
use feeds_service.Rpc.Marshal.Objects.{is_object, tokens_of, tokens_of-is_object}
use feeds_service.Rpc.Marshal.Messages.{rpc_marshal, is_packable, rpc_marshal-is_object}

-- A message that is not packable is not what any object is marshalled into.
pub rpc_marshal-tokens_of :
    (owner : UserInfo) (msg : Msg)
    → is_packable msg ≡ false
    → (o : Obj) → tokens_of o ≢ rpc_marshal owner msg
rpc_marshal-tokens_of owner msg unpackable o e =
    let whole : is_object (rpc_marshal owner msg) ≡ true =
      ap is_object (sym e) ∙ tokens_of-is_object o in
    let packable = sym (rpc_marshal-is_object owner msg) ∙ whole in grind arith

module _ (env : Env) (ci : CmtInfo) {name : String} (named : cmt_stat_str ci.stat ≡ some name) where
  notify_of_cmt_upd_lem :
      (peer : String) (s : Server)
      → notify_of_cmt_upd env ci peer s ≡ ret (send env peer (cmt_upd_notif ci) s)
  unfolding notify_of_cmt_upd send
  notify_of_cmt_upd_lem peer s = rw named (ground arith)

  notify_cmt_nodes_lem :
      (nodes : List String) (s : Server)
      → notify_cmt_nodes env ci nodes s ≡ ret (notify_nodes env (cmt_upd_notif ci) nodes s)
  unfolding notify_cmt_nodes notify_nodes
  notify_cmt_nodes_lem [] s = refl
  notify_cmt_nodes_lem (node ∷ nodes) s =
      rw (notify_of_cmt_upd_lem node s)
        (notify_cmt_nodes_lem nodes (send env node (cmt_upd_notif ci) s))

  notify_cmt_subers_lem :
      (uids : List ℕ) (s : Server)
      → notify_cmt_subers env ci uids s ≡ ret (notify_subers env (cmt_upd_notif ci) uids s)
  unfolding notify_cmt_subers notify_subers
  notify_cmt_subers_lem [] s = refl
  notify_cmt_subers_lem (uid ∷ uids) s =
      rw (notify_cmt_nodes_lem (nodes_of s.ass uid) s)
        (notify_cmt_subers_lem uids (notify_nodes env (cmt_upd_notif ci) (nodes_of s.ass uid) s))

-- What the database gives back has the status that was set, and no content.
set_back :
    (done : Bool) (ci : CmtInfo) (db : Db) {db' : Db} {ci' : CmtInfo}
    → db_set_cmt_status done ci db ≡ some (db', ci')
    → (ci'.stat ≡ ci.stat) × (ci'.content ≡ ci.content)
unfolding db_set_cmt_status
set_back done ci db h = (ground arith, ground arith)

unblocked_is_packable :
    (ci : CmtInfo)
    → ci.stat ≡ cmt_available
    → ci.content ≡ []
    → is_packable (cmt_upd_notif ci) ≡ false
unfolding is_packable length
unblocked_is_packable ci stat content = rw (stat, content) refl

-- The author unblocks a comment, and the database carries it out: the nodes of the active
-- subscribers are sent a notification, and the requester the response; but the notification counts
-- a content that it does not have, and what it is marshalled into is no object.
pub hdl_unblock_cmt_req-rpc_marshal :
    (owner : UserInfo) (env : Env) (from : String) (s : Server) (req : CmtIdReq) (u : UserInfo)
    (c : Chan) (db : Db) (ci : CmtInfo)
    → env.did_is_ready ≡ true
    → env.uinfo_of_token req.tk ≡ some u
    → chan_get_by_id s req.chan_id ≡ some c
    → ltb req.post_id c.info.next_post_id ≡ true
    → holds (db_cmt_exists (env.db_ok cmt_exists) req.chan_id req.post_id req.cmt_id s.db) ≡ true
    → is_author (db_cmt_uid (env.db_ok cmt_uid) req.chan_id req.post_id req.cmt_id s.db) u.uid
      ≡ true
    → db_set_cmt_status (env.db_ok set_cmt_status) (cmt_to env req cmt_available u) s.db
      ≡ some (db, ci)
    → (hdl_unblock_cmt_req env from req s ≡ record s {
      db = db;
      outbox =
          s.outbox
          ++ (copies env (cmt_upd_notif ci) (recipients s.ass c.aspcs)
              ++ copies env (unblock_cmt_resp req.tsx_id) (from ∷ []));
    })
      × ((o : Obj) → tokens_of o ≢ rpc_marshal owner (cmt_upd_notif ci))
unfolding hdl_unblock_cmt_req set_cmt_stat cmt_stat_str finish
hdl_unblock_cmt_req-rpc_marshal owner env from s req u c db ci did token found posted known author
      written =
    let (stat, content) = set_back _ _ s.db written in
    let told =
      notify_cmt_subers_lem env ci {name = "available"} (rw stat refl) c.aspcs
        (record s { db = db }) in
    (
      simp (did, token, found, posted, known, author, written, told)
          (notified env from (cmt_upd_notif ci) (unblock_cmt_resp req.tsx_id) c.aspcs
            (record s { db = db })),
      rpc_marshal-tokens_of owner (cmt_upd_notif ci) (unblocked_is_packable ci stat content),
    )
