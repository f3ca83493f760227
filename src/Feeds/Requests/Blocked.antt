-- ===== src/Feeds/Requests/Blocked.antt =====
-- src/feeds.c: hdl_block_cmt_req, and the log line of notify_of_cmt_upd.
use feeds_service.Prelude.{ℕ, String, ◌≡◌, refl, Bool, true, some, none, List, [], ◌∷◌, ◌++◌, arith}
use feeds_service.Prelude.Tests.{ltb}
use feeds_service.Obj.{UserInfo, CmtInfo, cmt_stat_str, cmt_blocked}
use feeds_service.Db.Tables.{Db}
use feeds_service.Db.Comments.{db_cmt_exists, db_cmt_uid, db_set_cmt_status}
use feeds_service.Feeds.State.{
  Server, Env, finish, Chan, abort, nodes_of, holds, chan_get_by_id, cmt_exists, cmt_uid,
  set_cmt_status, cmt_upd_notif,
}
use feeds_service.Feeds.Comments.{
  CmtIdReq, notify_of_cmt_upd, notify_cmt_nodes, notify_cmt_subers, set_cmt_stat, cmt_to, is_author,
  hdl_block_cmt_req,
}
use feeds_service.Feeds.Outbox.{recipients}

module _ (env : Env) (ci : CmtInfo) (s : Server) (sent : env.marshal_ok (cmt_upd_notif ci) ≡ true)
    (unnamed : cmt_stat_str ci.stat ≡ none) where
  notify_cmt_nodes-abort :
      (node : String) (nodes : List String) → notify_cmt_nodes env ci (node ∷ nodes) s ≡ abort s
  unfolding notify_cmt_nodes notify_of_cmt_upd
  notify_cmt_nodes-abort node nodes = rw (sent, unnamed) refl

  -- One subscriber more, with the nodes `ns`.
  one_more :
      (uid : ℕ) (uids : List ℕ) (node : String) (nodes ns : List String)
      → nodes_of s.ass uid ≡ ns
      → ns ++ recipients s.ass uids ≡ node ∷ nodes
      → (recipients s.ass uids ≡ node ∷ nodes → notify_cmt_subers env ci uids s ≡ abort s)
      → notify_cmt_subers env ci (uid ∷ uids) s ≡ abort s
  unfolding notify_cmt_subers notify_cmt_nodes
  one_more uid uids node nodes [] e some_node later = rw e (later some_node)
  one_more uid uids node nodes (n ∷ ns) e some_node later = rw (e, notify_cmt_nodes-abort n ns) refl

  notify_cmt_subers-abort :
      (uids : List ℕ) (node : String) (nodes : List String)
      → recipients s.ass uids ≡ node ∷ nodes
      → notify_cmt_subers env ci uids s ≡ abort s
  notify_cmt_subers-abort [] node nodes some_node = ground arith
  notify_cmt_subers-abort (uid ∷ uids) node nodes some_node =
      one_more uid uids node nodes (nodes_of s.ass uid) refl some_node
        (notify_cmt_subers-abort uids node nodes)

keeps_stat :
    (done : Bool) (ci : CmtInfo) (db : Db) {db' : Db} {ci' : CmtInfo}
    → db_set_cmt_status done ci db ≡ some (db', ci')
    → ci'.stat ≡ ci.stat
unfolding db_set_cmt_status
keeps_stat done ci db h = ground arith

-- The author of a comment blocks it, the database carries it out, and at least one active
-- subscriber of the channel has a node: then the process aborts on the first notification, with the
-- comment blocked in the database and with nothing sent to anyone.
pub hdl_block_cmt_req-abort :
    (env : Env) (from : String) (s : Server) (req : CmtIdReq) (u : UserInfo) (c : Chan) (db : Db)
    (ci : CmtInfo) (node : String) (nodes : List String)
    → env.did_is_ready ≡ true
    → env.uinfo_of_token req.tk ≡ some u
    → chan_get_by_id s req.chan_id ≡ some c
    → ltb req.post_id c.info.next_post_id ≡ true
    → holds (db_cmt_exists (env.db_ok cmt_exists) req.chan_id req.post_id req.cmt_id s.db) ≡ true
    → is_author (db_cmt_uid (env.db_ok cmt_uid) req.chan_id req.post_id req.cmt_id s.db) u.uid
      ≡ true
    → db_set_cmt_status (env.db_ok set_cmt_status) (cmt_to env req cmt_blocked u) s.db
      ≡ some (db, ci)
    → env.marshal_ok (cmt_upd_notif ci) ≡ true
    → recipients s.ass c.aspcs ≡ node ∷ nodes
    → hdl_block_cmt_req env from req s ≡ record s { db = db; aborted = true }
unfolding hdl_block_cmt_req set_cmt_stat cmt_stat_str finish
hdl_block_cmt_req-abort env from s req u c db ci node nodes did token found posted known author
      written sent some_node =
    let blocked = keeps_stat _ _ s.db written in
    let stopped =
      notify_cmt_subers-abort env ci (record s { db = db }) sent (rw blocked refl) c.aspcs node
        nodes some_node in
    simp (did, token, found, posted, known, author, written, stopped) refl
