-- ===== src/Feeds/Requests/Notified.antt =====
-- src/feeds.c: the messages of a request on posts that succeeds, and their order.
use feeds_service.Prelude.{
  ℕ, ◌+◌, ◌%◌, ◌^◌, String, ◌≡◌, refl, ◌∙◌, ap, Bool, true, false, some, List, [], ◌∷◌, ◌++◌, arith,
}
use mathlib.Core.Option
use mathlib.Core.List.{append_assoc}
use feeds_service.Prelude.Tests.{if◌then◌else◌}
use feeds_service.Prelude.Words.{inc64_lem}
use feeds_service.Prelude.Rows.{select, update, has_row, select-update_self}
use feeds_service.Obj.{
  UserInfo, PostStat, PostInfo, post_available, post_declared, user_id_is_owner,
}
use feeds_service.Db.Tables.{Db, PostRow, is_post, is_chan}
use feeds_service.Db.Posts
use feeds_service.Db.Posts.{db_add_post}
use feeds_service.Feeds.State.{
  Server, Env, Msg, Sent, Chan, send, finish, chan_get_by_id, is_chan_id, chan_write, notify_subers,
  add_post, new_post_notif, pub_post_resp, declare_post_resp,
}
use feeds_service.Feeds.Posts.{
  PubPostReq, DeclarePostReq, hdl_pub_post_req, hdl_declare_post_req, new_post, count_post,
  declared_stat,
}
use feeds_service.Feeds.Outbox.{copies, recipients, send_lem, notify_subers_lem}

-- The notifications, then the response.
pub notified :
    (env : Env) (from : String) (note resp : Msg) (uids : List ℕ) (s : Server)
    → send env from resp (notify_subers env note uids s) ≡ record s {
      outbox = s.outbox ++ (copies env note (recipients s.ass uids) ++ copies env resp (from ∷ []));
    }
notified env from note resp uids s =
    rw (notify_subers_lem env note uids s, send_lem env from resp)
      (ap (λ o. record s { outbox = o })
        (append_assoc s.outbox (copies env note (recipients s.ass uids)) _))

-- The notifications if they are asked for, then the response.
told :
    (env : Env) (from : String) (note resp : Msg) (uids : List ℕ) (b : Bool) (s : Server)
    → send env from resp (if b then notify_subers env note uids s else s) ≡ record s {
      outbox =
          s.outbox
          ++ ((if b then copies env note (recipients s.ass uids) else [])
              ++ copies env resp (from ∷ []));
    }
told env from note resp uids true s = notified env from note resp uids s
told env from note resp uids false s = send_lem env from resp s

-- A post of a request, with its id and its status, field by field.
abbrev pub post_of : Env → PubPostReq → PostStat → ℕ → PostInfo
post_of env req stat id = record {
  chan_id = req.chan_id;
  post_id = id;
  stat = stat;
  created_at = env.now;
  upd_at = env.now;
  cmts = 0;
  likes = 0;
  content = req.content;
  thumbnails = req.thumbnails;
  hash_id = req.hash_id;
  proof = req.proof;
  origin_post_url = req.origin_post_url;
}

-- Its row.
abbrev pub row_of : Env → PubPostReq → PostStat → ℕ → PostRow
row_of env req stat id = record {
  channel_id = req.chan_id;
  post_id = id;
  created_at = env.now;
  updated_at = env.now;
  next_comment_id = 1;
  likes = 0;
  status = stat;
  hash_id = req.hash_id;
  proof = req.proof;
  origin_post_url = req.origin_post_url;
  thumbnails = req.thumbnails;
  content = req.content;
}

-- The database of `s` has the post, and its channel in memory is the old one `c` but for the next
-- id, which is one more, in 64 bits.
pub record IsAdded (env : Env) (req : PubPostReq) (stat : PostStat) (c : Chan) (s : Server)
    : Type 0 where
  pub row :
      select (is_post req.chan_id c.info.next_post_id) s.db.posts
      ≡ some (row_of env req stat c.info.next_post_id)
  pub next :
      chan_get_by_id s req.chan_id
      ≡ some
          (record c { info = record c.info { next_post_id = (c.info.next_post_id + 1) % 2 ^ 64 } })

-- The conditions on which a post is added: a valid token of the owner's, a channel in memory, a
-- database that carries the write out and has no post under the next id.
pub record MayAdd (env : Env) (req : PubPostReq) (u : UserInfo) (c : Chan) (s : Server)
    : Type 0 where
  pub ready : env.did_is_ready ≡ true
  pub user : env.uinfo_of_token req.tk ≡ some u
  pub owner : user_id_is_owner u.uid ≡ true
  pub there : chan_get_by_id s req.chan_id ≡ some c
  pub works : env.db_ok add_post ≡ true
  pub fresh : has_row (is_post req.chan_id c.info.next_post_id) s.db.posts ≡ false

module _ (env : Env) (from : String) (req : PubPostReq) (u : UserInfo) (c : Chan) (s : Server)
    (may : MayAdd env req u c s) where
  -- The database after the post is added.
  abbrev db_with : PostStat → Db
  db_with stat = record s.db {
    posts = row_of env req stat c.info.next_post_id ∷ s.db.posts;
    channels = update (is_chan req.chan_id) Posts.count_post s.db.channels;
  }

  db_add_post-db_with :
      (stat : PostStat)
      → db_add_post (env.db_ok add_post) (new_post env req stat c.info) s.db ≡ some (db_with stat)
  unfolding db_add_post
  db_add_post-db_with stat = simp (may.works, may.fresh) refl

  db_with-IsAdded :
      (stat : PostStat) (msgs : List Sent)
      → IsAdded env req stat c
          (record (chan_write req.chan_id count_post (record s { db = db_with stat })) {
            outbox = msgs;
          })
  unfolding chan_write select chan_get_by_id
  db_with-IsAdded stat msgs = record {
    row = ground arith;
    next =
        select-update_self (is_chan_id req.chan_id) (is_chan_id req.chan_id) count_post (λ r. refl)
          s.chans_by_id
        ∙ ap (Option.map count_post) may.there
        ∙ ap (λ n. some (record c { info = record c.info { next_post_id = n } }))
            (inc64_lem c.info.next_post_id);
  }

-- The state after a post is published.
hdl_pub_post_req-notified :
    (env : Env) (from : String) (s : Server) (req : PubPostReq) (u : UserInfo) (c : Chan)
    (may : MayAdd env req u c s)
    → hdl_pub_post_req env from req s
      ≡ record (chan_write req.chan_id count_post
          (record s { db = db_with env from req u c s may post_available })) {
            outbox =
                s.outbox
                ++ (copies env
                      (new_post_notif (post_of env req post_available c.info.next_post_id))
                      (recipients s.ass c.aspcs)
                    ++ copies env (pub_post_resp req.tsx_id c.info.next_post_id) (from ∷ []));
          }
unfolding hdl_pub_post_req finish chan_write
hdl_pub_post_req-notified env from s req u c may =
    let added = db_add_post-db_with env from req u c s may post_available in
    simp (may.ready, may.user, may.owner, may.there, added) (notified env from _ _ c.aspcs _)

-- The state after a post is declared.
hdl_declare_post_req-told :
    (env : Env) (from : String) (s : Server) (req : PubPostReq) (u : UserInfo) (c : Chan)
    (may : MayAdd env req u c s) (b : Bool)
    → hdl_declare_post_req env from (record { base = req; with_notify = b }) s
      ≡ record (chan_write req.chan_id count_post
          (record s { db = db_with env from req u c s may (declared_stat b) })) {
            outbox =
                s.outbox
                ++ ((if b
                      then copies env
                          (new_post_notif (post_of env req (declared_stat b) c.info.next_post_id))
                          (recipients s.ass c.aspcs)
                      else [])
                    ++ copies env (declare_post_resp req.tsx_id c.info.next_post_id) (from ∷ []));
          }
unfolding hdl_declare_post_req finish chan_write
hdl_declare_post_req-told env from s req u c may b =
    let added = db_add_post-db_with env from req u c s may (declared_stat b) in
    simp (may.ready, may.user, may.owner, may.there, added) (told env from _ _ c.aspcs b _)

-- If DIDs are ready, the token is the owner's, the channel is in memory, and the database carries
-- the write out and has no post under the channel's next id, then after publish_post the database
-- has the request's post, available, under that id, the next id of the channel in memory is one
-- more, in 64 bits, and the messages enqueued are one notification of the post to each node of each
-- active subscriber of the channel, and after them the response with the id to the requester; of
-- these, those that can be marshalled.
pub hdl_pub_post_req-outbox :
    (env : Env) (from : String) (s : Server) (req : PubPostReq) (u : UserInfo) (c : Chan)
    → MayAdd env req u c s
    → IsAdded env req post_available c (hdl_pub_post_req env from req s)
      × ((hdl_pub_post_req env from req s).outbox
          ≡ s.outbox
            ++ (copies env
                  (new_post_notif (post_of env req post_available c.info.next_post_id))
                  (recipients s.ass c.aspcs)
                ++ copies env (pub_post_resp req.tsx_id c.info.next_post_id) (from ∷ [])))
hdl_pub_post_req-outbox env from s req u c may =
    let does = hdl_pub_post_req-notified env from s req u c may in
    rw does (db_with-IsAdded env from req u c s may post_available _, refl)

-- If DIDs are ready, the token is the owner's, the channel is in memory, and the database carries
-- the write out and has no post under the channel's next id, then after declare_post the database
-- has the request's post under that id, available if the request asks for a notification and
-- declared if not, the next id of the channel in memory is one more, in 64 bits, and the messages
-- enqueued are, only if the request asks for it, one notification of the post to each node of each
-- active subscriber of the channel, and after them the response with the id to the requester; of
-- these, those that can be marshalled.
pub hdl_declare_post_req-outbox :
    (env : Env) (from : String) (s : Server) (req : DeclarePostReq) (u : UserInfo) (c : Chan)
    → MayAdd env req.base u c s
    → IsAdded env req.base
        (if req.with_notify then post_available else post_declared)
        c
        (hdl_declare_post_req env from req s)
      × ((hdl_declare_post_req env from req s).outbox
          ≡ s.outbox
            ++ ((if req.with_notify
                  then copies env
                      (new_post_notif (post_of env req.base post_available c.info.next_post_id))
                      (recipients s.ass c.aspcs)
                  else [])
                ++ copies env (declare_post_resp req.tsx_id c.info.next_post_id) (from ∷ [])))
hdl_declare_post_req-outbox env from s req u c may = by_notify req.with_notify req.base may
  where
    by_notify :
        (b : Bool) (base : PubPostReq) (may : MayAdd env base u c s)
        → IsAdded env base
            (if b then post_available else post_declared)
            c
            (hdl_declare_post_req env from (record { base = base; with_notify = b }) s)
          × ((hdl_declare_post_req env from (record { base = base; with_notify = b }) s).outbox
              ≡ s.outbox
                ++ ((if b
                      then copies env
                          (new_post_notif (post_of env base post_available c.info.next_post_id))
                          (recipients s.ass c.aspcs)
                      else [])
                    ++ copies env (declare_post_resp base.tsx_id c.info.next_post_id) (from ∷ [])))
    by_notify true base may =
        rw (hdl_declare_post_req-told env from s base u c may true)
          (db_with-IsAdded env from base u c s may post_available _, refl)
    by_notify false base may =
        rw (hdl_declare_post_req-told env from s base u c may false)
          (db_with-IsAdded env from base u c s may post_declared _, refl)
