-- ===== src/Rpc/Marshal/Posts.antt =====
-- src/rpc.c and src/feeds.c: what subscribers get after a post is published.
use feeds_service.Prelude.{ℕ, String, ◌≡◌, Bool, true, false, arith}
use feeds_service.Prelude.Tests.{if◌then◌else◌}
use feeds_service.Obj.{
  UserInfo, ChanInfo, PostStat, post_available, user_id_is_owner, access_token_exp, not_authorized,
  not_exist, internal_error,
}
use feeds_service.Db.Posts.{db_add_post}
use feeds_service.Feeds.State.{
  Server, Env, chan_get_by_id, chan_write, add_post, new_post_notif, pub_post_resp,
  declare_post_resp,
}
use feeds_service.Feeds.Posts.{
  PubPostReq, DeclarePostReq, hdl_pub_post_req, hdl_declare_post_req, new_post, declared_stat,
  count_post,
}
use feeds_service.Feeds.Dispatch.{Request, dispatch, publish_post, declare_post}
use feeds_service.Rpc.Objects.{Entries, map}
use feeds_service.Rpc.Requests.{writes}
use feeds_service.Rpc.Parsers.{rpc_unmarshal_req, request}
use feeds_service.Rpc.Valid.{is_valid}
use feeds_service.Rpc.Requested.{rpc_unmarshal_req_valid}
use feeds_service.Rpc.Marshal.Messages.{is_packable, rpc_marshal-is_object}
use feeds_service.Rpc.Marshal.Sends.{
  AreDecodable, IsDecodable, notified, finish-AreDecodable, ready-IsGood, require-IsGood,
  or_fail-IsGood,
}

pub data IsPublishing : Request → Type 0 where
  published : (req : PubPostReq) → IsPublishing (publish_post req)
  declared : (req : DeclarePostReq) → IsPublishing (declare_post req)

module _ (owner : UserInfo) (env : Env) (from : String) (s : Server)
    (h : AreDecodable owner s.outbox) where
  post-IsDecodable :
      (req : PubPostReq) (stat : PostStat) (info : ChanInfo)
      → is_valid (writes (publish_post req)) ≡ true
      → IsDecodable owner (new_post_notif (new_post env req stat info))
  unfolding is_valid
  post-IsDecodable req stat info valid =
      let packable : is_packable (new_post_notif (new_post env req stat info)) ≡ true =
        unfold is_packable in ground arith in
      rw (rpc_marshal-is_object owner (new_post_notif (new_post env req stat info))) packable

  hdl_pub_post_req-AreDecodable :
      (req : PubPostReq)
      → is_valid (writes (publish_post req)) ≡ true
      → AreDecodable owner (hdl_pub_post_req env from req s).outbox
  unfolding hdl_pub_post_req chan_write
  hdl_pub_post_req-AreDecodable req valid = finish-AreDecodable env from req.tsx_id _ (
      ready-IsGood s h _ env (
        or_fail-IsGood s h (env.uinfo_of_token req.tk) access_token_exp _ λ u token.
          require-IsGood s h _ (user_id_is_owner u.uid) not_authorized (
            or_fail-IsGood s h (chan_get_by_id s req.chan_id) not_exist _ λ c found.
              or_fail-IsGood s h
                (db_add_post (env.db_ok add_post) (new_post env req post_available c.info) s.db)
                internal_error _
                λ db added.
                  let s1 = chan_write req.chan_id count_post (record s { db = db }) in
                  (
                    notified env _ c.aspcs s1 h (post-IsDecodable req post_available c.info valid),
                    unfold is_packable in
                        rpc_marshal-is_object owner (pub_post_resp req.tsx_id c.info.next_post_id),
                  ))))

  if_asked :
      (b : Bool) (s1 s2 : Server)
      → AreDecodable owner s1.outbox
      → AreDecodable owner s2.outbox
      → AreDecodable owner (if b then s2 else s1).outbox
  if_asked true s1 s2 g k = k
  if_asked false s1 s2 g k = g

  hdl_declare_post_req-AreDecodable :
      (req : DeclarePostReq)
      → is_valid (writes (publish_post req.base)) ≡ true
      → AreDecodable owner (hdl_declare_post_req env from req s).outbox
  unfolding hdl_declare_post_req chan_write
  hdl_declare_post_req-AreDecodable req valid = finish-AreDecodable env from req.tsx_id _ (
      ready-IsGood s h _ env (
        or_fail-IsGood s h (env.uinfo_of_token req.tk) access_token_exp _ λ u token.
          require-IsGood s h _ (user_id_is_owner u.uid) not_authorized (
            or_fail-IsGood s h (chan_get_by_id s req.chan_id) not_exist _ λ c found.
              or_fail-IsGood s h
                (db_add_post (env.db_ok add_post)
                  (new_post env req.base (declared_stat req.with_notify) c.info) s.db)
                internal_error _
                λ db added.
                  let s1 = chan_write req.chan_id count_post (record s { db = db }) in
                  (
                    if_asked req.with_notify s1 _ h (
                        notified env _ c.aspcs s1 h
                          (post-IsDecodable req.base (declared_stat req.with_notify) c.info valid)),
                    unfold is_packable in
                        rpc_marshal-is_object owner
                          (declare_post_resp req.tsx_id c.info.next_post_id),
                  ))))

  accepted-AreDecodable :
      (req : Request)
      → IsPublishing req
      → is_valid (writes req) ≡ true
      → AreDecodable owner (dispatch env from req s).outbox
  unfolding dispatch is_valid
  accepted-AreDecodable _ (published req) valid = hdl_pub_post_req-AreDecodable req valid
  accepted-AreDecodable _ (declared req) valid = hdl_declare_post_req-AreDecodable req valid

  -- Whatever the message from which rpc_unmarshal_req has read a request to publish or declare a
  -- post, and whichever calls of the handler fail: if each message enqueued before is one object as
  -- marshalled, then so is each message enqueued after the request, responses included.
  pub rpc_unmarshal_req-AreDecodable :
      (alloc : Bool) (v : ℕ) (message : Entries) (req : Request)
      → IsPublishing req
      → (rpc_unmarshal_req alloc v (map message)).0 ≡ request (writes req)
      → AreDecodable owner (dispatch env from req s).outbox
  rpc_unmarshal_req-AreDecodable alloc v message req p read =
      accepted-AreDecodable req p (rpc_unmarshal_req_valid alloc v message (writes req) read).0
