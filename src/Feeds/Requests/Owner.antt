-- ===== src/Feeds/Requests/Owner.antt =====
-- src/feeds.c: the requests that only the owner of the feeds may make.
use feeds_service.Prelude.{ℕ, String, ◌≡◌, ◌≢◌, refl, true, some, arith}
use feeds_service.Obj.{UserInfo, user_id_is_owner}
use feeds_service.Feeds.State.{Server, Env}
use feeds_service.Feeds.Dispatch
use feeds_service.Feeds.Dispatch.{Request, dispatch}
use feeds_service.Feeds.Rules.Exits.{IgnoresOutbox}
use feeds_service.Feeds.Rules.Channels.{hdl_create_chan_req_keeps, hdl_upd_chan_req_keeps}
use feeds_service.Feeds.Rules.Posts.{
  hdl_pub_post_req_keeps, hdl_declare_post_req_keeps, hdl_notify_post_req_keeps,
  hdl_edit_post_req_keeps, hdl_del_post_req_keeps,
}

-- The token of a request on channels and posts.
pub data OwnerRequest : Request → String → Type 0 where
  create_channel : (q : _) → OwnerRequest (Dispatch.create_channel q) q.tk
  update_feedinfo : (q : _) → OwnerRequest (Dispatch.update_feedinfo q) q.tk
  publish_post : (q : _) → OwnerRequest (Dispatch.publish_post q) q.tk
  declare_post : (q : _) → OwnerRequest (Dispatch.declare_post q) q.tk
  notify_post : (q : _) → OwnerRequest (Dispatch.notify_post q) q.tk
  edit_post : (q : _) → OwnerRequest (Dispatch.edit_post q) q.tk
  delete_post : (q : _) → OwnerRequest (Dispatch.delete_post q) q.tk

-- The two states agree on the database and on all tables.
pub record SameTables (s t : Server) : Type 0 where
  pub db : t.db ≡ s.db
  pub nxt_chan_id : t.nxt_chan_id ≡ s.nxt_chan_id
  pub chans_by_id : t.chans_by_id ≡ s.chans_by_id
  pub chans_by_name : t.chans_by_name ≡ s.chans_by_name
  pub ass : t.ass ≡ s.ass
  pub nds : t.nds ≡ s.nds

same : (s : Server) → SameTables s s
same s = record {
  db = refl;
  nxt_chan_id = refl;
  chans_by_id = refl;
  chans_by_name = refl;
  ass = refl;
  nds = refl;
}

ignores : (s : Server) → IgnoresOutbox (SameTables s)
ignores s = record {
  at_outbox = λ t o h. record {
    db = h.db;
    nxt_chan_id = h.nxt_chan_id;
    chans_by_id = h.chans_by_id;
    chans_by_name = h.chans_by_name;
    ass = h.ass;
    nds = h.nds;
  };
  at_abort = λ t b h. record {
    db = h.db;
    nxt_chan_id = h.nxt_chan_id;
    chans_by_id = h.chans_by_id;
    chans_by_name = h.chans_by_name;
    ass = h.ass;
    nds = h.nds;
  };
}

-- The owner is user 1.
owner_uid : (uid : ℕ) → user_id_is_owner uid ≡ true → uid ≡ 1
unfolding user_id_is_owner
owner_uid uid h = ground arith

-- A request to create or update a channel, or to publish, declare, notify, edit or delete a post,
-- leaves the database and all tables as they were, whichever calls fail, if its token is not that
-- of user 1, the owner.
pub dispatch-SameTables :
    (env : Env) (from : String) (s : Server) (r : Request) (tk : String)
    → OwnerRequest r tk
    → ((u : UserInfo) → env.uinfo_of_token tk ≡ some u → u.uid ≢ 1)
    → SameTables s (dispatch env from r s)
unfolding dispatch
dispatch-SameTables env from s _ _ (create_channel q) other =
    hdl_create_chan_req_keeps (ignores s) env from (same s) q
      (λ total u db _ _ token owner _ _. absurd (other u token (owner_uid u.uid owner)))
dispatch-SameTables env from s _ _ (update_feedinfo q) other =
    hdl_upd_chan_req_keeps (ignores s) env from (same s) q
      (λ u c db token owner _ _ _. absurd (other u token (owner_uid u.uid owner)))
dispatch-SameTables env from s _ _ (publish_post q) other =
    hdl_pub_post_req_keeps (ignores s) env from (same s) q
      (λ u c db token owner _ _. absurd (other u token (owner_uid u.uid owner)))
dispatch-SameTables env from s _ _ (declare_post q) other =
    hdl_declare_post_req_keeps (ignores s) env from (same s) q
      (λ u c db token owner _ _. absurd (other u token (owner_uid u.uid owner)))
dispatch-SameTables env from s _ _ (notify_post q) other =
    hdl_notify_post_req_keeps (ignores s) env from (same s) q
      (λ u c stat db pi token owner _ _ _ _. absurd (other u token (owner_uid u.uid owner)))
dispatch-SameTables env from s _ _ (edit_post q) other =
    hdl_edit_post_req_keeps (ignores s) env from (same s) q
      (λ u c db pi token owner _ _ _. absurd (other u token (owner_uid u.uid owner)))
dispatch-SameTables env from s _ _ (delete_post q) other =
    hdl_del_post_req_keeps (ignores s) env from (same s) q
      (λ u c db pi token owner _ _ _. absurd (other u token (owner_uid u.uid owner)))
