-- ===== src/Tests/Requests.antt =====
-- Single requests to the service.
use feeds_service.Prelude.{◌≡◌, ◌⊎◌, refl, ap, true, [], ◌∷◌, ◌++◌, arith}
use mathlib.Core.Option
use feeds_service.Prelude.Rows.{has_row, update, select}
use feeds_service.Obj.{UserInfo, user_id_is_owner, post_available, post_declared, cmt_blocked}
use feeds_service.Db.Tables.{Db, is_cmt}
use feeds_service.Db.Comments.{db_cmt_exists, db_cmt_uid, db_set_cmt_status, set_cmt_row_status}
use feeds_service.Feeds.State.{
  Server, chan_get_by_id, nodes_of, send, err_resp, new_post_notif, pub_post_resp,
  declare_post_resp,
}
use feeds_service.Feeds.Init.{row2chan}
use feeds_service.Feeds.Posts.{hdl_pub_post_req, hdl_declare_post_req}
use feeds_service.Feeds.Comments.{hdl_block_cmt_req, cmt_to}
use feeds_service.Feeds.Outbox.{copies}
use feeds_service.Feeds.Dispatch
use feeds_service.Feeds.Dispatch.{dispatch}
use feeds_service.Feeds.Requests.Owner
use feeds_service.Feeds.Requests.Owner.{SameTables, dispatch-SameTables}
use feeds_service.Feeds.Requests.Author
use feeds_service.Feeds.Requests.Author.{IsByAuthor, dispatch-IsByAuthor}
use feeds_service.Feeds.Requests.Notified.{
  post_of, IsAdded, MayAdd, hdl_pub_post_req-outbox, hdl_declare_post_req-outbox,
}
use feeds_service.Feeds.Requests.Blocked.{hdl_block_cmt_req-abort}
use feeds_service.Obj.{wrong_state}
use feeds_service.Db.Comments.{db_add_like, like_cmt, update_likes, select_likes}
use feeds_service.Feeds.Likes.{hdl_report_illegal_cmt_req}
use feeds_service.Feeds.Requests.Reported.{hdl_report_illegal_cmt_req-db_add_like}
use feeds_service.Tests.Data.{
  report_req, owner, reader, env_of, stored, service, news_chan, pub_req, declare_req, cmt_req,
}

dispatch-SameTables_example :
    SameTables service (dispatch (env_of reader) "phone" (Dispatch.publish_post pub_req) service)
dispatch-SameTables_example =
    dispatch-SameTables (env_of reader) "phone" service _ _ (Owner.publish_post pub_req)
      (λ u token is.
        absurd (ground (arith, ap (λ (x : UserInfo). x.uid) (Option.some-injective _ _ token))))

dispatch-IsByAuthor_example :
    ((dispatch (env_of owner) "home" (Dispatch.delete_comment cmt_req) service).db ≡ stored)
    ⊎ IsByAuthor (env_of owner) service "t" 1 1 1
dispatch-IsByAuthor_example =
    dispatch-IsByAuthor (env_of owner) "home" service _ _ _ _ _ (Author.delete_comment cmt_req)

pub_req-MayAdd : MayAdd (env_of owner) pub_req owner news_chan service
unfolding user_id_is_owner chan_get_by_id row2chan select has_row
pub_req-MayAdd = record {
  ready = refl;
  user = refl;
  owner = refl;
  there = refl;
  works = refl;
  fresh = refl;
}

abbrev after_pub : Server
after_pub = hdl_pub_post_req (env_of owner) "home" pub_req service

hdl_pub_post_req-outbox_example :
    IsAdded (env_of owner) pub_req post_available news_chan after_pub
    × (after_pub.outbox
        ≡ copies
            (env_of owner)
            (new_post_notif (post_of (env_of owner) pub_req post_available 2))
            ("phone" ∷ "desk" ∷ [])
          ++ copies (env_of owner) (pub_post_resp 11 2) ("home" ∷ []))
unfolding row2chan nodes_of select
hdl_pub_post_req-outbox_example =
    hdl_pub_post_req-outbox (env_of owner) "home" service pub_req owner news_chan pub_req-MayAdd

abbrev after_declare : Server
after_declare = hdl_declare_post_req (env_of owner) "home" declare_req service

hdl_declare_post_req-outbox_example :
    IsAdded (env_of owner) pub_req post_declared news_chan after_declare
    × (after_declare.outbox ≡ copies (env_of owner) (declare_post_resp 11 2) ("home" ∷ []))
unfolding row2chan nodes_of select
hdl_declare_post_req-outbox_example =
    hdl_declare_post_req-outbox (env_of owner) "home" service declare_req owner news_chan
      pub_req-MayAdd

abbrev blocked : Db
blocked = record stored {
  comments =
      update (is_cmt 1 1 1) (set_cmt_row_status (cmt_to (env_of reader) cmt_req cmt_blocked reader))
        stored.comments;
}

hdl_block_cmt_req-abort_example :
    hdl_block_cmt_req (env_of reader) "phone" cmt_req service
    ≡ record service { db = blocked; aborted = true }
unfolding db_cmt_exists db_cmt_uid db_set_cmt_status chan_get_by_id row2chan select update has_row
    nodes_of
hdl_block_cmt_req-abort_example =
    hdl_block_cmt_req-abort (env_of reader) "phone" service cmt_req reader news_chan blocked _
      "phone" ("desk" ∷ []) refl refl refl refl refl refl refl refl refl

abbrev liked_cmt : Db
liked_cmt = record stored {
  likes =
      record {
        channel_id = 1;
        post_id = 1;
        comment_id = 1;
        user_id = 2;
        created_at = 7;
        proof = "";
      }
      ∷ [];
  comments = update (is_cmt 1 1 1) like_cmt stored.comments;
}

abbrev liked_service : Server
liked_service = record service { db = liked_cmt }

hdl_report_illegal_cmt_req-db_add_like_example :
    hdl_report_illegal_cmt_req (env_of reader) "phone" report_req liked_service
    ≡ send (env_of reader) "phone" (err_resp 15 wrong_state) liked_service
unfolding db_add_like update_likes select_likes db_cmt_exists chan_get_by_id row2chan select update
    has_row
hdl_report_illegal_cmt_req-db_add_like_example =
    hdl_report_illegal_cmt_req-db_add_like (env_of reader) "phone" liked_service report_req reader
      news_chan true 7 _ "" stored refl refl refl refl refl refl refl
