-- ===== src/Tests/Comments.antt =====
-- The request for comments, on a service with a blocked comment.
use feeds_service.Prelude.{◌≡◌, refl, true, [], ◌∷◌, arith}
use feeds_service.Prelude.Rows.{has_row, select}
use feeds_service.Obj.{cmt_blocked}
use feeds_service.Db.Listings.{join_users}
use feeds_service.Db.Tables.{UserRow}
use feeds_service.Feeds.State.{Server, chan_get_by_id}
use feeds_service.Feeds.Init.{row2chan}
use feeds_service.Feeds.Reads.Comments.{GetCmtsReq, hdl_get_cmts_req, hdl_get_cmts_req-cmt_stat_str}
use feeds_service.Tests.Data.{reader, service, stored, cmt_row, news_chan}
use feeds_service.Tests.Listings.{in_place, in_place-KeepsRows, reads, reads-AllSucceed, by_ids}

abbrev reader_row : UserRow
reader_row = record {
  user_id = 2;
  did = "did:r";
  name = "r";
  email = "";
  display_name = "";
  update_at = 0;
  avatar = [];
}

abbrev blocked_cmt : Server
blocked_cmt = record service {
  db = record stored {
    comments = record cmt_row { status = cmt_blocked } ∷ [];
    users = reader_row ∷ [];
  };
}

abbrev cmts_req : GetCmtsReq
cmts_req = record { tsx_id = 8; tk = "t"; chan_id = 1; post_id = 1; qc = by_ids }

hdl_get_cmts_req-cmt_stat_str_example :
    hdl_get_cmts_req reads 0 in_place cmts_req blocked_cmt ≡ (true, [])
unfolding chan_get_by_id row2chan select has_row join_users
hdl_get_cmts_req-cmt_stat_str_example =
    hdl_get_cmts_req-cmt_stat_str reads 0 in_place cmts_req blocked_cmt reader news_chan
      (λ x. x.cmt.comment_id) reads-AllSucceed in_place-KeepsRows refl refl (omega arith) refl refl
      refl
