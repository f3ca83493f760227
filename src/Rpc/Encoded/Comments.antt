-- ===== src/Rpc/Encoded/Comments.antt =====
-- src/rpc.c: the requests on comments and likes are read from their encodings.
use feeds_service.Prelude.{◌≡◌, true}
use feeds_service.Feeds.Dispatch.{
  post_comment, edit_comment, delete_comment, block_comment, unblock_comment, post_like,
  post_unlike, report_illegal_comment,
}
use feeds_service.Rpc.Requests.{writes}
use feeds_service.Feeds.Comments.{CmtIdReq, EditCmtReq, PostCmtReq}
use feeds_service.Feeds.Likes.{LikeReq, ReportReq}
use feeds_service.Rpc.Unmarshal.Comments.{
  unmarshal_post_cmt_req_2, unmarshal_edit_cmt_req_2, unmarshal_del_cmt_req,
  unmarshal_block_cmt_req, unmarshal_unblock_cmt_req, unmarshal_post_like_req_2,
  unmarshal_post_unlike_req, unmarshal_report_illegal_cmt_req,
}
use feeds_service.Rpc.Valid.{is_valid, and_elim}
use feeds_service.Rpc.Objects.{is_full, has_bytes, id_is_valid}
use feeds_service.Rpc.Encoded.{tsx_id_of, params_of, carried}
use feeds_service.Rpc.Encoded.Rules.{Reads, read_rules}

pub unmarshal_post_cmt_req_2-Reads :
    (r : PostCmtReq)
    → is_valid (writes (post_comment r)) ≡ true
    → Reads
        (unmarshal_post_cmt_req_2 true (tsx_id_of (writes (post_comment r))))
        (params_of (writes (post_comment r)))
        (carried (writes (post_comment r)))
unfolding is_valid tsx_id_of params_of carried unmarshal_post_cmt_req_2
unmarshal_post_cmt_req_2-Reads r valid =
    let (v1, rest1) = and_elim (is_full r.tk) valid in
    let (v2, rest2) = and_elim (id_is_valid r.chan_id) rest1 in
    let (v3, rest3) = and_elim (id_is_valid r.post_id) rest2 in
    let (v4, rest4) = and_elim (has_bytes r.content) rest3 in
    let (v5, rest5) = and_elim (has_bytes r.thumbnails) rest4 in
    let (v6, last) = and_elim (is_full r.hash_id) rest5 in search read_rules depth 40

pub unmarshal_edit_cmt_req_2-Reads :
    (r : EditCmtReq)
    → is_valid (writes (edit_comment r)) ≡ true
    → Reads
        (unmarshal_edit_cmt_req_2 true (tsx_id_of (writes (edit_comment r))))
        (params_of (writes (edit_comment r)))
        (carried (writes (edit_comment r)))
unfolding is_valid tsx_id_of params_of carried unmarshal_edit_cmt_req_2
unmarshal_edit_cmt_req_2-Reads r valid =
    let (v1, rest1) = and_elim (is_full r.tk) valid in
    let (v2, rest2) = and_elim (id_is_valid r.chan_id) rest1 in
    let (v3, rest3) = and_elim (id_is_valid r.post_id) rest2 in
    let (v4, rest4) = and_elim (id_is_valid r.id) rest3 in
    let (v5, rest5) = and_elim (has_bytes r.content) rest4 in
    let (v6, rest6) = and_elim (has_bytes r.thumbnails) rest5 in
    let (v7, last) = and_elim (is_full r.hash_id) rest6 in search read_rules depth 40

pub unmarshal_del_cmt_req-Reads :
    (r : CmtIdReq)
    → is_valid (writes (delete_comment r)) ≡ true
    → Reads
        (unmarshal_del_cmt_req true (tsx_id_of (writes (delete_comment r))))
        (params_of (writes (delete_comment r)))
        (carried (writes (delete_comment r)))
unfolding is_valid tsx_id_of params_of carried unmarshal_del_cmt_req
unmarshal_del_cmt_req-Reads r valid =
    let (v1, rest1) = and_elim (is_full r.tk) valid in
    let (v2, rest2) = and_elim (id_is_valid r.chan_id) rest1 in
    let (v3, last) = and_elim (id_is_valid r.post_id) rest2 in search read_rules depth 40

pub unmarshal_block_cmt_req-Reads :
    (r : CmtIdReq)
    → is_valid (writes (block_comment r)) ≡ true
    → Reads
        (unmarshal_block_cmt_req true (tsx_id_of (writes (block_comment r))))
        (params_of (writes (block_comment r)))
        (carried (writes (block_comment r)))
unfolding is_valid tsx_id_of params_of carried unmarshal_block_cmt_req
unmarshal_block_cmt_req-Reads r valid =
    let (v1, rest1) = and_elim (is_full r.tk) valid in
    let (v2, rest2) = and_elim (id_is_valid r.chan_id) rest1 in
    let (v3, last) = and_elim (id_is_valid r.post_id) rest2 in search read_rules depth 40

pub unmarshal_unblock_cmt_req-Reads :
    (r : CmtIdReq)
    → is_valid (writes (unblock_comment r)) ≡ true
    → Reads
        (unmarshal_unblock_cmt_req true (tsx_id_of (writes (unblock_comment r))))
        (params_of (writes (unblock_comment r)))
        (carried (writes (unblock_comment r)))
unfolding is_valid tsx_id_of params_of carried unmarshal_unblock_cmt_req
unmarshal_unblock_cmt_req-Reads r valid =
    let (v1, rest1) = and_elim (is_full r.tk) valid in
    let (v2, rest2) = and_elim (id_is_valid r.chan_id) rest1 in
    let (v3, last) = and_elim (id_is_valid r.post_id) rest2 in search read_rules depth 40

pub unmarshal_post_like_req_2-Reads :
    (r : LikeReq)
    → is_valid (writes (post_like r)) ≡ true
    → Reads
        (unmarshal_post_like_req_2 true (tsx_id_of (writes (post_like r))))
        (params_of (writes (post_like r)))
        (carried (writes (post_like r)))
unfolding is_valid tsx_id_of params_of carried unmarshal_post_like_req_2
unmarshal_post_like_req_2-Reads r valid =
    let (v1, rest1) = and_elim (is_full r.tk) valid in
    let (v2, rest2) = and_elim (id_is_valid r.chan_id) rest1 in
    let (v3, last) = and_elim (id_is_valid r.post_id) rest2 in search read_rules depth 40

pub unmarshal_post_unlike_req-Reads :
    (r : LikeReq)
    → is_valid (writes (post_unlike r)) ≡ true
    → Reads
        (unmarshal_post_unlike_req true (tsx_id_of (writes (post_unlike r))))
        (params_of (writes (post_unlike r)))
        (carried (writes (post_unlike r)))
unfolding is_valid tsx_id_of params_of carried unmarshal_post_unlike_req
unmarshal_post_unlike_req-Reads r valid =
    let (v1, rest1) = and_elim (is_full r.tk) valid in
    let (v2, last) = and_elim (id_is_valid r.chan_id) rest1 in search read_rules depth 40

pub unmarshal_report_illegal_cmt_req-Reads :
    (r : ReportReq)
    → is_valid (writes (report_illegal_comment r)) ≡ true
    → Reads
        (unmarshal_report_illegal_cmt_req true (tsx_id_of (writes (report_illegal_comment r))))
        (params_of (writes (report_illegal_comment r)))
        (carried (writes (report_illegal_comment r)))
unfolding is_valid tsx_id_of params_of carried unmarshal_report_illegal_cmt_req
unmarshal_report_illegal_cmt_req-Reads r valid =
    let (v1, rest1) = and_elim (is_full r.tk) valid in
    let (v2, rest2) = and_elim (id_is_valid r.chan_id) rest1 in
    let (v3, last) = and_elim (id_is_valid r.post_id) rest2 in search read_rules depth 40
