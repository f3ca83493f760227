-- ===== src/Rpc/Encoded/Posts.antt =====
-- src/rpc.c: the requests on posts are read from their encodings.
use feeds_service.Prelude.{◌≡◌, true}
use feeds_service.Feeds.Dispatch.{publish_post, declare_post, notify_post, edit_post, delete_post}
use feeds_service.Rpc.Requests.{writes}
use feeds_service.Feeds.Posts.{DeclarePostReq, EditPostReq, PostIdReq, PubPostReq}
use feeds_service.Rpc.Unmarshal.Posts.{
  unmarshal_pub_post_req_2, unmarshal_declare_post_req_2, unmarshal_notify_post_req,
  unmarshal_edit_post_req_2, unmarshal_del_post_req,
}
use feeds_service.Rpc.Valid.{is_valid, and_elim}
use feeds_service.Rpc.Objects.{is_full, has_bytes, id_is_valid}
use feeds_service.Rpc.Encoded.{tsx_id_of, params_of, carried}
use feeds_service.Rpc.Encoded.Rules.{Reads, read_rules}

pub unmarshal_pub_post_req_2-Reads :
    (r : PubPostReq)
    → is_valid (writes (publish_post r)) ≡ true
    → Reads
        (unmarshal_pub_post_req_2 true (tsx_id_of (writes (publish_post r))))
        (params_of (writes (publish_post r)))
        (carried (writes (publish_post r)))
unfolding is_valid tsx_id_of params_of carried unmarshal_pub_post_req_2
unmarshal_pub_post_req_2-Reads r valid =
    let (v1, rest1) = and_elim (is_full r.tk) valid in
    let (v2, rest2) = and_elim (id_is_valid r.chan_id) rest1 in
    let (v3, rest3) = and_elim (has_bytes r.content) rest2 in
    let (v4, rest4) = and_elim (has_bytes r.thumbnails) rest3 in
    let (v5, rest5) = and_elim (is_full r.hash_id) rest4 in
    let (v6, last) = and_elim (is_full r.proof) rest5 in search read_rules depth 40

pub unmarshal_declare_post_req_2-Reads :
    (r : DeclarePostReq)
    → is_valid (writes (declare_post r)) ≡ true
    → Reads
        (unmarshal_declare_post_req_2 true (tsx_id_of (writes (declare_post r))))
        (params_of (writes (declare_post r)))
        (carried (writes (declare_post r)))
unfolding is_valid tsx_id_of params_of carried unmarshal_declare_post_req_2
unmarshal_declare_post_req_2-Reads r valid =
    let (v1, rest1) = and_elim (is_full r.tk) valid in
    let (v2, rest2) = and_elim (id_is_valid r.chan_id) rest1 in
    let (v3, rest3) = and_elim (has_bytes r.content) rest2 in
    let (v4, rest4) = and_elim (has_bytes r.thumbnails) rest3 in
    let (v5, rest5) = and_elim (is_full r.hash_id) rest4 in
    let (v6, last) = and_elim (is_full r.proof) rest5 in search read_rules depth 40

pub unmarshal_notify_post_req-Reads :
    (r : PostIdReq)
    → is_valid (writes (notify_post r)) ≡ true
    → Reads
        (unmarshal_notify_post_req true (tsx_id_of (writes (notify_post r))))
        (params_of (writes (notify_post r)))
        (carried (writes (notify_post r)))
unfolding is_valid tsx_id_of params_of carried unmarshal_notify_post_req
unmarshal_notify_post_req-Reads r valid =
    let (v1, rest1) = and_elim (is_full r.tk) valid in
    let (v2, last) = and_elim (id_is_valid r.chan_id) rest1 in search read_rules depth 40

pub unmarshal_edit_post_req_2-Reads :
    (r : EditPostReq)
    → is_valid (writes (edit_post r)) ≡ true
    → Reads
        (unmarshal_edit_post_req_2 true (tsx_id_of (writes (edit_post r))))
        (params_of (writes (edit_post r)))
        (carried (writes (edit_post r)))
unfolding is_valid tsx_id_of params_of carried unmarshal_edit_post_req_2
unmarshal_edit_post_req_2-Reads r valid =
    let (v1, rest1) = and_elim (is_full r.tk) valid in
    let (v2, rest2) = and_elim (id_is_valid r.chan_id) rest1 in
    let (v3, rest3) = and_elim (id_is_valid r.post_id) rest2 in
    let (v4, rest4) = and_elim (has_bytes r.content) rest3 in
    let (v5, rest5) = and_elim (has_bytes r.thumbnails) rest4 in
    let (v6, rest6) = and_elim (is_full r.hash_id) rest5 in
    let (v7, last) = and_elim (is_full r.proof) rest6 in search read_rules depth 40

pub unmarshal_del_post_req-Reads :
    (r : PostIdReq)
    → is_valid (writes (delete_post r)) ≡ true
    → Reads
        (unmarshal_del_post_req true (tsx_id_of (writes (delete_post r))))
        (params_of (writes (delete_post r)))
        (carried (writes (delete_post r)))
unfolding is_valid tsx_id_of params_of carried unmarshal_del_post_req
unmarshal_del_post_req-Reads r valid =
    let (v1, rest1) = and_elim (is_full r.tk) valid in
    let (v2, last) = and_elim (id_is_valid r.chan_id) rest1 in search read_rules depth 40
