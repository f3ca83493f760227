-- ===== src/Rpc/Encoded/Channels.antt =====
-- src/rpc.c: the requests on channels, users and subscriptions are read from their encodings.
use feeds_service.Prelude.{◌≡◌, true}
use feeds_service.Feeds.Dispatch.{
  create_channel, update_feedinfo, update_user_info, subscribe_channel, unsubscribe_channel,
  enable_notification,
}
use feeds_service.Rpc.Requests.{writes}
use feeds_service.Feeds.Channels.{CreateChanReq, UpdChanReq, UpdUserInfoReq}
use feeds_service.Feeds.Subscriptions.{EnblNotifReq, SubChanReq, UnsubChanReq}
use feeds_service.Rpc.Unmarshal.Channels.{
  unmarshal_create_chan_req_2, unmarshal_upd_chan_req_2, unmarshal_upd_user_info_req,
  unmarshal_sub_chan_req_2, unmarshal_unsub_chan_req, unmarshal_enbl_notif_req,
}
use feeds_service.Rpc.Valid.{is_valid, and_elim}
use feeds_service.Rpc.Objects.{is_full, has_bytes, id_is_valid}
use feeds_service.Rpc.Encoded.{tsx_id_of, params_of, carried}
use feeds_service.Rpc.Encoded.Rules.{Reads, read_rules}

pub unmarshal_create_chan_req_2-Reads :
    (r : CreateChanReq)
    → is_valid (writes (create_channel r)) ≡ true
    → Reads
        (unmarshal_create_chan_req_2 true (tsx_id_of (writes (create_channel r))))
        (params_of (writes (create_channel r)))
        (carried (writes (create_channel r)))
unfolding is_valid tsx_id_of params_of carried unmarshal_create_chan_req_2
unmarshal_create_chan_req_2-Reads r valid =
    let (v1, rest1) = and_elim (is_full r.tk) valid in
    let (v2, rest2) = and_elim (is_full r.name) rest1 in
    let (v3, rest3) = and_elim (is_full r.intro) rest2 in
    let (v4, rest4) = and_elim (has_bytes r.avatar) rest3 in
    let (v5, last) = and_elim (is_full r.tipm) rest4 in search read_rules depth 40

pub unmarshal_upd_chan_req_2-Reads :
    (r : UpdChanReq)
    → is_valid (writes (update_feedinfo r)) ≡ true
    → Reads
        (unmarshal_upd_chan_req_2 true (tsx_id_of (writes (update_feedinfo r))))
        (params_of (writes (update_feedinfo r)))
        (carried (writes (update_feedinfo r)))
unfolding is_valid tsx_id_of params_of carried unmarshal_upd_chan_req_2
unmarshal_upd_chan_req_2-Reads r valid =
    let (v1, rest1) = and_elim (is_full r.tk) valid in
    let (v2, rest2) = and_elim (id_is_valid r.chan_id) rest1 in
    let (v3, rest3) = and_elim (is_full r.name) rest2 in
    let (v4, rest4) = and_elim (is_full r.intro) rest3 in
    let (v5, rest5) = and_elim (has_bytes r.avatar) rest4 in
    let (v6, last) = and_elim (is_full r.tipm) rest5 in search read_rules depth 40

pub unmarshal_upd_user_info_req-Reads :
    (r : UpdUserInfoReq)
    → is_valid (writes (update_user_info r)) ≡ true
    → Reads
        (unmarshal_upd_user_info_req true (tsx_id_of (writes (update_user_info r))))
        (params_of (writes (update_user_info r)))
        (carried (writes (update_user_info r)))
unfolding is_valid tsx_id_of params_of carried unmarshal_upd_user_info_req
unmarshal_upd_user_info_req-Reads r valid =
    let (v1, rest1) = and_elim (is_full r.tk) valid in
    let (v2, rest2) = and_elim (is_full r.name) rest1 in
    let (v3, rest3) = and_elim (is_full r.email) rest2 in
    let (v4, last) = and_elim (is_full r.display_name) rest3 in search read_rules depth 40

pub unmarshal_sub_chan_req_2-Reads :
    (r : SubChanReq)
    → is_valid (writes (subscribe_channel r)) ≡ true
    → Reads
        (unmarshal_sub_chan_req_2 true (tsx_id_of (writes (subscribe_channel r))))
        (params_of (writes (subscribe_channel r)))
        (carried (writes (subscribe_channel r)))
unfolding is_valid tsx_id_of params_of carried unmarshal_sub_chan_req_2
unmarshal_sub_chan_req_2-Reads r valid =
    let (v1, rest1) = and_elim (is_full r.tk) valid in
    let (v2, last) = and_elim (id_is_valid r.id) rest1 in search read_rules depth 40

pub unmarshal_unsub_chan_req-Reads :
    (r : UnsubChanReq)
    → is_valid (writes (unsubscribe_channel r)) ≡ true
    → Reads
        (unmarshal_unsub_chan_req true (tsx_id_of (writes (unsubscribe_channel r))))
        (params_of (writes (unsubscribe_channel r)))
        (carried (writes (unsubscribe_channel r)))
unfolding is_valid tsx_id_of params_of carried unmarshal_unsub_chan_req
unmarshal_unsub_chan_req-Reads r valid =
    let (v1, last) = and_elim (is_full r.tk) valid in search read_rules depth 40

pub unmarshal_enbl_notif_req-Reads :
    (r : EnblNotifReq)
    → is_valid (writes (enable_notification r)) ≡ true
    → Reads
        (unmarshal_enbl_notif_req true (tsx_id_of (writes (enable_notification r))))
        (params_of (writes (enable_notification r)))
        (carried (writes (enable_notification r)))
unfolding is_valid tsx_id_of params_of carried unmarshal_enbl_notif_req
unmarshal_enbl_notif_req-Reads r valid = search read_rules depth 40
