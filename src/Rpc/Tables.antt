-- ===== src/Rpc/Tables.antt =====
-- src/rpc.c: both tables of the requests have only rows that are read soundly.
use feeds_service.Prelude.{ℕ, Bool, List, [], ◌∷◌}
use feeds_service.Rpc.Parsers.{ReqParser, req_parsers_1_0, req_parsers_2_0}
use feeds_service.Rpc.Valid.Rules.{IsSound}
use feeds_service.Rpc.Sound.Accounts.{
  unmarshal_decl_owner_req-IsSound, unmarshal_imp_did_req-IsSound, unmarshal_iss_vc_req-IsSound,
  unmarshal_update_vc_req-IsSound, unmarshal_signin_req_chal_req-IsSound,
  unmarshal_signin_conf_chal_req-IsSound, unmarshal_set_binary_req-IsSound,
  unmarshal_get_binary_req-IsSound, unmarshal_get_srv_ver_req-IsSound,
}
use feeds_service.Rpc.Sound.Channels.{
  unmarshal_create_chan_req-IsSound, unmarshal_create_chan_req_2-IsSound,
  unmarshal_upd_user_info_req-IsSound, unmarshal_upd_chan_req-IsSound,
  unmarshal_upd_chan_req_2-IsSound, unmarshal_sub_chan_req-IsSound,
  unmarshal_sub_chan_req_2-IsSound, unmarshal_unsub_chan_req-IsSound,
  unmarshal_enbl_notif_req-IsSound,
}
use feeds_service.Rpc.Sound.Posts.{
  unmarshal_pub_post_req-IsSound, unmarshal_pub_post_req_2-IsSound,
  unmarshal_declare_post_req-IsSound, unmarshal_declare_post_req_2-IsSound,
  unmarshal_notify_post_req-IsSound, unmarshal_edit_post_req-IsSound,
  unmarshal_edit_post_req_2-IsSound, unmarshal_del_post_req-IsSound,
}
use feeds_service.Rpc.Sound.Comments.{
  unmarshal_post_cmt_req-IsSound, unmarshal_post_cmt_req_2-IsSound, unmarshal_edit_cmt_req-IsSound,
  unmarshal_edit_cmt_req_2-IsSound, unmarshal_del_cmt_req-IsSound, unmarshal_block_cmt_req-IsSound,
  unmarshal_unblock_cmt_req-IsSound, unmarshal_post_like_req-IsSound,
  unmarshal_post_like_req_2-IsSound, unmarshal_post_unlike_req-IsSound,
  unmarshal_report_illegal_cmt_req-IsSound,
}
use feeds_service.Rpc.Sound.Queries.{
  unmarshal_get_my_chans_req-IsSound, unmarshal_get_my_chans_meta_req-IsSound,
  unmarshal_get_chans_req-IsSound, unmarshal_get_chan_dtl_req-IsSound,
  unmarshal_get_sub_chans_req-IsSound, unmarshal_get_posts_req-IsSound,
  unmarshal_get_posts_lac_req-IsSound, unmarshal_get_liked_posts_req-IsSound,
  unmarshal_get_liked_data_req-IsSound, unmarshal_get_cmts_req-IsSound,
  unmarshal_get_cmts_likes_req-IsSound, unmarshal_get_stats_req-IsSound,
  unmarshal_get_reported_cmts_req-IsSound,
}

abbrev pub IsSoundRow : ReqParser → Type 0
IsSoundRow row = (alloc : Bool) (tsx_id : ℕ) → IsSound row.method (row.parser alloc tsx_id)

pub data EveryIsSound : List ReqParser → Type 0 where
  done : EveryIsSound []
  ◌and◌ :
      {row : ReqParser} {rows : List ReqParser}
      → IsSoundRow row
      → EveryIsSound rows
      → EveryIsSound (row ∷ rows)

infixr 5 ◌and◌
pub req_parsers_1_0-EveryIsSound : EveryIsSound req_parsers_1_0
unfolding req_parsers_1_0
req_parsers_1_0-EveryIsSound =
    unmarshal_decl_owner_req-IsSound and unmarshal_imp_did_req-IsSound
    and unmarshal_iss_vc_req-IsSound and unmarshal_update_vc_req-IsSound
    and unmarshal_signin_req_chal_req-IsSound and unmarshal_signin_conf_chal_req-IsSound
    and unmarshal_create_chan_req-IsSound and unmarshal_upd_chan_req-IsSound
    and unmarshal_upd_user_info_req-IsSound and unmarshal_pub_post_req-IsSound
    and unmarshal_declare_post_req-IsSound and unmarshal_notify_post_req-IsSound
    and unmarshal_edit_post_req-IsSound and unmarshal_del_post_req-IsSound
    and unmarshal_post_cmt_req-IsSound and unmarshal_edit_cmt_req-IsSound
    and unmarshal_del_cmt_req-IsSound and unmarshal_block_cmt_req-IsSound
    and unmarshal_unblock_cmt_req-IsSound and unmarshal_post_like_req-IsSound
    and unmarshal_post_unlike_req-IsSound and unmarshal_get_my_chans_req-IsSound
    and unmarshal_get_my_chans_meta_req-IsSound and unmarshal_get_chans_req-IsSound
    and unmarshal_get_chan_dtl_req-IsSound and unmarshal_get_sub_chans_req-IsSound
    and unmarshal_get_posts_req-IsSound and unmarshal_get_posts_lac_req-IsSound
    and unmarshal_get_liked_posts_req-IsSound and unmarshal_get_liked_data_req-IsSound
    and unmarshal_get_cmts_req-IsSound and unmarshal_get_cmts_likes_req-IsSound
    and unmarshal_get_stats_req-IsSound and unmarshal_sub_chan_req-IsSound
    and unmarshal_unsub_chan_req-IsSound and unmarshal_enbl_notif_req-IsSound
    and unmarshal_set_binary_req-IsSound and unmarshal_get_binary_req-IsSound
    and unmarshal_get_srv_ver_req-IsSound and unmarshal_report_illegal_cmt_req-IsSound
    and unmarshal_get_reported_cmts_req-IsSound and done

pub req_parsers_2_0-EveryIsSound : EveryIsSound req_parsers_2_0
unfolding req_parsers_2_0
req_parsers_2_0-EveryIsSound =
    unmarshal_decl_owner_req-IsSound and unmarshal_imp_did_req-IsSound
    and unmarshal_iss_vc_req-IsSound and unmarshal_update_vc_req-IsSound
    and unmarshal_signin_req_chal_req-IsSound and unmarshal_signin_conf_chal_req-IsSound
    and unmarshal_create_chan_req_2-IsSound and unmarshal_upd_chan_req_2-IsSound
    and unmarshal_upd_user_info_req-IsSound and unmarshal_pub_post_req_2-IsSound
    and unmarshal_declare_post_req_2-IsSound and unmarshal_notify_post_req-IsSound
    and unmarshal_edit_post_req_2-IsSound and unmarshal_del_post_req-IsSound
    and unmarshal_post_cmt_req_2-IsSound and unmarshal_edit_cmt_req_2-IsSound
    and unmarshal_del_cmt_req-IsSound and unmarshal_block_cmt_req-IsSound
    and unmarshal_unblock_cmt_req-IsSound and unmarshal_post_like_req_2-IsSound
    and unmarshal_post_unlike_req-IsSound and unmarshal_get_my_chans_req-IsSound
    and unmarshal_get_my_chans_meta_req-IsSound and unmarshal_get_chans_req-IsSound
    and unmarshal_get_chan_dtl_req-IsSound and unmarshal_get_sub_chans_req-IsSound
    and unmarshal_get_posts_req-IsSound and unmarshal_get_posts_lac_req-IsSound
    and unmarshal_get_liked_posts_req-IsSound and unmarshal_get_liked_data_req-IsSound
    and unmarshal_get_cmts_req-IsSound and unmarshal_get_cmts_likes_req-IsSound
    and unmarshal_get_stats_req-IsSound and unmarshal_sub_chan_req_2-IsSound
    and unmarshal_unsub_chan_req-IsSound and unmarshal_enbl_notif_req-IsSound
    and unmarshal_set_binary_req-IsSound and unmarshal_get_binary_req-IsSound
    and unmarshal_get_srv_ver_req-IsSound and unmarshal_report_illegal_cmt_req-IsSound
    and unmarshal_get_reported_cmts_req-IsSound and done
