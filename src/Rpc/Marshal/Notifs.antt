-- ===== src/Rpc/Marshal/Notifs.antt =====
-- src/rpc.c: the notifications.
use feeds_service.Prelude.{ℕ, Bool, true, false, ◌++◌, some}
use feeds_service.Prelude.Tests.{if◌then◌else◌}
use feeds_service.Obj.{
  UserInfo, ChanInfo, PostInfo, PostStat, post_available, post_deleted, post_declared, CmtInfo,
  CmtStat, cmt_available, cmt_deleted, cmt_blocked, LikeInfo, ReportedCmtInfo,
}
use feeds_service.Feeds.Posts.{is_deleted}
use feeds_service.Rpc.Marshal.{
  Tokens, pack_kv_str, pack_kv_u64, pack_kv_nil, pack_kv_bin, pack_map, pack_kv_map,
}

abbrev pub post_stat_code : PostStat → ℕ
post_stat_code post_available = 0
post_stat_code post_deleted = 1
post_stat_code post_declared = 2

abbrev pub cmt_stat_code : CmtStat → ℕ
cmt_stat_code cmt_available = 0
cmt_stat_code cmt_deleted = 1
cmt_stat_code cmt_blocked = 2

abbrev pub is_cmt_available : CmtStat → Bool
is_cmt_available cmt_available = true
is_cmt_available _ = false

unfoldable pub rpc_marshal_new_post_notif : PostInfo → Tokens
rpc_marshal_new_post_notif pi = pack_map 3 (
    pack_kv_str "version" (some "1.0")
    ++ pack_kv_str "method" (some "new_post")
    ++ pack_kv_map "params" 12 (
        pack_kv_u64 "channel_id" pi.chan_id
        ++ pack_kv_u64 "id" pi.post_id
        ++ pack_kv_u64 "status" (post_stat_code pi.stat)
        ++ pack_kv_bin "content" pi.content
        ++ pack_kv_u64 "comments" pi.cmts
        ++ pack_kv_u64 "likes" pi.likes
        ++ pack_kv_u64 "created_at" pi.created_at
        ++ pack_kv_u64 "updated_at" pi.upd_at
        ++ pack_kv_bin "thumbnails" pi.thumbnails
        ++ pack_kv_str "hash_id" (some pi.hash_id)
        ++ pack_kv_str "proof" (some pi.proof)
        ++ pack_kv_str "origin_post_url" (some pi.origin_post_url)))

unfoldable pub rpc_marshal_post_upd_notif : PostInfo → Tokens
rpc_marshal_post_upd_notif pi = pack_map 3 (
    pack_kv_str "version" (some "1.0")
    ++ pack_kv_str "method" (some "post_update")
    ++ pack_kv_map "params" 8 (
        pack_kv_u64 "channel_id" pi.chan_id
        ++ pack_kv_u64 "id" pi.post_id
        ++ pack_kv_u64 "status" (post_stat_code pi.stat)
        ++ (if is_deleted pi.stat then pack_kv_nil "content" else pack_kv_bin "content" pi.content)
        ++ pack_kv_u64 "comments" pi.cmts
        ++ pack_kv_u64 "likes" pi.likes
        ++ pack_kv_u64 "created_at" pi.created_at
        ++ pack_kv_u64 "updated_at" pi.upd_at))

unfoldable pub rpc_marshal_new_cmt_notif : CmtInfo → Tokens
rpc_marshal_new_cmt_notif ci = pack_map 3 (
    pack_kv_str "version" (some "1.0")
    ++ pack_kv_str "method" (some "new_comment")
    ++ pack_kv_map "params" 14 (
        pack_kv_u64 "channel_id" ci.chan_id
        ++ pack_kv_u64 "post_id" ci.post_id
        ++ pack_kv_u64 "id" ci.cmt_id
        ++ pack_kv_u64 "status" (cmt_stat_code ci.stat)
        ++ pack_kv_u64 "comment_id" ci.reply_to_cmt
        ++ pack_kv_str "user_did" (some ci.user.did)
        ++ pack_kv_str "user_name" (some ci.user.name)
        ++ pack_kv_bin "content" ci.content
        ++ pack_kv_u64 "likes" ci.likes
        ++ pack_kv_u64 "created_at" ci.created_at
        ++ pack_kv_u64 "updated_at" ci.upd_at
        ++ pack_kv_bin "thumbnails" ci.thumbnails
        ++ pack_kv_str "hash_id" (some ci.hash_id)
        ++ pack_kv_str "proof" (some ci.proof)))

unfoldable pub rpc_marshal_cmt_upd_notif : CmtInfo → Tokens
rpc_marshal_cmt_upd_notif ci = pack_map 3 (
    pack_kv_str "version" (some "1.0")
    ++ pack_kv_str "method" (some "comment_update")
    ++ pack_kv_map "params" 11 (
        pack_kv_u64 "channel_id" ci.chan_id
        ++ pack_kv_u64 "post_id" ci.post_id
        ++ pack_kv_u64 "id" ci.cmt_id
        ++ pack_kv_u64 "status" (cmt_stat_code ci.stat)
        ++ pack_kv_u64 "comment_id" ci.reply_to_cmt
        ++ pack_kv_str "user_did" (some ci.user.did)
        ++ pack_kv_str "user_name" (some ci.user.name)
        ++ (if is_cmt_available ci.stat
            then pack_kv_bin "content" ci.content
            else pack_kv_nil "content")
        ++ pack_kv_u64 "likes" ci.likes
        ++ pack_kv_u64 "created_at" ci.created_at
        ++ pack_kv_u64 "updated_at" ci.upd_at))

unfoldable pub rpc_marshal_new_like_notif : LikeInfo → Tokens
rpc_marshal_new_like_notif li = pack_map 3 (
    pack_kv_str "version" (some "1.0")
    ++ pack_kv_str "method" (some "new_like")
    ++ pack_kv_map "params" 7 (
        pack_kv_u64 "channel_id" li.chan_id
        ++ pack_kv_u64 "post_id" li.post_id
        ++ pack_kv_u64 "comment_id" li.cmt_id
        ++ pack_kv_str "user_name" (some li.user.name)
        ++ pack_kv_str "user_did" (some li.user.did)
        ++ pack_kv_str "proof" (some li.proof)
        ++ pack_kv_u64 "total_count" li.total_cnt))

unfoldable pub rpc_marshal_new_sub_notif : ℕ → UserInfo → Tokens
rpc_marshal_new_sub_notif chan_id uinfo = pack_map 3 (
    pack_kv_str "version" (some "1.0")
    ++ pack_kv_str "method" (some "new_subscription")
    ++ pack_kv_map "params" 3 (
        pack_kv_u64 "channel_id" chan_id
        ++ pack_kv_str "user_name" (some uinfo.name)
        ++ pack_kv_str "user_did" (some uinfo.did)))

unfoldable pub rpc_marshal_chan_upd_notif : UserInfo → ChanInfo → Tokens
rpc_marshal_chan_upd_notif owner ci = pack_map 3 (
    pack_kv_str "version" (some "1.0")
    ++ pack_kv_str "method" (some "feedinfo_update")
    ++ pack_kv_map "params" 11 (
        pack_kv_u64 "id" ci.chan_id
        ++ pack_kv_str "name" (some ci.name)
        ++ pack_kv_str "introduction" (some ci.intro)
        ++ pack_kv_str "owner_name" (some owner.name)
        ++ pack_kv_str "owner_did" (some owner.did)
        ++ pack_kv_u64 "subscribers" ci.subs
        ++ pack_kv_u64 "last_update" ci.upd_at
        ++ pack_kv_bin "avatar" ci.avatar
        ++ pack_kv_str "tip_methods" (some ci.tip_methods)
        ++ pack_kv_str "proof" (some ci.proof)
        ++ pack_kv_u64 "status" ci.status))

unfoldable pub rpc_marshal_stats_changed_notif : ℕ → Tokens
rpc_marshal_stats_changed_notif total_cs = pack_map 3 (
    pack_kv_str "version" (some "1.0")
    ++ pack_kv_str "method" (some "statistics_changed")
    ++ pack_kv_map "params" 1 (pack_kv_u64 "total_clients" total_cs))

unfoldable pub rpc_marshal_report_cmt_notif : ReportedCmtInfo → Tokens
rpc_marshal_report_cmt_notif li = pack_map 3 (
    pack_kv_str "version" (some "1.0")
    ++ pack_kv_str "method" (some "report_illegal_comment")
    ++ pack_kv_map "params" 6 (
        pack_kv_u64 "channel_id" li.chan_id
        ++ pack_kv_u64 "post_id" li.post_id
        ++ pack_kv_u64 "comment_id" li.cmt_id
        ++ pack_kv_str "reporter_name" (some li.reporter.name)
        ++ pack_kv_str "reporter_did" (some li.reporter.did)
        ++ pack_kv_str "reasons" li.reasons
        ++ pack_kv_u64 "created_at" li.created_at))
