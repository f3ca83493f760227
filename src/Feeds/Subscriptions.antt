-- ===== src/Feeds/Subscriptions.antt =====
-- src/feeds.c: subscriptions, and the nodes that are notified.
use feeds_service.Prelude.{
  ℕ, String, Bool, true, false, Option, none, some, List, [], ◌∷◌, ◌||◌, not, str_eq,
}
use feeds_service.Prelude.Tests.{◌==◌, if◌then◌else◌}
use feeds_service.Prelude.Words.{inc64, dec64}
use feeds_service.Prelude.Rows.{has_row, update, delete}
use feeds_service.Obj.{UserInfo, access_token_exp, internal_error, not_exist, wrong_state}
use feeds_service.Db.Channels.{db_is_suber, db_add_sub, db_unsub, db_iter_sub_chans, db_count_users}
use feeds_service.Feeds.State.{
  Server, Env, Chan, ActiveSuber, NotifDest, Exit, ret, abort, ◌>>=◌, ◌>>◌, require, or_fail, holds,
  is_clear, ready, finish, get_count, is_suber, add_sub, unsub, iter_sub_chans, new_as, new_nd,
  new_ndpas, new_aspc, new_aspc_of, sub_chan_resp, unsub_chan_resp, enbl_notif_resp, new_sub_notif,
  stats_changed_notif, is_uid, is_node, chan_get_by_id, as_get, nd_get, chan_write, notify_owner,
  send,
}

pub record SubChanReq : Type 0 where
  pub tsx_id : ℕ
  pub tk : String
  pub id : ℕ
  pub proof : String

pub record UnsubChanReq : Type 0 where
  pub tsx_id : ℕ
  pub tk : String
  pub id : ℕ

abbrev pub add_aspc : ℕ → Chan → Chan
add_aspc uid c = record c { aspcs = uid ∷ c.aspcs }

abbrev pub rm_aspc : ℕ → Chan → Chan
rm_aspc uid c = record c { aspcs = delete (λ u. u == uid) c.aspcs }

-- `aspc_put`: the entry joins the channel's list and the subscriber's table.
unfoldable pub aspc_put : ℕ → ℕ → Server → Server
aspc_put uid chan_id s = chan_write chan_id (add_aspc uid) (record s {
  ass =
      update (is_uid uid)
        (λ suber. record suber { aspcs = chan_id ∷ delete (λ c. c == chan_id) suber.aspcs }) s.ass;
})

-- `aspc_remove`: nothing happens if there is no such entry.
unfoldable pub aspc_remove : ℕ → ℕ → Server → Server
aspc_remove uid chan_id s = elim (as_get s uid) [
  | none ↦ s
  | some suber ↦
      if has_row (λ c. c == chan_id) suber.aspcs
      then chan_write chan_id (rm_aspc uid) (record s {
        ass =
            update (is_uid uid) (λ a. record a { aspcs = delete (λ c. c == chan_id) a.aspcs })
              s.ass;
      })
      else s
]

-- ++chan->info.subs and --chan->info.subs
abbrev pub count_sub : Chan → Chan
count_sub c = record c { info = record c.info { subs = inc64 c.info.subs } }

abbrev pub discount_sub : Chan → Chan
discount_sub c = record c { info = record c.info { subs = dec64 c.info.subs } }

abbrev pub is_some {ℓ} : {A : Type ℓ} → Option A → Bool
is_some none = false
is_some (some a) = true

unfoldable pub hdl_sub_chan_req : Env → String → SubChanReq → Server → Server
hdl_sub_chan_req env from req s = finish env from req.tsx_id do
  ready env s
  uinfo ← or_fail (env.uinfo_of_token req.tk) s access_token_exp
  chan ← or_fail (chan_get_by_id s req.id) s not_exist
  require (is_clear (db_is_suber (env.db_ok is_suber) uinfo.uid req.id s.db)) s wrong_state
  let active = is_some (as_get s uinfo.uid)
  require (not active || env.alloc_ok new_aspc) s internal_error
  db ←
      or_fail (db_add_sub (env.db_ok add_sub) env.db_now uinfo.uid req.id req.proof s.db) s
        internal_error
  let s1 : Server = record s { db = db }
  let s2 = if active then aspc_put uinfo.uid req.id s1 else s1
  let s3 = chan_write req.id count_sub s2
  ret (
    notify_owner env (new_sub_notif chan.info.chan_id uinfo) s3,
    sub_chan_resp req.tsx_id (count_sub chan).info,
  )

unfoldable pub hdl_unsub_chan_req : Env → String → UnsubChanReq → Server → Server
hdl_unsub_chan_req env from req s = finish env from req.tsx_id do
  ready env s
  uinfo ← or_fail (env.uinfo_of_token req.tk) s access_token_exp
  chan ← or_fail (chan_get_by_id s req.id) s not_exist
  require (holds (db_is_suber (env.db_ok is_suber) uinfo.uid req.id s.db)) s wrong_state
  db ← or_fail (db_unsub (env.db_ok unsub) uinfo.uid req.id s.db) s internal_error
  let s1 = aspc_remove uinfo.uid req.id (record s { db = db })
  ret (chan_write req.id discount_sub s1, unsub_chan_resp req.tsx_id)

pub record EnblNotifReq : Type 0 where
  pub tsx_id : ℕ
  pub tk : String

-- `ndpas_put` on the side of the destination, and `nd_put` if it is new.
unfoldable pub nd_attach : String → ℕ → Server → Server
nd_attach node uid s = elim (nd_get s node) [
  | none ↦ record s { nds = record { node_id = node; ndpass = uid ∷ [] } ∷ s.nds }
  | some _ ↦ record s {
    nds = update (is_node node) (λ nd. record nd { ndpass = uid ∷ nd.ndpass }) s.nds;
  }
]

-- The loop over the subscribed channels: a channel that is not in memory is a null pointer.
unfoldable pub check_chans : Env → List ℕ → Server → Exit (Unit {0})
check_chans env [] s = ret tt
check_chans env (id ∷ ids) s = elim (chan_get_by_id s id) [
  | none ↦ abort s
  | some _ ↦ require (env.alloc_ok (new_aspc_of id)) s internal_error >>= λ _. check_chans env ids s
]

-- cvector_foreach(aspcs, i) aspc_put(*i), on the side of the channels.
unfoldable pub put_aspcs : ℕ → List ℕ → Server → Server
put_aspcs uid [] s = s
put_aspcs uid (id ∷ ids) s = put_aspcs uid ids (chan_write id (add_aspc uid) s)

-- A user with no active subscriber: one is made, with an entry for each subscribed channel.
unfoldable pub enable_new : Env → String → UserInfo → Server → Exit Server
enable_new env from uinfo s = do
  require (env.alloc_ok new_as) s internal_error
  require (is_some (nd_get s from) || env.alloc_ok new_nd) s internal_error
  require (env.alloc_ok new_ndpas) s internal_error
  ids ← or_fail (db_iter_sub_chans (env.db_ok iter_sub_chans) uinfo.uid s.db) s internal_error
  check_chans env ids s
  let suber : ActiveSuber = record { uid = uinfo.uid; aspcs = ids; ndpass = from ∷ [] }
  let s1 = put_aspcs uinfo.uid ids (nd_attach from uinfo.uid s)
  ret (record s1 { ass = suber ∷ s1.ass })

-- One more node for an active subscriber.
unfoldable pub enable_more : Env → String → UserInfo → Server → Exit Server
enable_more env from uinfo s = do
  require (is_some (nd_get s from) || env.alloc_ok new_nd) s internal_error
  require (env.alloc_ok new_ndpas) s internal_error
  let s1 = nd_attach from uinfo.uid s
  ret (record s1 {
    ass = update (is_uid uinfo.uid) (λ suber. record suber { ndpass = from ∷ suber.ndpass }) s1.ass;
  })

unfoldable pub enable : Env → String → UserInfo → Server → Exit Server
enable env from uinfo s = elim (as_get s uinfo.uid) [
  | none ↦ enable_new env from uinfo s
  | some suber ↦
      if has_row (λ n. str_eq n from) suber.ndpass then ret s else enable_more env from uinfo s
]

unfoldable pub hdl_enbl_notif_req : Env → String → EnblNotifReq → Server → Server
hdl_enbl_notif_req env from req s = finish env from req.tsx_id do
  ready env s
  uinfo ← or_fail (env.uinfo_of_token req.tk) s access_token_exp
  s1 ← enable env from uinfo s
  ret (s1, enbl_notif_resp req.tsx_id)

-- hashtable_foreach(as->aspcs, aspc) linked_list_remove_entry(aspc->chan->aspcs, &aspc->le)
unfoldable pub drop_aspcs : ℕ → List ℕ → Server → Server
drop_aspcs uid [] s = s
drop_aspcs uid (id ∷ ids) s = drop_aspcs uid ids (chan_write id (rm_aspc uid) s)

-- The body of the loop of `feeds_deactivate_suber`: a subscriber with no node left is removed.
unfoldable pub detach : String → ℕ → Server → Server
detach node uid s = elim (as_get s uid) [
  | none ↦ s
  | some suber ↦ (elim (delete (λ n. str_eq n node) suber.ndpass) [
    | [] ↦ let s1 = drop_aspcs uid suber.aspcs s in record s1 { ass = delete (is_uid uid) s1.ass }
    | left ∷ more ↦ record s {
      ass = update (is_uid uid) (λ a. record a { ndpass = left ∷ more }) s.ass;
    }
  ])
]

unfoldable pub detach_all : String → List ℕ → Server → Server
detach_all node [] s = s
detach_all node (uid ∷ uids) s = detach_all node uids (detach node uid s)

unfoldable pub feeds_deactivate_suber : String → Server → Server
feeds_deactivate_suber node s = elim (nd_get s node) [
  | none ↦ s
  | some nd ↦ detach_all node nd.ndpass (record s { nds = delete (is_node node) s.nds })
]

-- list_foreach(nd->ndpass, ndpas) notify_of_stats_changed(ndpas->nd->node_id, total_clients)
unfoldable pub notify_stats_node : Env → ℕ → String → List ℕ → Server → Server
notify_stats_node env total node [] s = s
notify_stats_node env total node (_ ∷ uids) s =
    notify_stats_node env total node uids (send env node (stats_changed_notif total) s)

unfoldable pub notify_stats : Env → ℕ → List NotifDest → Server → Server
notify_stats env total [] s = s
notify_stats env total (nd ∷ nds) s =
    notify_stats env total nds (notify_stats_node env total nd.node_id nd.ndpass s)

unfoldable pub hdl_stats_changed_notify : Env → Server → Server
hdl_stats_changed_notify env s = elim (db_count_users (env.db_ok get_count) s.db) [
  | none ↦ s
  | some total ↦ notify_stats env total s.nds s
]
