-- ===== src/Feeds/Rules/Subscriptions.antt =====
-- The rules of subscriptions and of the nodes that are notified.
use feeds_service.Prelude.{ℕ, String, ◌≡◌, true, none, some, ◌||◌, not, List, [], ◌∷◌, Option}
use feeds_service.Prelude.Tests.{if◌then◌else◌}
use feeds_service.Obj.{UserInfo}
use feeds_service.Db.Tables.{Db}
use feeds_service.Db.Channels.{db_is_suber, db_add_sub, db_unsub}
use feeds_service.Feeds.State.{
  Server, Env, Chan, NotifDest, holds, is_clear, is_suber, add_sub, unsub, new_aspc, chan_get_by_id,
  chan_write, as_get, stats_changed_notif,
}
use feeds_service.Feeds.Subscriptions.{
  SubChanReq, UnsubChanReq, EnblNotifReq, hdl_sub_chan_req, hdl_unsub_chan_req, hdl_enbl_notif_req,
  hdl_stats_changed_notify, notify_stats, notify_stats_node, enable, is_some, aspc_put, aspc_remove,
  count_sub, discount_sub,
}
use feeds_service.Feeds.Rules.Exits.{
  IgnoresOutbox, Leaves, Leaves-ret, Leaves-ready, Leaves-require, Leaves-or_fail, Leaves-bind,
  finish_keeps, notify_owner_keeps, send_keeps,
}

module _ {κ} {P : Server → Type κ} (ign : IgnoresOutbox P) (env : Env) (from : String) {s : Server}
    (h : P s) where
  pub hdl_sub_chan_req_keeps :
      (req : SubChanReq)
      → ((u : UserInfo) (c : Chan) (db : Db)
          → env.uinfo_of_token req.tk ≡ some u
          → chan_get_by_id s req.id ≡ some c
          → is_clear (db_is_suber (env.db_ok is_suber) u.uid req.id s.db) ≡ true
          → db_add_sub (env.db_ok add_sub) env.db_now u.uid req.id req.proof s.db ≡ some db
          → P (
              chan_write req.id count_sub (
                if is_some (as_get s u.uid)
                then aspc_put u.uid req.id (record s { db = db })
                else record s { db = db })))
      → P (hdl_sub_chan_req env from req s)
  unfolding hdl_sub_chan_req
  hdl_sub_chan_req_keeps req k = finish_keeps ign env from req.tsx_id _ (
      Leaves-ready env s _ h (
        Leaves-or_fail _ s _ _ h λ u token. Leaves-or_fail _ s _ _ h λ c found.
          Leaves-require _ s _ _ h λ clear.
            Leaves-require (not (is_some (as_get s u.uid)) || env.alloc_ok new_aspc) s _ _ h λ _.
              Leaves-or_fail _ s _ _ h λ db added.
                Leaves-ret _ (notify_owner_keeps ign env _ _ (k u c db token found clear added))))

  pub hdl_unsub_chan_req_keeps :
      (req : UnsubChanReq)
      → ((u : UserInfo) (c : Chan) (db : Db)
          → env.uinfo_of_token req.tk ≡ some u
          → chan_get_by_id s req.id ≡ some c
          → holds (db_is_suber (env.db_ok is_suber) u.uid req.id s.db) ≡ true
          → db_unsub (env.db_ok unsub) u.uid req.id s.db ≡ some db
          → P (chan_write req.id discount_sub (aspc_remove u.uid req.id (record s { db = db }))))
      → P (hdl_unsub_chan_req env from req s)
  unfolding hdl_unsub_chan_req
  hdl_unsub_chan_req_keeps req k = finish_keeps ign env from req.tsx_id _ (
      Leaves-ready env s _ h (
        Leaves-or_fail _ s _ _ h λ u token. Leaves-or_fail _ s _ _ h λ c found.
          Leaves-require _ s _ _ h λ subscribed.
            Leaves-or_fail _ s _ _ h
              λ db removed. Leaves-ret _ (k u c db token found subscribed removed)))

  pub hdl_enbl_notif_req_keeps :
      (req : EnblNotifReq)
      → ((u : UserInfo) → env.uinfo_of_token req.tk ≡ some u → Leaves P P (enable env from u s))
      → P (hdl_enbl_notif_req env from req s)
  unfolding hdl_enbl_notif_req
  hdl_enbl_notif_req_keeps req k = finish_keeps ign env from req.tsx_id _ (
      Leaves-ready env s _ h (
        Leaves-or_fail _ s _ _ h
          λ u token. Leaves-bind _ _ (k u token) (λ t left. Leaves-ret _ left)))

module _ {κ} {P : Server → Type κ} (ign : IgnoresOutbox P) (env : Env) where
  notify_stats_node_keeps :
      (total : ℕ) (node : String) (uids : List ℕ) (s : Server)
      → P s
      → P (notify_stats_node env total node uids s)
  unfolding notify_stats_node
  notify_stats_node_keeps total node [] s h = h
  notify_stats_node_keeps total node (u ∷ uids) s h =
      notify_stats_node_keeps total node uids _
        (send_keeps ign env node (stats_changed_notif total) s h)

  notify_stats_keeps :
      (total : ℕ) (nds : List NotifDest) (s : Server) → P s → P (notify_stats env total nds s)
  unfolding notify_stats
  notify_stats_keeps total [] s h = h
  notify_stats_keeps total (nd ∷ nds) s h =
      notify_stats_keeps total nds _ (notify_stats_node_keeps total nd.node_id nd.ndpass s h)

  counted_keeps :
      (o : Option ℕ) (s : Server)
      → P s
      → P (elim o as (λ _. Server) [ none ↦ s | some total ↦ notify_stats env total s.nds s ])
  counted_keeps none s h = h
  counted_keeps (some total) s h = notify_stats_keeps total s.nds s h

  -- The broadcast of the number of users keeps every such predicate.
  pub hdl_stats_changed_notify_keeps : (s : Server) → P s → P (hdl_stats_changed_notify env s)
  unfolding hdl_stats_changed_notify
  hdl_stats_changed_notify_keeps s h = counted_keeps _ s h
