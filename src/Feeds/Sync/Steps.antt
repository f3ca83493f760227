-- ===== src/Feeds/Sync/Steps.antt =====
-- Every event keeps the channels in memory those of the database.
use feeds_service.Prelude.{ℕ, String, ◌≡◌, refl, ap, true, false, some, Bool, [], arith}
use feeds_service.Prelude.Tests.{if◌then◌else◌, ==_iff}
use feeds_service.Prelude.Words.{inc64, dec64}
use feeds_service.Prelude.Rows.{update, select-passes}
use feeds_service.Obj.{ChanInfo, PostInfo}
use feeds_service.Db.Tables.{Db, is_chan, ChanRow}
use feeds_service.Db.Posts
use feeds_service.Db.Channels.{
  count_subscriber, discount_subscriber, upd_chan_row, db_create_chan, db_upd_chan, db_add_sub,
  db_unsub,
}
use feeds_service.Db.Frames.{
  db_add_post_frame, db_create_chan_frame, db_upd_chan_frame, db_add_sub_frame, db_unsub_frame,
}
use feeds_service.Feeds.State.{
  Server, Env, Chan, chan_put, chan_rm, chan_sub, chan_write, chan_get_by_id, is_chan_id, as_get,
}
use feeds_service.Feeds.Init.{row2chan}
use feeds_service.Feeds.Posts.{count_post}
use feeds_service.Feeds.Subscriptions.{aspc_put, aspc_remove, count_sub, discount_sub}
use feeds_service.Feeds.Channels.{CreateChanReq, UpdChanReq, new_chan_info, upd_chan_info}
use feeds_service.Feeds.Rules.Exits.{IgnoresOutbox}
use feeds_service.Feeds.Rules.Nodes.{IgnoresNodes, aspc_put_keeps, aspc_remove_keeps}
use feeds_service.Feeds.Sync.Tables.{
  IsSynced, SameChans-update, SameChans-hidden, SameChans-put, SameChans-replace, seen, view_chan,
  view_row,
}

pub IsSynced-IgnoresOutbox : IgnoresOutbox IsSynced
IsSynced-IgnoresOutbox = record {
  at_outbox = λ s o h. record { chans = h.chans; next = h.next };
  at_abort = λ s b h. record { chans = h.chans; next = h.next };
}

-- A database that differs in other tables.
pub same_db :
    (s : Server) (db : Db)
    → db.channels ≡ s.db.channels
    → db.chan_seq ≡ s.db.chan_seq
    → IsSynced s
    → IsSynced (record s { db = db })
same_db s db hc hs h = record { chans = rw hc h.chans; next = rw hs h.next }

-- A channel's counter, counted in memory and in the database.
counted :
    (s : Server) (db : Db) (i : ℕ) (f : Chan → Chan) (g : ChanRow → ChanRow)
    (w : ChanInfo → ChanInfo)
    → ((c : Chan) → view_chan (f c) ≡ w (view_chan c))
    → ((r : ChanRow) → view_row (g r) ≡ w (view_row r))
    → ((x : ChanInfo) → (w x).chan_id ≡ x.chan_id)
    → db.channels ≡ update (is_chan i) g s.db.channels
    → db.chan_seq ≡ s.db.chan_seq
    → IsSynced s
    → IsSynced (chan_write i f (record s { db = db }))
unfolding chan_write
counted s db i f g w hf hg hw hc hs h = record {
  chans = rw hc (SameChans-update i f g w hf hg hw s.chans_by_id s.db.channels h.chans);
  next = rw hs h.next;
}

hidden :
    (i : ℕ) (f : Chan → Chan)
    → ((c : Chan) → view_chan (f c) ≡ view_chan c)
    → (s : Server) → IsSynced s
    → IsSynced (chan_write i f s)
unfolding chan_write
hidden i f hf s h = record {
  chans = SameChans-hidden i f hf s.chans_by_id s.db.channels h.chans;
  next = h.next;
}

pub IsSynced-IgnoresNodes : IgnoresNodes IsSynced
IsSynced-IgnoresNodes = record {
  at_ass = λ s a h. record { chans = h.chans; next = h.next };
  at_nds = λ s n h. record { chans = h.chans; next = h.next };
  at_aspcs = λ id f hf s h. hidden id f (λ c. ap seen (hf c)) s h;
}

more_posts : ChanInfo → ChanInfo
more_posts x = record x { next_post_id = inc64 x.next_post_id }

pub post_counted :
    (s : Server) (done : Bool) (i : ℕ) (pi : PostInfo) (db : Db)
    → pi.chan_id ≡ i
    → Posts.db_add_post done pi s.db ≡ some db
    → IsSynced s
    → IsSynced (chan_write i count_post (record s { db = db }))
unfolding more_posts row2chan
post_counted s done i pi db e added h =
    let frame = db_add_post_frame done s.db pi added in
    counted s db i count_post Posts.count_post more_posts (λ c. refl) (λ r. refl) (λ x. refl)
      (rw (frame, e)) (rw frame) h

pub created :
    (env : Env) (req : CreateChanReq) (s : Server) (done : Bool) (db : Db)
    → db_create_chan done (new_chan_info env req s) s.db ≡ some db
    → IsSynced s
    → IsSynced (
        chan_put
          (record { info = new_chan_info env req s; aspcs = [] })
          (record s { db = db; nxt_chan_id = inc64 s.nxt_chan_id }))
unfolding chan_put row2chan
created env req s done db added h =
    rw (db_create_chan_frame done s.db (new_chan_info env req s) added) (record {
      chans = SameChans-put _ _ s.chans_by_id s.db.channels (ground (arith, h.next)) h.chans;
      next = ap inc64 h.next;
    })

pub updated :
    (env : Env) (req : UpdChanReq) (s : Server) (done : Bool) (c : Chan) (db : Db)
    → chan_get_by_id s req.chan_id ≡ some c
    → db_upd_chan done (upd_chan_info env req c.info) s.db ≡ some db
    → IsSynced s
    → IsSynced (
        chan_sub
          (record { info = upd_chan_info env req c.info; aspcs = c.aspcs })
          c
          (record s { db = db }))
unfolding chan_sub chan_put chan_rm chan_get_by_id row2chan
updated env req s done c db found written h =
    let id : c.info.chan_id ≡ req.chan_id =
      (==_iff c.info.chan_id req.chan_id).0
        (select-passes (is_chan_id req.chan_id) s.chans_by_id {r = c} found) in
    rw (db_upd_chan_frame done s.db (upd_chan_info env req c.info) written) (record {
      chans =
          SameChans-replace c (record { info = upd_chan_info env req c.info; aspcs = c.aspcs })
            (upd_chan_row (upd_chan_info env req c.info)) s.chans_by_id s.db.channels found
            (λ r. refl) (λ r e. ground arith) h.chans;
      next = h.next;
    })

more_subs : ChanInfo → ChanInfo
more_subs x = record x { subs = inc64 x.subs }

fewer_subs : ChanInfo → ChanInfo
fewer_subs x = record x { subs = dec64 x.subs }

pub subscribed :
    (s : Server) (done active : Bool) (now uid id : ℕ) (proof : String) (db : Db)
    → db_add_sub done now uid id proof s.db ≡ some db
    → IsSynced s
    → IsSynced (
        chan_write id count_sub
          (if active then aspc_put uid id (record s { db = db }) else record s { db = db }))
unfolding more_subs row2chan aspc_put chan_write
subscribed s done true now uid id proof db added h =
    let frame = db_add_sub_frame done s.db now uid id proof added in
    counted (aspc_put uid id s) db id count_sub count_subscriber more_subs (λ c. refl) (λ r. refl)
      (λ x. refl) (rw frame) (rw frame) (aspc_put_keeps IsSynced-IgnoresNodes uid id s h)
subscribed s done false now uid id proof db added h =
    let frame = db_add_sub_frame done s.db now uid id proof added in
    counted s db id count_sub count_subscriber more_subs (λ c. refl) (λ r. refl) (λ x. refl)
      (rw frame) (rw frame) h

aspc_remove-db :
    (uid id : ℕ) (s : Server) (db : Db)
    → aspc_remove uid id (record s { db = db }) ≡ record (aspc_remove uid id s) { db = db }
unfolding aspc_remove as_get chan_write
aspc_remove-db uid id s db = ground arith

aspc_remove-db_same : (uid id : ℕ) (s : Server) → (aspc_remove uid id s).db ≡ s.db
unfolding aspc_remove as_get chan_write
aspc_remove-db_same uid id s = ground arith

pub unsubscribed :
    (s : Server) (done : Bool) (uid id : ℕ) (db : Db)
    → db_unsub done uid id s.db ≡ some db
    → IsSynced s
    → IsSynced (chan_write id discount_sub (aspc_remove uid id (record s { db = db })))
unfolding fewer_subs row2chan
unsubscribed s done uid id db removed h =
    let frame = db_unsub_frame done s.db uid id removed in
    rw (aspc_remove-db uid id s db) (
      counted (aspc_remove uid id s) db id discount_sub discount_subscriber fewer_subs (λ c. refl)
        (λ r. refl) (λ x. refl) (rw (frame, aspc_remove-db_same uid id s))
        (rw (frame, aspc_remove-db_same uid id s))
        (aspc_remove_keeps IsSynced-IgnoresNodes uid id s h))
