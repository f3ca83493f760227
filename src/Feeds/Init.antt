-- ===== src/Feeds/Init.antt =====
-- src/feeds.c: feeds_init and its loop over the stored channels.
use feeds_service.Prelude.{ℕ, zero, suc, Bool, Option, none, some, List, [], ◌∷◌}
use feeds_service.Prelude.Tests.{leb, if◌then◌else◌}
use feeds_service.Prelude.Words.{inc64}
use feeds_service.Obj.{ChanInfo}
use feeds_service.Db.Tables.{Db, ChanRow}
use feeds_service.Feeds.State.{Server, Chan, chan_put}

unfoldable pub row2chan : ChanRow → ChanInfo
row2chan r = record {
  chan_id = r.channel_id;
  name = r.name;
  intro = r.intro;
  created_at = r.created_at;
  upd_at = r.updated_at;
  subs = r.subscribers;
  next_post_id = r.next_post_id;
  avatar = r.avatar;
  tip_methods = r.tip_methods;
  proof = r.proof;
  status = r.status;
}

-- One round of the loop: chan_put, and nxt_chan_id raised above the channel's id.
unfoldable pub load_chan : ChanRow → Server → Server
load_chan r s =
    let chan : Chan = record { info = row2chan r; aspcs = [] } in
    chan_put chan (record s {
      nxt_chan_id = if leb s.nxt_chan_id r.channel_id then inc64 r.channel_id else s.nxt_chan_id;
    })

-- `budget`: how many rows `db_iter_nxt` yields before it reports the end or an error (the loop
-- does not tell them apart). `create`: whether `chan_create` succeeds; `none` is the result -1.
unfoldable pub load_chans : ℕ → (ChanRow → Bool) → List ChanRow → Server → Option Server
load_chans zero create rows s = some s
load_chans (suc budget) create [] s = some s
load_chans (suc budget) create (r ∷ rows) s =
    let rest = load_chans budget create rows (load_chan r s) in if create r then rest else none

-- The state before the loop: empty tables, over the stored database.
unfoldable pub blank_server : Db → Server
blank_server db = record {
  db = db;
  nxt_chan_id = 1;
  chans_by_id = [];
  chans_by_name = [];
  ass = [];
  nds = [];
  outbox = [];
  aborted = Bool.false;
}

-- `prepared`: whether the tables are allocated and the query is prepared.
unfoldable pub feeds_init : Bool → ℕ → (ChanRow → Bool) → Db → Option Server
feeds_init prepared budget create db =
    if prepared then load_chans budget create db.channels (blank_server db) else none
