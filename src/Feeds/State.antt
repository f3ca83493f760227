-- ===== src/Feeds/State.antt =====
-- src/feeds.c: the module's tables, the messages it sends, and what a handler reads of its
-- surroundings. A pointer from one table into another is the key of the object that it points to.
use feeds_service.Prelude.{
  ℕ, String, Bool, Option, List, [], ◌∷◌, ◌++◌, none, some, true, false, str_eq,
}
use feeds_service.Prelude.Tests.{◌==◌, if◌then◌else◌}
use feeds_service.Prelude.Rows.{select, has_row, update, delete}
use feeds_service.Obj.{UserInfo, ChanInfo, PostInfo, CmtInfo, LikeInfo, ReportedCmtInfo, Error}
use feeds_service.Db.Tables.{Db}

-- `aspcs`: the users of the channel's ActiveSuberPerChan entries.
pub record Chan : Type 0 where
  pub info : ChanInfo
  pub aspcs : List ℕ

-- `aspcs`: the channels of its ActiveSuberPerChan entries. `ndpass`: the nodes of its
-- NotifDestPerActiveSuber entries.
pub record ActiveSuber : Type 0 where
  pub uid : ℕ
  pub aspcs : List ℕ
  pub ndpass : List String

-- `ndpass`: the users of its NotifDestPerActiveSuber entries.
pub record NotifDest : Type 0 where
  pub node_id : String
  pub ndpass : List ℕ

-- An entry of `chans_by_name`: it points to the object that `chans_by_id` holds under `chan_id`.
pub record NameEntry : Type 0 where
  pub name : String
  pub chan_id : ℕ

-- The marshalled messages: responses, by their transaction, and notifications.
pub data Msg : Type 0 where
  err_resp : ℕ → Error → Msg
  create_chan_resp pub_post_resp declare_post_resp post_cmt_resp : ℕ → ℕ → Msg
  upd_chan_resp upd_user_info_resp notify_post_resp edit_post_resp del_post_resp : ℕ → Msg
  edit_cmt_resp del_cmt_resp block_cmt_resp unblock_cmt_resp : ℕ → Msg
  post_like_resp post_unlike_resp unsub_chan_resp enbl_notif_resp report_cmt_resp : ℕ → Msg
  sub_chan_resp : ℕ → ChanInfo → Msg
  chan_upd_notif : ChanInfo → Msg
  new_post_notif post_upd_notif : PostInfo → Msg
  new_cmt_notif cmt_upd_notif : CmtInfo → Msg
  new_like_notif : LikeInfo → Msg
  new_sub_notif : ℕ → UserInfo → Msg
  stats_changed_notif : ℕ → Msg
  report_cmt_notif : ReportedCmtInfo → Msg

-- A call of `msgq_enq`.
pub record Sent : Type 0 where
  pub peer : String
  pub msg : Msg

-- The static variables of feeds.c, the database, and the messages enqueued so far. `aborted`: the
-- process has called `abort()` or has followed a null pointer.
pub record Server : Type 0 where
  pub db : Db
  pub nxt_chan_id : ℕ
  pub chans_by_id : List Chan
  pub chans_by_name : List NameEntry
  pub ass : List ActiveSuber
  pub nds : List NotifDest
  pub outbox : List Sent
  pub aborted : Bool

-- The database calls of a handler, each made at most once in a request.
pub data DbCall : Type 0 where
  get_count create_chan upd_chan add_post post_is_avail upd_post set_post_status : DbCall
  get_post_status get_post cmt_exists cmt_is_avail cmt_uid add_cmt upd_cmt set_cmt_status : DbCall
  like_exists add_like rm_like is_suber add_sub unsub update_user_info : DbCall
  iter_sub_chans add_reported_cmts : DbCall

pub data Alloc : Type 0 where
  new_chan new_as new_nd new_ndpas new_aspc : Alloc
  new_aspc_of : ℕ → Alloc

-- What a request meets: the DID module, the access tokens (their check is in auth.c, over a JWT
-- library), the clock, the calls that fail, and the values that uninitialised memory happens to
-- hold where the code reads it.
pub record Env : Type 0 where
  pub did_is_ready : Bool
  pub uinfo_of_token : String → Option UserInfo
  pub now : ℕ
  pub db_now : ℕ
  pub db_ok : DbCall → Bool
  pub alloc_ok : Alloc → Bool
  pub marshal_ok : Msg → Bool
  pub stale_upd_at : ℕ
  pub stale_reasons : Option String
  pub stale_created_at : ℕ

-- How a handler's body ends: by falling through with a response, by the bare `return`, by
-- `goto finally` with an error response, or not at all. Each carries the state that it leaves.
pub data Exit {ℓ} (A : Type ℓ) : Type ℓ where
  ret : A → Exit A
  quit : Server → Exit A
  fail : Server → Error → Exit A
  abort : Server → Exit A

infixl 5 ◌>>=◌ ◌>>◌
abbrev pub ◌>>=◌ {ℓ κ} : {A : Type ℓ} {B : Type κ} → Exit A → (A → Exit B) → Exit B
ret a >>= f = f a
quit s >>= f = quit s
fail s e >>= f = fail s e
abort s >>= f = abort s

abbrev pub ◌>>◌ {ℓ} : {B : Type ℓ} → Exit (Unit {0}) → Exit B → Exit B
m >> k = m >>= λ _. k

abbrev pub require : Bool → Server → Error → Exit (Unit {0})
require true s e = ret tt
require false s e = fail s e

abbrev pub or_fail {ℓ} : {A : Type ℓ} → Option A → Server → Error → Exit A
or_fail none s e = fail s e
or_fail (some a) s e = ret a

-- if (!did_is_ready()) return;
abbrev pub ready : Env → Server → Exit (Unit {0})
ready env s = if env.did_is_ready then ret tt else quit s

-- `rc < 0 || !rc` is an error
abbrev pub holds : Option Bool → Bool
holds none = false
holds (some b) = b

-- `rc < 0 || rc > 0` is an error
abbrev pub is_clear : Option Bool → Bool
is_clear none = false
is_clear (some true) = false
is_clear (some false) = true

abbrev pub is_chan_id : ℕ → Chan → Bool
is_chan_id id c = c.info.chan_id == id

abbrev pub is_uid : ℕ → ActiveSuber → Bool
is_uid uid suber = suber.uid == uid

abbrev pub is_node : String → NotifDest → Bool
is_node node nd = str_eq nd.node_id node

unfoldable pub chan_get_by_id : Server → ℕ → Option Chan
chan_get_by_id s id = select (is_chan_id id) s.chans_by_id

unfoldable pub chan_exist_by_name : Server → String → Bool
chan_exist_by_name s name = has_row (λ e. str_eq e.name name) s.chans_by_name

unfoldable pub as_get : Server → ℕ → Option ActiveSuber
as_get s uid = select (is_uid uid) s.ass

unfoldable pub nd_get : Server → String → Option NotifDest
nd_get s node = select (is_node node) s.nds

unfoldable pub chan_put : Chan → Server → Server
chan_put chan s = record s {
  chans_by_name =
      record { name = chan.info.name; chan_id = chan.info.chan_id }
      ∷ delete (λ e. str_eq e.name chan.info.name) s.chans_by_name;
  chans_by_id = chan ∷ delete (is_chan_id chan.info.chan_id) s.chans_by_id;
}

unfoldable pub chan_rm : Chan → Server → Server
chan_rm chan s = record s {
  chans_by_name = delete (λ e. str_eq e.name chan.info.name) s.chans_by_name;
  chans_by_id = delete (is_chan_id chan.info.chan_id) s.chans_by_id;
}

-- The list `aspcs` is shared, so that only the table entries change hands.
unfoldable pub chan_sub : Chan → Chan → Server → Server
chan_sub upd old s = chan_put upd (chan_rm old s)

-- A write to a field of the object that `chan_get_by_id` returned.
unfoldable pub chan_write : ℕ → (Chan → Chan) → Server → Server
chan_write id f s = record s { chans_by_id = update (is_chan_id id) f s.chans_by_id }

-- A notify_of_… function, or the end of a handler: a message that cannot be marshalled is dropped.
unfoldable pub send : Env → String → Msg → Server → Server
send env peer msg s =
    if env.marshal_ok msg
    then record s { outbox = s.outbox ++ record { peer = peer; msg = msg } ∷ [] }
    else s

-- hashtable_foreach(as->ndpass, ndpas) notify(ndpas->nd->node_id)
unfoldable pub notify_nodes : Env → Msg → List String → Server → Server
notify_nodes env msg [] s = s
notify_nodes env msg (node ∷ nodes) s = notify_nodes env msg nodes (send env node msg s)

unfoldable pub nodes_of : List ActiveSuber → ℕ → List String
nodes_of ass uid = elim (select (is_uid uid) ass) [ none ↦ [] | some suber ↦ suber.ndpass ]

-- list_foreach(chan->aspcs, aspc) hashtable_foreach(aspc->as->ndpass, ndpas) notify(…)
unfoldable pub notify_subers : Env → Msg → List ℕ → Server → Server
notify_subers env msg [] s = s
notify_subers env msg (uid ∷ uids) s =
    notify_subers env msg uids (notify_nodes env msg (nodes_of s.ass uid) s)

-- if ((owner = as_get(OWNER_USER_ID))) hashtable_foreach(owner->ndpass, ndpas) notify(…)
unfoldable pub notify_owner : Env → Msg → Server → Server
notify_owner env msg s = notify_nodes env msg (nodes_of s.ass 1) s

-- The label `finally`.
unfoldable pub finish : Env → String → ℕ → Exit (Server × Msg) → Server
finish env from tsx (ret (s, resp)) = send env from resp s
finish env from tsx (quit s) = s
finish env from tsx (fail s e) = send env from (err_resp tsx e) s
finish env from tsx (abort s) = record s { aborted = true }
