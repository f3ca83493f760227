-- ===== src/Tests/Data.antt =====
-- A service with one channel, its owner and a reader.
use feeds_service.Prelude.{ℕ, true, false, some, [], ◌∷◌}
use feeds_service.Obj.{UserInfo, post_available, cmt_available}
use feeds_service.Db.Tables.{Db, ChanRow, PostRow, CmtRow}
use feeds_service.Feeds.State.{Server, Env, Chan}
use feeds_service.Feeds.Init.{row2chan}
use feeds_service.Feeds.Channels.{CreateChanReq}
use feeds_service.Feeds.Posts.{PubPostReq, PostIdReq, DeclarePostReq}
use feeds_service.Feeds.Comments.{CmtIdReq}
use feeds_service.Feeds.Likes.{LikeReq, ReportReq}

abbrev pub owner : UserInfo
owner = record {
  uid = 1;
  did = "did:o";
  name = "o";
  email = "";
  display_name = "";
  upd_at = 0;
  avatar = [];
}

abbrev pub reader : UserInfo
reader = record {
  uid = 2;
  did = "did:r";
  name = "r";
  email = "";
  display_name = "";
  upd_at = 0;
  avatar = [];
}

abbrev pub env_of : UserInfo → Env
env_of user = record {
  did_is_ready = true;
  uinfo_of_token = λ tk. some user;
  now = 7;
  db_now = 7;
  db_ok = λ call. true;
  alloc_ok = λ what. true;
  marshal_ok = λ msg. true;
  stale_upd_at = 0;
  stale_reasons = some "";
  stale_created_at = 0;
}

abbrev pub news_row : ChanRow
news_row = record {
  channel_id = 1;
  created_at = 3;
  updated_at = 3;
  name = "news";
  intro = "";
  next_post_id = 2;
  subscribers = 1;
  status = 0;
  tip_methods = "";
  proof = "";
  avatar = [];
}

abbrev pub post_row : PostRow
post_row = record {
  channel_id = 1;
  post_id = 1;
  created_at = 4;
  updated_at = 4;
  next_comment_id = 2;
  likes = 0;
  status = post_available;
  hash_id = "";
  proof = "";
  origin_post_url = "";
  thumbnails = [];
  content = 104 ∷ [];
}

abbrev pub cmt_row : CmtRow
cmt_row = record {
  channel_id = 1;
  post_id = 1;
  comment_id = 1;
  refcomment_id = 0;
  user_id = 2;
  created_at = 5;
  updated_at = 5;
  likes = 0;
  status = cmt_available;
  hash_id = "";
  proof = "";
  thumbnails = [];
  content = 105 ∷ [];
}

abbrev pub stored : Db
stored = record {
  channels = news_row ∷ [];
  posts = post_row ∷ [];
  comments = cmt_row ∷ [];
  users = [];
  subscriptions = [];
  likes = [];
  reports = [];
  chan_seq = 1;
}

abbrev pub news_chan : Chan
news_chan = record { info = row2chan news_row; aspcs = 2 ∷ [] }

abbrev pub service : Server
service = record {
  db = stored;
  nxt_chan_id = 2;
  chans_by_id = news_chan ∷ [];
  chans_by_name = record { name = "news"; chan_id = 1 } ∷ [];
  ass = record { uid = 2; aspcs = 1 ∷ []; ndpass = "phone" ∷ "desk" ∷ [] } ∷ [];
  nds =
      record { node_id = "phone"; ndpass = 2 ∷ [] }
      ∷ record { node_id = "desk"; ndpass = 2 ∷ [] }
      ∷ [];
  outbox = [];
  aborted = false;
}

abbrev pub create_req : CreateChanReq
create_req = record {
  tsx_id = 10;
  tk = "t";
  name = "art";
  intro = "";
  avatar = [];
  tipm = "";
  proof = "";
}

abbrev pub pub_req : PubPostReq
pub_req = record {
  tsx_id = 11;
  tk = "t";
  chan_id = 1;
  content = 106 ∷ [];
  thumbnails = [];
  hash_id = "";
  proof = "";
  origin_post_url = "";
}

abbrev pub declare_req : DeclarePostReq
declare_req = record { base = pub_req; with_notify = false }

abbrev pub post_req : PostIdReq
post_req = record { tsx_id = 12; tk = "t"; chan_id = 1; post_id = 1 }

abbrev pub cmt_req : CmtIdReq
cmt_req = record { tsx_id = 13; tk = "t"; chan_id = 1; post_id = 1; cmt_id = 1 }

abbrev pub like_req : ℕ → LikeReq
like_req cmt = record { tsx_id = 14; tk = "t"; chan_id = 1; post_id = 1; cmt_id = cmt; proof = "" }

abbrev pub report_req : ReportReq
report_req = record {
  tsx_id = 15;
  tk = "t";
  chan_id = 1;
  post_id = 1;
  cmt_id = 1;
  reasons = "spam";
}
