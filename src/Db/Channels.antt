-- ===== src/Db/Channels.antt =====
-- src/db.cpp: channels, subscriptions and users. The first argument of each function says
-- whether SQLite carries its statements out; where it does not, the transaction is rolled back.
use feeds_service.Prelude.{
  ℕ, String, Bool, true, not, ◌&&◌, Option, some, List, [], ◌∷◌, str_eq, ◌||◌, none, false,
}
use feeds_service.Prelude.Tests.{◌==◌, if◌then◌else◌}
use feeds_service.Prelude.Words.{inc64, dec64}
use feeds_service.Prelude.Rows.{has_row, select, update, delete, count}
use feeds_service.Prelude.Options.{◌>>=◌, ◌>>◌, guard}
use feeds_service.Obj.{Blob, ChanInfo, UserInfo}
use feeds_service.Db.Tables.{Db, ChanRow, SubRow, UserRow, is_chan, is_sub}

-- The row that INSERT makes: the id comes from the sequence and not from `ci`.
abbrev pub new_chan_row : ℕ → ChanInfo → ChanRow
new_chan_row id ci = record {
  channel_id = id;
  created_at = ci.created_at;
  updated_at = ci.created_at;
  name = ci.name;
  intro = ci.intro;
  next_post_id = 1;
  subscribers = 0;
  status = 0;
  tip_methods = ci.tip_methods;
  proof = ci.proof;
  avatar = ci.avatar;
}

-- `name` is UNIQUE.
unfoldable pub db_create_chan : Bool → ChanInfo → Db → Option Db
db_create_chan done ci db = do
  guard done
  guard (not (has_row (λ r. str_eq r.name ci.name) db.channels))
  let id = inc64 db.chan_seq
  some (record db { channels = new_chan_row id ci ∷ db.channels; chan_seq = id })

abbrev pub upd_chan_row : ChanInfo → ChanRow → ChanRow
upd_chan_row ci r = record r {
  updated_at = ci.upd_at;
  name = ci.name;
  intro = ci.intro;
  avatar = ci.avatar;
  tip_methods = ci.tip_methods;
  proof = ci.proof;
}

-- The UNIQUE name may not be that of another row.
unfoldable pub db_upd_chan : Bool → ChanInfo → Db → Option Db
db_upd_chan done ci db = do
  guard done
  guard (not (has_row (λ r. str_eq r.name ci.name && not (is_chan ci.chan_id r)) db.channels))
  some (record db { channels = update (is_chan ci.chan_id) (upd_chan_row ci) db.channels })

abbrev pub count_subscriber : ChanRow → ChanRow
count_subscriber r = record r { subscribers = inc64 r.subscribers }

abbrev pub discount_subscriber : ChanRow → ChanRow
discount_subscriber r = record r { subscribers = dec64 r.subscribers }

unfoldable pub db_is_suber : Bool → ℕ → ℕ → Db → Option Bool
db_is_suber done uid chan_id db = do
  guard done
  some (has_row (is_sub uid chan_id) db.subscriptions)

-- PRIMARY KEY(user_id, channel_id); `now` is the `time(NULL)` of the statement.
unfoldable pub db_add_sub : Bool → ℕ → ℕ → ℕ → String → Db → Option Db
db_add_sub done now uid channel_id proof db = do
  guard done
  guard (not (has_row (is_sub uid channel_id) db.subscriptions))
  let row : SubRow = record {
    user_id = uid;
    channel_id = channel_id;
    create_at = now;
    proof = proof;
  }
  some (record db {
    subscriptions = row ∷ db.subscriptions;
    channels = update (is_chan channel_id) count_subscriber db.channels;
  })

unfoldable pub db_unsub : Bool → ℕ → ℕ → Db → Option Db
db_unsub done uid channel_id db = do
  guard done
  some (record db {
    subscriptions = delete (is_sub uid channel_id) db.subscriptions;
    channels = update (is_chan channel_id) discount_subscriber db.channels;
  })

-- `now` is the `time(NULL)` of the statement; `ui.upd_at` is not used.
abbrev pub upd_user_row : ℕ → UserInfo → UserRow → UserRow
upd_user_row now ui r = record r {
  name = ui.name;
  email = ui.email;
  display_name = ui.display_name;
  avatar = ui.avatar;
  update_at = now;
}

unfoldable pub db_update_user_info : Bool → ℕ → UserInfo → Db → Option Db
db_update_user_info done now ui db = do
  guard done
  some (record db { users = update (λ r. str_eq r.did ui.did) (upd_user_row now ui) db.users })

abbrev is_did : String → UserRow → Bool
is_did did r = str_eq r.did did

-- VALUES (…): 'NA' and X'A0' stand for a display name and an avatar that are null.
abbrev inserted_user : ℕ → ℕ → UserInfo → Option String → Option Blob → UserRow
inserted_user id now ui display_name avatar = record {
  user_id = id;
  did = ui.did;
  name = ui.name;
  email = ui.email;
  display_name = elim display_name [ none ↦ "NA" | some s ↦ s ];
  update_at = now;
  avatar = elim avatar [ none ↦ 160 ∷ [] | some b ↦ b ];
}

-- ON CONFLICT (did) DO UPDATE SET … WHERE …
abbrev upserted_user : UserInfo → UserRow → UserRow
upserted_user ui r =
    if not (str_eq ui.name r.name) || not (str_eq ui.email r.email)
    then record r { name = ui.name; email = ui.email }
    else r

-- The two statements are not one transaction: the second one, which reads the id, may fail alone.
-- `id` is what AUTOINCREMENT gives to a new row.
unfoldable pub db_upsert_user :
    Bool → Bool → ℕ → ℕ → UserInfo → Option String → Option Blob → Db → Db × Option ℕ
db_upsert_user false selects id now ui display_name avatar db = (db, none)
db_upsert_user true selects id now ui display_name avatar db =
    let users : List UserRow =
      if has_row (is_did ui.did) db.users
      then update (is_did ui.did) (upserted_user ui) db.users
      else inserted_user id now ui display_name avatar ∷ db.users in
    (
      record db { users = users },
      do guard selects; r ← select (is_did ui.did) users; some r.user_id,
    )

-- db_get_count("channels") and db_get_count("users")
unfoldable pub db_count_channels : Bool → Db → Option ℕ
db_count_channels done db = do guard done; some (count (λ _. true) db.channels)

unfoldable pub db_count_users : Bool → Db → Option ℕ
db_count_users done db = do guard done; some (count (λ _. true) db.users)

-- The channel ids that `SELECT … FROM subscriptions WHERE user_id = :uid JOIN channels` yields.
abbrev joined : Db → ℕ → List SubRow → List ℕ
joined db uid [] = []
joined db uid (r ∷ rs) =
    let rest = joined db uid rs in
    if r.user_id == uid && has_row (is_chan r.channel_id) db.channels
    then r.channel_id ∷ rest
    else rest

-- `none`: the statement, or a later step of its iteration, fails.
unfoldable pub db_iter_sub_chans : Bool → ℕ → Db → Option (List ℕ)
db_iter_sub_chans done uid db = do guard done; some (joined db uid db.subscriptions)
