-- ===== src/Tests/Writes.antt =====
-- A subscription, and a like, that come and go.
use feeds_service.Prelude.{◌≡◌, refl, true, some, [], ◌∷◌}
use feeds_service.Prelude.Rows.{has_row, update, select}
use feeds_service.Db.Tables.{Db, is_chan, is_post}
use feeds_service.Db.Channels.{db_add_sub, db_unsub, count_subscriber}
use feeds_service.Db.Comments.{db_add_like, db_rm_like, update_likes, select_likes, like_post}
use feeds_service.Db.RoundTrips.{db_unsub-db_add_sub, db_rm_like-db_add_like}
use feeds_service.Tests.Data.{stored}

abbrev subscribed : Db
subscribed = record stored {
  subscriptions = record { user_id = 2; channel_id = 1; create_at = 7; proof = "" } ∷ [];
  channels = update (is_chan 1) count_subscriber stored.channels;
}

db_unsub-db_add_sub_example : db_unsub true 2 1 subscribed ≡ some stored
unfolding db_add_sub has_row
db_unsub-db_add_sub_example = db_unsub-db_add_sub true 7 2 1 "" stored subscribed refl refl

abbrev liked : Db
liked = record stored {
  likes =
      record {
        channel_id = 1;
        post_id = 1;
        comment_id = 0;
        user_id = 2;
        created_at = 7;
        proof = "";
      }
      ∷ [];
  posts = update (is_post 1 1) like_post stored.posts;
}

db_rm_like-db_add_like_example : db_rm_like true 2 1 1 0 liked ≡ some stored
unfolding db_add_like update_likes select_likes has_row select update
db_rm_like-db_add_like_example =
    db_rm_like-db_add_like true 7 2 1 1 0 "" stored liked _ refl refl refl
