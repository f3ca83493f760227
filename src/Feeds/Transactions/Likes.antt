-- ===== src/Feeds/Transactions/Likes.antt =====
-- The counters of likes are right after any events.
use mathlib.Core.Path.{subst}
use feeds_service.Prelude.{
  ℕ, String, ◌≡◌, ◌≢◌, refl, sym, Bool, true, false, none, some, List, ◌∷◌, arith, inl, inr,
}
use feeds_service.Prelude.Tests.{◌==◌, Bool-cases, Option-cases}
use feeds_service.Prelude.Rows.{select, has_row, update, select-update_self}
use feeds_service.Obj.{PostInfo, CmtInfo}
use feeds_service.Db.Tables.{Db, is_post, is_cmt, is_like}
use feeds_service.Db.Posts.{db_add_post, new_post_row, upd_post_row, set_post_row_status}
use feeds_service.Db.Comments.{
  db_add_cmt, db_add_like, db_rm_like, update_likes, select_likes, like_post, like_cmt, count_cmt,
  upd_cmt_row, set_cmt_row_status, new_cmt_row,
}
use feeds_service.Db.Frames.{
  db_add_post_frame, db_upd_post_frame, db_set_post_status_frame, db_upd_cmt_frame,
  db_set_cmt_status_frame, db_add_like_frame, db_rm_like_frame, db_add_reported_cmts_frame,
  db_create_chan_frame, db_upd_chan_frame, db_add_sub_frame, db_unsub_frame,
  db_update_user_info_frame,
}
use feeds_service.Feeds.State.{Server}
use feeds_service.Feeds.Dispatch.{Event, run}
use feeds_service.Feeds.Transactions.Defs.{
  Transaction, chan_created, chan_updated, user_updated, post_added, post_updated, post_status_set,
  cmt_added, cmt_updated, cmt_status_set, like_added, like_removed, sub_added, sub_removed,
  cmt_reported,
}
use feeds_service.Feeds.Transactions.Run.{run-db_keeps}
use feeds_service.Feeds.Transactions.Counted.{
  LikesCounted, post_likes, cmt_likes, post_kept, cmt_kept, post_new, cmt_new,
}
use feeds_service.Feeds.Transactions.Liked.{
  like_post_counted, like_cmt_counted, unlike_post_counted, unlike_cmt_counted,
}

abbrev pub HasRightLikes : Db → Type 0
HasRightLikes db = LikesCounted db.posts db.comments db.likes

along : {db db' : Db} → db' ≡ db → HasRightLikes db → HasRightLikes db'
along e h = subst HasRightLikes (sym e) h

-- What the statements of a transaction have tested.
post_is_new :
    (done : Bool) (pi : PostInfo) (db : Db) {db' : Db}
    → db_add_post done pi db ≡ some db'
    → has_row (is_post pi.chan_id pi.post_id) db.posts ≡ false
unfolding db_add_post
post_is_new done pi db e = ground arith

like_is_new :
    (done : Bool) (now uid c p m : ℕ) (proof : String) (db : Db) {db' : Db} {total : ℕ}
    → db_add_like done now uid c p m proof db ≡ some (db', total)
    → has_row (is_like uid c p m) db.likes ≡ false
unfolding db_add_like
like_is_new done now uid c p m proof db e = ground arith

is_counted :
    (done : Bool) (now uid c p m : ℕ) (proof : String) (db : Db) {db' : Db} {total : ℕ}
    → db_add_like done now uid c p m proof db ≡ some (db', total)
    → select_likes c p m (update_likes like_post like_cmt c p m db) ≡ some total
unfolding db_add_like
is_counted done now uid c p m proof db e = ground arith

post_is_there :
    (c p m : ℕ) (db : Db) {total : ℕ}
    → (m == 0) ≡ true
    → select_likes c p m (update_likes like_post like_cmt c p m db) ≡ some total
    → post_likes c p db.posts ≢ none
unfolding select_likes update_likes
post_is_there c p m db e counted =
    ground (arith, select-update_self (is_post c p) (is_post c p) like_post (λ r. refl) db.posts)

cmt_is_there :
    (c p m : ℕ) (db : Db) {total : ℕ}
    → (m == 0) ≡ false
    → select_likes c p m (update_likes like_post like_cmt c p m db) ≡ some total
    → cmt_likes c p m db.comments ≢ none
unfolding select_likes update_likes
cmt_is_there c p m db e counted =
    ground
      (arith, select-update_self (is_cmt c p m) (is_cmt c p m) like_cmt (λ r. refl) db.comments)

like_added_keeps :
    (done : Bool) (now uid c p m : ℕ) (proof : String) (db : Db) {db' : Db} {total : ℕ}
    → db_add_like done now uid c p m proof db ≡ some (db', total)
    → HasRightLikes db
    → HasRightLikes db'
unfolding update_likes
like_added_keeps done now uid c p m proof db e h =
    along (db_add_like_frame done db now uid c p m proof e) (elim (Bool-cases (m == 0)) [
      | inl on_post ↦
          let zero : m ≡ 0 = ground arith in
          let there = post_is_there c p m db on_post (is_counted done now uid c p m proof db e) in
          simp on_post
            (like_post_counted h _ zero (like_is_new done now uid c p m proof db e) there)
      | inr on_cmt ↦
          let nonzero : m ≢ 0 = ground arith in
          let there = cmt_is_there c p m db on_cmt (is_counted done now uid c p m proof db e) in
          simp on_cmt
            (like_cmt_counted h _ nonzero (like_is_new done now uid c p m proof db e) there)
    ])

like_removed_keeps :
    (done : Bool) (uid c p m : ℕ) (db : Db) {db' : Db}
    → has_row (is_like uid c p m) db.likes ≡ true
    → db_rm_like done uid c p m db ≡ some db'
    → HasRightLikes db
    → HasRightLikes db'
unfolding update_likes
like_removed_keeps done uid c p m db liked e h =
    along (db_rm_like_frame done db uid c p m e) (elim (Bool-cases (m == 0)) [
      | inl on_post ↦
          let zero : 0 ≡ m = ground arith in
          let liked0 : has_row (is_like uid c p 0) db.likes ≡ true = simp zero liked in
          simp (on_post, ← zero) (unlike_post_counted h uid c p liked0)
      | inr on_cmt ↦
          let nonzero : m ≢ 0 = ground arith in
          simp on_cmt (unlike_cmt_counted h uid c p m nonzero liked)
    ])

-- The id that the new comment got, which no comment of the post had.
pub record CmtAdded (ci : CmtInfo) (db db' : Db) : Type 0 where
  pub id : ℕ
  pub fresh : has_row (is_cmt ci.chan_id ci.post_id id) db.comments ≡ false
  pub frame : db' ≡ record db {
    comments = new_cmt_row id ci ∷ db.comments;
    posts = update (is_post ci.chan_id ci.post_id) count_cmt db.posts;
  }

pub db_add_cmt-CmtAdded :
    (done : Bool) (ci : CmtInfo) (db : Db) {db' : Db} {id : ℕ}
    → db_add_cmt done ci db ≡ some (db', id)
    → CmtAdded ci db db'
unfolding db_add_cmt
db_add_cmt-CmtAdded done ci db e =
    elim (Option-cases (select (is_post ci.chan_id ci.post_id) db.posts)) [
      | inl gone ↦ ground arith
      | inr (r, found) ↦ record {
        id = r.next_comment_id;
        fresh = ground arith;
        frame = ground arith;
      }
    ]

likes_kept : (db db' : Db) → Transaction db db' → HasRightLikes db → HasRightLikes db'
likes_kept db db' (chan_created done ci few e) h = along (db_create_chan_frame done db ci e) h
likes_kept db db' (chan_updated done ci e) h = along (db_upd_chan_frame done db ci e) h
likes_kept db db' (user_updated done now ui e) h =
    along (db_update_user_info_frame done db now ui e) h
likes_kept db db' (post_added done pi e) h =
    along (db_add_post_frame done db pi e)
      (post_new h (new_post_row pi) refl (post_is_new done pi db e))
likes_kept db db' (post_updated done pi _ e) h =
    along (db_upd_post_frame done db pi e)
      (post_kept h (upd_post_row pi) (λ c p r. refl) (λ r. refl) _ _)
likes_kept db db' (post_status_set done pi _ e) h =
    along (db_set_post_status_frame done db pi e)
      (post_kept h (set_post_row_status pi.stat) (λ c p r. refl) (λ r. refl) _ _)
likes_kept db db' (cmt_added done ci e) h =
    let a = db_add_cmt-CmtAdded done ci db e in
    along a.frame (
      post_kept (cmt_new h (new_cmt_row a.id ci) refl a.fresh) count_cmt (λ c p r. refl) (λ r. refl)
        _ _)
likes_kept db db' (cmt_updated done ci _ e) h =
    along (db_upd_cmt_frame done db ci e)
      (cmt_kept h (upd_cmt_row ci) (λ c p m r. refl) (λ r. refl) _ _ _)
likes_kept db db' (cmt_status_set done ci _ e) h =
    along (db_set_cmt_status_frame done db ci e)
      (cmt_kept h (set_cmt_row_status ci) (λ c p m r. refl) (λ r. refl) _ _ _)
likes_kept db db' (like_added done now uid c p m proof e) h =
    like_added_keeps done now uid c p m proof db e h
likes_kept db db' (like_removed done uid c p m liked e) h =
    like_removed_keeps done uid c p m db liked e h
likes_kept db db' (sub_added done now uid c proof e) h =
    along (db_add_sub_frame done db now uid c proof e) h
likes_kept db db' (sub_removed done uid c _ e) h = along (db_unsub_frame done db uid c e) h
likes_kept db db' (cmt_reported done now c p m uid reason e) h =
    along (db_add_reported_cmts_frame done db now c p m uid reason e) h

-- Whatever requests, departures and broadcasts follow, and whichever calls fail on the way: if the
-- column `likes` of every post and comment is the number of its rows in the table likes, modulo
-- 2^64, and no user likes anything twice, then it stays so.
pub run-HasRightLikes :
    (es : List Event) (s : Server) → HasRightLikes s.db → HasRightLikes (run es s).db
run-HasRightLikes = run-db_keeps HasRightLikes likes_kept
