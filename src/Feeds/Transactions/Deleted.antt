-- ===== src/Feeds/Transactions/Deleted.antt =====
-- A post's deletion is final.
use mathlib.Core.Path.{subst}
use feeds_service.Prelude.{
  ℕ, ◌≡◌, refl, ap, sym, ◌∙◌, Bool, true, false, some, List, arith, inl, inr,
}
use feeds_service.Prelude.Tests.{◌==◌, Bool-cases}
use feeds_service.Prelude.Rows.{has_row, update, has_row-update, has_row-update_on, has_row-miss}
use feeds_service.Obj.{PostInfo}
use feeds_service.Db.Tables.{Db, PostRow, CmtRow, is_post}
use feeds_service.Db.Lookup.{post_key}
use feeds_service.Db.Posts.{db_add_post, new_post_row, upd_post_row, set_post_row_status}
use feeds_service.Db.Comments.{
  count_cmt, update_likes, like_post, like_cmt, unlike_post, unlike_cmt,
}
use feeds_service.Db.Frames.{
  db_add_post_frame, db_upd_post_frame, db_set_post_status_frame, db_add_cmt_frame,
  db_upd_cmt_frame, db_set_cmt_status_frame, db_add_like_frame, db_rm_like_frame,
  db_add_reported_cmts_frame, db_create_chan_frame, db_upd_chan_frame, db_add_sub_frame,
  db_unsub_frame, db_update_user_info_frame,
}
use feeds_service.Feeds.State.{Server}
use feeds_service.Feeds.Dispatch.{Event, run}
use feeds_service.Feeds.Transactions.Defs.{
  Transaction, is_live_post, chan_created, chan_updated, user_updated, post_added, post_updated,
  post_status_set, cmt_added, cmt_updated, cmt_status_set, like_added, like_removed, sub_added,
  sub_removed, cmt_reported,
}
use feeds_service.Feeds.Transactions.Run.{run-db_keeps}

-- The post exists, with the status deleted.
pub record IsDeletedIn (c p : ℕ) (posts : List PostRow) : Type 0 where
  pub there : has_row (is_post c p) posts ≡ true
  pub dead : has_row (is_live_post c p) posts ≡ false

module _ (c p : ℕ) where
  along_posts :
      {posts posts' : List PostRow}
      → posts' ≡ posts
      → IsDeletedIn c p posts
      → IsDeletedIn c p posts'
  along_posts e h = subst (IsDeletedIn c p) (sym e) h

  -- A write that leaves the key and the status alone.
  status_kept :
      (f : PostRow → PostRow) (c' p' : ℕ) (posts : List PostRow)
      → ((r : PostRow) → is_post c p (f r) ≡ is_post c p r)
      → ((r : PostRow) → is_live_post c p (f r) ≡ is_live_post c p r)
      → IsDeletedIn c p posts
      → IsDeletedIn c p (update (is_post c' p') f posts)
  status_kept f c' p' posts key live h = record {
    there = has_row-update (is_post c' p') (is_post c p) f key posts ∙ h.there;
    dead = has_row-update (is_post c' p') (is_live_post c p) f live posts ∙ h.dead;
  }

  added_elsewhere :
      (done : Bool) (pi : PostInfo) (db : Db) {db' : Db}
      → db_add_post done pi db ≡ some db'
      → IsDeletedIn c p db.posts
      → post_key pi.chan_id pi.post_id c p ≡ false
  unfolding db_add_post
  added_elsewhere done pi db e h = elim (Bool-cases (post_key pi.chan_id pi.post_id c p)) [
    | inl same ↦
        let ec : pi.chan_id ≡ c = ground arith in
        let ep : pi.post_id ≡ p = ground arith in
        let fresh : has_row (is_post pi.chan_id pi.post_id) db.posts ≡ false = ground arith in
        let gone : has_row (is_post c p) db.posts ≡ false = simp (← ec, ← ep) fresh in
        let there = h.there in ground arith
    | inr other ↦ other
  ]

  set_elsewhere :
      (c' p' : ℕ) (posts : List PostRow)
      → has_row (is_live_post c' p') posts ≡ true
      → IsDeletedIn c p posts
      → post_key c' p' c p ≡ false
  set_elsewhere c' p' posts live h = elim (Bool-cases (post_key c' p' c p)) [
    | inl same ↦
        let ec : c' ≡ c = ground arith in
        let ep : p' ≡ p = ground arith in
        let live' : has_row (is_live_post c p) posts ≡ true = simp (← ec, ← ep) live in
        let dead = h.dead in ground arith
    | inr other ↦ other
  ]

  likes_kept_posts :
      (f : PostRow → PostRow) (g : CmtRow → CmtRow) (c' p' m : ℕ) (db : Db)
      → ((r : PostRow) → is_post c p (f r) ≡ is_post c p r)
      → ((r : PostRow) → is_live_post c p (f r) ≡ is_live_post c p r)
      → IsDeletedIn c p db.posts
      → IsDeletedIn c p (update_likes f g c' p' m db).posts
  unfolding update_likes
  likes_kept_posts f g c' p' m db key live h = elim (Bool-cases (m == 0)) [
    | inl e ↦ simp e (status_kept f c' p' db.posts key live h)
    | inr e ↦ simp e h
  ]

  posts_of : {db db' : Db} → db' ≡ db → db'.posts ≡ db.posts
  posts_of e = ap (λ (d : Db). d.posts) e

  deleted_kept :
      (db db' : Db) → Transaction db db' → IsDeletedIn c p db.posts → IsDeletedIn c p db'.posts
  deleted_kept db db' (chan_created done ci few e) h =
      along_posts (posts_of (db_create_chan_frame done db ci e)) h
  deleted_kept db db' (chan_updated done ci e) h =
      along_posts (posts_of (db_upd_chan_frame done db ci e)) h
  deleted_kept db db' (user_updated done now ui e) h =
      along_posts (posts_of (db_update_user_info_frame done db now ui e)) h
  deleted_kept db db' (post_added done pi e) h =
      let elsewhere = added_elsewhere done pi db e h in
      let other_key : is_post c p (new_post_row pi) ≡ false = elsewhere in
      let other_live : is_live_post c p (new_post_row pi) ≡ false = simp elsewhere refl in
      along_posts (posts_of (db_add_post_frame done db pi e)) (record {
        there = has_row-miss (is_post c p) (new_post_row pi) db.posts other_key ∙ h.there;
        dead = has_row-miss (is_live_post c p) (new_post_row pi) db.posts other_live ∙ h.dead;
      })
  deleted_kept db db' (post_updated done pi _ e) h =
      along_posts (posts_of (db_upd_post_frame done db pi e))
        (status_kept (upd_post_row pi) _ _ db.posts (λ r. refl) (λ r. refl) h)
  deleted_kept db db' (post_status_set done pi live e) h =
      let elsewhere = set_elsewhere pi.chan_id pi.post_id db.posts live h in
      along_posts (posts_of (db_set_post_status_frame done db pi e)) (record {
        there =
            has_row-update (is_post pi.chan_id pi.post_id) (is_post c p)
              (set_post_row_status pi.stat) (λ r. refl) db.posts
            ∙ h.there;
        dead =
            has_row-update_on (is_post pi.chan_id pi.post_id) (is_live_post c p)
              (set_post_row_status pi.stat)
              (λ r mine. let other : is_post c p r ≡ false = ground arith in simp other refl)
              db.posts
            ∙ h.dead;
      })
  deleted_kept db db' (cmt_added done ci e) h =
      along_posts (posts_of (db_add_cmt_frame done db ci e))
        (status_kept count_cmt _ _ db.posts (λ r. refl) (λ r. refl) h)
  deleted_kept db db' (cmt_updated done ci _ e) h =
      along_posts (posts_of (db_upd_cmt_frame done db ci e)) h
  deleted_kept db db' (cmt_status_set done ci _ e) h =
      along_posts (posts_of (db_set_cmt_status_frame done db ci e)) h
  deleted_kept db db' (like_added done now uid c' p' m proof e) h =
      along_posts (posts_of (db_add_like_frame done db now uid c' p' m proof e))
        (likes_kept_posts like_post like_cmt c' p' m db (λ r. refl) (λ r. refl) h)
  deleted_kept db db' (like_removed done uid c' p' m _ e) h =
      along_posts (posts_of (db_rm_like_frame done db uid c' p' m e))
        (likes_kept_posts unlike_post unlike_cmt c' p' m db (λ r. refl) (λ r. refl) h)
  deleted_kept db db' (sub_added done now uid c' proof e) h =
      along_posts (posts_of (db_add_sub_frame done db now uid c' proof e)) h
  deleted_kept db db' (sub_removed done uid c' _ e) h =
      along_posts (posts_of (db_unsub_frame done db uid c' e)) h
  deleted_kept db db' (cmt_reported done now c' p' m uid reason e) h =
      along_posts (posts_of (db_add_reported_cmts_frame done db now c' p' m uid reason e)) h

-- A post that is in the database with the status deleted is there with that status after any
-- events.
pub run-IsDeletedIn :
    (c p : ℕ) (es : List Event) (s : Server)
    → IsDeletedIn c p s.db.posts
    → IsDeletedIn c p (run es s).db.posts
run-IsDeletedIn c p = run-db_keeps (λ db. IsDeletedIn c p db.posts) (deleted_kept c p)
