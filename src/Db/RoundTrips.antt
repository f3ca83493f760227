-- ===== src/Db/RoundTrips.antt =====
-- src/db.cpp: what one transaction writes, another takes back.
use feeds_service.Prelude.{
  ℕ, String, ◌≡◌, ◌<◌, refl, Bool, true, false, some, List, ◌∷◌, arith, inl, inr,
}
use feeds_service.Prelude.Tests.{◌==◌, Bool-cases, leb}
use feeds_service.Prelude.Words.{u64_mod, dec64-inc64}
use feeds_service.Prelude.Rows.{has_row, delete-fresh, delete-hit, update-undo}
use feeds_service.Db.Tables.{
  Db, ChanRow, PostRow, CmtRow, LikeRow, is_chan, is_post, is_cmt, is_sub, is_like,
}
use feeds_service.Db.Channels.{db_add_sub, db_unsub, count_subscriber, discount_subscriber}
use feeds_service.Db.Comments.{
  db_add_like, db_rm_like, update_likes, like_post, like_cmt, unlike_post, unlike_cmt,
}
use feeds_service.Db.Frames.{db_add_sub_frame, db_add_like_frame}

-- Rows that hold a counter out of the range of 64 bits.
abbrev pub is_chan_wide : ChanRow → Bool
is_chan_wide r = leb u64_mod r.subscribers

abbrev pub is_post_wide : PostRow → Bool
is_post_wide r = leb u64_mod r.likes

abbrev pub is_cmt_wide : CmtRow → Bool
is_cmt_wide r = leb u64_mod r.likes

sub_is_new :
    (done : Bool) (now uid c : ℕ) (proof : String) (db : Db) {db' : Db}
    → db_add_sub done now uid c proof db ≡ some db'
    → has_row (is_sub uid c) db.subscriptions ≡ false
unfolding db_add_sub
sub_is_new done now uid c proof db e = ground arith

undo_sub : (r : ChanRow) → is_chan_wide r ≡ false → discount_subscriber (count_subscriber r) ≡ r
undo_sub r narrow =
    let fits : r.subscribers < u64_mod = ground arith in simp (dec64-inc64 r.subscribers fits) refl

-- A subscription that is added and then removed leaves the database as it was, its counter of
-- subscribers included, where the counters are 64-bit numbers.
pub db_unsub-db_add_sub :
    (done : Bool) (now uid c : ℕ) (proof : String) (db db' : Db)
    → has_row is_chan_wide db.channels ≡ false
    → db_add_sub done now uid c proof db ≡ some db'
    → db_unsub true uid c db' ≡ some db
unfolding db_unsub
db_unsub-db_add_sub done now uid c proof db db' narrow e =
    let same : is_sub uid c
          (record { user_id = uid; channel_id = c; create_at = now; proof = proof })
        ≡ true =
      ground arith in
    simp
      (
        db_add_sub_frame done db now uid c proof e,
        delete-hit (is_sub uid c)
            (record { user_id = uid; channel_id = c; create_at = now; proof = proof })
            db.subscriptions same,
        delete-fresh (is_sub uid c) db.subscriptions (sub_is_new done now uid c proof db e),
        update-undo (is_chan c) is_chan_wide count_subscriber discount_subscriber (λ r. refl)
            undo_sub db.channels narrow,
      )
      refl

undo_post_like : (r : PostRow) → is_post_wide r ≡ false → unlike_post (like_post r) ≡ r
undo_post_like r narrow =
    let fits : r.likes < u64_mod = ground arith in simp (dec64-inc64 r.likes fits) refl

undo_cmt_like : (r : CmtRow) → is_cmt_wide r ≡ false → unlike_cmt (like_cmt r) ≡ r
undo_cmt_like r narrow =
    let fits : r.likes < u64_mod = ground arith in simp (dec64-inc64 r.likes fits) refl

like_is_new :
    (done : Bool) (now uid c p m : ℕ) (proof : String) (db : Db) {db' : Db} {total : ℕ}
    → db_add_like done now uid c p m proof db ≡ some (db', total)
    → has_row (is_like uid c p m) db.likes ≡ false
unfolding db_add_like
like_is_new done now uid c p m proof db e = ground arith

undo_likes :
    (c p m : ℕ) (likes : List LikeRow) (db : Db)
    → has_row is_post_wide db.posts ≡ false
    → has_row is_cmt_wide db.comments ≡ false
    → update_likes unlike_post unlike_cmt c p m
        (record (update_likes like_post like_cmt c p m db) { likes = likes })
      ≡ record db { likes = likes }
unfolding update_likes
undo_likes c p m likes db narrow_posts narrow_cmts = elim (Bool-cases (m == 0)) [
  | inl e ↦
      simp
        (
          e,
          update-undo (is_post c p) is_post_wide like_post unlike_post (λ r. refl) undo_post_like
              db.posts narrow_posts,
        )
        refl
  | inr e ↦
      simp
        (
          e,
          update-undo (is_cmt c p m) is_cmt_wide like_cmt unlike_cmt (λ r. refl) undo_cmt_like
              db.comments narrow_cmts,
        )
        refl
]

-- A like of a post or of a comment that is added and then removed leaves the database as it was,
-- the counters of likes included, where the counters are 64-bit numbers.
pub db_rm_like-db_add_like :
    (done : Bool) (now uid c p m : ℕ) (proof : String) (db db' : Db) (total : ℕ)
    → has_row is_post_wide db.posts ≡ false
    → has_row is_cmt_wide db.comments ≡ false
    → db_add_like done now uid c p m proof db ≡ some (db', total)
    → db_rm_like true uid c p m db' ≡ some db
unfolding db_rm_like
db_rm_like-db_add_like done now uid c p m proof db db' total narrow_posts narrow_cmts e =
    let row : LikeRow = record {
      channel_id = c;
      post_id = p;
      comment_id = m;
      user_id = uid;
      created_at = now;
      proof = proof;
    } in
    let same : is_like uid c p m row ≡ true = ground arith in
    simp
      (
        db_add_like_frame done db now uid c p m proof e,
        undo_likes c p m (row ∷ db.likes) db narrow_posts narrow_cmts,
        delete-hit (is_like uid c p m) row db.likes same,
        delete-fresh (is_like uid c p m) db.likes (like_is_new done now uid c p m proof db e),
      )
      refl
