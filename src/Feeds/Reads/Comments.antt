-- ===== src/Feeds/Reads/Comments.antt =====
-- src/feeds.c: the request for the comments on a post.
use feeds_service.Prelude.{
  ℕ, ◌+◌, ◌%◌, ◌<◌, ◌^◌, ◌≡◌, refl, ◌∙◌, String, Bool, true, false, ◌&&◌, Option, none, some, List,
  [], ◌∷◌, arith,
}
use mathlib.Core.List
use mathlib.Core.List.{append_assoc}
use feeds_service.Prelude.Tests.{ltb, if◌then◌else◌}
use feeds_service.Prelude.Lists.{length, take}
use feeds_service.Prelude.Rows.{has_row}
use feeds_service.Obj.{
  CmtInfo, CmtStat, cmt_available, cmt_deleted, cmt_blocked, cmt_stat_str, UserInfo,
  access_token_exp, internal_error, not_exist,
}
use feeds_service.Db.Listings.{
  QryCriteria, Orders, CmtUser, join_users, cmt_columns, is_cmt_on, db_iter_cmts, listed_cmt,
  query_column, in_bounds,
}
use feeds_service.Db.Listed.{KeepsRows, select_rows_whole, select_rows_found}
use feeds_service.Feeds.State.{
  Server, Chan, Exit, ret, abort, ◌>>=◌, ◌>>◌, require, or_fail, ready, chan_get_by_id,
}
use feeds_service.Feeds.Reads.Pages.{Split, minus64}
use feeds_service.Feeds.Reads.Defs.{Reply, Reading, answer, finish_read}
use feeds_service.Feeds.Reads.Served.{AllSucceed}

pub record GetCmtsReq : Type 0 where
  pub tsx_id : ℕ
  pub tk : String
  pub chan_id : ℕ
  pub post_id : ℕ
  pub qc : QryCriteria

-- The thumbnails are not taken off `left`.
abbrev pub cmt_split : ℕ → Split CmtInfo
cmt_split max = record {
  max_content_len = max;
  spend = λ left ci. minus64 left (length ci.content);
  need = λ ci. (length ci.content + length ci.thumbnails) % 2 ^ 64;
}

-- The log line of each comment that the iteration yields calls cmt_stat_str.
unfoldable pub logs : Server → List CmtUser → Exit (Unit {0})
logs s [] = ret tt
logs s (x ∷ xs) =
    let rest = logs s xs in elim (cmt_stat_str x.cmt.status) [ none ↦ abort s | some text ↦ rest ]

abbrev is_abort {ℓ} : {A : Type ℓ} → Exit A → Bool
is_abort (abort s) = true
is_abort _ = false

-- `yielded`: how many rows the iteration yields if it does not come to its end.
unfoldable pub get_cmts :
    Reading CmtInfo
    → ℕ
    → Orders CmtUser
    → GetCmtsReq
    → Server
    → Exit (List (Option (Reply CmtInfo)))
get_cmts r yielded orders req s = do
  ready r.env s
  uinfo ← or_fail (r.env.uinfo_of_token req.tk) s access_token_exp
  chan ← or_fail (chan_get_by_id s req.chan_id) s not_exist
  require (ltb req.post_id chan.info.next_post_id) s not_exist
  rows ←
      or_fail (db_iter_cmts r.query_ok orders req.chan_id req.post_id req.qc s.db) s internal_error
  logs s (if r.steps_ok then rows else take yielded rows)
  require r.steps_ok s internal_error
  ret (answer r req.tsx_id (cmt_split r.max_content_len) (List.map listed_cmt rows))

-- Whether the process aborts, and the calls of msgq_enq.
unfoldable pub hdl_get_cmts_req :
    Reading CmtInfo
    → ℕ
    → Orders CmtUser
    → GetCmtsReq
    → Server
    → Bool × List (Option (Reply CmtInfo))
hdl_get_cmts_req r yielded orders req s =
    let body = get_cmts r yielded orders req s in (is_abort body, finish_read r req.tsx_id body)

abbrev pub is_cmt_blocked : CmtStat → Bool
is_cmt_blocked cmt_blocked = true
is_cmt_blocked _ = false

logs_abort :
    (s : Server) (rows : List CmtUser)
    → has_row (λ x. is_cmt_blocked x.cmt.status) rows ≡ true
    → logs s rows ≡ abort s
unfolding logs has_row cmt_stat_str
logs_abort s [] h = ground arith
logs_abort s (x ∷ rows) h = first x.cmt.status refl (logs_abort s rows)
  where
    first :
        (stat : CmtStat)
        → x.cmt.status ≡ stat
        → (has_row (λ x. is_cmt_blocked x.cmt.status) rows ≡ true → logs s rows ≡ abort s)
        → logs s (x ∷ rows) ≡ abort s
    first cmt_blocked e rest = rw (e, logs) refl
    first cmt_available e rest = rw (e, logs) (rest (simp e at h))
    first cmt_deleted e rest = rw (e, logs) (rest (simp e at h))

-- A blocked comment makes get_comments abort the process before anything is answered: if the calls
-- succeed, the user's token is valid, the channel is in memory, the post's id has been given out,
-- the request orders by a column and sets no limit, and a comment on the post that is within the
-- bounds of the request, of a user in the table, is blocked.
pub hdl_get_cmts_req-cmt_stat_str :
    (r : Reading CmtInfo) (yielded : ℕ) (orders : Orders CmtUser) (req : GetCmtsReq) (s : Server)
    (uinfo : UserInfo) (chan : Chan) (col : CmtUser → ℕ)
    → AllSucceed r
    → KeepsRows orders
    → r.env.uinfo_of_token req.tk ≡ some uinfo
    → chan_get_by_id s req.chan_id ≡ some chan
    → req.post_id < chan.info.next_post_id
    → query_column cmt_columns req.qc.by ≡ some col
    → req.qc.maxcnt ≡ 0
    → has_row
        (λ x.
          (is_cmt_on req.chan_id req.post_id x && in_bounds req.qc col x)
          && is_cmt_blocked x.cmt.status)
        (join_users s.db.users s.db.comments)
      ≡ true
    → hdl_get_cmts_req r yielded orders req s ≡ (true, [])
unfolding hdl_get_cmts_req get_cmts finish_read db_iter_cmts
hdl_get_cmts_req-cmt_stat_str r yielded orders req s uinfo chan col good keeps user there given by
      all blocked =
    let on = is_cmt_on req.chan_id req.post_id in
    let table = join_users s.db.users s.db.comments in
    let (rows, found) = select_rows_found orders cmt_columns req.qc on table col by in
    let seen =
      select_rows_whole orders keeps cmt_columns req.qc on table col
        (λ x. is_cmt_blocked x.cmt.status) rows by all found in
    let old : ltb req.post_id chan.info.next_post_id ≡ true = ground arith in
    simp
      (
        good.ready,
        user,
        there,
        old,
        good.query,
        found,
        good.steps,
        logs_abort s rows (seen ∙ blocked),
      )
      refl
