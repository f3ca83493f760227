-- ===== src/Feeds/Requests/Author.antt =====
-- src/feeds.c: a comment belongs to its author.
use feeds_service.Prelude.{ℕ, String, ◌≡◌, ◌⊎◌, some, inl, inr, refl}
use feeds_service.Obj.{UserInfo}
use feeds_service.Feeds.State.{Server, Env}
use feeds_service.Feeds.Dispatch
use feeds_service.Feeds.Dispatch.{Request, dispatch}
use feeds_service.Feeds.Transactions.Defs.{author_of}
use feeds_service.Feeds.Transactions.Run.{is_author-author_of}
use feeds_service.Feeds.Rules.Exits.{IgnoresOutbox}
use feeds_service.Feeds.Rules.Comments.{
  hdl_edit_cmt_req_keeps, hdl_del_cmt_req_keeps, hdl_block_cmt_req_keeps, hdl_unblock_cmt_req_keeps,
}

-- A request that changes the comment with the given token and ids.
pub data AuthorRequest : Request → String → ℕ → ℕ → ℕ → Type 0 where
  edit_comment : (q : _) → AuthorRequest (Dispatch.edit_comment q) q.tk q.chan_id q.post_id q.id
  delete_comment :
      (q : _) → AuthorRequest (Dispatch.delete_comment q) q.tk q.chan_id q.post_id q.cmt_id
  block_comment :
      (q : _) → AuthorRequest (Dispatch.block_comment q) q.tk q.chan_id q.post_id q.cmt_id
  unblock_comment :
      (q : _) → AuthorRequest (Dispatch.unblock_comment q) q.tk q.chan_id q.post_id q.cmt_id

-- The requester's token names the user under whom the comment stands in the database.
pub record IsByAuthor (env : Env) (s : Server) (tk : String) (c p m : ℕ) : Type 0 where
  pub user : UserInfo
  pub token : env.uinfo_of_token tk ≡ some user
  pub author : author_of c p m s.db ≡ some user.uid

abbrev Outcome : Env → Server → String → ℕ → ℕ → ℕ → Server → Type 0
Outcome env s tk c p m t = (t.db ≡ s.db) ⊎ IsByAuthor env s tk c p m

ignores :
    (env : Env) (s : Server) (tk : String) (c p m : ℕ) → IgnoresOutbox (Outcome env s tk c p m)
ignores env s tk c p m = record { at_outbox = λ t o h. h; at_abort = λ t b h. h }

-- Editing, deleting, blocking or unblocking a comment leaves the database as it was, unless the
-- request's token is that of the user under whom the comment stands in the database:
-- the owner of the feeds is no exception.
pub dispatch-IsByAuthor :
    (env : Env) (from : String) (s : Server) (r : Request) (tk : String) (c p m : ℕ)
    → AuthorRequest r tk c p m
    → ((dispatch env from r s).db ≡ s.db) ⊎ IsByAuthor env s tk c p m
unfolding dispatch
dispatch-IsByAuthor env from s _ _ _ _ _ (edit_comment q) =
    hdl_edit_cmt_req_keeps (ignores env s _ _ _ _) env from {s = s} (inl refl) q
      (λ u c db ci token _ author _.
        inr (record { user = u; token = token; author = is_author-author_of _ _ _ _ _ _ author }))
dispatch-IsByAuthor env from s _ _ _ _ _ (delete_comment q) =
    hdl_del_cmt_req_keeps (ignores env s _ _ _ _) env from {s = s} (inl refl) q
      (λ u c db ci token _ author _.
        inr (record { user = u; token = token; author = is_author-author_of _ _ _ _ _ _ author }))
dispatch-IsByAuthor env from s _ _ _ _ _ (block_comment q) =
    hdl_block_cmt_req_keeps (ignores env s _ _ _ _) env from {s = s} (inl refl) q
      (λ u c db ci token _ author _.
        inr (record { user = u; token = token; author = is_author-author_of _ _ _ _ _ _ author }))
dispatch-IsByAuthor env from s _ _ _ _ _ (unblock_comment q) =
    hdl_unblock_cmt_req_keeps (ignores env s _ _ _ _) env from {s = s} (inl refl) q
      (λ u c db ci token _ author _.
        inr (record { user = u; token = token; author = is_author-author_of _ _ _ _ _ _ author }))
