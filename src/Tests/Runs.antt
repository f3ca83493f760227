-- ===== src/Tests/Runs.antt =====
-- A day of the service: a second channel, a post, likes, and a reader who leaves.
use feeds_service.Prelude.{◌≡◌, ◌≤◌, refl, sym, true, some, List, [], ◌∷◌, arith}
use feeds_service.Prelude.Words.{inc64-eq}
use feeds_service.Prelude.Rows.{has_row, select, count}
use feeds_service.Feeds.State.{Server}
use feeds_service.Feeds.Dispatch
use feeds_service.Feeds.Dispatch.{Event, run}
use feeds_service.Feeds.Init.{row2chan, feeds_init}
use feeds_service.Feeds.Sync.Tables.{IsSynced}
use feeds_service.Feeds.Sync.Run.{run-IsSynced}
use feeds_service.Feeds.Sync.Start.{IsStored, largest_from, feeds_init-IsSynced}
use feeds_service.Feeds.Transactions.Limit.{channel_count, run-channel_count}
use feeds_service.Feeds.Transactions.Likes.{HasRightLikes, run-HasRightLikes}
use feeds_service.Obj.{post_deleted}
use feeds_service.Feeds.Transactions.Deleted.{IsDeletedIn, run-IsDeletedIn}
use feeds_service.Feeds.Transactions.Defs.{author_of}
use feeds_service.Feeds.Transactions.Authors.{run-author_of}
use feeds_service.Tests.Data.{
  post_row, post_req, cmt_req, owner, reader, env_of, stored, service, create_req, pub_req,
  like_req,
}

abbrev day : List Event
day =
    Dispatch.request (env_of owner) "home" (Dispatch.create_channel create_req)
    ∷ Dispatch.request (env_of owner) "home" (Dispatch.publish_post pub_req)
    ∷ Dispatch.request (env_of reader) "phone" (Dispatch.post_like (like_req 0))
    ∷ Dispatch.request (env_of reader) "phone" (Dispatch.post_like (like_req 1))
    ∷ Dispatch.request (env_of reader) "phone" (Dispatch.post_unlike (like_req 0))
    ∷ Dispatch.peer_offline "phone"
    ∷ Dispatch.stats_changed (env_of owner)
    ∷ []

service-IsSynced : IsSynced service
unfolding select row2chan
service-IsSynced = record { chans = λ id. ground arith; next = sym (inc64-eq 1 (omega arith)) }

run-IsSynced_example : IsSynced (run day service)
run-IsSynced_example = run-IsSynced day service service-IsSynced

stored-HasRightLikes : HasRightLikes stored
unfolding select count
stored-HasRightLikes = record {
  of_post = λ c p. record { missing = λ e. refl; counted = λ k e. ground arith };
  of_cmt = λ c p m nz. record { missing = λ e. refl; counted = λ k e. ground arith };
  once = λ u c p m. omega arith;
}

run-HasRightLikes_example : HasRightLikes (run day service).db
run-HasRightLikes_example = run-HasRightLikes day service stored-HasRightLikes

stored-IsStored : IsStored stored
unfolding count largest_from
stored-IsStored = record { distinct = λ id. ground arith; sequence = refl; room = omega arith }

feeds_init-IsSynced_example :
    (s : Server) × (feeds_init true 5 (λ r. true) stored ≡ some s) × IsSynced (run day s)
unfolding count
feeds_init-IsSynced_example =
    feeds_init-IsSynced 5 (λ r. true) stored day stored-IsStored (omega arith) (λ r. refl)

run-channel_count_example : channel_count (run day service).db ≤ 5
unfolding count
run-channel_count_example = run-channel_count day service (omega arith)

abbrev edits : List Event
edits =
    Dispatch.request (env_of owner) "home" (Dispatch.notify_post post_req)
    ∷ Dispatch.request (env_of reader) "phone" (Dispatch.delete_comment cmt_req)
    ∷ day

abbrev after_deletion : Server
after_deletion = record service {
  db = record stored { posts = record post_row { status = post_deleted } ∷ [] };
}

run-IsDeletedIn_example : IsDeletedIn 1 1 (run edits after_deletion).db.posts
unfolding has_row
run-IsDeletedIn_example =
    run-IsDeletedIn 1 1 edits after_deletion (record { there = refl; dead = refl })

run-author_of_example : author_of 1 1 1 (run edits service).db ≡ some 2
unfolding select
run-author_of_example = run-author_of 1 1 1 2 edits service refl
