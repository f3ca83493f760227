-- ===== src/Feeds/Rules/Nodes.antt =====
-- Rules for the subscribers and the nodes: a predicate that says nothing of them is kept.
use feeds_service.Prelude.{ℕ, String, ◌≡◌, refl, inl, inr, List, [], ◌∷◌, str_eq, ◌||◌}
use feeds_service.Prelude.Tests.{◌==◌, Bool-cases, Option-cases}
use feeds_service.Prelude.Rows.{update, delete, has_row}
use feeds_service.Obj.{UserInfo}
use feeds_service.Db.Channels.{db_iter_sub_chans}
use feeds_service.Feeds.State.{
  Server, Env, Chan, ActiveSuber, NotifDest, chan_write, chan_get_by_id, is_uid, as_get, nd_get,
  new_as, new_nd, new_ndpas, iter_sub_chans,
}
use feeds_service.Feeds.Subscriptions.{
  aspc_put, aspc_remove, enable, enable_new, enable_more, nd_attach, put_aspcs, add_aspc, rm_aspc,
  drop_aspcs, detach, detach_all, feeds_deactivate_suber, check_chans, is_some,
}
use feeds_service.Feeds.Rules.Exits.{
  Leaves, Leaves-ret, Leaves-abort, Leaves-require, Leaves-or_fail, Leaves-bind,
}

-- A predicate that says nothing of who is notified, and where.
pub record IgnoresNodes {κ} (P : Server → Type κ) : Type κ where
  pub at_ass : (s : Server) (a : List ActiveSuber) → P s → P (record s { ass = a })
  pub at_nds : (s : Server) (n : List NotifDest) → P s → P (record s { nds = n })
  pub at_aspcs :
      (id : ℕ) (f : Chan → Chan)
      → ((c : Chan) → (f c).info ≡ c.info)
      → (s : Server) → P s
      → P (chan_write id f s)

module _ {κ} {P : Server → Type κ} (ign : IgnoresNodes P) where
  pub aspc_put_keeps : (uid id : ℕ) (s : Server) → P s → P (aspc_put uid id s)
  unfolding aspc_put
  aspc_put_keeps uid id s h = ign.at_aspcs id (add_aspc uid) (λ c. refl) _ (ign.at_ass s _ h)

  pub aspc_remove_keeps : (uid id : ℕ) (s : Server) → P s → P (aspc_remove uid id s)
  unfolding aspc_remove
  aspc_remove_keeps uid id s h = elim (Option-cases (as_get s uid)) [
    | inl e ↦ rw (e, aspc_remove) h
    | inr (suber, e) ↦ elim (Bool-cases (has_row (λ c. c == id) suber.aspcs)) [
      | inl has ↦
          rw (e, aspc_remove, has) (ign.at_aspcs id (rm_aspc uid) (λ c. refl) _ (ign.at_ass s _ h))
      | inr not ↦ rw (e, aspc_remove, not) h
    ]
  ]

  nd_attach_keeps : (node : String) (uid : ℕ) (s : Server) → P s → P (nd_attach node uid s)
  unfolding nd_attach
  nd_attach_keeps node uid s h = elim (Option-cases (nd_get s node)) [
    | inl e ↦ rw (e, nd_attach) (ign.at_nds s _ h)
    | inr (nd, e) ↦ rw (e, nd_attach) (ign.at_nds s _ h)
  ]

  put_aspcs_keeps : (uid : ℕ) (ids : List ℕ) (s : Server) → P s → P (put_aspcs uid ids s)
  unfolding put_aspcs
  put_aspcs_keeps uid [] s h = h
  put_aspcs_keeps uid (id ∷ ids) s h =
      put_aspcs_keeps uid ids _ (ign.at_aspcs id (add_aspc uid) (λ c. refl) s h)

  drop_aspcs_keeps : (uid : ℕ) (ids : List ℕ) (s : Server) → P s → P (drop_aspcs uid ids s)
  unfolding drop_aspcs
  drop_aspcs_keeps uid [] s h = h
  drop_aspcs_keeps uid (id ∷ ids) s h =
      drop_aspcs_keeps uid ids _ (ign.at_aspcs id (rm_aspc uid) (λ c. refl) s h)

  detach_keeps : (node : String) (uid : ℕ) (s : Server) → P s → P (detach node uid s)
  unfolding detach
  detach_keeps node uid s h = elim (Option-cases (as_get s uid)) [
    | inl e ↦ rw (e, detach) h
    | inr (suber, e) ↦ rw (e, detach) (left (delete (λ n. str_eq n node) suber.ndpass) suber)
  ]
    where
      left :
          (nodes : List String) (suber : ActiveSuber)
          → P (elim nodes as (λ _. Server) [
            | [] ↦
                let s1 = drop_aspcs uid suber.aspcs s in
                record s1 { ass = delete (is_uid uid) s1.ass }
            | n ∷ more ↦ record s {
              ass = update (is_uid uid) (λ a. record a { ndpass = n ∷ more }) s.ass;
            }
          ])
      left [] suber = ign.at_ass _ _ (drop_aspcs_keeps uid suber.aspcs s h)
      left (n ∷ more) suber = ign.at_ass s _ h

  detach_all_keeps : (node : String) (uids : List ℕ) (s : Server) → P s → P (detach_all node uids s)
  unfolding detach_all
  detach_all_keeps node [] s h = h
  detach_all_keeps node (uid ∷ uids) s h = detach_all_keeps node uids _ (detach_keeps node uid s h)

  pub feeds_deactivate_suber_keeps :
      (node : String) (s : Server) → P s → P (feeds_deactivate_suber node s)
  unfolding feeds_deactivate_suber
  feeds_deactivate_suber_keeps node s h = elim (Option-cases (nd_get s node)) [
    | inl e ↦ rw (e, feeds_deactivate_suber) h
    | inr (nd, e) ↦
        rw (e, feeds_deactivate_suber) (detach_all_keeps node nd.ndpass _ (ign.at_nds s _ h))
  ]

  check_chans_keeps :
      (env : Env) (ids : List ℕ) (s : Server)
      → P s
      → Leaves P (λ _. Unit {κ}) (check_chans env ids s)
  unfolding check_chans
  check_chans_keeps env [] s h = Leaves-ret tt tt
  check_chans_keeps env (id ∷ ids) s h = elim (Option-cases (chan_get_by_id s id)) [
    | inl e ↦ rw (e, check_chans) (Leaves-abort s h)
    | inr (c, e) ↦ rw (e, check_chans) (Leaves-require _ s _ _ h λ _. check_chans_keeps env ids s h)
  ]

  pub enable_keeps :
      (env : Env) (from : String) (u : UserInfo) (s : Server)
      → P s
      → Leaves P P (enable env from u s)
  unfolding enable enable_new enable_more
  enable_keeps env from u s h = elim (Option-cases (as_get s u.uid)) [
    | inl e ↦
        rw (e, enable)
          (Leaves-require (env.alloc_ok new_as) s _ _ h λ _.
            Leaves-require (is_some (nd_get s from) || env.alloc_ok new_nd) s _ _ h λ _.
              Leaves-require (env.alloc_ok new_ndpas) s _ _ h λ _.
                Leaves-or_fail (db_iter_sub_chans (env.db_ok iter_sub_chans) u.uid s.db) s _ _ h
                  λ ids _. Leaves-bind _ _ (check_chans_keeps env ids s h) λ _ _.
                    Leaves-ret _ (
                      ign.at_ass _ _
                        (put_aspcs_keeps u.uid ids _ (nd_attach_keeps from u.uid s h))))
    | inr (suber, e) ↦ elim (Bool-cases (has_row (λ n. str_eq n from) suber.ndpass)) [
      | inl old ↦ rw (e, enable, old) (Leaves-ret s h)
      | inr new ↦
          rw (e, enable, new)
            (Leaves-require (is_some (nd_get s from) || env.alloc_ok new_nd) s _ _ h λ _.
              Leaves-require (env.alloc_ok new_ndpas) s _ _ h
                λ _. Leaves-ret _ (ign.at_ass _ _ (nd_attach_keeps from u.uid s h)))
    ]
  ]
