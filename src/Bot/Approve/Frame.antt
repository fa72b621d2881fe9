-- ===== src/Bot/Approve/Frame.antt =====
-- Every branch of `handleApprove` keeps the table well formed and only adds to the history.
use deploy_bot.Prelude.{
  ◌+◌, ℤ, String, Option, none, some, inl, inr, refl, Bool, true, false, atoi, ◌==◌, if◌then◌else◌,
}
use deploy_bot.Config.{AppConfig, app_by_name}
use deploy_bot.Store.Types.{PendingDeploy, state_pending, state_merging}
use deploy_bot.Store.Pending.{Result, ok, err, get}
use deploy_bot.Bot.Member.{remember}
use deploy_bot.World.{
  Env, World, Outcome, done, failed, Identity, Membership, membership, member_error, GithubError,
  head_modified, sleep, replace_buttons,
}
use deploy_bot.Github.Merge.Laws.{OnlyAsked-merge_pr}
use deploy_bot.Bot.Merge.{MergeResult}
use deploy_bot.Bot.Merge.Laws.{OnlyAsked-merge_with_retry}
use deploy_bot.Bot.Approve.{
  config_key, approved_tasks, approve_finish, no_op_tasks, close_no_op_pr, merge_refused,
  head_retried, head_waited, retry_head, approve_outcome, approve_configured, approve_found,
  approve_row, approve_verdict, approve_parsed, handle_approve, row_key, merge_params,
  reset_to_pending,
}
use deploy_bot.Bot.Frame.{
  Advances-remember, Advances, Advances-refl, Advances-trans, Advances-same, Advances-send,
  Advances-update_state, Advances-gauge, Advances-run_all,
}

module _ {K : Type 0} (env : Env K) where
  abbrev Moves : World K → World K → Type 0
  Moves = Advances env.cfg.org env.cfg.repo

  Advances-finish :
      (d : PendingDeploy) (pr : ℤ) (ident : Identity) (sha : String) (w : World K)
      → Moves (approve_finish env d pr ident sha w) w
  unfolding approve_finish
  Advances-finish d pr ident sha w = Advances-trans (Advances-send env _ _) (
      Advances-trans (Advances-gauge env _) (
        Advances-trans (Advances-run_all env (approved_tasks env d pr ident sha w) _)
          (Advances-send env _ w)))

  Advances-no_op : (d : PendingDeploy) (pr : ℤ) (w : World K) → Moves (close_no_op_pr env d pr w) w
  unfolding close_no_op_pr
  Advances-no_op d pr w =
      Advances-trans (Advances-send env _ _) (Advances-run_all env (no_op_tasks env d pr) w)

  Advances-refused :
      (d : PendingDeploy) (pr : ℤ) (e : GithubError) (w : World K)
      → Moves (merge_refused env d pr e w) w
  unfolding merge_refused reset_to_pending
  Advances-refused d pr e w =
      Advances-trans (Advances-send env _ _)
        (Advances-update_state env (row_key d pr) state_pending w (inl refl))

  Advances-retried :
      (d : PendingDeploy) (pr : ℤ) (ident : Identity) (r : Outcome String × World K)
      → Moves (head_retried env d pr ident r) r.1
  unfolding head_retried reset_to_pending
  Advances-retried d pr ident (failed e, w) =
      Advances-trans (Advances-send env _ _)
        (Advances-update_state env (row_key d pr) state_pending w (inl refl))
  Advances-retried d pr ident (done sha, w) = answered (sha == "")
    where
      answered : (b : Bool) → Moves (if b then w else approve_finish env d pr ident sha w) w
      answered true = Advances-refl w
      answered false = Advances-finish d pr ident sha w

  Advances-retry_head :
      (d : PendingDeploy) (pr : ℤ) (ident : Identity) (w : World K)
      → Moves (retry_head env d pr ident w) w
  unfolding retry_head sleep
  Advances-retry_head d pr ident w = waited (env.ctx_done (w.now + 2_000))
    where
      waited :
          (b : Bool)
          → Moves
              (head_waited env d pr ident w
                (if b then none else some (record w { now = w.now + 2_000 })))
              w
      waited true = unfold head_waited in Advances-refl w
      waited false =
          let asked = OnlyAsked-merge_pr env pr (record w { now = w.now + 2_000 }) in
          unfold head_waited in
          Advances-trans (Advances-retried d pr ident _) (Advances-same asked.pending asked.history)

  Advances-outcome :
      (d : PendingDeploy) (pr : ℤ) (ident : Identity) (r : Outcome MergeResult × World K)
      → Moves (approve_outcome env d pr ident r) r.1
  unfolding approve_outcome
  Advances-outcome d pr ident (done r, w) = closed r.no_op
    where
      closed :
          (b : Bool)
          → Moves (if b then close_no_op_pr env d pr w else approve_finish env d pr ident r.sha w) w
      closed true = Advances-no_op d pr w
      closed false = Advances-finish d pr ident r.sha w
  Advances-outcome d pr ident (failed head_modified, w) = Advances-retry_head d pr ident w
  Advances-outcome d pr ident (failed e, w) = Advances-refused d pr e w

  Advances-configured :
      (o : Option AppConfig) (d : PendingDeploy) (pr : ℤ) (ident : Identity) (w : World K)
      → Moves (approve_configured env o d pr ident w) w
  unfolding approve_configured
  Advances-configured none d pr ident w = Advances-refused d pr _ w
  Advances-configured (some a) d pr ident w =
      let asked = OnlyAsked-merge_with_retry env pr (merge_params d a) w in
      Advances-trans (Advances-outcome d pr ident _) (Advances-same asked.pending asked.history)

  Advances-row :
      (r : Result (Option PendingDeploy)) (user : String) (pr : ℤ) (ident : Identity) (w : World K)
      → Moves (approve_row env r user pr ident w) w
  unfolding approve_row approve_found
  Advances-row (err e) user pr ident w = Advances-send env _ w
  Advances-row (ok none) user pr ident w = Advances-send env _ w
  Advances-row (ok (some d)) user pr ident w =
      Advances-trans (Advances-configured (app_by_name env.cfg d.app) d pr ident _) (
        Advances-trans (Advances-update_state env (row_key d pr) state_merging _ (inr refl))
          (Advances-send env (replace_buttons "Approved") w))

  Advances-verdict :
      (m : Membership) (user : String) (pr : ℤ) (w : World K)
      → Moves (approve_verdict env m user pr w) w
  unfolding approve_verdict
  Advances-verdict member_error user pr w = Advances-send env _ w
  Advances-verdict (membership false ident) user pr w = Advances-send env _ w
  Advances-verdict (membership true ident) user pr w =
      Advances-row (get env (config_key env pr) w) user pr ident w

  pub Advances-handle_approve :
      (user value : String) (w : World K) → Moves (handle_approve env user value w) w
  unfolding handle_approve
  Advances-handle_approve user value w = parsed (atoi value)
    where
      parsed : (o : Option ℤ) → Moves (approve_parsed env o user w) w
      parsed none = unfold approve_parsed in Advances-refl w
      parsed (some pr) =
          unfold approve_parsed in
          Advances-remember env user
            (Advances-verdict (env.is_member user) user pr (remember env user w))
