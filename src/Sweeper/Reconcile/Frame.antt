-- ===== src/Sweeper/Reconcile/Frame.antt =====
-- Reconciling keeps the table well formed and only adds to the history.
use deploy_bot.Prelude.{List, [], ◌∷◌, String, Option, none, some, refl, inl}
use deploy_bot.Store.Types.{PendingDeploy}
use deploy_bot.Store.Pending.{Result, ok, err, get, set}
use deploy_bot.World.{Env, World}
use deploy_bot.Bot.Approve.{config_key}
use deploy_bot.Sweeper.Reconcile.{
  Issue, PrMeta, recovered_deploy, recovered_ttl, labelled, rehydrate, reconcile_missing,
  reconcile_issue, reconcile_all, reconcile_from_github,
}
use deploy_bot.Bot.Frame.{Advances, Advances-refl, Advances-trans, Advances-send, Advances-set}

module _ {K : Type 0} (env : Env K) (parse_meta : String → Option PrMeta) where
  abbrev Moves : World K → World K → Type 0
  Moves = Advances env.cfg.org env.cfg.repo

  Advances-labelled :
      (i : Issue) (r : Result (Unit {0}) × World K) → Moves (labelled env parse_meta i r) r.1
  unfolding labelled
  Advances-labelled i (err e, w) = Advances-refl w
  Advances-labelled i (ok u, w) = Advances-send env _ w

  Advances-rehydrate :
      (i : Issue) (o : Option PrMeta) (w : World K) → Moves (rehydrate env parse_meta i o w) w
  unfolding rehydrate recovered_deploy
  Advances-rehydrate i none w = Advances-refl w
  Advances-rehydrate i (some m) w =
      let d = recovered_deploy env parse_meta i m w.now in
      Advances-trans (Advances-labelled i (set env d (recovered_ttl d.expires_at w.now) w)) (
        Advances-set env d (recovered_ttl d.expires_at w.now) w
          (record { own_org = refl; own_repo = refl; known_state = inl refl }))

  Advances-missing :
      (r : Result (Option PendingDeploy)) (i : Issue) (w : World K)
      → Moves (reconcile_missing env parse_meta r i w) w
  unfolding reconcile_missing
  Advances-missing (err e) i w = Advances-refl w
  Advances-missing (ok (some d)) i w = Advances-refl w
  Advances-missing (ok none) i w = Advances-rehydrate i (parse_meta i.body) w

  Advances-reconcile_all :
      (is : List Issue) (w : World K) → Moves (reconcile_all env parse_meta is w) w
  unfolding reconcile_all reconcile_issue
  Advances-reconcile_all [] w = Advances-refl w
  Advances-reconcile_all (i ∷ is) w =
      Advances-trans (Advances-reconcile_all is _)
        (Advances-missing (get env (config_key env i.number) w) i w)

  pub Advances-reconcile_from_github :
      (issues : String → Option (List Issue)) (w : World K)
      → Moves (reconcile_from_github env parse_meta issues w) w
  unfolding reconcile_from_github
  Advances-reconcile_from_github issues w = Advances-reconcile_all _ w
