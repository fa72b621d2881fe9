-- ===== src/Bot/Approve/Access.antt =====
-- Who may approve: anybody else, and a request about a pull request that is not pending, changes
-- nothing.
use deploy_bot.Prelude.{ℤ, String, ◌≡◌, refl, ◌≢◌, true, false, Option, none, some, arith, atoi}
use deploy_bot.Store.Types.{PendingDeploy}
use deploy_bot.Store.Table.{find_row}
use deploy_bot.Store.Pending.{get}
use deploy_bot.Bot.Member.{remember}
use deploy_bot.World.{Env, World, Identity, Membership, member_error, membership, send, pg_get}
use deploy_bot.Bot.Approve.{
  config_key, approve_found, approve_row, approve_verdict, approve_parsed, handle_approve,
}
use deploy_bot.Bot.Approve.Effects.{Untouched, Untouched-remember}

module _ {K : Type 0} (env : Env K) where
  refused :
      (m : Membership) (user : String) (pr : ℤ) (w : World K)
      → ((ident : Identity) → m ≢ membership true ident)
      → Untouched (approve_verdict env m user pr w) w
  unfolding approve_verdict send
  refused member_error user pr w h = ground arith
  refused (membership false ident) user pr w h = ground arith
  refused (membership true ident) user pr w h = absurd (h ident refl)

  -- A click on Approve by somebody whom the validator does not confirm changes no row, no entry of
  -- the history, no key of Redis but the cache of identities, and not the clock, whatever the button
  -- carries.
  pub handle_approve-unauthorized :
      (user value : String) (w : World K)
      → ((ident : Identity) → env.is_member user ≢ membership true ident)
      → Untouched (handle_approve env user value w) w
  unfolding handle_approve
  handle_approve-unauthorized user value w h = parsed (atoi value)
    where
      parsed : (o : Option ℤ) → Untouched (approve_parsed env o user w) w
      parsed none = unfold approve_parsed in ground arith
      parsed (some pr) =
          unfold approve_parsed in
          Untouched-remember env user (refused (env.is_member user) user pr (remember env user w) h)

  missing :
      (m : Membership) (user : String) (pr : ℤ) (w : World K)
      → find_row (config_key env pr) w.pending ≡ none
      → Untouched (approve_verdict env m user pr w) w
  unfolding approve_verdict approve_row get send
  missing member_error user pr w h = ground arith
  missing (membership false ident) user pr w h = ground arith
  missing (membership true ident) user pr w h = ground arith

  -- A click on Approve for a pull request that has no row changes no row, no entry of the history,
  -- no key of Redis but the cache of identities, and not the clock, whoever clicks.
  handle_approve-not_found :
      (user value : String) (pr : ℤ) (w : World K)
      → atoi value ≡ some pr
      → find_row (config_key env pr) w.pending ≡ none
      → Untouched (handle_approve env user value w) w
  unfolding handle_approve approve_parsed
  handle_approve-not_found user value pr w e h =
      rw e
        (Untouched-remember env user (missing (env.is_member user) user pr (remember env user w) h))

  -- The way to the row, for a member who clicks on a pending request.
  pub handle_approve-found :
      (user value : String) (pr : ℤ) (ident : Identity) (d : PendingDeploy) (w : World K)
      → atoi value ≡ some pr
      → env.is_member user ≡ membership true ident
      → env.fails (pg_get (config_key env pr)) ≡ false
      → find_row (config_key env pr) w.pending ≡ some d
      → handle_approve env user value w ≡ approve_found env d pr ident (remember env user w)
  unfolding handle_approve approve_parsed approve_verdict approve_row get
  handle_approve-found user value pr ident d w e m f h = ground arith
