-- ===== src/Validator/Laws.antt =====
-- Membership against an independent description of it, and the cache of identities.
use mathlib.Core.List.{Memᴰ}
use mathlib.Core.List.Memᴰ.{not-nil}
use deploy_bot.Prelude.{
  ℕ, ◌≤◌, String, ◌≡◌, ◌≢◌, refl, sym, ◌∙◌, ap, ◌↔◌, Bool, true, false, Option, none, some, List,
  [], ◌∷◌, ◌==◌, some_of, some_of-witness, some_of-Memᴰ, if◌then◌else◌, arith, eq_iff, eq_refl, inl,
  inr, Bool-cases, ◌⊎◌,
}
use deploy_bot.Store.Redis.{Redis}
use deploy_bot.World.{
  Identity, Membership, member_error, membership, Resolution, resolved, unresolved,
}
use deploy_bot.Validator.{
  Directory, Profile, ParsedAuthorization, identity_key, has_text, decoded, cached, usable,
  login_of, write_cache, looked_up, resolved_from, resolve_identity, email_listed, in_group,
  is_filled, is_active, github_member, github_answer, has_github, slack_member, is_member,
  member_from, identity_of,
}

-- A positive answer.
abbrev pub is_positive : Membership → Bool
is_positive member_error = false
is_positive (membership verdict i) = verdict

has_text_iff : (s : String) → (has_text s ≡ true) ↔ (s ≢ "")
has_text_iff s = ground (arith, eq_iff s "")

is_active_iff : (o : Option (Option String)) → (is_active o ≡ true) ↔ (o ≡ some (some "active"))
unfolding is_active
is_active_iff none = ground arith
is_active_iff (some none) = ground arith
is_active_iff (some (some state)) = ground (arith, eq_iff state "active")

is_filled-Memᴰ : {x : String} (xs : List String) → Memᴰ x xs → is_filled xs ≡ true
is_filled-Memᴰ [] m = absurd (not-nil m)
is_filled-Memᴰ (y ∷ xs) m = refl

module _ {K : Type 0} (redis : Redis K) (read_fails write_fails : Bool) (dir : Directory) where
  abbrev resolution : String → K → ℕ → Resolution
  resolution user keys now = (resolve_identity redis read_fails write_fails dir user keys now).0

  module _ (auth : ParsedAuthorization) (user : String) (keys : K) (now : ℕ) where
    -- A source of the configuration that names the user.
    pub data Authorized : Type 0 where
      by_email :
          {p : Profile} {e : String}
          → dir.user_info user ≡ some p
          → p.email ≢ ""
          → Memᴰ e auth.slack_emails
          → dir.equal_fold e p.email ≡ true
          → Authorized
      by_group :
          {g : String} {members : List String}
          → Memᴰ g auth.slack_user_groups
          → dir.group_members g ≡ some members
          → Memᴰ user members
          → Authorized
      by_login :
          {i : Identity} {l : String}
          → resolution user keys now ≡ resolved i
          → i.github_login ≢ ""
          → Memᴰ l auth.github_users
          → dir.equal_fold l i.github_login ≡ true
          → Authorized
      by_team :
          {i : Identity} {t : String}
          → resolution user keys now ≡ resolved i
          → i.github_login ≢ ""
          → Memᴰ t auth.github_teams
          → dir.team_state t i.github_login ≡ some (some "active")
          → Authorized

    email-Authorized :
        (o : Option Profile)
        → dir.user_info user ≡ o
        → email_listed dir auth.slack_emails o ≡ true
        → Authorized
    unfolding email_listed
    email-Authorized none e h = cc
    email-Authorized (some p) e h =
        let m =
          some_of-witness (λ x. dir.equal_fold x p.email) auth.slack_emails (ground (arith, h)) in
        by_email {p = p} {e = m.0} e ((has_text_iff p.email).0 (ground (arith, h))) m.1 m.2

    group-Authorized :
        {g : String} (o : Option (List String))
        → Memᴰ g auth.slack_user_groups
        → dir.group_members g ≡ o
        → in_group user o ≡ true
        → Authorized
    unfolding in_group
    group-Authorized none m e h = cc
    group-Authorized {g} (some members) m e h =
        let found = some_of-witness (λ x. x == user) members h in
        by_group {g = g} {members = members} m e (rw⁻¹ ((eq_iff found.0 user).0 found.2) found.1)

    slack-Authorized : slack_member dir auth user ≡ true → Authorized
    unfolding slack_member
    slack-Authorized h =
        elim (Bool-cases (email_listed dir auth.slack_emails (dir.user_info user))) [
          | inl e ↦ email-Authorized (dir.user_info user) refl e
          | inr e ↦
              let m =
                some_of-witness (λ g. in_group user (dir.group_members g)) auth.slack_user_groups
                  (ground (arith, h, e)) in
              group-Authorized {g = m.0} (dir.group_members m.0) m.1 refl m.2
        ]

    github-Authorized :
        (i : Identity)
        → resolution user keys now ≡ resolved i
        → github_member dir auth i ≡ true
        → Authorized
    unfolding github_member
    github-Authorized i r h =
        let named = (has_text_iff i.github_login).0 (ground (arith, h)) in
        elim (Bool-cases (some_of (λ l. dir.equal_fold l i.github_login) auth.github_users)) [
          | inl e ↦
              let m = some_of-witness (λ l. dir.equal_fold l i.github_login) auth.github_users e in
              by_login {i = i} {l = m.0} r named m.1 m.2
          | inr e ↦
              let m =
                some_of-witness (λ t. is_active (dir.team_state t i.github_login)) auth.github_teams
                  (ground (arith, h, e)) in
              by_team {i = i} {t = m.0} r named m.1
                ((is_active_iff (dir.team_state m.0 i.github_login)).0 m.2)
        ]

    -- What an authorized user passes: a Slack source, or a GitHub source with the login.
    Passes : Type 0
    Passes =
        (slack_member dir auth user ≡ true)
        ⊎ ((i : Identity) × (resolution user keys now ≡ resolved i)
            × (has_github auth ≡ true)
            × (github_member dir auth i ≡ true))

    Authorized-Passes : Authorized → Passes
    unfolding slack_member github_member email_listed in_group Passes
    Authorized-Passes (by_email {p} {e} info named m fold) =
        let listed : some_of (λ x. dir.equal_fold x p.email) auth.slack_emails ≡ true =
          some_of-Memᴰ (λ x. dir.equal_fold x p.email) {x = e} auth.slack_emails m fold in
        inl (rw info (ground (arith, listed, (has_text_iff p.email).1 named)))
    Authorized-Passes (by_group {g} {members} m answered at) =
        let inside : in_group user (dir.group_members g) ≡ true =
          rw answered (some_of-Memᴰ (λ x. x == user) {x = user} members at (eq_refl user)) in
        let listed : some_of (λ x. in_group user (dir.group_members x)) auth.slack_user_groups
            ≡ true =
          some_of-Memᴰ (λ x. in_group user (dir.group_members x)) {x = g} auth.slack_user_groups m
            inside in
        inl (ground (arith, listed))
    Authorized-Passes (by_login {i} {l} r named m fold) =
        let listed : some_of (λ x. dir.equal_fold x i.github_login) auth.github_users ≡ true =
          some_of-Memᴰ (λ x. dir.equal_fold x i.github_login) {x = l} auth.github_users m fold in
        inr (
          i,
          r,
          ground (arith, is_filled-Memᴰ auth.github_users m),
          ground (arith, listed, (has_text_iff i.github_login).1 named),
        )
    Authorized-Passes (by_team {i} {t} r named m state) =
        let active : is_active (dir.team_state t i.github_login) ≡ true =
          (is_active_iff (dir.team_state t i.github_login)).1 state in
        let listed : some_of (λ x. is_active (dir.team_state x i.github_login)) auth.github_teams
            ≡ true =
          some_of-Memᴰ (λ x. is_active (dir.team_state x i.github_login)) {x = t} auth.github_teams
            m active in
        inr (
          i,
          r,
          ground (arith, is_filled-Memᴰ auth.github_teams m),
          ground (arith, listed, (has_text_iff i.github_login).1 named),
        )

    positive-Passes :
        (r : Resolution × K)
        → r.0 ≡ resolution user keys now
        → is_positive (github_answer redis read_fails write_fails dir auth r).0 ≡ true
        → Authorized
    unfolding github_answer
    positive-Passes (unresolved i, ks) e h = cc
    positive-Passes (resolved i, ks) e h = github-Authorized i (sym e) h

    from_sound :
        (slack github : Bool) (r : Resolution × K)
        → slack_member dir auth user ≡ slack
        → r.0 ≡ resolution user keys now
        → is_positive (member_from redis read_fails write_fails dir slack github auth r).0 ≡ true
        → Authorized
    unfolding member_from
    from_sound true github r s e h = slack-Authorized s
    from_sound false true r s e h = positive-Passes r e h
    from_sound false false r s e h = cc

    from_complete :
        (slack github : Bool) (r : Resolution × K)
        → slack_member dir auth user ≡ slack
        → has_github auth ≡ github
        → r.0 ≡ resolution user keys now
        → Passes
        → is_positive (member_from redis read_fails write_fails dir slack github auth r).0 ≡ true
    unfolding member_from Passes github_answer
    from_complete true github r s g e p = refl
    from_complete false github r s g e (inl positive) = absurd (ground (arith, s, positive))
    from_complete false false r s g e (inr (i, q, has, passes)) = absurd (ground (arith, g, has))
    from_complete false true (unresolved j, ks) s g e (inr (i, q, has, passes)) = cc
    from_complete false true (resolved j, ks) s g e (inr (i, q, has, passes)) =
        let same : j ≡ i = ap (λ x. identity_of x) (e ∙ q) in rw same passes

    -- A user is a member exactly when a source of the configuration names them: their email, a group
    -- that Slack lists them in, or, when the identity was resolved with a login, that login or a
    -- team it is active in. An error of a service names nobody.
    pub is_member_iff :
        (is_positive (is_member redis read_fails write_fails dir auth user keys now).0 ≡ true)
        ↔ Authorized
    unfolding is_member
    is_member_iff = (
      from_sound (slack_member dir auth user) (has_github auth)
          (resolve_identity redis read_fails write_fails dir user keys now) refl refl,
      λ a.
          from_complete (slack_member dir auth user) (has_github auth)
            (resolve_identity redis read_fails write_fails dir user keys now) refl refl refl
            (Authorized-Passes a),
    )

  written :
      (user : String) (o : Option Profile) (keys : K) (now : ℕ) {i : Identity} {text : String}
      → write_fails ≡ false
      → (looked_up redis read_fails write_fails dir user o keys now).0 ≡ resolved i
      → dir.encode i ≡ some text
      → ((looked_up redis read_fails write_fails dir user o keys now).1
          ≡ redis.set keys now (identity_key user) text 0)
        × ((i.email == "") ≡ false)
  unfolding looked_up write_cache
  written user none keys now w res enc = cc
  written user (some p) keys now {i} {text} w res enc = named (p.email == "") refl res
    where
      id : Identity
      id = record {
        github_login = login_of dir (dir.identity_override user) p.email;
        email = p.email;
        name = p.real_name;
      }

      answered : Bool → Resolution × K
      answered b =
          if b
          then (unresolved (record { github_login = ""; email = ""; name = p.real_name }), keys)
          else (
            resolved id,
            write_cache redis read_fails write_fails dir user (dir.encode id) keys now,
          )

      named :
          (b : Bool)
          → (p.email == "") ≡ b
          → (answered b).0 ≡ resolved i
          → ((answered b).1 ≡ redis.set keys now (identity_key user) text 0)
            × ((i.email == "") ≡ false)
      named true e q = cc
      named false e q =
          let same = ap identity_of q in (rw (ap dir.encode same ∙ enc, w) refl, rw (sym same) e)

  found_later :
      (user : String) (keys : K) (now t : ℕ) {i : Identity} {text : String}
      → read_fails ≡ false
      → now ≤ t
      → (i.email == "") ≡ false
      → dir.decode text ≡ some i
      → (other : Directory) → ((s : String) → other.decode s ≡ dir.decode s)
      → cached redis read_fails write_fails other user
          (redis.set keys now (identity_key user) text 0)
          t
        ≡ some i
  unfolding cached decoded usable
  found_later user keys now t {i} {text} r h named dec other same =
      rw
        (
          r,
          redis.get-set keys now t (identity_key user) (identity_key user) text 0 h,
          eq_refl (identity_key user),
          same text,
          dec,
          named,
        )
        refl

  -- A resolved identity that was not in the cache is what every later lookup finds there, with
  -- nobody asked again, when Redis answers and the codec reads back what it writes.
  pub resolve_identity-cached :
      (user : String) (keys : K) (now t : ℕ) {i : Identity} {text : String}
      → read_fails ≡ false
      → write_fails ≡ false
      → cached redis read_fails write_fails dir user keys now ≡ none
      → now ≤ t
      → resolution user keys now ≡ resolved i
      → dir.encode i ≡ some text
      → dir.decode text ≡ some i
      → (other : Directory) → ((s : String) → other.decode s ≡ dir.decode s)
      → let later = (resolve_identity redis read_fails write_fails dir user keys now).1 in
        resolve_identity redis read_fails write_fails other user later t ≡ (resolved i, later)
  unfolding resolve_identity
  resolve_identity-cached user keys now t {i} {text} r w miss h res enc dec other same =
      let wrote =
        written user (dir.user_info user) keys now {i = i} {text = text} w
          (ap (λ o. (resolved_from redis read_fails write_fails dir user o keys now).0) (sym miss)
            ∙ res)
          enc in
      let left =
        ap (λ o. (resolved_from redis read_fails write_fails dir user o keys now).1) miss
        ∙ wrote.0 in
      rw left (
        ap
          (λ o.
            resolved_from redis read_fails write_fails other user o
              (redis.set keys now (identity_key user) text 0) t)
          (found_later user keys now t {i = i} {text = text} r h wrote.1 dec other same))

-- The text that resolving a user writes to the cache: none for a user that the cache has, who is not
-- found, or who has no email.
abbrev pub text_for : Directory → String → Option Profile → Option String
text_for dir user none = none
text_for dir user (some p) =
    if p.email == ""
    then none
    else dir.encode (record {
      github_login = login_of dir (dir.identity_override user) p.email;
      email = p.email;
      name = p.real_name;
    })

abbrev pub written_text : Directory → String → Option Identity → Option String
written_text dir user (some i) = none
written_text dir user none = text_for dir user (dir.user_info user)

module _ {K : Type 0} (redis : Redis K) (read_fails write_fails : Bool) (dir : Directory) where
  looked_up-text_for :
      (user : String) (o : Option Profile) (keys : K) (now : ℕ)
      → (looked_up redis read_fails write_fails dir user o keys now).1
        ≡ write_cache redis read_fails write_fails dir user (text_for dir user o) keys now
  unfolding looked_up write_cache
  looked_up-text_for user none keys now = refl
  looked_up-text_for user (some p) keys now = mailed (p.email == "")
    where
      id : Identity
      id = record {
        github_login = login_of dir (dir.identity_override user) p.email;
        email = p.email;
        name = p.real_name;
      }

      mailed :
          (b : Bool)
          → (if◌then◌else◌ {A = Resolution × K} b
              (unresolved (record { github_login = ""; email = ""; name = p.real_name }), keys)
              (
                resolved id,
                write_cache redis read_fails write_fails dir user (dir.encode id) keys now,
              )).1
            ≡ write_cache redis read_fails write_fails dir user
                (if b then none else dir.encode id)
                keys
                now
      mailed true = unfold write_cache in refl
      mailed false = refl

  -- The write as a function of the text.
  pub write_cache-set :
      (user : String) (o : Option String) (keys : K) (now : ℕ)
      → write_cache redis read_fails write_fails dir user o keys now ≡ elim o [
        | none ↦ keys
        | some text ↦ if write_fails then keys else redis.set keys now (identity_key user) text 0
      ]
  unfolding write_cache
  write_cache-set user none keys now = refl
  write_cache-set user (some text) keys now = refl

  -- Whatever the verdict, what `IsMember` leaves in Redis is the identity that it resolved anew.
  pub is_member-write_cache :
      (auth : ParsedAuthorization) (user : String) (keys : K) (now : ℕ)
      → (is_member redis read_fails write_fails dir auth user keys now).1
        ≡ write_cache redis read_fails write_fails dir user
            (written_text dir user (cached redis read_fails write_fails dir user keys now))
            keys
            now
  unfolding is_member
  is_member-write_cache auth user keys now =
      answered (slack_member dir auth user) (has_github auth) _
      ∙ unfold resolve_identity in looked (cached redis read_fails write_fails dir user keys now)
    where
      verified :
          (r : Resolution × K) → (github_answer redis read_fails write_fails dir auth r).1 ≡ r.1
      verified (unresolved i, k) = unfold github_answer in refl
      verified (resolved i, k) = unfold github_answer in refl

      answered :
          (b c : Bool) (r : Resolution × K)
          → (member_from redis read_fails write_fails dir b c auth r).1 ≡ r.1
      answered true c r = unfold member_from in refl
      answered false true r = unfold member_from in verified r
      answered false false r = unfold member_from in refl

      looked :
          (o : Option Identity)
          → (resolved_from redis read_fails write_fails dir user o keys now).1
            ≡ write_cache redis read_fails write_fails dir user (written_text dir user o) keys now
      looked (some i) = unfold resolved_from write_cache in refl
      looked none = unfold resolved_from in looked_up-text_for user (dir.user_info user) keys now
