-- ===== src/Bot/Command.antt =====
pub mod Laws
-- What a slash command or a mention asks for: the parsers of internal/bot/commands.go, mention.go
-- and format.go.
use Prim.Native.Char.{code}
use Prim.Native.String.{◌∷◌ as push, ◌++◌ as append}
use deploy_bot.Prelude.Int.{ℤ, pos, negsuc}
use deploy_bot.Prelude.Text.{is_space, codes, to_lower, text_eq, contains}
use deploy_bot.Prelude.{
  ℕ, zero, suc, String, Bool, true, false, not, ◌&&◌, ◌||◌, Option, none, some, List, [], ◌∷◌, ◌++◌,
  ◌==◌, eqb, ltb, atoi, select, some_of, if◌then◌else◌,
}
use mathlib.Core.Option
use deploy_bot.Store.Types.{PendingDeploy, HistoryEntry}

-- strings.Fields; the word so far comes first.
fields_from : String → String → List String
fields_from word String.[] = if word == "" then [] else word ∷ []
fields_from word (String.◌∷◌ c s) =
    let cut = fields_from "" s in
    let longer = fields_from (append word (push c "")) s in
    if is_space (code c) then (if word == "" then cut else word ∷ cut) else longer

unfoldable pub fields : String → List String
unfolding fields_from
fields s = fields_from "" s

-- strings.EqualFold and strings.ToLower on ASCII
fold_eq : String → String → Bool
unfolding text_eq to_lower
fold_eq a b = text_eq (to_lower (codes a)) (to_lower (codes b))

abbrev default_history_display : ℕ
default_history_display = 10

abbrev max_history_display : ℕ
max_history_display = 100

-- A positive number, at most the maximum.
abbrev limit_of : Option ℤ → Option ℕ
limit_of none = none
limit_of (some (pos zero)) = none
limit_of (some (pos (suc n))) =
    some (if ltb max_history_display (suc n) then max_history_display else suc n)
limit_of (some (negsuc n)) = none

abbrev first_or_empty : List String → String
first_or_empty [] = ""
first_or_empty (a ∷ rest) = a

pub record HistoryArgs : Type 0 where
  pub app_filter : String
  pub limit : ℕ

-- The last argument is the limit where it is one, and is then no filter.
pub split_limit : List String → List String × Option ℕ
unfolding atoi
split_limit [] = ([], none)
split_limit (a ∷ []) = elim (limit_of (atoi a)) [ none ↦ (a ∷ [], none) | some n ↦ ([], some n) ]
split_limit (a ∷ b ∷ rest) = let r = split_limit (b ∷ rest) in (a ∷ r.0, r.1)

abbrev limit_or_default : Option ℕ → ℕ
limit_or_default none = default_history_display
limit_or_default (some n) = n

pub parse_history_args : List String → HistoryArgs
unfolding split_limit
parse_history_args args =
    let r = split_limit args in
    record { app_filter = first_or_empty r.0; limit = limit_or_default r.1 }

pub slack_mention : String → String
slack_mention user = if user == "" then "deploy-bot (ECR)" else append "<@" (append user ">")

-- The text in front of a final `>`.
pub before_close : String → Option String
before_close String.[] = none
before_close (String.◌∷◌ c s) =
    let rest = before_close s in
    if s == "" then (if eqb (code c) b'>' then some "" else none) else Option.map (push c) rest

pub until_bar : String → String
until_bar String.[] = ""
until_bar (String.◌∷◌ c s) = let rest = until_bar s in if eqb (code c) b'|' then "" else push c rest

pub after_open : String → Option String
after_open String.[] = none
after_open (String.◌∷◌ c String.[]) = none
after_open (String.◌∷◌ c (String.◌∷◌ d s)) =
    if eqb (code c) b'<' && eqb (code d) b'@' then some s else none

abbrev inner_id : Option String → String
inner_id none = ""
inner_id (some inner) = until_bar inner

abbrev closed_id : Option String → String
closed_id none = ""
closed_id (some rest) = inner_id (before_close rest)

pub extract_user_id : String → String
unfolding after_open before_close until_bar
extract_user_id token = closed_id (after_open token)

-- strings.Join with a space
pub join : List String → String
join [] = ""
join (p ∷ []) = p
join (p ∷ q ∷ rest) = append p (append " " (join (q ∷ rest)))

-- The first mention is the approver; what is not it is the reason.
split_approver : String → List String → String × List String
unfolding extract_user_id
split_approver approver [] = (approver, [])
split_approver approver (p ∷ ps) =
    let id = extract_user_id p in
    let taken = split_approver id ps in
    let kept = split_approver approver ps in
    if not (id == "") && approver == "" then taken else (kept.0, p ∷ kept.1)

parse_mention_deploy_args : List String → String × String
unfolding split_approver join
parse_mention_deploy_args parts = let r = split_approver "" parts in (r.0, join r.1)

pub data MentionCommand : Type 0 where
  help unknown list_apps list_conflicts missing_argument : MentionCommand
  status : String → String → MentionCommand
  history : HistoryArgs → MentionCommand
  tags : String → MentionCommand
  deploy : String → String → String → String → MentionCommand
  cancel nudge rollback : String → MentionCommand

abbrev second : List String → String
second [] = ""
second (a ∷ []) = ""
second (a ∷ b ∷ rest) = b

-- A command with one argument, where there is one.
abbrev with_argument : (String → MentionCommand) → List String → MentionCommand
with_argument f [] = missing_argument
with_argument f (a ∷ rest) = f a

deploy_command : List String → MentionCommand
unfolding parse_mention_deploy_args
deploy_command [] = missing_argument
deploy_command (app ∷ []) = missing_argument
deploy_command (app ∷ tag ∷ rest) = let r = parse_mention_deploy_args rest in deploy app tag r.0 r.1

-- The switch of handleMention.
unfoldable pub parse_mention : List String → MentionCommand
unfolding fold_eq parse_history_args deploy_command
parse_mention [] = help
parse_mention (cmd ∷ args) =
    if fold_eq cmd "list" || fold_eq cmd "status"
    then status (first_or_empty args) (second args)
    else if fold_eq cmd "history"
    then history (parse_history_args args)
    else if fold_eq cmd "apps"
    then list_apps
    else if fold_eq cmd "conflicts"
    then list_conflicts
    else if fold_eq cmd "tags"
    then with_argument tags args
    else if fold_eq cmd "deploy"
    then deploy_command args
    else if fold_eq cmd "cancel"
    then with_argument cancel args
    else if fold_eq cmd "nudge"
    then with_argument nudge args
    else if fold_eq cmd "rollback"
    then with_argument rollback args
    else if fold_eq cmd "help"
    then help
    else unknown

-- The rows that a status command shows.
matches : String → String → PendingDeploy → Bool
unfolding fold_eq
matches env_filter app_filter d =
    (env_filter == "" || fold_eq d.environment env_filter)
    && (app_filter == "" || fold_eq d.app app_filter)

unfoldable pub status_rows : String → String → List PendingDeploy → List PendingDeploy
unfolding matches select
status_rows env_filter app_filter = select (matches env_filter app_filter)

-- The apps that a status command without rows suggests; an app is named once.
suggestions_from : List String → String → String → List PendingDeploy → List String
unfolding fold_eq contains to_lower some_of
suggestions_from seen env_filter app_filter [] = []
suggestions_from seen env_filter app_filter (d ∷ ds) =
    let skipped = suggestions_from seen env_filter app_filter ds in
    let taken = suggestions_from (d.app ∷ seen) env_filter app_filter ds in
    if not (env_filter == "") && not (fold_eq d.environment env_filter)
    then skipped
    else if some_of (λ a. a == d.app) seen
    then skipped
    else if contains (to_lower (codes d.app)) (to_lower (codes app_filter))
    then d.app ∷ taken
    else skipped

suggestions : String → String → List PendingDeploy → List String
unfolding suggestions_from
suggestions = suggestions_from []

abbrev pub is_approved_of : String → HistoryEntry → Bool
is_approved_of app e = e.app == app && e.event_type == "approved"

-- The loop of findRollbackEntries, with the approved entry that it has.
pub rollback_from :
    Option HistoryEntry → String → List HistoryEntry → Option (HistoryEntry × HistoryEntry)
rollback_from current app [] = none
rollback_from none app (e ∷ es) =
    let taken = rollback_from (some e) app es in
    let skipped = rollback_from none app es in if is_approved_of app e then taken else skipped
rollback_from (some c) app (e ∷ es) =
    let skipped = rollback_from (some c) app es in
    if is_approved_of app e then some (c, e) else skipped

unfoldable pub find_rollback_entries :
    List HistoryEntry → String → Option (HistoryEntry × HistoryEntry)
unfolding rollback_from
find_rollback_entries es app = rollback_from none app es
