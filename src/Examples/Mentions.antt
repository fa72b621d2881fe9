-- ===== src/Examples/Mentions.antt =====
-- Mentions of the bot, and the parsers of commands.
use deploy_bot.Prelude.{pos, String, ◌≡◌, refl, false, List, [], ◌∷◌, select}
use deploy_bot.Store.Types.{HistoryEntry}
use deploy_bot.World.{Env, done}
use deploy_bot.Bot.Approve.Effects.{Untouched}
use deploy_bot.Bot.Command.{fields, parse_mention, deploy, is_approved_of, find_rollback_entries}
use deploy_bot.Bot.Command.Laws.{first_two, find_rollback_entries-first_two}
use deploy_bot.Bot.Mention.{AppMentionEvent, handle_mention}
use deploy_bot.Bot.Mention.Laws.{handle_mention-unauthorized}
use deploy_bot.Examples.Samples.{Keys, env_with, start}

abbrev chat_env : Env Keys
chat_env = env_with (λ n. done "abc") (λ t. false)

abbrev ask : AppMentionEvent
ask = record {
  user_id = "U9";
  channel = "C1";
  text = "deploy shop-dev v3 <@U1|ada> now";
  thread_ts = "";
}

parse_mention_test : parse_mention (fields ask.text) ≡ deploy "shop-dev" "v3" "U1" "now"
unfolding parse_mention fields
parse_mention_test = refl

handle_mention-unauthorized_example : Untouched (handle_mention chat_env ask start) start
unfolding parse_mention fields
handle_mention-unauthorized_example =
    handle_mention-unauthorized chat_env ask start (λ i e. cc) (λ pr_arg e. cc)

abbrev entry : String → String → HistoryEntry
entry tag event_type = record {
  github_org = "";
  github_repo = "";
  event_type = event_type;
  app = "shop-dev";
  environment = "dev";
  tag = tag;
  pr_number = pos 7;
  pr_url = "";
  approver_id = "";
  requester_id = "U2";
  completed_at = 10;
  gitops_commit_sha = "abc";
  slack_channel = "";
  slack_message_ts = "";
}

abbrev log : List HistoryEntry
log = entry "v3" "approved" ∷ entry "v2" "rejected" ∷ entry "v1" "approved" ∷ []

find_rollback_entries-first_two_example :
    find_rollback_entries log "shop-dev" ≡ first_two (select (is_approved_of "shop-dev") log)
find_rollback_entries-first_two_example = find_rollback_entries-first_two log "shop-dev"
