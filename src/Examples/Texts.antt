-- ===== src/Examples/Texts.antt =====
-- A tag and a text with markup.
use deploy_bot.Prelude.Text.{codes}
use deploy_bot.Prelude.{ℕ, ◌≡◌, refl, List}
use deploy_bot.Sanitize.{tag_is_safe, slack_text, github_markdown}
use deploy_bot.Sanitize.Laws.{tag_is_safe-slack_text}

abbrev release : List ℕ
release = codes "v1.2.3+build_7"

tag_is_safe-slack_text_example :
    (slack_text release 0 ≡ release) × (github_markdown release ≡ release)
unfolding tag_is_safe
tag_is_safe-slack_text_example = tag_is_safe-slack_text release refl

slack_text_test : slack_text (codes "<!here> a&b") 5 ≡ codes "&lt;!..."
unfolding slack_text
slack_text_test = refl

github_markdown_test : github_markdown (codes "@team #1") ≡ codes "\\@team \\#1"
unfolding github_markdown
github_markdown_test = refl
