-- ===== src/Sanitize.antt =====
pub mod Laws
-- internal/sanitize/sanitize.go, on texts as lists of bytes.
use deploy_bot.Prelude.Text.{has_prefix, contains}
use deploy_bot.Prelude.{
  ℕ, zero, suc, ◌-◌, Bool, true, false, not, ◌&&◌, ◌||◌, List, [], ◌∷◌, ◌++◌, eqb, leb, ltb, length,
  some_of, if◌then◌else◌,
}

abbrev is_alphanumeric : ℕ → Bool
is_alphanumeric c = leb b'a' c && leb c b'z' || leb b'A' c && leb c b'Z' || leb b'0' c && leb c b'9'

abbrev pub is_tag_char : ℕ → Bool
is_tag_char c = is_alphanumeric c || eqb c b'.' || eqb c b'_' || eqb c b'+' || eqb c b'-'

pub all_tag_chars : List ℕ → Bool
all_tag_chars [] = true
all_tag_chars (c ∷ s) = is_tag_char c && all_tag_chars s

-- The regular expression tagSafe.
abbrev pub matches_tag : List ℕ → Bool
matches_tag [] = false
matches_tag (c ∷ s) = is_alphanumeric c && all_tag_chars s

-- TagIsSafe; the empty tag does not match.
unfoldable pub tag_is_safe : List ℕ → Bool
unfolding all_tag_chars
tag_is_safe tag = leb (length tag) 256 && matches_tag tag

-- A replacer of single bytes.
pub escape : (ℕ → List ℕ) → List ℕ → List ℕ
escape f [] = []
escape f (c ∷ s) = f c ++ escape f s

-- slackMrkdwnReplacer: &amp; &lt; &gt;
abbrev pub slack_escape : ℕ → List ℕ
slack_escape c =
    if eqb c b'&'
    then b'&' ∷ b'a' ∷ b'm' ∷ b'p' ∷ b';' ∷ []
    else if eqb c b'<'
    then b'&' ∷ b'l' ∷ b't' ∷ b';' ∷ []
    else if eqb c b'>'
    then b'&' ∷ b'g' ∷ b't' ∷ b';' ∷ []
    else c ∷ []

abbrev pub github_escape : ℕ → List ℕ
github_escape c =
    if eqb c b'@' || eqb c b'#' || eqb c b'[' || eqb c b']'
    then 92 ∷ c ∷ []
    else if eqb c b'<'
    then b'&' ∷ b'l' ∷ b't' ∷ b';' ∷ []
    else if eqb c b'>'
    then b'&' ∷ b'g' ∷ b't' ∷ b';' ∷ []
    else c ∷ []

-- The first bytes, and an ellipsis.
pub cut : ℕ → List ℕ → List ℕ
cut zero s = b'.' ∷ b'.' ∷ b'.' ∷ []
cut (suc n) [] = b'.' ∷ b'.' ∷ b'.' ∷ []
cut (suc n) (c ∷ s) = c ∷ cut n s

unfoldable pub slack_text : List ℕ → ℕ → List ℕ
unfolding escape cut
slack_text text max_len =
    let s = escape slack_escape text in
    if ltb 0 max_len && ltb max_len (length s) then cut max_len s else s

unfoldable pub github_markdown : List ℕ → List ℕ
unfolding escape cut
github_markdown text =
    let s = escape github_escape text in if ltb 1_000 (length s) then cut 1_000 s else s
