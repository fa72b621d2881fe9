-- ===== src/Sanitize/Laws.antt =====
-- What the escapes leave out, and the tags that they leave alone.
use deploy_bot.Prelude.{
  ℕ, zero, suc, ◌≡◌, refl, ap, Bool, true, false, ◌||◌, List, [], ◌∷◌, eqb, leb, ltb, length,
  some_of, if◌then◌else◌, arith,
}
use deploy_bot.Sanitize.{
  is_tag_char, all_tag_chars, matches_tag, tag_is_safe, escape, slack_escape, github_escape, cut,
  slack_text, github_markdown,
}

-- The bytes that begin or end a mention, a link or a channel.
abbrev is_bracket : ℕ → Bool
is_bracket c = eqb c b'<' || eqb c b'>'

escape-inert : (s : List ℕ) → some_of is_bracket (escape slack_escape s) ≡ false
unfolding escape some_of
escape-inert [] = refl
escape-inert (c ∷ s) = ground (arith, escape-inert s)

cut-inert :
    (n : ℕ) (s : List ℕ) → some_of is_bracket s ≡ false → some_of is_bracket (cut n s) ≡ false
unfolding cut some_of
cut-inert zero s h = refl
cut-inert (suc n) [] h = refl
cut-inert (suc n) (c ∷ s) h = ground (arith, h, cut-inert n s)

slack_escape-tag : (c : ℕ) → is_tag_char c ≡ true → slack_escape c ≡ c ∷ []
slack_escape-tag c h = ground (arith, h)

github_escape-tag : (c : ℕ) → is_tag_char c ≡ true → github_escape c ≡ c ∷ []
github_escape-tag c h = ground (arith, h)

escape-same :
    (f : ℕ → List ℕ)
    → ((c : ℕ) → is_tag_char c ≡ true → f c ≡ c ∷ [])
    → (s : List ℕ) → all_tag_chars s ≡ true
    → escape f s ≡ s
unfolding escape all_tag_chars
escape-same f same [] h = refl
escape-same f same (c ∷ s) h =
    let first : is_tag_char c ≡ true = ground (arith, h) in
    let rest : all_tag_chars s ≡ true = ground (arith, h) in
    rw (same c first) (ap (λ t. c ∷ t) (escape-same f same s rest))

matches_tag-all : (s : List ℕ) → matches_tag s ≡ true → all_tag_chars s ≡ true
unfolding all_tag_chars
matches_tag-all [] h = cc
matches_tag-all (c ∷ s) h = ground (arith, h)

-- Whatever the text and the limit, what `SlackText` gives holds neither `<` nor `>`.
slack_text-inert : (s : List ℕ) (n : ℕ) → some_of is_bracket (slack_text s n) ≡ false
unfolding slack_text
slack_text-inert s n = ground (arith, escape-inert s, cut-inert n (escape slack_escape s))

uncut : (s t : List ℕ) → leb (length s) 256 ≡ true → (if ltb 1_000 (length s) then t else s) ≡ s
uncut s t h = ground (arith, h)

-- A tag that `TagIsSafe` accepts is left as it is by `SlackText` without a limit and by
-- `GitHubMarkdown`, which neither escape anything in it nor cut it.
pub tag_is_safe-slack_text :
    (tag : List ℕ) → tag_is_safe tag ≡ true → (slack_text tag 0 ≡ tag) × (github_markdown tag ≡ tag)
unfolding slack_text github_markdown tag_is_safe
tag_is_safe-slack_text tag h =
    let matching : matches_tag tag ≡ true = ground (arith, h) in
    let short : leb (length tag) 256 ≡ true = ground (arith, h) in
    let chars = matches_tag-all tag matching in
    let github = escape-same github_escape github_escape-tag tag chars in
    (
      escape-same slack_escape slack_escape-tag tag chars,
      rw github (uncut tag (cut 1_000 tag) short),
    )
