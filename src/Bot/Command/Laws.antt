-- ===== src/Bot/Command/Laws.antt =====
-- The parsers of commands against plain descriptions of what they find.
use Prim.Native.Char.{Char, code}
use Prim.Native.String.{◌∷◌ as push, ◌++◌ as append}
use text.Mathlib.TextLemmas.{cons-append, nil-append}
use deploy_bot.Prelude.Int.{ℤ, pos, negsuc}
use deploy_bot.Prelude.Text.{codes}
use deploy_bot.Prelude.{
  ℕ, zero, suc, head?, ◌≤◌, String, ◌≡◌, ◌≢◌, refl, ◌∙◌, ap, Bool, true, false, Option, none, some,
  List, [], ◌∷◌, ◌==◌, eqb, some_of, select, if◌then◌else◌, arith, eq_iff, atoi,
}
use deploy_bot.Store.Types.{HistoryEntry}
use deploy_bot.Bot.Command.{
  limit_of, limit_or_default, split_limit, parse_history_args, slack_mention, before_close,
  until_bar, after_open, extract_user_id, closed_id, is_approved_of, rollback_from,
  find_rollback_entries,
}

abbrev IsLimit : ℕ → Type 0
IsLimit n = (1 ≤ n) × (n ≤ 100)

limit_of-IsLimit : (o : Option ℤ) {n : ℕ} → limit_of o ≡ some n → IsLimit n
limit_of-IsLimit none h = cc
limit_of-IsLimit (some (pos zero)) h = cc
limit_of-IsLimit (some (pos (suc m))) h = ground (arith, h)
limit_of-IsLimit (some (negsuc m)) h = cc

split_limit-IsLimit : (args : List String) → IsLimit (limit_or_default (split_limit args).1)
unfolding split_limit
split_limit-IsLimit [] = (omega arith, omega arith)
split_limit-IsLimit (a ∷ []) = chosen (limit_of (atoi a)) refl
  where
    chosen :
        (o : Option ℕ)
        → limit_of (atoi a) ≡ o
        → IsLimit (
            limit_or_default
              (elim o as (λ x. List String × Option ℕ) [
                | none ↦ (a ∷ [], none)
                | some n ↦ ([], some n)
              ]).1)
    chosen none h = (omega arith, omega arith)
    chosen (some n) h = limit_of-IsLimit (atoi a) {n = n} h
split_limit-IsLimit (a ∷ b ∷ rest) = split_limit-IsLimit (b ∷ rest)

-- Whatever follows `history`, between 1 and 100 entries are shown.
parse_history_args-IsLimit : (args : List String) → IsLimit (parse_history_args args).limit
unfolding parse_history_args
parse_history_args-IsLimit args = split_limit-IsLimit args

-- The first two elements of a list.
abbrev pub first_two : List HistoryEntry → Option (HistoryEntry × HistoryEntry)
first_two [] = none
first_two (a ∷ []) = none
first_two (a ∷ b ∷ rest) = some (a, b)

rollback_from-some :
    (c : HistoryEntry) (app : String) (es : List HistoryEntry)
    → rollback_from (some c) app es ≡ first_two (c ∷ select (is_approved_of app) es)
unfolding rollback_from select
rollback_from-some c app [] = refl
rollback_from-some c app (e ∷ es) = ground (arith, rollback_from-some c app es)

rollback_from-none :
    (app : String) (es : List HistoryEntry)
    → rollback_from none app es ≡ first_two (select (is_approved_of app) es)
unfolding rollback_from select
rollback_from-none app [] = refl
rollback_from-none app (e ∷ es) =
    ground (arith, rollback_from-none app es, rollback_from-some e app es)

-- What findRollbackEntries returns is the first two of the app's approved entries, and nothing when
-- there are fewer.
pub find_rollback_entries-first_two :
    (es : List HistoryEntry) (app : String)
    → find_rollback_entries es app ≡ first_two (select (is_approved_of app) es)
unfolding find_rollback_entries
find_rollback_entries-first_two es app = rollback_from-none app es

push-filled : (c : Char) (s : String) → push c s ≢ ""
push-filled c s h = ground (arith, ap {B = _} (λ t. head? (codes t)) h)

append-filled : (s : String) → (append s ">" == "") ≡ false
append-filled String.[] = refl
append-filled (String.◌∷◌ c s) =
    rw (cons-append c s ">")
      (ground (arith, push-filled c (append s ">"), eq_iff (push c (append s ">")) ""))

before_close-append : (s : String) → before_close (append s ">") ≡ some s
unfolding before_close
before_close-append String.[] = refl
before_close-append (String.◌∷◌ c s) =
    rw (cons-append c s ">") (rw (append-filled s, before_close-append s) refl)

until_bar-whole : (s : String) → some_of (λ c. eqb c b'|') (codes s) ≡ false → until_bar s ≡ s
unfolding until_bar some_of
until_bar-whole String.[] h = refl
until_bar-whole (String.◌∷◌ c s) h = at_bar (eqb (code c) b'|') refl (until_bar-whole s)
  where
    at_bar :
        (b : Bool)
        → eqb (code c) b'|' ≡ b
        → (some_of (λ d. eqb d b'|') (codes s) ≡ false → until_bar s ≡ s)
        → (if b then "" else push c (until_bar s)) ≡ push c s
    at_bar true e rest = absurd (ground (arith, h, e))
    at_bar false e rest = ap (push c) (rest (ground (arith, h, e)))

-- The mention of a user reads back as the user, where the id is not empty and has no bar.
extract_user_id-slack_mention :
    (user : String)
    → user ≢ ""
    → some_of (λ c. eqb c b'|') (codes user) ≡ false
    → extract_user_id (slack_mention user) ≡ user
unfolding extract_user_id slack_mention
extract_user_id-slack_mention user filled whole =
    let named : (user == "") ≡ false = ground (arith, filled, eq_iff user "") in
    rw named (opened (append user ">") (before_close-append user ∙ refl))
  where
    opened :
        (t : String) → before_close t ≡ some user → closed_id (after_open (append "<@" t)) ≡ user
    opened t h =
        rw (cons-append _ "@" t, cons-append _ "" t, nil-append t, h) (until_bar-whole user whole)
