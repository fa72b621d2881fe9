-- ===== src/Lib.antt =====
-- deploy-bot: deploys that are requested in Slack or by a push to the image registry, approved by
-- a member of a team, carried out by merging a pull request on GitHub, and expired by a sweeper.
--
-- The program's parts, and where they are modelled:
-- - World: what a handler runs against. `World` is the durable state (the tables pending_deploys
--   and history, the Redis keys), the clock in milliseconds, the number of merge requests made so
--   far and the effects sent to Slack, GitHub, the audit log and the metrics, the newest first.
--   `Env` decides what leaves the process: which statements fail, what GitHub answers to the n-th
--   merge request, who is a member, when the context is done.
-- - Config and its modules: internal/config/config.go. Config has AppByName, the labels and
--   EffectiveAutoDeploy, Merged has MergeApps, Lookup the other lookups and LoadConflicts, Load the
--   checks that Load makes of the decoded file, Postgres the section for the database with the
--   retention of its history, Secrets the secrets with their validation, Discovery the section
--   for the discovery of repositories, Durations the durations and limits that it reads from texts.
-- - Store: internal/store. Types and Table hold the two records and the statements on the table;
--   Pending has Set, Get, Delete, SetSlackHandle, UpdateState, GetAll, GetExpired and GetByEnvApp,
--   History has PushHistory, GetHistory and FindHistoryBySHA, Locks has the deploy locks, system
--   locks and thread slots. Redis is an interface over an abstract key space, whose laws are the
--   documented behaviour of GET, SET, SET NX and DEL with a time to live. Pending.Refine states the
--   table as a function from keys to rows.
-- - Github: internal/github/retry.go (retryOnRateLimit, structural in the retries left, so that it
--   always ends) and MergePR of internal/github/pr.go.
-- - Bot.Merge and Bot.Thread: mergeWithRetry of internal/bot/merge.go, and getThreadTS of
--   internal/bot/thread.go, whose poll loop runs its five rounds by structural recursion.
-- - Bot.Tasks: the goroutines that a handler starts and waits for, run one after another.
-- - Bot.Approve, Bot.Cancel, Bot.Reject, Bot.Submit, Bot.Ecr: handleApprove, doCancelDeploy,
--   handleRejectSubmit and handleDeploySubmit of internal/bot/actions.go and cancel.go, and
--   handleECRPush of internal/bot/ecr.go with the automatic deploy and the approval request.
--   Bot.Closing holds what the handlers that end a request have in common.
-- - Bot.Command and Bot.Mention: internal/bot/mention.go with the parsers and findRollbackEntries of
--   internal/bot/commands.go: from the words of a mention to a command, and what it does.
-- - Bot.Frame and the modules Frame of the handlers and of the sweeper: how a step changes the table.
--   System composes them: the handlers that are modelled, image pushes, the passes of the sweeper,
--   the tasks at start and the purge of the history as the steps of one relation, between which the
--   clock may advance.
-- - Sweeper: internal/sweeper/sweeper.go, RunOnce (Expiry, Pass), ReconcileFromGitHub (Reconcile),
--   RecoverStuck (Recovery) and ReconstructHistory (Reconstruct).
-- - Retention: internal/store/postgres/retention.go. The rows that one batch deletes are those of a
--   database that deletes old rows only, at most as many as the batch holds, and that many when
--   there are as many.
-- - Validator: IsMember and ResolveIdentity of internal/validator/validator.go, and ParseAuthValues of
--   internal/config/config.go; Slack and GitHub are a directory that answers, and the cache is the
--   Redis interface.
-- - RepoConfig and Scanner: ValidateWithOpts, ApplyDefaults and ValidEntries of
--   internal/repoconfig/repoconfig.go; in Scanner.Parse parseRepoConfig of
--   internal/reposcanner/validate.go, and in Scanner.Conflicts the conflict detection of
--   internal/reposcanner/scanner.go with the filter after it.
-- - Sanitize: TagIsSafe, SlackText and GitHubMarkdown of internal/sanitize/sanitize.go.
-- - Argocd: Process and Accept of internal/argocd, with Add of internal/buffer/buffer.go.
-- - Examples: a key space that satisfies the laws of Redis, an environment and concrete runs.
--
-- How code becomes definitions: a handler is a chain of functions by clauses, one for each value
-- that it branches on (the parsed number, the membership, the row, the outcome of the merge), in the
-- order of the source. A call whose failure the source only logs is an effect or a state change
-- that the environment may refuse. A handler that asks for a membership or an identity gets the
-- verdict from its environment, and leaves in the cache of identities what the environment says that
-- the validator writes (Bot.Member); Validator has the validator itself. The cache is a part of the
-- state apart from the other keys of Redis, since only the validator uses its prefix. Numbers of pull
-- requests are integers as `strconv.Atoi` reads them, of which the history keeps 32 bits; the time
-- in a handler is the clock of its world, which only waiting moves.
--
-- Bounds and fuel: the loop that deletes old history in batches runs on fuel, of which one more than
-- the full batches that the old rows fill is enough. Every other loop is structural. A text is a
-- list of code points, which are Go's bytes where it is ASCII, and the blanks are those below 256;
-- the folding of letters is a parameter.
--
-- Not modelled: the texts and layout of messages, connections and credentials, the
-- GraphQL requests that create and rebase a deploy branch (their outcome is an input), the
-- registry cache (its verdicts are inputs), the handlers of slash commands and modals, the JSON
-- decoders, what the bot does with an ArgoCD notification, the event queue and the draining of its
-- buffer, health checks, BranchName, and the requests of the repository scanner.
pub mod Argocd
pub mod Bot
pub mod Config
pub mod Examples
pub mod Github
pub mod Prelude
pub mod RepoConfig
pub mod Retention
pub mod Sanitize
pub mod Scanner
pub mod Store
pub mod Sweeper
pub mod System
pub mod Validator
pub mod World
