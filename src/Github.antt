-- ===== src/Github.antt =====
-- internal/github/retry.go and `MergePR` of internal/github/pr.go. The REST call itself is
-- go-github's, and its answers come from the environment.
pub mod Retry
pub mod Merge
