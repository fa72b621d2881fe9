-- ===== src/RepoConfig/Laws.antt =====
-- The entries that pass the validation of a repository's file differ from one another.
use mathlib.Core.List.{Memᴰ}
use mathlib.Core.List.Memᴰ.{head, tail, not-nil}
use deploy_bot.Prelude.Int.{ℤ, pos}
use deploy_bot.Prelude.{
  ℕ, zero, suc, ◌+◌, ◌<◌, String, ◌≡◌, ◌≢◌, refl, sym, ◌∙◌, ap, Bool, true, false, ◌||◌, Option,
  none, some, List, [], ◌∷◌, ◌++◌, some_of, if◌then◌else◌, arith, eq_refl, Bool-cases, inl, inr,
  int_eq, int_eq_iff,
}
use deploy_bot.RepoConfig.{
  AppEntry, ValidationError, ValidateOpts, Verdict, refused, checked, check_entry, Progress, is_in,
  entry_key, add_error, note_path, note_key, note, validate_from, validate_with_opts, has_error,
  valid_from, valid_entries, is_file_level,
}

some_of-append {ℓ} :
    {A : Type ℓ} (p : A → Bool) (xs ys : List A)
    → some_of p (xs ++ ys) ≡ (some_of p xs || some_of p ys)
unfolding some_of
some_of-append p [] ys = refl
some_of-append p (x ∷ xs) ys = ground (arith, some_of-append p xs ys)

-- The entry at a position.
abbrev pub nth : ℕ → List AppEntry → Option AppEntry
nth n [] = none
nth zero (e ∷ es) = some e
nth (suc n) (e ∷ es) = nth n es

-- Nothing that was noted is forgotten.
record Extends (st' st : Progress) : Type 0 where
  errors : (i : ℤ) → has_error i st.errors ≡ true → has_error i st'.errors ≡ true
  seen : (s : String) → is_in s st.seen ≡ true → is_in s st'.seen ≡ true
  kpaths : (s : String) → is_in s st.kpaths ≡ true → is_in s st'.kpaths ≡ true

Extends-refl : (st : Progress) → Extends st st
Extends-refl st = record { errors = λ i h. h; seen = λ s h. h; kpaths = λ s h. h }

Extends-trans : {a b c : Progress} → Extends a b → Extends b c → Extends a c
Extends-trans p q = record {
  errors = λ i h. p.errors i (q.errors i h);
  seen = λ s h. p.seen s (q.seen s h);
  kpaths = λ s h. p.kpaths s (q.kpaths s h);
}

abbrev the_error : ℕ → String → String → ValidationError
the_error i app field = record { index = pos i; app = app; field = field }

Extends-add_error :
    (i : ℕ) (app field : String) (st : Progress) → Extends (add_error i app field st) st
Extends-add_error i app field st = record {
  errors = λ j h.
      some_of-append (λ e. int_eq e.index j) st.errors (the_error i app field ∷ [])
      ∙ ground (arith, h);
  seen = λ s h. h;
  kpaths = λ s h. h;
}

Extends-note_path :
    (b : Bool) (i : ℕ) (app path : String) (st : Progress) → Extends (note_path b i app path st) st
unfolding note_path
Extends-note_path true i app path st = Extends-add_error i app "kustomize_path" st
Extends-note_path false i app path st = record {
  errors = λ j h. h;
  seen = λ s h. h;
  kpaths = λ s h. unfold some_of in ground (arith, h);
}

Extends-note_key :
    (b : Bool) (i : ℕ) (app env path : String) (st : Progress)
    → Extends (note_key b i app env path st) st
unfolding note_key
Extends-note_key true i app env path st = Extends-add_error i app "app+environment" st
Extends-note_key false i app env path st =
    Extends-trans (Extends-note_path _ i app path _) (record {
      errors = λ j h. h;
      seen = λ s h. unfold some_of in ground (arith, h);
      kpaths = λ s h. h;
    })

Extends-note : (i : ℕ) (v : Verdict) (st : Progress) → Extends (note i v st) st
unfolding note
Extends-note i (refused app field) st = Extends-add_error i app field st
Extends-note i (checked app env path) st = Extends-note_key _ i app env path st

-- What an entry without an error stands for, between two points of the run.
record Passed (v : Verdict) (st st' : Progress) : Type 0 where
  app : String
  env : String
  path : String
  is_checked : v ≡ checked app env path
  new_key : is_in (entry_key app env) st.seen ≡ false
  new_path : is_in path st.kpaths ≡ false
  key_noted : is_in (entry_key app env) st'.seen ≡ true
  path_noted : is_in path st'.kpaths ≡ true

has_error-add_error :
    (i : ℕ) (app field : String) (st : Progress)
    → has_error (pos i) (add_error i app field st).errors ≡ true
has_error-add_error i app field st =
    some_of-append (λ e. int_eq e.index (pos i)) st.errors (the_error i app field ∷ [])
    ∙ unfold some_of in ground (arith, int_eq_iff (pos i) (pos i))

note_path-free :
    (p : Bool) (i : ℕ) (app path : String) (st : Progress)
    → is_in path st.kpaths ≡ p
    → has_error (pos i) (note_path p i app path st).errors ≡ false
    → (is_in path st.kpaths ≡ false) × (is_in path (note_path p i app path st).kpaths ≡ true)
unfolding note_path
note_path-free true i app path st e h =
    let there = has_error-add_error i app "kustomize_path" st in absurd (ground (arith, h, there))
note_path-free false i app path st e h = (e, unfold some_of in ground (arith, eq_refl path))

note-Passed :
    (i : ℕ) (v : Verdict) (st : Progress)
    → has_error (pos i) (note i v st).errors ≡ false
    → Passed v st (note i v st)
unfolding note
note-Passed i (refused app field) st h =
    let there = has_error-add_error i app field st in absurd (ground (arith, h, there))
note-Passed i (checked app env path) st h =
    keyed (is_in (entry_key app env) st.seen) (is_in path st.kpaths) refl refl h
  where
    keyed :
        (k p : Bool)
        → is_in (entry_key app env) st.seen ≡ k
        → is_in path st.kpaths ≡ p
        → has_error (pos i) (note_key k i app env path st).errors ≡ false
        → Passed (checked app env path) st (note_key k i app env path st)
    keyed true p ek ep g =
        let there = has_error-add_error i app "app+environment" st in
        absurd (unfold note_key in ground (arith, g, there))
    keyed false p ek ep g =
        let free =
          note_path-free (is_in path st.kpaths) i app path
            (record st { seen = entry_key app env ∷ st.seen }) refl g in
        record {
          app = app;
          env = env;
          path = path;
          is_checked = refl;
          new_key = ek;
          new_path = free.0;
          key_noted =
              (Extends-note_path (is_in path st.kpaths) i app path _).seen (entry_key app env)
                (unfold some_of in ground (arith, eq_refl (entry_key app env)));
          path_noted = free.1;
        }

-- The rest of the file only adds.
Extends-validate_from :
    (compiles : String → Bool) (opts : ValidateOpts) (i : ℕ) (es : List AppEntry) (st : Progress)
    → Extends (validate_from compiles opts i es st) st
unfolding validate_from
Extends-validate_from compiles opts i [] st = Extends-refl st
Extends-validate_from compiles opts i (e ∷ es) st =
    Extends-trans (Extends-validate_from compiles opts (i + 1) es _)
      (Extends-note i (check_entry compiles opts e) st)

false_before : {b c : Bool} → (b ≡ true → c ≡ true) → c ≡ false → b ≡ false
false_before {b} {c} f h = elim (Bool-cases b) [
  | inl e ↦ absurd (ground (arith, f e, h))
  | inr e ↦ e
]

apart : (s t : String) (xs : List String) → is_in s xs ≡ true → is_in t xs ≡ false → s ≢ t
apart s t xs h g same =
    let there = ap (λ x. is_in x xs) (sym same) ∙ h in absurd (ground (arith, g, there))

same_entry : {a b : AppEntry} → some a ≡ some b → a ≡ b
same_entry h = cc

pub moved :
    {m n : ℕ} (errs : List ValidationError)
    → m ≡ n
    → has_error (pos m) errs ≡ false
    → has_error (pos n) errs ≡ false
moved {m} {n} errs e h = ap (λ x. has_error (pos x) errs) (sym e) ∙ h

module _ (compiles : String → Bool) (opts : ValidateOpts) where
  -- What an entry that passes the validation stands for.
  pub record Stands (e : AppEntry) : Type 0 where
    pub app : String
    pub env : String
    pub path : String
    pub is_checked : check_entry compiles opts e ≡ checked app env path

  head-Passed :
      (k : ℕ) (e : AppEntry) (es : List AppEntry) (st : Progress)
      → has_error (pos k) (validate_from compiles opts k (e ∷ es) st).errors ≡ false
      → Passed (check_entry compiles opts e) st (note k (check_entry compiles opts e) st)
  unfolding validate_from
  head-Passed k e es st h =
      note-Passed k (check_entry compiles opts e) st
        (false_before ((Extends-validate_from compiles opts (k + 1) es _).errors (pos k)) h)

  -- An entry that comes later and passes: its key and its path were not noted before.
  pub later-free :
      (k j : ℕ) (es : List AppEntry) (st : Progress) {b : AppEntry}
      → nth j es ≡ some b
      → has_error (pos (k + j)) (validate_from compiles opts k es st).errors ≡ false
      → (s : Stands b) × (is_in (entry_key s.app s.env) st.seen ≡ false)
        × (is_in s.path st.kpaths ≡ false)
  unfolding validate_from
  later-free k j [] st at h = cc
  later-free k zero (e ∷ es) st {b} at h =
      let p = head-Passed k e es st (moved _ (omega arith) h) in
      rw⁻¹ (same_entry at) (
        record { app = p.app; env = p.env; path = p.path; is_checked = p.is_checked },
        p.new_key,
        p.new_path,
      )
  later-free k (suc j) (e ∷ es) st {b} at h =
      let r =
        later-free (k + 1) j es (note k (check_entry compiles opts e) st) {b = b} at
          (moved _ (omega arith) h) in
      let x = Extends-note k (check_entry compiles opts e) st in
      (
        r.0,
        false_before (x.seen (entry_key r.0.app r.0.env)) r.1,
        false_before (x.kpaths r.0.path) r.2,
      )

  -- Two entries that differ in what identifies them.
  pub record Differ (a b : AppEntry) : Type 0 where
    pub first : Stands a
    pub second : Stands b
    other_key : entry_key first.app first.env ≢ entry_key second.app second.env
    pub other_path : first.path ≢ second.path

  from-Differ :
      (k i j : ℕ) (es : List AppEntry) (st : Progress) {a b : AppEntry}
      → i < j
      → nth i es ≡ some a
      → nth j es ≡ some b
      → has_error (pos (k + i)) (validate_from compiles opts k es st).errors ≡ false
      → has_error (pos (k + j)) (validate_from compiles opts k es st).errors ≡ false
      → Differ a b
  unfolding validate_from
  from-Differ k i j [] st lt at_i at_j hi hj = cc
  from-Differ k i zero (e ∷ es) st lt at_i at_j hi hj = absurd (omega (arith, lt))
  from-Differ k zero (suc j) (e ∷ es) st {a} {b} lt at_i at_j hi hj =
      let p = head-Passed k e es st (moved _ (omega arith) hi) in
      let r =
        later-free (k + 1) j es (note k (check_entry compiles opts e) st) {b = b} at_j
          (moved _ (omega arith) hj) in
      rw⁻¹ (same_entry at_i) (record {
        first = record { app = p.app; env = p.env; path = p.path; is_checked = p.is_checked };
        second = r.0;
        other_key = apart _ _ _ p.key_noted r.1;
        other_path = apart _ _ _ p.path_noted r.2;
      })
  from-Differ k (suc i) (suc j) (e ∷ es) st {a} {b} lt at_i at_j hi hj =
      from-Differ (k + 1) i j es (note k (check_entry compiles opts e) st) {a = a} {b = b}
        (omega (arith, lt)) at_i at_j (moved _ (omega arith) hi) (moved _ (omega arith) hj)

  valid_from-Memᴰ :
      (k : ℕ) (es : List AppEntry) (errs : List ValidationError) {i : ℕ}
      → Memᴰ i (valid_from k es errs)
      → (n : ℕ) × (a : AppEntry) × (i ≡ k + n)
        × (nth n es ≡ some a)
        × (has_error (pos i) errs ≡ false)
  unfolding valid_from
  valid_from-Memᴰ k [] errs m = absurd (not-nil m)
  valid_from-Memᴰ k (e ∷ es) errs {i} m =
      kept (has_error (pos k) errs) refl m (valid_from-Memᴰ (k + 1) es errs {i = i})
    where
      Found : Type 0
      Found =
          (n : ℕ) × (a : AppEntry) × (i ≡ k + n)
          × (nth n (e ∷ es) ≡ some a)
          × (has_error (pos i) errs ≡ false)

      later :
          (n : ℕ) × (a : AppEntry) × (i ≡ k + 1 + n)
            × (nth n es ≡ some a)
            × (has_error (pos i) errs ≡ false)
          → Found
      later (n, a, at, entry, free) = (suc n, a, omega (arith, at), entry, free)

      kept :
          (b : Bool)
          → has_error (pos k) errs ≡ b
          → Memᴰ i (if b then valid_from (k + 1) es errs else k ∷ valid_from (k + 1) es errs)
          → (Memᴰ i (valid_from (k + 1) es errs)
              → (n : ℕ) × (a : AppEntry) × (i ≡ k + 1 + n)
                × (nth n es ≡ some a)
                × (has_error (pos i) errs ≡ false))
          → Found
      kept true h n rest = later (rest n)
      kept false h (head same) rest =
          (0, e, omega (arith, same), refl, ap (λ x. has_error (pos x) errs) same ∙ h)
      kept false h (tail n) rest = later (rest n)

  pub valid_entries-Memᴰ :
      (es : List AppEntry) (errs : List ValidationError) {i : ℕ}
      → Memᴰ i (valid_entries es errs)
      → (a : AppEntry) × (nth i es ≡ some a) × (has_error (pos i) errs ≡ false)
  unfolding valid_entries
  valid_entries-Memᴰ es errs {i} m = kept (some_of is_file_level errs) m
    where
      kept :
          (b : Bool)
          → Memᴰ i (if b then [] else valid_from 0 es errs)
          → (a : AppEntry) × (nth i es ≡ some a) × (has_error (pos i) errs ≡ false)
      kept true n = absurd (not-nil n)
      kept false n =
          let (k, a, at, entry, free) = valid_from-Memᴰ 0 es errs {i = i} n in
          (a, ap (λ x. nth x es) (omega (arith, at)) ∙ entry, free)

  -- Two entries of one file that `ValidEntries` keeps stand, after trimming and with what enforced
  -- naming derives, for different pairs of app and environment and for different paths.
  pub valid_entries-Differ :
      (es : List AppEntry) (i j : ℕ)
      → Memᴰ i (valid_entries es (validate_with_opts compiles opts es))
      → Memᴰ j (valid_entries es (validate_with_opts compiles opts es))
      → i < j
      → (a : AppEntry) × (b : AppEntry) × (nth i es ≡ some a) × (nth j es ≡ some b) × Differ a b
  unfolding valid_entries validate_with_opts
  valid_entries-Differ es i j at_i at_j lt =
      let p = valid_entries-Memᴰ es (validate_with_opts compiles opts es) {i = i} at_i in
      let q = valid_entries-Memᴰ es (validate_with_opts compiles opts es) {i = j} at_j in
      (
        p.0,
        q.0,
        p.1,
        q.1,
        from-Differ 0 i j es (record { errors = []; seen = []; kpaths = [] }) {a = p.0} {b = q.0} lt
            p.1 q.1
            (moved {m = i} {n = 0 + i} (validate_with_opts compiles opts es) (omega arith) p.2)
            (moved {m = j} {n = 0 + j} (validate_with_opts compiles opts es) (omega arith) q.2),
      )
