-- ===== src/Scanner/Conflicts/Laws.antt =====
-- What the registered apps have in common with the operator's and with one another.
use Prim.Native.String.{◌++◌ as append}
use mathlib.Core.List.{Memᴰ}
use mathlib.Core.List.Memᴰ.{head, tail, not-nil}
use deploy_bot.Prelude.{
  String, ◌≡◌, ◌≢◌, refl, sym, ◌∙◌, ap, Bool, true, false, Option, none, some, List, [], ◌∷◌, ◌==◌,
  some_of, if◌then◌else◌, arith, eq_iff, eq_refl, Bool-cases, inl, inr,
}
use deploy_bot.Config.{AppConfig, full_name, is_named}
use deploy_bot.Scanner.Conflicts.{
  Claim, Scan, empty_scan, in_conflict, operator_of, claimant_of, add_conflict, add_claim,
  check_path, check_app, detect_one, detect_from, detect_conflicts, without, registered,
}

abbrev is_claimed : Scan → String → Bool
is_claimed f path = some_of (λ c. c.path == path) f.claims

claimant_of-is_claimed :
    (path : String) (cs : List Claim)
    → claimant_of path cs ≡ none
    → some_of (λ c. c.path == path) cs ≡ false
unfolding claimant_of some_of
claimant_of-is_claimed path [] h = refl
claimant_of-is_claimed path (c ∷ cs) h = ground (arith, h, claimant_of-is_claimed path cs)

module _ (ops : List AppConfig) where
  -- A conflict and a claim, once found, stay.
  conflict-detect_one :
      (d : AppConfig) (f : Scan) (k : String)
      → in_conflict f k ≡ true
      → in_conflict (detect_one ops d f) k ≡ true
  unfolding detect_one
  conflict-detect_one d f k h =
      checked (in_conflict f (full_name d)) (some_of (is_named (full_name d)) ops)
        (d.kustomize_path == "")
    where
      at_path : (a b : Option String) → in_conflict (check_path a b d f) k ≡ true
      at_path (some o) b = unfold check_path add_conflict some_of in ground (arith, h)
      at_path none (some l) = unfold check_path add_conflict some_of in ground (arith, h)
      at_path none none = unfold check_path add_claim in h

      checked : (a b c : Bool) → in_conflict (check_app ops a b c d f) k ≡ true
      checked true b c = unfold check_app in h
      checked false true c = unfold check_app add_conflict some_of in ground (arith, h)
      checked false false true = unfold check_app in h
      checked false false false = unfold check_app in at_path _ _

  claim-detect_one :
      (d : AppConfig) (f : Scan) (p : String)
      → is_claimed f p ≡ true
      → is_claimed (detect_one ops d f) p ≡ true
  unfolding detect_one
  claim-detect_one d f p h =
      checked (in_conflict f (full_name d)) (some_of (is_named (full_name d)) ops)
        (d.kustomize_path == "")
    where
      at_path : (a b : Option String) → is_claimed (check_path a b d f) p ≡ true
      at_path (some o) b = unfold check_path add_conflict in h
      at_path none (some l) = unfold check_path add_conflict in h
      at_path none none = unfold check_path add_claim some_of in ground (arith, h)

      checked : (a b c : Bool) → is_claimed (check_app ops a b c d f) p ≡ true
      checked true b c = unfold check_app in h
      checked false true c = unfold check_app add_conflict in h
      checked false false true = unfold check_app in h
      checked false false false = unfold check_app in at_path _ _

  -- What holds of an app that was looked at and is not in conflict.
  record IsAccepted (d : AppConfig) (f : Scan) : Type 0 where
    new_name : some_of (is_named (full_name d)) ops ≡ false
    new_path :
        (d.kustomize_path == "") ≡ false
        → (operator_of d.kustomize_path ops ≡ none)
          × (is_claimed f d.kustomize_path ≡ false)
          × (is_claimed (detect_one ops d f) d.kustomize_path ≡ true)

  add_conflict-in_conflict :
      (d : AppConfig) (reason detail : String) (f : Scan)
      → in_conflict (add_conflict d reason detail f) (full_name d) ≡ true
  unfolding add_conflict some_of
  add_conflict-in_conflict d reason detail f = ground (arith, eq_refl (full_name d))

  -- A path that is free of both owners is claimed.
  path_accepted :
      (o c : Option String) (d : AppConfig) (f : Scan)
      → operator_of d.kustomize_path ops ≡ o
      → claimant_of d.kustomize_path f.claims ≡ c
      → in_conflict (check_path o c d f) (full_name d) ≡ false
      → (operator_of d.kustomize_path ops ≡ none)
        × (is_claimed f d.kustomize_path ≡ false)
        × (is_claimed (check_path o c d f) d.kustomize_path ≡ true)
  unfolding check_path
  path_accepted (some other) c d f eo ec h =
      let there = add_conflict-in_conflict d "kustomize_path" (append "operator app " other) f in
      absurd (ground (arith, h, there))
  path_accepted none (some label) d f eo ec h =
      let there = add_conflict-in_conflict d "kustomize_path" label f in
      absurd (ground (arith, h, there))
  path_accepted none none d f eo ec h = (
    eo,
    claimant_of-is_claimed d.kustomize_path f.claims ec,
    unfold add_claim some_of in ground (arith, eq_refl d.kustomize_path),
  )

  accepted :
      (d : AppConfig) (f : Scan)
      → in_conflict (detect_one ops d f) (full_name d) ≡ false
      → IsAccepted d f
  unfolding detect_one
  accepted d f h =
      let r =
        cases (in_conflict f (full_name d)) (some_of (is_named (full_name d)) ops)
          (d.kustomize_path == "") refl refl refl h in
      record { new_name = r.0; new_path = r.1 }
    where
      cases :
          (a b c : Bool)
          → in_conflict f (full_name d) ≡ a
          → some_of (is_named (full_name d)) ops ≡ b
          → (d.kustomize_path == "") ≡ c
          → in_conflict (check_app ops a b c d f) (full_name d) ≡ false
          → (b ≡ false)
            × (c ≡ false
                → (operator_of d.kustomize_path ops ≡ none)
                  × (is_claimed f d.kustomize_path ≡ false)
                  × (is_claimed (check_app ops a b c d f) d.kustomize_path ≡ true))
      cases true b c ea eb ec g = absurd (unfold check_app in ground (arith, ea, g))
      cases false true c ea eb ec g =
          absurd (
            unfold check_app in
            ground (arith, g, add_conflict-in_conflict d "app+environment" "" f))
      cases false false true ea eb ec g = (refl, λ p. absurd (ground (arith, p)))
      cases false false false ea eb ec g =
          unfold check_app in (refl, λ p. path_accepted _ _ d f refl refl g)

  conflict-detect_from :
      (ds : List AppConfig) (f : Scan) (k : String)
      → in_conflict f k ≡ true
      → in_conflict (detect_from ops ds f) k ≡ true
  unfolding detect_from
  conflict-detect_from [] f k h = h
  conflict-detect_from (d ∷ ds) f k h =
      conflict-detect_from ds (detect_one ops d f) k (conflict-detect_one d f k h)

  -- What is free of conflicts at the end was so on the way.
  free_before :
      (ds : List AppConfig) (f : Scan) (k : String)
      → in_conflict (detect_from ops ds f) k ≡ false
      → in_conflict f k ≡ false
  free_before ds f k h = elim (Bool-cases (in_conflict f k)) [
    | inl yes_ ↦ absurd (ground (arith, h, conflict-detect_from ds f k yes_))
    | inr free ↦ free
  ]

  unclaimed_before :
      (d : AppConfig) (f : Scan) (p : String)
      → is_claimed (detect_one ops d f) p ≡ false
      → is_claimed f p ≡ false
  unclaimed_before d f p h = elim (Bool-cases (is_claimed f p)) [
    | inl taken ↦ absurd (ground (arith, h, claim-detect_one d f p taken))
    | inr free ↦ free
  ]

  without-Memᴰ :
      (f : Scan) (ds : List AppConfig) {a : AppConfig}
      → Memᴰ a (without ops f ds)
      → (in_conflict f (full_name a) ≡ false) × Memᴰ a ds
  unfolding without
  without-Memᴰ f [] m = absurd (not-nil m)
  without-Memᴰ f (d ∷ ds) {a} m =
      kept (in_conflict f (full_name d)) refl m (without-Memᴰ f ds {a = a})
    where
      kept :
          (b : Bool)
          → in_conflict f (full_name d) ≡ b
          → Memᴰ a (if b then without ops f ds else d ∷ without ops f ds)
          → (Memᴰ a (without ops f ds) → (in_conflict f (full_name a) ≡ false) × Memᴰ a ds)
          → (in_conflict f (full_name a) ≡ false) × Memᴰ a (d ∷ ds)
      kept true e n rest = let r = rest n in (r.0, tail r.1)
      kept false e (head same) rest = (ap (λ x. in_conflict f (full_name x)) same ∙ e, head same)
      kept false e (tail n) rest = let r = rest n in (r.0, tail r.1)

  -- An app that is looked at from `f` on and free of conflicts at the end: its name and its path
  -- are not the operator's, and its path was not claimed.
  clear_from :
      (ds : List AppConfig) (f : Scan) {a : AppConfig}
      → Memᴰ a ds
      → in_conflict (detect_from ops ds f) (full_name a) ≡ false
      → (some_of (is_named (full_name a)) ops ≡ false)
        × ((a.kustomize_path == "") ≡ false
            → (operator_of a.kustomize_path ops ≡ none) × (is_claimed f a.kustomize_path ≡ false))
  unfolding detect_from
  clear_from [] f m h = absurd (not-nil m)
  clear_from (d ∷ ds) f {a} (head same) h =
      let final = detect_from ops ds (detect_one ops d f) in
      let free = ap (λ x. in_conflict final (full_name x)) (sym same) ∙ h in
      let c = accepted d f (free_before ds (detect_one ops d f) (full_name d) free) in
      rw same (c.new_name, λ p. let q = c.new_path p in (q.0, q.1))
  clear_from (d ∷ ds) f {a} (tail m) h =
      let r = clear_from ds (detect_one ops d f) {a = a} m h in
      (r.0, λ p. let q = r.1 p in (q.0, unclaimed_before d f a.kustomize_path q.1))

  -- No two apps of the list have one path, the empty one aside.
  abbrev pub DistinctPaths : List AppConfig → Type 0
  DistinctPaths [] = Unit {0}
  DistinctPaths (d ∷ ds) =
      ((a : AppConfig) → Memᴰ a ds → a.kustomize_path ≢ "" → a.kustomize_path ≢ d.kustomize_path)
      × DistinctPaths ds

  distinct_from :
      (ds : List AppConfig) (f : Scan) → DistinctPaths (without ops (detect_from ops ds f) ds)
  unfolding detect_from without
  distinct_from [] f = tt
  distinct_from (d ∷ ds) f =
      kept (in_conflict final (full_name d)) refl (distinct_from ds (detect_one ops d f))
    where
      final : Scan
      final = detect_from ops ds (detect_one ops d f)

      kept :
          (b : Bool)
          → in_conflict final (full_name d) ≡ b
          → DistinctPaths (without ops final ds)
          → DistinctPaths (if b then without ops final ds else d ∷ without ops final ds)
      kept true e rest = rest
      kept false e rest = (
        λ a m filled same.
            let own = accepted d f (free_before ds (detect_one ops d f) (full_name d) e) in
            let at = without-Memᴰ final ds {a = a} m in
            let a_path : (a.kustomize_path == "") ≡ false =
              ground (arith, filled, eq_iff a.kustomize_path "") in
            let unclaimed = ((clear_from ds (detect_one ops d f) {a = a} at.1 at.0).1 a_path).1 in
            let d_path = ap (λ p. p == "") (sym same) ∙ a_path in
            let claimed = (own.new_path d_path).2 in
            absurd (ground (arith, same, unclaimed, claimed)),
        rest,
      )

  -- What is registered stays clear of the operator's apps: no app has the full name of one, and none
  -- with a path has the path of one. And no two registered apps have one path.
  pub registered-clear :
      (ds : List AppConfig)
      → ((a : AppConfig)
          → Memᴰ a (registered ops ds)
          → (some_of (is_named (full_name a)) ops ≡ false)
            × (a.kustomize_path ≢ "" → operator_of a.kustomize_path ops ≡ none))
        × DistinctPaths (registered ops ds)
  unfolding registered detect_conflicts
  registered-clear ds = (
    λ a m.
        let at = without-Memᴰ (detect_from ops ds empty_scan) ds {a = a} m in
        let r = clear_from ds empty_scan {a = a} at.1 at.0 in
        (r.0, λ p. (r.1 (ground (arith, p, eq_iff a.kustomize_path ""))).0),
    distinct_from ds empty_scan,
  )

  -- A new app with a path that the operator does not have.
  detect_one-new :
      (d : AppConfig) (f : Scan) (c : Option String)
      → in_conflict f (full_name d) ≡ false
      → some_of (is_named (full_name d)) ops ≡ false
      → (d.kustomize_path == "") ≡ false
      → operator_of d.kustomize_path ops ≡ none
      → claimant_of d.kustomize_path f.claims ≡ c
      → detect_one ops d f ≡ check_path none c d f
  unfolding detect_one
  detect_one-new d f c free new filled unowned claimant =
      rw (free, new, filled) (unfold check_app in rw (unowned, claimant) refl)

  -- Two discovered apps with one full name and one path, both new to the operator: neither is
  -- registered, although only the second is in conflict with the first.
  pub registered-drops_both :
      (a b : AppConfig)
      → full_name b ≡ full_name a
      → b.kustomize_path ≡ a.kustomize_path
      → a.kustomize_path ≢ ""
      → some_of (is_named (full_name a)) ops ≡ false
      → operator_of a.kustomize_path ops ≡ none
      → registered ops (a ∷ b ∷ []) ≡ []
  unfolding registered detect_conflicts detect_from
  registered-drops_both a b name path filled new free =
      let a_path : (a.kustomize_path == "") ≡ false =
        ground (arith, filled, eq_iff a.kustomize_path "") in
      let first =
        detect_one-new a empty_scan none (unfold some_of in refl) new a_path free
          (unfold claimant_of in refl) in
      let one = add_claim a empty_scan in
      let second =
        detect_one-new b one (some (append (full_name a) (append " from " a.source_repo)))
          (unfold add_claim some_of in refl) (ap (λ k. some_of (is_named k) ops) name ∙ new)
          (ap (λ p. p == "") path ∙ a_path) (ap (λ p. operator_of p ops) path ∙ free)
          (unfold add_claim claimant_of in rw ((eq_iff _ _).1 (sym path)) refl) in
      ap (λ f. without ops f (a ∷ b ∷ []))
        (ap (detect_one ops b) (first ∙ (unfold check_path in refl)) ∙ second)
      ∙ gone
    where
      label : String
      label = append (full_name a) (append " from " a.source_repo)

      last : Scan
      last = check_path none (some label) b (add_claim a empty_scan)

      there : in_conflict last (full_name b) ≡ true
      there =
          unfold check_path in
          add_conflict-in_conflict b "kustomize_path" label (add_claim a empty_scan)

      gone : without ops last (a ∷ b ∷ []) ≡ []
      gone =
          let at_a = ap (in_conflict last) (sym name) ∙ there in
          unfold without in rw (at_a, there) refl
