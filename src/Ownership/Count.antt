-- ===== src/Ownership/Count.antt =====
-- How the counts of rex/src/panic.rs's table and of the calls change.
use mathlib.Core.List.{reverse, reverse-append}
use rex_with_driver.Base.{
  ℕ, zero, suc, ◌+◌, ◌≡◌, refl, ap, ◌∙◌, List, [], ◌∷◌, ◌++◌, some, arith, map, set, get_elem?,
  append_assoc,
}
use rex_with_driver.Kernel.{Env, Call, CleanupFn, unlock_spinlock, release_task, CleanupEntry}
use rex_with_driver.Panic.{release_call, invalidate, new_entry}
use rex_with_driver.Panic.Cleanup.{entry_releases, releases}
use rex_with_driver.Ownership.{entry_holds, held, gives_back, released, obtains, acquired}

module _ (f : CleanupFn) (a : ℕ) where
  -- Replacing an entry moves the count by the difference.
  pub held-set :
      (es : List CleanupEntry) (i : ℕ) (e e' : CleanupEntry)
      → get_elem? es i ≡ some e
      → held f a (set es i e') + entry_holds f a e ≡ held f a es + entry_holds f a e'
  unfolding held
  held-set [] i e e' h = absurd (cc)
  held-set (x ∷ es) zero e e' h =
      let same : x ≡ e = cc in omega (arith, ap (λ y. entry_holds f a y) same)
  held-set (x ∷ es) (suc i) e e' h = omega (arith, held-set es i e e' h)

  pub held-map-invalidate : (es : List CleanupEntry) → held f a (map invalidate es) ≡ 0
  unfolding held entry_holds invalidate
  held-map-invalidate [] = refl
  held-map-invalidate (e ∷ es) = omega (arith, held-map-invalidate es)

  gives_back-release_call :
      (g : CleanupFn) (b : ℕ) → gives_back f a (release_call g b) ≡ entry_holds f a (new_entry g b)
  unfolding gives_back entry_holds new_entry
  gives_back-release_call unlock_spinlock b = refl
  gives_back-release_call release_task b = refl

  released-entry_releases :
      (e : CleanupEntry) (cs : List Call)
      → released f a (reverse (entry_releases e) ++ cs) ≡ entry_holds f a e + released f a cs
  unfolding released entry_releases entry_holds gives_back
  released-entry_releases e cs = ground arith

  -- The calls of a cleanup give back what the table holds, and obtain nothing.
  pub released-releases :
      (es : List CleanupEntry) (cs : List Call)
      → released f a (reverse (releases es) ++ cs) ≡ held f a es + released f a cs
  unfolding releases held
  released-releases [] cs = omega arith
  released-releases (e ∷ es) cs =
      rw (reverse-append, append_assoc)
        (omega (
          arith,
          released-releases es (reverse (entry_releases e) ++ cs),
          released-entry_releases e cs,
        ))

  acquired-entry_releases :
      (k : Env) (e : CleanupEntry) (cs : List Call)
      → acquired f a k (reverse (entry_releases e) ++ cs) ≡ acquired f a k cs
  unfolding acquired entry_releases obtains
  acquired-entry_releases k e cs = ground arith

  pub acquired-releases :
      (k : Env) (es : List CleanupEntry) (cs : List Call)
      → acquired f a k (reverse (releases es) ++ cs) ≡ acquired f a k cs
  unfolding releases
  acquired-releases k [] cs = refl
  acquired-releases k (e ∷ es) cs =
      rw (reverse-append, append_assoc)
        (acquired-releases k es (reverse (entry_releases e) ++ cs) ∙ acquired-entry_releases k e cs)

  pub entry_holds-vacant : (e : CleanupEntry) → e.valid ≡ 0 → entry_holds f a e ≡ 0
  unfolding entry_holds
  entry_holds-vacant e h = ground arith

  pub entry_holds-invalidate : (e : CleanupEntry) → entry_holds f a (invalidate e) ≡ 0
  unfolding invalidate
  entry_holds-invalidate e = entry_holds-vacant (invalidate e) refl
