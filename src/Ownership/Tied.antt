-- ===== src/Ownership/Tied.antt =====
-- The guards that a program owns stay tied to their slots of rex/src/panic.rs's table.
use rex_with_driver.Base.{
  ℕ, ◌+◌, ◌≡◌, ◌≢◌, refl, sym, ap, ◌∙◌, List, [], ◌∷◌, ◌++◌, some, arith, set, get_elem?,
  get_elem?-set_ne,
}
use rex_with_driver.Kernel.{CleanupFn, CleanupEntry}
use rex_with_driver.Panic.{new_entry}
use rex_with_driver.Panic.Table.{Vacant}
use rex_with_driver.Ownership.Program.{Handle, fn_of, arg_of, idx_of}
use rex_with_driver.Ownership.Invariant.{weight, Apart, Tied, AllTied, owned}

-- A change of another slot is not seen.
pub AllTied-set :
    (es : List CleanupEntry) (i : ℕ) (e : CleanupEntry) (hs : List Handle)
    → Apart i hs
    → AllTied es hs
    → AllTied (set es i e) hs
AllTied-set es i e [] p t = tt
AllTied-set es i e (h ∷ hs) p t =
    (get_elem?-set_ne es i (idx_of h) e p.0 ∙ t.0, t.1, AllTied-set es i e hs p.1 t.2)

-- No guard stands at a vacant slot.
pub Apart-Vacant :
    (es : List CleanupEntry) (i : ℕ) (hs : List Handle) → Vacant es i → AllTied es hs → Apart i hs
unfolding new_entry
Apart-Vacant es i [] v t = tt
Apart-Vacant es i (h ∷ hs) v t =
    (λ same. clash (v.1) v.2 (ap (get_elem? es) same ∙ t.0), Apart-Vacant es i hs v t.2)
  where
    clash :
        get_elem? es i ≡ some v.0
        → v.0.valid ≡ 0
        → get_elem? es i ≡ some (new_entry (fn_of h) (arg_of h))
        → ⊥
    clash p q r = ground (arith, p, q, r)

pub Apart-append :
    (i : ℕ) (xs : List Handle) (h : Handle) (ys : List Handle)
    → Apart i (xs ++ (h ∷ ys))
    → (i ≢ idx_of h) × Apart i (xs ++ ys)
Apart-append i [] h ys p = p
Apart-append i (x ∷ xs) h ys p = let (ne, rest) = Apart-append i xs h ys p.1 in (ne, (p.0, rest))

-- Dropping a guard leaves the others, which stand elsewhere.
pub AllTied-append :
    (es : List CleanupEntry) (xs : List Handle) (h : Handle) (ys : List Handle)
    → AllTied es (xs ++ (h ∷ ys))
    → Tied es h × Apart (idx_of h) (xs ++ ys) × AllTied es (xs ++ ys)
AllTied-append es [] h ys t = t
AllTied-append es (x ∷ xs) h ys t =
    let (own, apart, others) = AllTied-append es xs h ys t.2 in
    let (ne, rest) = Apart-append (idx_of x) xs h ys t.1 in
    (own, ((λ e. ne (sym e)), apart), (t.0, rest, others))

pub owned-append :
    (g : CleanupFn) (a : ℕ) (xs : List Handle) (h : Handle) (ys : List Handle)
    → owned g a (xs ++ (h ∷ ys)) ≡ weight g a (fn_of h) (arg_of h) + owned g a (xs ++ ys)
unfolding owned
owned-append g a [] h ys = refl
owned-append g a (x ∷ xs) h ys = omega (arith, owned-append g a xs h ys)
