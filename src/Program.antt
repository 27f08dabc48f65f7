-- ===== src/Program.antt =====
-- What the sample programs under samples/ share: the packet, their own state, and how a function of
-- theirs ends. The maps of a program are part of its state; the kernel's answers are parameters.
pub mod Updates
pub mod Headers
use rex_with_driver.Base.{
  ℕ, ◌+◌, ◌-◌, ◌==◌, List, [], ◌∷◌, Option, none, some, Bool, true, false, ◌||◌, ◌&&◌, ltb,
  if◌then◌else◌, length, get_elem?, take, drop, ◌≡◌, refl,
}
use rex_with_driver.Kernel.{Bytes}
use rex_with_driver.Text.{splice}
use rex_with_driver.Utils.{Result, err}
use rex_with_driver.Packet.{AlignedMut, Layout, deref, drop_aligned, read_field, update_header}

-- The packet behind the program's slice, and the rest of its state.
pub record World (R : Type 0) : Type 0 where
  pub packet : Bytes
  pub rest : R

-- Code yields a value, returns early from its function, or panics.
pub data Ran (R A : Type 0) : Type 0 where
  yields : A → World R → Ran R A
  returns : Result → World R → Ran R A
  panics : World R → Ran R A

abbrev pub Prog : Type 0 → Type 0 → Type 0
Prog R A = World R → Ran R A

-- What a program asks of the kernel and of the generated headers: the verdicts and protocol numbers,
-- the packet after its tail was moved by an i32 and after a clone was sent (`none` for an error), and
-- whether a ring buffer with these entries has room, and the error of a trace message, if any.
pub record Host : Type 0 where
  pub layout : Layout
  pub aligned : ℕ → Bool
  pub xdp_drop : ℕ
  pub xdp_pass : ℕ
  pub xdp_tx : ℕ
  pub tc_act_ok : ℕ
  pub tc_act_shot : ℕ
  pub ipproto_tcp : ℕ
  pub ipproto_udp : ℕ
  pub adjust_tail : Bytes → ℕ → Option Bytes
  pub clone_redirect : Bytes → Option Bytes
  pub has_room : List Bytes → Bool
  pub printk : Option ℕ

module _ {R A : Type 0} where
  abbrev pub ret : A → Prog R A
  ret a w = yields a w

  abbrev pub exit : Result → Prog R A
  exit r w = returns r w

abbrev pub then_run : {R A B : Type 0} → Ran R A → (A → Prog R B) → Ran R B
then_run (yields a w) f = f a w
then_run (returns r w) f = returns r w
then_run (panics w) f = panics w

infixl 5 ◌>>=◌ ◌>>◌
abbrev pub ◌>>=◌ : {R A B : Type 0} → Prog R A → (A → Prog R B) → Prog R B
◌>>=◌ m f w = then_run (m w) f

abbrev pub ◌>>◌ : {R B : Type 0} → Prog R (Unit {0}) → Prog R B → Prog R B
m >> f = m >>= λ _. f

-- The state in which code ends.
abbrev pub final : {R A : Type 0} → Ran R A → World R
final (yields a w) = w
final (returns r w) = w
final (panics w) = w

-- `slice::starts_with`
unfoldable pub starts_with : Bytes → Bytes → Bool
starts_with xs [] = true
starts_with [] (p ∷ ps) = false
starts_with (x ∷ xs) (p ∷ ps) = x == p && starts_with xs ps

-- `return` ends the function, not its caller.
abbrev pub close : {R : Type 0} → Ran R Result → Ran R Result
close (yields r w) = yields r w
close (returns r w) = yields r w
close (panics w) = panics w

pub close-close : {R : Type 0} (r : Ran R Result) → close (close r) ≡ close r
close-close (yields r w) = refl
close-close (returns r w) = refl
close-close (panics w) = refl

module _ {R : Type 0} where
  abbrev pub body : Prog R Result → Prog R Result
  body m w = close (m w)

  abbrev pub guard : Bool → Result → Prog R (Unit {0})
  guard b r w = if b then returns r w else yields tt w

  -- `&xs[a..b]`, `xs[i]` and `&data_slice[a..]`, with their range checks.
  abbrev pub slice : Bytes → ℕ → ℕ → Prog R Bytes
  slice xs a b w =
      if ltb b a || ltb (length xs) b then panics w else yields (take (b - a) (drop a xs)) w

  abbrev pub at : Bytes → ℕ → Prog R ℕ
  at xs i w = elim (get_elem? xs i) [ none ↦ panics w | some b ↦ yields b w ]

  abbrev pub from : ℕ → Prog R Bytes
  from a w = if ltb (length w.packet) a then panics w else yields (drop a w.packet) w

  -- The bytes of the packet from `a` on are overwritten.
  abbrev pub write : ℕ → Bytes → Prog R (Unit {0})
  write a bytes w =
      if ltb (length w.packet) (a + length bytes)
      then panics w
      else yields tt (record w { packet = splice w.packet a bytes })

  -- A lookup with `ok_or(missing)?`.
  abbrev pub lookup : {V : Type 0} → (R → List V) → ℕ → ℕ → Prog R V
  lookup values i missing w = elim (get_elem? (values w.rest) i) [
    | none ↦ returns (err missing) w
    | some v ↦ yields v w
  ]

  abbrev pub modify : (R → R) → Prog R (Unit {0})
  modify f w = yields tt (record w { rest = f w.rest })

  -- `read_field!` on the packet.
  abbrev pub field : Host → ℕ → ℕ → ℕ → Prog R Bytes
  field h base offset size w = elim (read_field h.aligned w.packet base offset size) [
    | none ↦ panics w
    | some b ↦ yields b w
  ]

  -- A header that is read and dropped, and one that is updated.
  abbrev pub header_of : (Bytes → Option AlignedMut) → Prog R Bytes
  header_of header w = elim (header w.packet) [
    | none ↦ panics w
    | some m ↦ yields (deref m w.packet) (record w { packet = drop_aligned m w.packet })
  ]

  abbrev pub update : (Bytes → Option AlignedMut) → (Bytes → Bytes) → Prog R (Unit {0})
  update header f w = elim (update_header (header w.packet) f w.packet) [
    | none ↦ panics w
    | some p ↦ yields tt (record w { packet = p })
  ]

  -- `bpf_xdp_adjust_tail`: whether it succeeded.
  abbrev pub adjust_tail : Host → ℕ → Prog R Bool
  adjust_tail h offset w = elim (h.adjust_tail w.packet offset) [
    | none ↦ yields false w
    | some p ↦ yields true (record w { packet = p })
  ]
