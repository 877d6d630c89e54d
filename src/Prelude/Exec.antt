-- ===== src/Prelude/Exec.antt =====
-- Code that changes a state, may end the process, and may fault (a read or write outside an
-- allocation, or through a null or a freed pointer).
use Prim.Native.Nat.{ℕ}
use mathlib.Core.Bool.{Bool, true, false}
use rdma_rendezvous_key_valu.Prelude.Tests.{if◌then◌else◌}
use mathlib.Core.Path.{◌≡◌, ap}
use mathlib.Core.Option.{Option, none, some}

-- `exited c`: the process ended by exit(c), as an `int` modulo 256. `fault`: undefined behaviour.
-- `stuck`: a loop that waits for the adapter has used up the rounds that the model gives it.
pub data Outcome (A : Type 0) : Type 0 where
  done : A → Outcome A
  exited : ℕ → Outcome A
  fault stuck : Outcome A

abbrev pub Exec : Type 0 → Type 0 → Type 0
Exec S A = S → Outcome (A × S)

module _ {S A : Type 0} where
  abbrev pub pure : A → Exec S A
  pure a s = done (a, s)

  abbrev pub exit : ℕ → Exec S A
  exit c s = exited c

  abbrev pub crash : Exec S A
  crash s = fault

  abbrev pub gets : (S → A) → Exec S A
  gets f s = done (f s, s)

  -- A pointer that must not be null.
  abbrev pub deref : Option A → Exec S A
  deref none s = fault
  deref (some a) s = done (a, s)

module _ {S : Type 0} where
  abbrev pub modify : (S → S) → Exec S (Unit {0})
  modify f s = done (tt, f s)

  abbrev pub assert : Bool → Exec S (Unit {0})
  assert true s = done (tt, s)
  assert false s = fault

  abbrev pub when : Bool → Exec S (Unit {0}) → Exec S (Unit {0})
  when true m = m
  when false m = pure tt

module _ {S A B : Type 0} where
  abbrev pub continue : Outcome (A × S) → (A → Exec S B) → Outcome (B × S)
  continue (done (a, s)) f = f a s
  continue (exited c) f = exited c
  continue fault f = fault
  continue stuck f = stuck

  infixl 5 ◌>>=◌ ◌>>◌
  abbrev pub ◌>>=◌ : Exec S A → (A → Exec S B) → Exec S B
  ◌>>=◌ m f s = continue (m s) f

  abbrev pub ◌>>◌ : Exec S A → Exec S B → Exec S B
  ◌>>◌ m n s = continue (m s) (λ _. n)

  pub bind-done :
      (m : Exec S A) (f : A → Exec S B) (s : S) (a : A) (t : S)
      → m s ≡ done (a, t)
      → (m >>= f) s ≡ f a t
  bind-done m f s a t e = ap (λ r. continue r f) e

-- A test that is known to fail.
pub branch-false :
    {S A : Type 0} (b : Bool) (m n : Exec S A) (s : S) → b ≡ false → (if b then m else n) s ≡ n s
branch-false b m n s e = ap (λ c. (if c then m else n) s) e

-- Code over a part of the state, as code over the whole.
module _ {S T A : Type 0} where
  abbrev put_back : (S → T → S) → S → Outcome (A × T) → Outcome (A × S)
  put_back put s (done (a, t)) = done (a, put s t)
  put_back put s (exited c) = exited c
  put_back put s fault = fault
  put_back put s stuck = stuck

  abbrev pub zoom : (S → T) → (S → T → S) → Exec T A → Exec S A
  zoom get put m s = put_back put s (m (get s))
