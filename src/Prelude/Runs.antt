-- ===== src/Prelude/Runs.antt =====
-- Sequences of operations on a state, each of which may wait for ever (`none`), and invariants over them.
use mathlib.Core.Path.{◌≡◌, subst}
use mathlib.Core.Option.{Option, none, some}
use mathlib.Core.List.{List, [], ◌∷◌}
use native.Mathlib.Omega.{arith}
use rtmpcamera.Prelude.Tests.{◌>>=◌}

-- `P` of the value, if there is one.
abbrev pub OptionAll : {S : Type 0} → (S → Type 0) → Option S → Type 0
OptionAll P none = Unit {0}
OptionAll P (some s) = P s

module _ {Op S : Type 0} (step : Op → S → Option S) where
  unfoldable pub run_all : List Op → S → Option S
  run_all [] s = some s
  run_all (op ∷ ops) s = step op s >>= run_all ops

  module _ (P : S → Type 0) (keeps : (op : Op) (s : S) → P s → OptionAll P (step op s)) where
    bind-OptionAll :
        (o : Option S) (ops : List Op)
        → OptionAll P o
        → ((s : S) → P s → OptionAll P (run_all ops s))
        → OptionAll P (o >>= run_all ops)
    bind-OptionAll none ops a f = tt
    bind-OptionAll (some s) ops a f = f s a

    run_all-OptionAll : (ops : List Op) (s : S) → P s → OptionAll P (run_all ops s)
    unfolding run_all
    run_all-OptionAll [] s p = p
    run_all-OptionAll (op ∷ ops) s p =
        bind-OptionAll (step op s) ops (keeps op s p) (run_all-OptionAll ops)

    OptionAll-some : (o : Option S) (t : S) → OptionAll P o → o ≡ some t → P t
    OptionAll-some none t a e = absurd (ground (arith, e))
    OptionAll-some (some s) t a e = let f : s ≡ t = ground (arith, e) in subst P f a

    -- What every operation keeps holds at the end of every run that ends.
    pub run_all-keeps : (ops : List Op) (s t : S) → P s → run_all ops s ≡ some t → P t
    run_all-keeps ops s t p e = OptionAll-some (run_all ops s) t (run_all-OptionAll ops s p) e
