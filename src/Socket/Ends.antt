-- ===== src/Socket/Ends.antt =====
-- What holds of a socket after an action that succeeds, one rule for each way to build an action.
use Prim.Native.String.{String}
use memif.Prelude.{Bool, true, false, if◌then◌else◌}
use memif.Types.Os.{Error}
use memif.Socket.{Socket, Outcome, done, fail, panic, M, ◌>>=◌, throw, wrap}
use memif.Socket.Keeps.{Leaves, Keeps}

module _ {ℓ} {A : Type ℓ} where
  -- `Q` holds of the state of a run that succeeds.
  abbrev pub Succeeds : (Socket → Type 0) → Outcome A → Type 0
  Succeeds Q (done a s) = Q s
  Succeeds Q (fail e s) = Unit
  Succeeds Q panic = Unit

  -- From a state with `P`, a success of `m` leaves a state with `Q`.
  pub record Ends (P Q : Socket → Type 0) (m : M A) : Type 0 where
    pub at : (s : Socket) → P s → Succeeds Q (m s)

module _ {ℓ} {A : Type ℓ} where
  Succeeds-Leaves : (P : Socket → Type 0) (o : Outcome A) → Leaves P o → Succeeds P o
  Succeeds-Leaves P (done a s) h = h
  Succeeds-Leaves P (fail e s) h = tt
  Succeeds-Leaves P panic h = tt

  Succeeds-wrap :
      (Q : Socket → Type 0) (text : String) (o : Outcome A) (s : Socket)
      → Succeeds Q o
      → Succeeds Q (wrap text (λ _. o) s)
  unfolding wrap
  Succeeds-wrap Q text (done a s') s h = h
  Succeeds-wrap Q text (fail e s') s h = tt
  Succeeds-wrap Q text panic s h = tt

module _ {ℓ} {A : Type ℓ} {P Q : Socket → Type 0} where
  pub Ends-wrap : (text : String) (m : M A) → Ends P Q m → Ends P Q (wrap text m)
  unfolding wrap
  Ends-wrap text m k = record { at = λ s h. Succeeds-wrap Q text (m s) s (k.at s h) }

  pub Ends-throw : (e : Error) → Ends P Q (throw {A = A} e)
  unfolding throw
  Ends-throw e = record { at = λ s h. tt }

  pub Ends-if : (b : Bool) (m n : M A) → Ends P Q m → Ends P Q n → Ends P Q (if b then m else n)
  Ends-if true m n km kn = km
  Ends-if false m n km kn = kn

module _ {ℓ} {A : Type ℓ} {P : Socket → Type 0} where
  pub Ends-Keeps : (m : M A) → Keeps P m → Ends P P m
  Ends-Keeps m k = record { at = λ s h. Succeeds-Leaves P (m s) (k.at s h) }

module _ {ℓ κ} {A : Type ℓ} {B : Type κ} where
  Succeeds-bind :
      (R Q : Socket → Type 0) (o : Outcome A) (f : A → M B) (s : Socket)
      → Succeeds R o
      → ((a : A) → Ends R Q (f a))
      → Succeeds Q (((λ _. o) >>= f) s)
  unfolding ◌>>=◌
  Succeeds-bind R Q (done a s') f s h k = (k a).at s' h
  Succeeds-bind R Q (fail e s') f s h k = tt
  Succeeds-bind R Q panic f s h k = tt

module _ {ℓ κ} {A : Type ℓ} {B : Type κ} {P Q : Socket → Type 0} where
  pub Ends-bind :
      (R : Socket → Type 0) (m : M A) (f : A → M B)
      → Ends P R m
      → ((a : A) → Ends R Q (f a))
      → Ends P Q (m >>= f)
  unfolding ◌>>=◌
  Ends-bind R m f km kf = record { at = λ s h. Succeeds-bind R Q (m s) f s (km.at s h) kf }
