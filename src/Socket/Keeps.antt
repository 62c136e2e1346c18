-- ===== src/Socket/Keeps.antt =====
-- Invariants of actions on a socket, one rule for each way to build an action. An invariant that
-- does not read what an action changes is kept by it.
use Prim.Native.String.{String}
use memif.Prelude.{
  ◌≡◌, length, length-set, ℕ, Bool, true, false, List, [], ◌∷◌, ◌++◌, Option, none, some, get_elem?,
  set, if◌then◌else◌,
}
use memif.Types.{Interface}
use memif.Types.Os.{Os, Call, Error, failed}
use memif.Socket.{
  Socket, ControlChannel, Outcome, done, fail, panic, M, ◌>>=◌, return, throw, wrap, ignore, deref,
  sys, sys_, get_interface, put_interface, get_channel, put_channel, add_event, del_event,
  interface_refs,
}

module _ {ℓ} {A : Type ℓ} where
  -- `P` holds of the state that a run leaves, with or without an error.
  abbrev pub Leaves : (Socket → Type 0) → Outcome A → Type 0
  Leaves P (done a s) = P s
  Leaves P (fail e s) = P s
  Leaves P panic = Unit

  pub record Keeps (P : Socket → Type 0) (m : M A) : Type 0 where
    pub at : (s : Socket) → P s → Leaves P (m s)

module _ {ℓ} {A : Type ℓ} where
  Leaves-wrap :
      (P : Socket → Type 0) (text : String) (o : Outcome A) (s : Socket)
      → Leaves P o
      → Leaves P (wrap text (λ _. o) s)
  unfolding wrap
  Leaves-wrap P text (done a s') s h = h
  Leaves-wrap P text (fail e s') s h = h
  Leaves-wrap P text panic s h = tt

  Leaves-ignore :
      (P : Socket → Type 0) (o : Outcome A) (s : Socket) → Leaves P o → Leaves P (ignore (λ _. o) s)
  unfolding ignore
  Leaves-ignore P (done a s') s h = h
  Leaves-ignore P (fail e s') s h = h
  Leaves-ignore P panic s h = tt

Leaves-sys :
    (P : Socket → Type 0) (o : Option ℕ) (e : Error) (s : Socket)
    → P s
    → Leaves P (elim o [ none ↦ fail e s | some v ↦ done v s ])
Leaves-sys P none e s h = h
Leaves-sys P (some v) e s h = h

module _ {ℓ} {A : Type ℓ} {P : Socket → Type 0} where
  pub Keeps-return : (a : A) → Keeps P (return a)
  unfolding return
  Keeps-return a = record { at = λ s h. h }

  pub Keeps-throw : (e : Error) → Keeps P (throw {A = A} e)
  unfolding throw
  Keeps-throw e = record { at = λ s h. h }

  pub Keeps-deref : (o : Option A) → Keeps P (deref o)
  unfolding deref
  Keeps-deref none = record { at = λ s h. tt }
  Keeps-deref (some a) = record { at = λ s h. h }

  pub Keeps-wrap : (text : String) (m : M A) → Keeps P m → Keeps P (wrap text m)
  unfolding wrap
  Keeps-wrap text m k = record { at = λ s h. Leaves-wrap P text (m s) s (k.at s h) }

  pub Keeps-ignore : (m : M A) → Keeps P m → Keeps P (ignore m)
  unfolding ignore
  Keeps-ignore m k = record { at = λ s h. Leaves-ignore P (m s) s (k.at s h) }

  pub Keeps-if : (b : Bool) (m n : M A) → Keeps P m → Keeps P n → Keeps P (if b then m else n)
  Keeps-if true m n km kn = km
  Keeps-if false m n km kn = kn

module _ {ℓ κ} {A : Type ℓ} {B : Type κ} {P : Socket → Type 0} where
  Leaves-bind :
      (o : Outcome A) (f : A → M B) (s : Socket)
      → Leaves P o
      → ((a : A) → Keeps P (f a))
      → Leaves P (((λ _. o) >>= f) s)
  unfolding ◌>>=◌
  Leaves-bind (done a s') f s h k = (k a).at s' h
  Leaves-bind (fail e s') f s h k = h
  Leaves-bind panic f s h k = tt

  pub Keeps-bind :
      (m : M A) (f : A → M B) → Keeps P m → ((a : A) → Keeps P (f a)) → Keeps P (m >>= f)
  unfolding ◌>>=◌
  Keeps-bind m f km kf = record { at = λ s h. Leaves-bind (m s) f s (km.at s h) kf }

  pub Keeps-option :
      (o : Option A) (m : M B) (f : A → M B)
      → Keeps P m
      → ((a : A) → Keeps P (f a))
      → Keeps P (elim o [ none ↦ m | some a ↦ f a ])
  Keeps-option none m f km kf = km
  Keeps-option (some a) m f km kf = kf a

module _ {P : Socket → Type 0} where
  pub Keeps-get_interface : (i : ℕ) → Keeps P (get_interface i)
  unfolding get_interface
  Keeps-get_interface i = record {
    at = λ s h. (Keeps-deref {P = P} (get_elem? s.interfaces i)).at s h;
  }

  pub Keeps-get_channel : (c : ℕ) → Keeps P (get_channel c)
  unfolding get_channel
  Keeps-get_channel c = record { at = λ s h. (Keeps-deref {P = P} (get_elem? s.channels c)).at s h }

  pub Keeps-interface_refs : Keeps P interface_refs
  unfolding interface_refs
  Keeps-interface_refs = record { at = λ s h. h }

  pub Keeps-put_interface :
      ((s : Socket) (xs : List Interface) → P s → P (record s { interfaces = xs }))
      → (i : ℕ) (x : Interface) → Keeps P (put_interface i x)
  unfolding put_interface
  Keeps-put_interface free i x = record { at = λ s h. free s (set s.interfaces i x) h }

  pub Keeps-put_channel :
      ((s : Socket) (xs : List ControlChannel)
        → length xs ≡ length s.channels
        → P s
        → P (record s { channels = xs }))
      → (c : ℕ) (x : ControlChannel) → Keeps P (put_channel c x)
  unfolding put_channel
  Keeps-put_channel free c x = record {
    at = λ s h. free s (set s.channels c x) (length-set s.channels c x) h;
  }

  pub Keeps-sys :
      ((s : Socket) (cs : List Call) → P s → P (record s { calls = cs }))
      → (os : Os) (c : Call) → Keeps P (sys os c)
  unfolding sys
  Keeps-sys free os c = record {
    at = λ s h.
        let s' : Socket = record s { calls = s.calls ++ (c ∷ []) } in
        Leaves-sys P (os.reply s.calls c) (failed c) s' (free s (s.calls ++ (c ∷ [])) h);
  }

pub ruleset keeps_rules = (
  Keeps-return, Keeps-throw, Keeps-deref, Keeps-wrap, Keeps-ignore, Keeps-if, Keeps-bind,
  Keeps-option, Keeps-get_interface, Keeps-get_channel, Keeps-interface_refs, Keeps-put_interface,
  Keeps-put_channel, Keeps-sys,
)

module _ {P : Socket → Type 0}
    (free : (s : Socket) (cs : List Call) → P s → P (record s { calls = cs })) where
  pub Keeps-sys_ : (os : Os) (c : Call) → Keeps P (sys_ os c)
  unfolding sys_
  Keeps-sys_ os c = search keeps_rules

  pub Keeps-add_event : (os : Os) (fd : ℕ) → Keeps P (add_event os fd)
  unfolding add_event
  Keeps-add_event os fd = search (keeps_rules, Keeps-sys_)

  pub Keeps-del_event : (os : Os) (fd : ℕ) → Keeps P (del_event os fd)
  unfolding del_event
  Keeps-del_event os fd = search (keeps_rules, Keeps-sys_)
