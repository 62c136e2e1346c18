-- ===== src/Apps/Connect.antt =====
-- The loop in which the examples ask for a connection (memif-new/_examples/bridge/bridge.go,
-- newMemifInterface) ends.
use memif.Prelude.{
  ℕ, zero, suc, ◌≡◌, refl, arith, Bool, true, List, [], ◌∷◌, Option, none, some, get_elem?, set,
  if◌then◌else◌, Bool-cases, inl, inr, ap,
}
use memif.Types.{Interface}
use memif.Types.Os.{Os}
use memif.Socket.{
  Socket, Outcome, done, fail, panic, M, ◌>>=◌, ◌>>◌, return, throw, wrap, deref, get_interface,
  put_interface,
}
use memif.Socket.Ends.{Succeeds, Ends, Ends-bind, Ends-wrap}
use memif.Link.{is_connecting}
use memif.Events.{add_control_channel}
use memif.Lifecycle.{request_connection, link_channel}
use memif.Apps.Start.{connect_loop}

-- The interface, if it is there, has a channel.
abbrev Linked : ℕ → Socket → Type 0
Linked i s = (x : Interface) → get_elem? s.interfaces i ≡ some x → is_connecting x ≡ true

abbrev Always : Socket → Type 0
Always s = Unit

Succeeds-Always : {A : Type 0} (o : Outcome A) → Succeeds Always o
Succeeds-Always (done a s) = tt
Succeeds-Always (fail e s) = tt
Succeeds-Always panic = tt

Ends-Always : {A : Type 0} {P : Socket → Type 0} (m : M A) → Ends P Always m
Ends-Always m = record { at = λ s h. Succeeds-Always (m s) }

set_elem :
    (xs : List Interface) (i : ℕ) (y x : Interface)
    → is_connecting y ≡ true
    → get_elem? (set xs i y) i ≡ some x
    → is_connecting x ≡ true
set_elem [] i y x h got = ground arith
set_elem (z ∷ xs) zero y x h got = ground arith
set_elem (z ∷ xs) (suc i) y x h got = set_elem xs i y x h got

link_channel-Linked :
    (i c : ℕ) (x : Interface) (s : Socket)
    → Succeeds (Linked i) (put_interface i (record x { cc = some c }) s)
unfolding put_interface is_connecting
link_channel-Linked i c x s = λ y got. set_elem s.interfaces i (record x { cc = some c }) y refl got

linked :
    (i : ℕ) (x : Interface) (o : Outcome ℕ)
    → Succeeds (Linked i) (elim o [
      | done c s' ↦ put_interface i (record x { cc = some c }) s'
      | fail e s' ↦ (put_interface i (record x { cc = none }) >> throw e) s'
      | panic ↦ panic
    ])
unfolding put_interface throw ◌>>=◌
linked i x (done c s) = link_channel-Linked i c x s
linked i x (fail e s) = tt
linked i x panic = tt

request_connection-Linked : (os : Os) (i : ℕ) → Ends Always (Linked i) (request_connection os i)
unfolding request_connection link_channel
request_connection-Linked os i = Ends-bind Always _ _ (Ends-Always _) λ x.
    Ends-bind Always _ _ (Ends-Always _) λ _. Ends-bind Always _ _ (Ends-Always _) λ fd.
      Ends-bind Always _ _ (Ends-Always _) λ name. Ends-bind Always _ _ (Ends-Always _) λ _.
        Ends-wrap _ _ (record { at = λ s h. linked i x (add_control_channel os fd (some i) s) })

-- A success is one of the loop's condition.
abbrev pub Ended : Outcome Bool → Type 0
Ended (done ended s) = ended ≡ true
Ended (fail e s) = Unit
Ended panic = Unit

-- A loop with more tests gives the same, and it has ended.
abbrev Enough : Outcome Bool → Outcome Bool → Type 0
Enough more few = Ended few × (more ≡ few)

module _ (os : Os) (i : ℕ) where
  -- A round of the loop.
  abbrev round_of : ℕ → Interface → M Bool
  round_of n x =
      if is_connecting x
      then return true
      else (wrap "Faild to connect: " (request_connection os i) >> connect_loop n os i)

  abbrev round : ℕ → Socket → Interface → Outcome Bool
  round n s x = round_of n x s

  missing-eq :
      (n : ℕ) (s : Socket) → get_elem? s.interfaces i ≡ none → connect_loop (suc n) os i s ≡ panic
  unfolding connect_loop get_interface ◌>>=◌
  missing-eq n s e =
      ap (λ (o : Option Interface). ((λ (t : Socket). deref o t) >>= λ x. round_of n x) s) e

  round-eq :
      (n : ℕ) (s : Socket) (x : Interface)
      → get_elem? s.interfaces i ≡ some x
      → connect_loop (suc n) os i s ≡ round n s x
  unfolding connect_loop get_interface ◌>>=◌
  round-eq n s x e =
      ap (λ (o : Option Interface). ((λ (t : Socket). deref o t) >>= λ y. round_of n y) s) e

  Linked-Enough :
      (n : ℕ) (s : Socket)
      → Linked i s
      → (o : Option Interface) → get_elem? s.interfaces i ≡ o
      → Enough (connect_loop (suc n) os i s) (connect_loop 1 os i s)
  unfolding return
  Linked-Enough n s h none e = rw (missing-eq n s e, missing-eq 0 s e) (tt, refl)
  Linked-Enough n s h (some x) e = rw (round-eq n s x e, round-eq 0 s x e, h x e) (refl, refl)

  retried :
      (n : ℕ) (o : Outcome (Unit {0})) (s : Socket)
      → Succeeds (Linked i) o
      → Enough (((λ _. o) >> connect_loop (suc n) os i) s) (((λ _. o) >> connect_loop 1 os i) s)
  unfolding ◌>>=◌
  retried n (done a s') s h = Linked-Enough n s' h (get_elem? s'.interfaces i) refl
  retried n (fail e s') s h = (tt, refl)
  retried n panic s h = (tt, refl)

  requested :
      (s : Socket) → Succeeds (Linked i) (wrap "Faild to connect: " (request_connection os i) s)
  requested s =
      (Ends-wrap "Faild to connect: " (request_connection os i) (request_connection-Linked os i)).at
        s tt

  started :
      (n : ℕ) (s : Socket) (o : Option Interface)
      → get_elem? s.interfaces i ≡ o
      → Enough (connect_loop (suc (suc n)) os i s) (connect_loop 2 os i s)
  unfolding return ◌>>=◌
  started n s none e = rw (missing-eq (suc n) s e, missing-eq 1 s e) (tt, refl)
  started n s (some x) e =
      rw (round-eq (suc n) s x e, round-eq 1 s x e)
        (elim (Bool-cases (is_connecting x)) [
          | inl c ↦ rw c (refl, refl)
          | inr c ↦
              rw c
                (retried n (wrap "Faild to connect: " (request_connection os i) s) s (requested s))
        ])

-- The loop that asks for a connection until there is one ends after the first request: whatever the
-- system answers, with two tests of its condition it has ended, with an error or a panic or because
-- the interface is connecting, and more tests change nothing.
pub connect_loop_ends :
    (os : Os) (i n : ℕ) (s : Socket)
    → Ended (connect_loop 2 os i s) × (connect_loop (suc (suc n)) os i s ≡ connect_loop 2 os i s)
connect_loop_ends os i n s = started os i n s (get_elem? s.interfaces i) refl
