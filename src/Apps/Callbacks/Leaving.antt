-- ===== src/Apps/Callbacks/Leaving.antt =====
-- What Disconnected of the examples waits for.
use memif.Prelude.{
  List, sym, ℕ, zero, suc, ◌<◌, ◌≡◌, [], refl, ap, subst, ◌∙◌, arith, Bool, true, false, ◌⊎◌, inl,
  inr,
}
use memif.Polling.{nil, closed}
use memif.Apps.Callbacks.{
  AllDone, Astray, to_hold, to_pass, no_rx_queue, no_tx_queue, failed_read, sent, on_hold, passed,
  Strays, first, later, astray, Relayer, unborn, born, held, passing, failing, finished,
  InterfaceData, connected, close_errors, disconnected, send_error, IsDone, Move, connect,
  disconnect, other, rx_queue, no_rx, still_held, tx_queue, no_tx, pass, break, quit, send,
  wait_over, Moves, none_yet, then,
}

-- The zero `interfaceData`.
abbrev pub untouched : Bool → InterfaceData
untouched up = record {
  err_chan = nil;
  quit_chan = nil;
  relayer = unborn;
  strays = [];
  other_up = up;
  disconnecting = false;
  crashed = false;
  errors = [];
}

-- A call of Disconnected that waits has closed both channels; a goroutine was given an open one.
pub record Orderly (l : InterfaceData) : Type 0 where
  pub quits : l.disconnecting ≡ true → l.quit_chan ≡ closed
  pub made : l.err_chan ≡ nil → IsDone l.relayer

Move-Orderly : {l r : InterfaceData} → Move l r → Orderly l → Orderly r
unfolding connected close_errors disconnected send_error
Move-Orderly (connect a e) h = ground arith
Move-Orderly (disconnect a e) h = ground arith
Move-Orderly (other b a e) h = ground arith
Move-Orderly (astray xs a e) h = ground arith
Move-Orderly (rx_queue a e) h = ground arith
Move-Orderly (no_rx err a e) h = ground arith
Move-Orderly (still_held a b e) h = ground arith
Move-Orderly (tx_queue a b e) h = ground arith
Move-Orderly (no_tx err a b e) h = ground arith
Move-Orderly (pass a b e) h = ground arith
Move-Orderly (break err a b e) h = ground arith
Move-Orderly (quit a b e) h = ground arith
Move-Orderly (send err a e) h = ground arith
Move-Orderly (wait_over a b c e) h = ground arith

Moves-Orderly : {l r : InterfaceData} → Moves l r → Orderly l → Orderly r
Moves-Orderly none_yet h = h
Moves-Orderly (then r run up move) h = Move-Orderly move (Moves-Orderly run h)

untouched-Orderly : (up : Bool) → Orderly (untouched up)
untouched-Orderly up = ground arith

-- Whatever moves are made, Disconnected returns, or the process crashes.
pub data Leaves : InterfaceData → Type 0 where
  back : {l : InterfaceData} → l.disconnecting ≡ false → Leaves l
  crash : {l : InterfaceData} → l.crashed ≡ true → Leaves l
  onward :
      {l : InterfaceData} (r : InterfaceData)
      → Move l r
      → ((k : InterfaceData) → Move l k → Leaves k)
      → Leaves l

abbrev moves_left : Relayer → ℕ
moves_left unborn = 0
moves_left finished = 0
moves_left (failing e) = 1
moves_left passing = 2
moves_left held = 3
moves_left born = 4

-- Goroutines that are done take no step.
done-Astray : {b : Bool} {x y : Relayer} → Astray b x y → IsDone x → ⊥
done-Astray to_hold done = done
done-Astray (to_pass up) done = done
done-Astray (no_rx_queue e) done = done
done-Astray (no_tx_queue e up) done = done
done-Astray (failed_read e) done = done
done-Astray (sent e) done = done
done-Astray (on_hold down) done = done
done-Astray passed done = done

done-Strays : {b : Bool} {xs ys : List Relayer} → Strays b xs ys → AllDone xs → ⊥
done-Strays (first y a) (done, rest) = done-Astray a done
done-Strays (later s) (done, rest) = done-Strays s rest

Move-leaving :
    {l r : InterfaceData}
    → Move l r
    → Orderly l
    → l.disconnecting ≡ true
    → l.other_up ≡ true
    → AllDone l.strays
    → (r.crashed ≡ true)
      ⊎ (r.disconnecting ≡ false)
      ⊎ ((r.disconnecting ≡ true)
          × (r.other_up ≡ true)
          × AllDone r.strays
          × (moves_left r.relayer < moves_left l.relayer))
unfolding connected disconnected send_error
Move-leaving (connect a e) h waits up done = ground arith
Move-leaving (disconnect a e) h waits up done = ground arith
Move-leaving (other b a e) h waits up done = ground arith
Move-leaving (astray xs a e) h waits up done = absurd (done-Strays a done)
Move-leaving (rx_queue a e) h waits up done = ground arith
Move-leaving (no_rx err a e) h waits up done = ground arith
Move-leaving (still_held a b e) h waits up done = ground arith
Move-leaving (tx_queue a b e) h waits up done = ground arith
Move-leaving (no_tx err a b e) h waits up done = ground arith
Move-leaving (pass a b e) h waits up done = ground arith
Move-leaving (break err a b e) h waits up done = ground arith
Move-leaving (quit a b e) h waits up done = ground arith
Move-leaving (send err a e) h waits up done = ground arith
Move-leaving (wait_over a b c e) h waits up done = ground arith

-- The goroutine or the waiting call can make a move.
some-Move :
    (l : InterfaceData)
    → Orderly l
    → l.disconnecting ≡ true
    → l.other_up ≡ true
    → AllDone l.strays
    → (x : Relayer) → l.relayer ≡ x
    → (r : InterfaceData) × Move l r
some-Move l h waits up done unborn e = (_, wait_over waits (rw e tt) done refl)
some-Move l h waits up done finished e = (_, wait_over waits (rw e tt) done refl)
some-Move l h waits up done born e = (_, rx_queue e refl)
some-Move l h waits up done held e = (_, tx_queue e up refl)
some-Move l h waits up done passing e = (_, quit e (h.quits waits) refl)
some-Move l h waits up done (failing err) e = (_, send err e refl)

leaves :
    (n : ℕ) (l : InterfaceData)
    → Orderly l
    → l.disconnecting ≡ true
    → l.other_up ≡ true
    → AllDone l.strays
    → moves_left l.relayer < n
    → Leaves l
leaves zero l h waits up done few = absurd (omega arith)
leaves (suc n) l h waits up done few =
    let (r, move) = some-Move l h waits up done l.relayer refl in
    onward r move λ k next. elim (Move-leaving next h waits up done) [
      | inl c ↦ crash c
      | inr (inl b) ↦ back b
      | inr (inr (still, up', done', less)) ↦
          leaves n k (Move-Orderly next h) still up' done' (omega arith)
    ]

-- In any state that a run from the zero interfaceData leads to, in which Disconnected waits for the
-- goroutine and the bridged interface is connected, as the responder, which has none, always finds it,
-- and no goroutine of an earlier call of Connected still runs: some move is possible, and whatever moves
-- follow, Disconnected returns, unless the goroutine sends an error on the channel that is closed, which
-- makes the process panic. Assumed, as Move says: the callbacks are called one at a time, and no other
-- event is handled while Disconnected waits.
pub disconnected-Leaves :
    (b : Bool) (l : InterfaceData)
    → Moves (untouched b) l
    → l.disconnecting ≡ true
    → l.other_up ≡ true
    → AllDone l.strays
    → Leaves l
disconnected-Leaves b l run waits up done =
    leaves 5 l (Moves-Orderly run (untouched-Orderly b)) waits up done (few l.relayer)
  where
    few : (x : Relayer) → moves_left x < 5
    few x = ground arith

abbrev with_strays : InterfaceData → List Relayer → InterfaceData
with_strays l xs = record l { strays = xs }

-- A state that has at most other strays than `l`.
stray_only :
    (l : InterfaceData) {r : InterfaceData} {xs : List Relayer}
    → r ≡ record l { strays = xs }
    → r ≡ record l { strays = r.strays }
stray_only l e = e ∙ ap (λ ys. with_strays l ys) (ap (λ (d : InterfaceData). d.strays) (sym e))

Move-held :
    {l r : InterfaceData}
    → Move l r
    → l.relayer ≡ held
    → l.disconnecting ≡ true
    → l.other_up ≡ false
    → r ≡ record l { strays = r.strays }
Move-held (connect a e) at waits down = ground arith
Move-held (disconnect a e) at waits down = ground arith
Move-held (other b a e) at waits down = ground arith
Move-held {l} (astray xs a e) at waits down = stray_only l e
Move-held (rx_queue a e) at waits down = ground arith
Move-held (no_rx err a e) at waits down = ground arith
Move-held {l} (still_held a b e) at waits down = stray_only l e
Move-held (tx_queue a b e) at waits down = ground arith
Move-held (no_tx err a b e) at waits down = ground arith
Move-held (pass a b e) at waits down = ground arith
Move-held (break err a b e) at waits down = ground arith
Move-held (quit a b e) at waits down = ground arith
Move-held (send err a e) at waits down = ground arith
Move-held (wait_over a b c e) at waits down = absurd (subst IsDone at b)

-- Disconnected of the bridge never returns when it is called while its goroutine waits for a bridged
-- interface that is not connected: in every state that a run leads to from there, at most the goroutines
-- of earlier calls of Connected have moved, since this one does not look at the quit channel there, and
-- nothing else is handled meanwhile.
pub disconnected_hangs :
    (l r : InterfaceData)
    → Moves l r
    → l.relayer ≡ held
    → l.disconnecting ≡ true
    → l.other_up ≡ false
    → r ≡ record l { strays = r.strays }
disconnected_hangs l r none_yet at waits down = refl
disconnected_hangs l r (then {k} r' run up move) at waits down =
    let same = disconnected_hangs l k run at waits down in
    Move-held move (ap (λ (d : InterfaceData). d.relayer) same ∙ at)
      (ap (λ (d : InterfaceData). d.disconnecting) same ∙ waits)
      (ap (λ (d : InterfaceData). d.other_up) same ∙ down)
    ∙ ap (λ (d : InterfaceData). with_strays d r.strays) same
