-- ===== src/Apps/Callbacks.antt =====
-- The callbacks Connected and Disconnected of memif-new/_examples/bridge/bridge.go, and of the
-- responder, whose goroutine waits for no other interface: the goroutine that passes packets on, the
-- channels that end it and carry its error, and the wait for its end.
pub mod Leaving
use memif.Prelude.{
  ℕ, zero, suc, ◌<◌, ◌≡◌, ◌≢◌, refl, Bool, true, false, List, [], ◌∷◌, arith, ◌⊎◌, inl, inr,
}
use memif.Types.Os.{Error}
use memif.Polling.{StopChan, nil, opened, closed}

-- Where the goroutine is: none, at GetRxQueue, at the wait for the other interface, in its loop, with
-- an error to send, or at its end.
pub data Relayer : Type 0 where
  unborn born held passing : Relayer
  failing : Error → Relayer
  finished : Relayer

-- `interfaceData`, its goroutines, and the call of Disconnected. A goroutine keeps the channels that
-- it was started with: `relayer` is the one of the last call of Connected, whose channels are those of
-- the record, and `strays` are those of earlier calls, the last first. `other_up` is what IsConnected of the
-- bridged interface answers; where there is none it is true.
pub record InterfaceData : Type 0 where
  pub err_chan : StopChan
  pub quit_chan : StopChan
  pub relayer : Relayer
  pub strays : List Relayer
  pub other_up : Bool
  pub disconnecting : Bool
  pub crashed : Bool
  -- what the error channel was sent, the last first
  pub errors : List Error

-- Connected makes new channels, and starts one more goroutine, whether one runs or not.
unfoldable pub connected : InterfaceData → InterfaceData
connected l = record l {
  err_chan = opened;
  quit_chan = opened;
  relayer = born;
  strays = l.relayer ∷ l.strays;
}

-- `close`, which panics on a channel that is nil or closed.
unfoldable pub close_errors : InterfaceData → InterfaceData
close_errors l = elim l.err_chan [
  | nil ↦ record l { crashed = true }
  | opened ↦ record l { err_chan = closed; disconnecting = true }
  | closed ↦ record l { crashed = true }
]

-- Disconnected up to the wait.
unfoldable pub disconnected : InterfaceData → InterfaceData
disconnected l = elim l.quit_chan [
  | nil ↦ record l { crashed = true }
  | opened ↦ close_errors (record l { quit_chan = closed })
  | closed ↦ record l { crashed = true }
]

-- A send panics on a closed channel.
unfoldable pub send_error : Error → InterfaceData → InterfaceData
send_error e l = elim l.err_chan [
  | nil ↦ record l { relayer = failing e }
  | opened ↦ record l { relayer = finished; errors = e ∷ l.errors }
  | closed ↦ record l { crashed = true }
]

-- The goroutine does not run.
abbrev pub IsDone : Relayer → Type 0
IsDone unborn = Unit
IsDone born = ⊥
IsDone held = ⊥
IsDone passing = ⊥
IsDone (failing e) = ⊥
IsDone finished = Unit

abbrev pub AllDone : List Relayer → Type 0
AllDone [] = Unit
AllDone (x ∷ xs) = IsDone x × AllDone xs

-- A step of a stray goroutine. Its channels stay open, since nothing but the goroutine refers to them:
-- it ends only after an error.
pub data Astray (other_up : Bool) : Relayer → Relayer → Type 0 where
  to_hold : Astray other_up born held
  to_pass : other_up ≡ true → Astray other_up held passing
  no_rx_queue : (e : Error) → Astray other_up born (failing e)
  no_tx_queue : (e : Error) → other_up ≡ true → Astray other_up held (failing e)
  failed_read : (e : Error) → Astray other_up passing (failing e)
  sent : (e : Error) → Astray other_up (failing e) finished
  -- a round of the wait or of the loop
  on_hold : other_up ≡ false → Astray other_up held held
  passed : Astray other_up passing passing

-- The step of one stray among all.
pub data Strays (other_up : Bool) : List Relayer → List Relayer → Type 0 where
  first :
      {x : Relayer} {xs : List Relayer} (y : Relayer)
      → Astray other_up x y
      → Strays other_up (x ∷ xs) (y ∷ xs)
  later :
      {x : Relayer} {xs ys : List Relayer}
      → Strays other_up xs ys
      → Strays other_up (x ∷ xs) (x ∷ ys)

-- A step of the callbacks or of a goroutine. The library calls Connected on every connect and connected
-- message, also again on a connection that has had one. It calls the callbacks one at a time, and no
-- other event is handled while Disconnected waits, so that the other interface stays as it is.
pub data Move (l r : InterfaceData) : Type 0 where
  connect : l.disconnecting ≡ false → r ≡ connected l → Move l r
  disconnect : l.disconnecting ≡ false → r ≡ disconnected l → Move l r
  other : (b : Bool) → l.disconnecting ≡ false → r ≡ record l { other_up = b } → Move l r
  astray :
      (xs : List Relayer) → Strays l.other_up l.strays xs → r ≡ record l { strays = xs } → Move l r
  -- GetRxQueue, without and with an error
  rx_queue : l.relayer ≡ born → r ≡ record l { relayer = held } → Move l r
  no_rx : (e : Error) → l.relayer ≡ born → r ≡ record l { relayer = failing e } → Move l r
  -- the wait, and GetTxQueue after it
  still_held : l.relayer ≡ held → l.other_up ≡ false → r ≡ l → Move l r
  tx_queue : l.relayer ≡ held → l.other_up ≡ true → r ≡ record l { relayer = passing } → Move l r
  no_tx :
      (e : Error)
      → l.relayer ≡ held
      → l.other_up ≡ true
      → r ≡ record l { relayer = failing e }
      → Move l r
  -- a round of the loop, without and with an error, and the quit channel
  pass : l.relayer ≡ passing → l.quit_chan ≡ opened → r ≡ l → Move l r
  break :
      (e : Error)
      → l.relayer ≡ passing
      → l.quit_chan ≡ opened
      → r ≡ record l { relayer = failing e }
      → Move l r
  quit : l.relayer ≡ passing → l.quit_chan ≡ closed → r ≡ record l { relayer = finished } → Move l r
  send : (e : Error) → l.relayer ≡ failing e → r ≡ send_error e l → Move l r
  wait_over :
      l.disconnecting ≡ true
      → IsDone l.relayer
      → AllDone l.strays
      → r ≡ record l { disconnecting = false }
      → Move l r

-- A run of a process that has not crashed.
pub data Moves (l : InterfaceData) : InterfaceData → Type 0 where
  none_yet : Moves l l
  then :
      {k : InterfaceData} (r : InterfaceData) → Moves l k → k.crashed ≡ false → Move k r → Moves l r
