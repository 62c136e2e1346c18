-- ===== src/Packet/Stream/Step.antt =====
-- What a call on one ring changes: the reader's own counters, and the bytes of the ring and its
-- buffers, which both sides see.
use memif.Prelude.{ℕ, ◌≡◌, refl, sym, List, some}
use memif.Queue.{region_data, set_region_data}
use memif.Queue.Memory.{set_region_data_same}
use memif.Packet.Stream.{World}
use memif.Packet.Stream.Holds.{Elsewhere}

pub record Step (size : ℕ) (off : ℕ → ℕ) (w w' : World) (d e : List ℕ) : Type 0 where
  pub tx : w'.tx ≡ w.tx
  pub ring : w'.rx.ring ≡ w.rx.ring
  pub sender : w'.sender ≡ set_region_data w.tx.ring.region e w.sender
  pub receiver : w'.receiver ≡ set_region_data w.rx.ring.region e w.receiver
  pub elsewhere : Elsewhere w.tx size off d e

-- Nothing changes.
pub same-Step :
    (size : ℕ) (off : ℕ → ℕ) (w : World) (d : List ℕ)
    → region_data w.sender w.tx.ring.region ≡ some d
    → region_data w.receiver w.rx.ring.region ≡ some d
    → Step size off w w d d
same-Step size off w d sends receives = record {
  tx = refl;
  ring = refl;
  sender = sym (set_region_data_same w.sender w.tx.ring.region sends);
  receiver = sym (set_region_data_same w.receiver w.rx.ring.region receives);
  elsewhere = record { whole = refl; same = λ lo n clear. refl };
}
