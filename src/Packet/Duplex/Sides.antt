-- ===== src/Packet/Duplex/Sides.antt =====
-- Both ends after a call on one of the rings.
use memif.Prelude.{◌≡◌, ℕ, sym, ap, ◌∙◌, List}
use memif.Queue.{set_region_data}
use memif.Packet.Stream.{World}
use memif.Packet.Stream.Step.{Step}
use memif.Packet.Duplex.{Ends, up, down}
use memif.Packet.Duplex.Untouched.{with_bytes}

abbrev pub upper : Ends → World → Ends
upper w v = record w { slave = v.sender; slave_tx = v.tx; master = v.receiver; master_rx = v.rx }

abbrev pub lower : Ends → World → Ends
lower w v = record w { master = v.sender; master_tx = v.tx; slave = v.receiver; slave_rx = v.rx }

module _ {size : ℕ} {off : ℕ → ℕ} {w : Ends} {v : World} {d e : List ℕ}
    (slave_region : w.slave_rx.ring.region ≡ w.slave_tx.ring.region)
    (master_region : w.master_tx.ring.region ≡ w.master_rx.ring.region) where
  -- The ring that is not called on sees the new bytes.
  pub down-upper : Step size off (up w) v d e → with_bytes e (down w) ≡ down (upper w v)
  down-upper step = λ i. record {
    tx = w.master_tx;
    sender = (ap (λ k. set_region_data k e w.master) master_region ∙ sym step.receiver) i;
    rx = w.slave_rx;
    receiver = (ap (λ k. set_region_data k e w.slave) slave_region ∙ sym step.sender) i;
  }

  pub up-lower : Step size off (down w) v d e → with_bytes e (up w) ≡ up (lower w v)
  up-lower step = λ i. record {
    tx = w.slave_tx;
    sender = (ap (λ k. set_region_data k e w.slave) (sym slave_region) ∙ sym step.receiver) i;
    rx = w.master_rx;
    receiver = (ap (λ k. set_region_data k e w.master) (sym master_region) ∙ sym step.sender) i;
  }
