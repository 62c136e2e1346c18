-- ===== src/Packet/Chain/Call.antt =====
-- WritePacket by a slave, on a packet of any length.
use memif.Prelude.{
  ℕ, zero, suc, ◌+◌, ◌-◌, ◌*◌, ◌%◌, ◌/◌, ◌^◌, ◌≤◌, ◌<◌, ◌≡◌, ◌⊎◌, refl, sym, arith, List, length,
  false, min, leb, le→leb, lt→leb, if◌then◌else◌,
}
use memif.Types.{Interface, Queue}
use memif.Types.Os.{Call}
use memif.Queue.View.{head_at}
use memif.Packet.Writer.{write_packet}
use memif.Packet.Send.{free_slots-eq, free_at}
use memif.Packet.Chain.Ready.{Ready}
use memif.Packet.Chain.Loop.{Returns, first-Loops, Wants}
use native.Mathlib.Decide.{dec_le}
use native.Mathlib.Nat.{div-add-mod, mod-lt}

-- One slot for a packet that fits a buffer, and as many as the bytes need for a longer one.
abbrev pub slots_needed : ℕ → ℕ → ℕ
slots_needed size len = if leb len size then 1 else (len + size - 1) / size

wanted_more :
    (size len k r : ℕ)
    → len + size - 1 ≡ size * k + r
    → r < size
    → size < len
    → (m : ℕ) × (k ≡ suc m) × Wants len size size m
wanted_more size len zero r e below long = absurd (omega arith)
wanted_more size len (suc zero) r e below long = absurd (omega arith)
wanted_more size len (suc (suc k)) r e below long = (suc k, refl, (omega arith, omega arith))

wanted :
    (size len : ℕ)
    → 0 < size
    → (m : ℕ) × (slots_needed size len ≡ suc m) × Wants len (min size len) (min size len) m
wanted size len pos = elim (dec_le len size) [
  | yes le ↦ rw (le→leb len size le) (zero, refl, omega arith)
  | no gt ↦
      rw (lt→leb len size (omega arith), (let e : min size len ≡ size = omega arith in e))
        (wanted_more size len ((len + size - 1) / size) ((len + size - 1) % size)
          (sym (div-add-mod (len + size - 1) size)) (mod-lt (len + size - 1) pos) (omega arith))
]

-- WritePacket returns for a packet of any length, and leaves the ring ready for the next call: by a
-- slave, on a ring whose slots all have a buffer of the configured size, which is not 0. When as
-- many slots are free as the packet needs buffers, it takes so many: the peer's index moves by
-- them, and the count is what the buffers got, `min size len` bytes each. Otherwise the count is 0,
-- and the peer sees no slot more.
pub write_packet_total :
    (q : Queue) (l size : ℕ) (off : ℕ → ℕ) (pkt : List ℕ) (i : Interface) (d : List ℕ)
    (calls : List Call)
    → Ready q l size off i d
    → 0 < size
    → let k = slots_needed size (length pkt) in
      ((k ≤ free_at false q d)
        × Returns q l size off
            (write_packet q pkt i calls)
            (k * min size (length pkt))
            ((head_at q d + k) % 2 ^ 16))
      ⊎ ((free_at false q d < k)
          × Returns q l size off (write_packet q pkt i calls) 0 (head_at q d))
unfolding write_packet
write_packet_total q l size off pkt i d calls ready pos =
    let (m, e, wants) = wanted size (length pkt) pos in
    rw (e, free_slots-eq ready.ring_at i ready.mapped false ready.role)
      (first-Loops q l size off pkt calls (free_at false q d) m (head_at q d) i d ready wants)
