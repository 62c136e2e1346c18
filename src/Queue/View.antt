-- ===== src/Queue/View.antt =====
-- A ring in the bytes of its region: its two indices and its descriptors.
use memif.Prelude.{
  ℕ, ◌+◌, ◌-◌, ◌*◌, ◌%◌, ◌^◌, ◌≤◌, ◌<◌, ◌≡◌, arith, List, some, length, bit_and, ap, sym, ◌∙◌, ◌++◌,
  ◌∷◌, [], ◌==◌, if◌then◌else◌,
}
use memif.Prelude.Bits.{pow-pos, bit_and-mask}
use memif.Bytes.{bytes_at, read_le, write_le, copy_at}
use memif.Bytes.Copy.{length-bytes_at}
use memif.Desc.{DescBuf}
use memif.Types.{Interface, Queue}
use memif.Queue.{
  region_data, set_region_data, read_head, read_tail, write_head, write_tail, get_desc_buf,
  put_desc_buf, set_desc_length, desc_address, get_flags, interrupt, is_interrupt,
  ring_flag_interrupt, wake_bytes,
}
use memif.Queue.Memory.{load16-eq, store16-eq, get_desc_buf-eq, put_desc_buf-eq}
use memif.Ring.{int}
use memif.Types.Os.{Call, write}
use native.Mathlib.Nat.{mod-lt}

-- The ring has 2^l slots, 2^15 at most, and lies inside the bytes `d`.
pub record RingAt (q : Queue) (l : ℕ) (d : List ℕ) : Type 0 where
  pub slots : q.ring.size ≡ 2 ^ l
  pub small : q.ring.size ≤ 2 ^ 15
  pub inside : q.ring.offset + 128 + 16 * q.ring.size ≤ length d
  pub bounded : length d < 2 ^ 63

abbrev pub head_address : Queue → ℕ
head_address q = q.ring.offset + 6

abbrev pub tail_address : Queue → ℕ
tail_address q = q.ring.offset + 64

-- The address of the descriptor that index `s` stands for.
abbrev pub slot_address : Queue → ℕ → ℕ
slot_address q s = q.ring.offset + 128 + s % q.ring.size * 16

abbrev pub head_at : Queue → List ℕ → ℕ
head_at q d = read_le 2 (head_address q) d

abbrev pub tail_at : Queue → List ℕ → ℕ
tail_at q d = read_le 2 (tail_address q) d

abbrev pub desc_at : Queue → ℕ → List ℕ → DescBuf
desc_at q s d = bytes_at (slot_address q s) 16 d

-- The requests once the flags of the ring in `d` have been heeded.
abbrev pub kick : Queue → List ℕ → List Call → List Call
kick q d calls =
    if bit_and (read_le 2 (q.ring.offset + 4) d) ring_flag_interrupt == 0
    then calls ++ (write q.interrupt_fd wake_bytes ∷ [])
    else calls

module _ {q : Queue} {l : ℕ} {d : List ℕ} (ring_at : RingAt q l d) where
  pub size-pos : 0 < q.ring.size
  size-pos = omega (arith, pow-pos l)

  pub slot-lt : (s : ℕ) → s % q.ring.size < q.ring.size
  slot-lt s = mod-lt s size-pos

  pub slot_index : (s : ℕ) → bit_and s (int (q.ring.size + 2 ^ 64 - 1)) ≡ s % q.ring.size
  slot_index s =
      let mask : int (q.ring.size + 2 ^ 64 - 1) ≡ 2 ^ l - 1 = omega (arith, size-pos) in
      ap (bit_and s) mask ∙ bit_and-mask l s ∙ ap (λ m. s % m) (sym ring_at.slots)

  pub slot_inside : (s : ℕ) → slot_address q s + 16 ≤ length d
  slot_inside s = omega (arith, slot-lt s)

  pub desc_address-eq : (s : ℕ) → desc_address q (s % q.ring.size) ≡ slot_address q s
  desc_address-eq s = omega (arith, slot-lt s)

  pub length-desc_at : (s : ℕ) → length (desc_at q s d) ≡ 16
  length-desc_at s = length-bytes_at d (slot_address q s) 16 (slot_inside s)

  module _ (i : Interface) (h : region_data i q.ring.region ≡ some d) where
    pub read_head-eq : read_head q i ≡ some (head_at q d)
    unfolding read_head
    read_head-eq =
        let e : int (q.ring.offset + 6) ≡ q.ring.offset + 6 = omega (arith, size-pos) in
        rw e (load16-eq i q.ring.region h (head_address q) (omega (arith, size-pos)))

    pub read_tail-eq : read_tail q i ≡ some (tail_at q d)
    unfolding read_tail
    read_tail-eq =
        let e : int (q.ring.offset + 64) ≡ q.ring.offset + 64 = omega (arith, size-pos) in
        rw e (load16-eq i q.ring.region h (tail_address q) (omega (arith, size-pos)))

    pub write_head-eq :
        (v : ℕ)
        → write_head q v i
          ≡ some (set_region_data q.ring.region (write_le 2 (head_address q) v d) i)
    unfolding write_head
    write_head-eq v =
        let e : int (q.ring.offset + 6) ≡ q.ring.offset + 6 = omega (arith, size-pos) in
        rw e (store16-eq i q.ring.region h (head_address q) v (omega (arith, size-pos)))

    pub write_tail-eq :
        (v : ℕ)
        → write_tail q v i
          ≡ some (set_region_data q.ring.region (write_le 2 (tail_address q) v d) i)
    unfolding write_tail
    write_tail-eq v =
        let e : int (q.ring.offset + 64) ≡ q.ring.offset + 64 = omega (arith, size-pos) in
        rw e (store16-eq i q.ring.region h (tail_address q) v (omega (arith, size-pos)))

    -- The requests after `interrupt`: one more if the flags in memory ask for it.
    pub interrupt-eq : (calls : List Call) → interrupt q i calls ≡ some (kick q d calls)
    unfolding interrupt is_interrupt get_flags
    interrupt-eq calls =
        let e : int (q.ring.offset + 4) ≡ q.ring.offset + 4 = omega (arith, size-pos) in
        rw (e, load16-eq i q.ring.region h (q.ring.offset + 4) (omega (arith, size-pos)))

    pub get_slot-eq :
        (s : ℕ) (db : DescBuf)
        → length db ≡ 16
        → get_desc_buf q (bit_and s (int (q.ring.size + 2 ^ 64 - 1))) db i ≡ some (desc_at q s d)
    get_slot-eq s db e = rw (
      slot_index s,
      get_desc_buf-eq q (s % q.ring.size) db i h e (rw (desc_address-eq s) (slot_inside s)),
      desc_address-eq s,
    )

    pub put_slot-eq :
        (s : ℕ) (db : DescBuf)
        → put_desc_buf q (bit_and s (int (q.ring.size + 2 ^ 64 - 1))) db i
          ≡ some (set_region_data q.ring.region (copy_at d (slot_address q s) db) i)
    put_slot-eq s db = rw (
      slot_index s,
      put_desc_buf-eq q (s % q.ring.size) db i h
          (rw (desc_address-eq s) (omega (arith, slot_inside s))),
      desc_address-eq s,
    )

    pub set_desc_length-eq :
        (s v : ℕ)
        → set_desc_length q (bit_and s (int (q.ring.size + 2 ^ 64 - 1))) v i
          ≡ some (set_region_data q.ring.region (write_le 2 (slot_address q s + 4) v d) i)
    unfolding set_desc_length
    set_desc_length-eq s v =
        let e : int (q.ring.offset + 128 + s % q.ring.size * 16 + 4) ≡ slot_address q s + 4 =
          omega (arith, slot-lt s) in
        rw (slot_index s, e)
          (store16-eq i q.ring.region h (slot_address q s + 4) v (omega (arith, slot_inside s)))

-- A region of the same length holds the ring as well.
pub RingAt-length :
    {q : Queue} {l : ℕ} {d : List ℕ} (e : List ℕ)
    → RingAt q l d
    → length e ≡ length d
    → RingAt q l e
RingAt-length e r same = omega arith
