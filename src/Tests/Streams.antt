-- ===== src/Tests/Streams.antt =====
-- Calls on both ends of a ring of two slots.
use memif.Prelude.{
  ℕ, zero, suc, ◌+◌, ◌*◌, ◌<◌, ◌≡◌, inl, inr, refl, arith, true, false, List, length, [], ◌∷◌, some,
}
use memif.Bytes.{copy_at, copy}
use memif.Desc
use memif.Desc.{get_length, get_offset}
use memif.Queue.{region_data}
use memif.Packet.Stream.{World, Action, write, read, run, queue_run}
use memif.Packet.Stream.Holds.{Buffers, Named, slot_desc}
use memif.Packet.Stream.State.{Stream}
use memif.Packet.Stream.Refine.{run_refines}
use memif.Tests.Data.{queue, memory, interface_with, packet}
use memif.Tests.Packets.{memory-RingAt}
use native.Mathlib.Decide.{dec_lt}

abbrev pub both_ends : World
both_ends = record {
  tx = queue;
  sender = interface_with false memory;
  rx = queue;
  receiver = interface_with true memory;
}

abbrev pub buffer_at : ℕ → ℕ
buffer_at s = 160 + 4 * s

pub two_slots : (P : ℕ → Type 0) → P 0 → P 1 → (s : ℕ) → s < 2 → P s
two_slots P p q zero lt = p
two_slots P p q (suc zero) lt = q
two_slots P p q (suc (suc s)) lt = absurd (omega arith)

pub slave_mapped : region_data (interface_with false memory) 0 ≡ some memory
unfolding region_data
slave_mapped = refl

pub memory-Buffers : Buffers queue 4 buffer_at (length memory)
unfolding copy_at copy
memory-Buffers = record {
  room = λ s lt. omega arith;
  outside = λ s lt. inr (omega arith);
  apart =
      λ s t ls lt ne. elim (dec_lt s t) [ yes h ↦ inl (omega arith) | no h ↦ inr (omega arith) ];
}

pub memory-Named : Named queue buffer_at memory
unfolding copy_at copy Desc.get_region get_offset
memory-Named = record {
  region = two_slots (λ s. Desc.get_region (slot_desc queue s memory) ≡ 0) refl refl;
  offset = two_slots (λ s. get_offset (slot_desc queue s memory) ≡ buffer_at s) refl refl;
}

pub both_ends-Stream : Stream 4 buffer_at 1 both_ends []
unfolding region_data get_offset Desc.get_region copy_at copy
both_ends-Stream = record {
  bytes = memory;
  ring_at = memory-RingAt;
  same = record { region = refl; offset = refl; size = refl };
  sends = refl;
  receives = refl;
  slave_maps = slave_mapped;
  master_maps = refl;
  buffer_size = refl;
  narrow = omega arith;
  buffers = memory-Buffers;
  named = memory-Named;
  tail = refl;
  counter = omega arith;
  head = refl;
  bound = omega arith;
  holds = tt;
}

-- Three writes to two slots, with reads between and after.
abbrev calls : List Action
calls =
    write packet
    ∷ write (1 ∷ [])
    ∷ write (2 ∷ [])
    ∷ read 4
    ∷ write (5 ∷ [])
    ∷ read 8
    ∷ read 4
    ∷ read 4
    ∷ []

run_refines_example :
    (w' : World) × (run calls both_ends ≡ some ((queue_run 2 calls []).0, w'))
    × Stream 4 buffer_at 1 w' (queue_run 2 calls []).1
run_refines_example = run_refines calls both_ends [] (omega arith) both_ends-Stream
