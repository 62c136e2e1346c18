-- ===== src/Region/Layout.antt =====
-- The layout of a slave's region: the rings lie one behind the other, the packet buffers behind
-- them, where the sizes fit the widths that the code computes them in.
use memif.Prelude.{ℕ, ◌+◌, ◌*◌, ◌%◌, ◌^◌, ◌≤◌, ◌<◌, ◌≡◌, arith, true, ◌↔◌}
use memif.Types.{MemoryConfig, RingType, s2m, m2s}
use memif.Ring.{interface_new_ring, ring_bytes}
use memif.Region.{packet_buffer_offset, region_size, buffer_offset}
use native.Mathlib.Nat.{mod-eq_of_lt}

-- The bytes of a ring, without wrap.
abbrev pub ring_extent : MemoryConfig → ℕ
ring_extent run = 128 + 16 * 2 ^ run.log2_ring_size

abbrev pub ring_count : MemoryConfig → ℕ
ring_count run = run.num_queue_pairs + run.num_queue_pairs

-- The sizes fit uint16 and uint32.
pub record Fits (run : MemoryConfig) : Type 0 where
  pub some_pair : 0 < run.num_queue_pairs
  pub rings : ring_count run * ring_extent run < 2 ^ 16
  pub buffers :
      ring_count run * ring_extent run
        + run.packet_buffer_size * 2 ^ run.log2_ring_size * ring_count run
      < 2 ^ 32

-- The place of a ring among all rings of the region.
abbrev pub rank : MemoryConfig → RingType → ℕ → ℕ
rank run s2m k = k
rank run m2s k = run.num_queue_pairs + k

pub le-mul : (n m : ℕ) → 0 < n → m ≤ n * m
le-mul n m h = grind arith

pub mul-le : (a b e : ℕ) → a ≤ b → a * e ≤ b * e
mul-le a b e h = grind arith

packet_buffer_offset-lt : (run : MemoryConfig) → packet_buffer_offset run true < 2 ^ 16
unfolding packet_buffer_offset
packet_buffer_offset-lt run = omega arith

module _ (run : MemoryConfig) (some_pair : 0 < run.num_queue_pairs)
    (rings : ring_count run * ring_extent run < 2 ^ 16) where
  pub extent_small : ring_extent run < 2 ^ 16
  extent_small = omega (arith, le-mul (ring_count run) (ring_extent run) (omega arith))

  pairs_small : ring_count run < 2 ^ 16
  pairs_small = omega (arith, le-mul (ring_extent run) (ring_count run) (omega arith))

  pub packet_buffer_offset-eq : packet_buffer_offset run true ≡ ring_count run * ring_extent run
  unfolding packet_buffer_offset
  packet_buffer_offset-eq =
      rw
        (
          mod-eq_of_lt {n = 2 ^ run.log2_ring_size} {m = 2 ^ 16} (omega (arith, extent_small)),
          mod-eq_of_lt {n = ring_extent run} {m = 2 ^ 16} (omega (arith, extent_small)),
          mod-eq_of_lt pairs_small,
        )
        (mod-eq_of_lt rings)

  pub rank_fits :
      (t : RingType) (k : ℕ)
      → k < run.num_queue_pairs
      → rank run t k * ring_extent run + ring_extent run ≤ ring_count run * ring_extent run
  rank_fits s2m k h = omega (arith, mul-le (k + 1) (ring_count run) (ring_extent run) (omega arith))
  rank_fits m2s k h =
      omega (
        arith,
        mul-le (run.num_queue_pairs + k + 1) (ring_count run) (ring_extent run) (omega arith),
      )

  pub ring_bytes-eq : ring_bytes (2 ^ run.log2_ring_size % 2 ^ 64) ≡ ring_extent run
  ring_bytes-eq =
      rw (mod-eq_of_lt {n = 2 ^ run.log2_ring_size} {m = 2 ^ 64} (omega (arith, extent_small)))
        (mod-eq_of_lt (omega (arith, extent_small)))

  pub interface_new_ring-offset :
      (t : RingType) (k : ℕ)
      → k < run.num_queue_pairs
      → (interface_new_ring run 0 t k).offset ≡ rank run t k * ring_extent run
  unfolding interface_new_ring
  interface_new_ring-offset s2m k h = rw ring_bytes-eq (omega (arith, rank_fits s2m k h))
  interface_new_ring-offset m2s k h = rw ring_bytes-eq (omega (arith, rank_fits m2s k h))

-- With a queue pair at least, the packet buffers begin where the rings end exactly when the rings
-- take less than 2^16 bytes.
pub packet_buffer_offset_iff :
    (run : MemoryConfig)
    → 0 < run.num_queue_pairs
    → (packet_buffer_offset run true ≡ ring_count run * ring_extent run)
      ↔ (ring_count run * ring_extent run < 2 ^ 16)
packet_buffer_offset_iff run h =
    (λ e. rw (← e) (packet_buffer_offset-lt run), packet_buffer_offset-eq run h)

module _ (run : MemoryConfig) (fits : Fits run) where
  -- The rings of a slave's interface do not overlap and end before the packet buffers: of two
  -- rings the one of lower rank (rings to the master first, then by index) ends where the other
  -- begins or before, and the other ends at the packet buffers or before.
  pub rings_apart :
      (t u : RingType) (j k : ℕ)
      → j < run.num_queue_pairs
      → k < run.num_queue_pairs
      → rank run t j < rank run u k
      → ((interface_new_ring run 0 t j).offset + ring_extent run
          ≤ (interface_new_ring run 0 u k).offset)
        × ((interface_new_ring run 0 u k).offset + ring_extent run ≤ packet_buffer_offset run true)
  rings_apart t u j k hj hk h =
      rw
        (
          interface_new_ring-offset run fits.some_pair fits.rings t j hj,
          interface_new_ring-offset run fits.some_pair fits.rings u k hk,
          packet_buffer_offset-eq run fits.some_pair fits.rings,
        )
        (
          omega (arith, mul-le (rank run t j + 1) (rank run u k) (ring_extent run) (omega arith)),
          rank_fits run fits.some_pair fits.rings u k hk,
        )

  buffers_small : run.packet_buffer_size * 2 ^ run.log2_ring_size < 2 ^ 32
  buffers_small = omega (
    arith,
    fits,
    le-mul (ring_count run) (run.packet_buffer_size * 2 ^ run.log2_ring_size) (omega arith),
  )

  extent-lt : 2 ^ run.log2_ring_size < 2 ^ 32
  extent-lt = omega (arith, extent_small run fits.some_pair fits.rings)

  pub region_size-eq :
      region_size run true true
      ≡ ring_count run * ring_extent run
        + run.packet_buffer_size * 2 ^ run.log2_ring_size * ring_count run
  unfolding region_size
  region_size-eq =
      rw
        (
          packet_buffer_offset-eq run fits.some_pair fits.rings,
          mod-eq_of_lt extent-lt,
          mod-eq_of_lt buffers_small,
          mod-eq_of_lt (pairs_small run fits.some_pair fits.rings),
        )
        (mod-eq_of_lt fits.buffers)

  pub slots_extent :
      (slot : ℕ)
      → slot < ring_count run * 2 ^ run.log2_ring_size
      → slot * run.packet_buffer_size + run.packet_buffer_size
        ≤ run.packet_buffer_size * 2 ^ run.log2_ring_size * ring_count run
  slots_extent slot h = omega (
    arith,
    mul-le (slot + 1) (ring_count run * 2 ^ run.log2_ring_size) run.packet_buffer_size
        (omega arith),
  )

  slot_small :
      (slot : ℕ)
      → slot < ring_count run * 2 ^ run.log2_ring_size
      → 0 < run.packet_buffer_size
      → slot < 2 ^ 32
  slot_small slot h pos =
      omega (arith, slots_extent slot h, fits.buffers, le-mul run.packet_buffer_size slot pos)

  pub buffer_offset-eq :
      (slot : ℕ)
      → slot < ring_count run * 2 ^ run.log2_ring_size
      → 0 < run.packet_buffer_size
      → buffer_offset run (packet_buffer_offset run true) slot
        ≡ ring_count run * ring_extent run + slot * run.packet_buffer_size
  unfolding buffer_offset
  buffer_offset-eq slot h pos =
      rw
        (
          packet_buffer_offset-eq run fits.some_pair fits.rings,
          mod-eq_of_lt (slot_small slot h pos),
        )
        (mod-eq_of_lt (omega (arith, slots_extent slot h, fits.buffers)))

  -- The packet buffers of a slave's region do not overlap each other or the rings, and end inside
  -- the region.
  pub buffers_apart :
      (a b : ℕ)
      → 0 < run.packet_buffer_size
      → a < b
      → b < ring_count run * 2 ^ run.log2_ring_size
      → (packet_buffer_offset run true ≤ buffer_offset run (packet_buffer_offset run true) a)
        × (buffer_offset run (packet_buffer_offset run true) a + run.packet_buffer_size
            ≤ buffer_offset run (packet_buffer_offset run true) b)
        × (buffer_offset run (packet_buffer_offset run true) b + run.packet_buffer_size
            ≤ region_size run true true)
  buffers_apart a b pos h hb =
      rw
        (
          buffer_offset-eq a (omega arith) pos,
          buffer_offset-eq b hb pos,
          region_size-eq,
          packet_buffer_offset-eq run fits.some_pair fits.rings,
        )
        (
          omega arith,
          omega (arith, mul-le (a + 1) b run.packet_buffer_size (omega arith)),
          omega (arith, slots_extent b hb),
        )
