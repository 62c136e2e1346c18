-- ===== src/Setup/Regions.antt =====
-- What initializeRegions of memif-new/memif/interface.go leaves of a slave: one region, for its rings
-- and its packet buffers.
use memif.Prelude.{
  ℕ, ◌<◌, ◌≡◌, refl, ap, ◌∙◌, arith, true, false, List, [], ◌∷◌, ◌++◌, length, some, get_elem?, set,
  lt_length, get_elem?-set_self,
}
use memif.Types.{Interface, MemoryRegion}
use memif.Types.Os.{Os, Call}
use memif.Region.{packet_buffer_offset, region_size}
use memif.Region.Layout.{Fits}
use memif.Queue.{region_data}
use memif.Link.Release.{sys_-accepted, sys-accepted}
use memif.Socket.{Socket, done, wrap, ◌>>=◌, get_interface, put_interface}
use memif.Setup.{initialize_regions, add_region, memfd_create, or_close, mmap}
use memif.Setup.Write.{shapes}
use memif.Setup.Round.{Beside}
use memif.Setup.Pair.{LaidOut}

-- The slave `y` beside the bare `x`.
pub record Opened (x y : Interface) (s s' : Socket) : Type 0 where
  pub args : y.args ≡ x.args
  pub rx_queues : y.rx_queues ≡ x.rx_queues
  pub shaped : (fd : ℕ) × (shapes y.regions ≡ (region_size x.run true true, fd) ∷ [])
  pub beside : Beside s s'

-- The slave with its region.
abbrev pub with_region : ℕ → List ℕ → Interface → Interface
with_region fd xs x = record x {
  regions =
      x.regions
      ++ (record {
        bytes = some xs;
        size = region_size x.run true true;
        fd = fd;
        packet_buffer_offset = packet_buffer_offset x.run true;
      }
          ∷ []);
}

module _ (os : Os)
    (accepts : (calls : List Call) (c : Call) → ((v : ℕ) × (os.reply calls c ≡ some v))) (i : ℕ)
    (x : Interface) (s : Socket) where
  initialize_regions-eq :
      get_elem? s.interfaces i ≡ some x
      → (fd : ℕ) × (xs : List ℕ) × (calls : List Call) × (initialize_regions os i s
          ≡ done tt
              (record s { interfaces = set s.interfaces i (with_region fd xs x); calls = calls }))
        × (before : List Call) × (xs ≡ os.mapped before fd (region_size x.run true true))
  unfolding initialize_regions add_region memfd_create or_close mmap get_interface put_interface
      ◌>>=◌ wrap
  initialize_regions-eq there =
      let (fd, opened) = sys-accepted os accepts Call.memfd_create s in
      let size = region_size x.run true true in
      let s₁ : Socket = record s { calls = s.calls ++ (Call.memfd_create ∷ []) } in
      let s₂ : Socket = record s₁ { calls = s₁.calls ++ (Call.add_seals fd ∷ []) } in
      let s₃ : Socket = record s₂ { calls = s₂.calls ++ (Call.ftruncate fd size ∷ []) } in
      let (z, mapped) = sys-accepted os accepts (Call.mmap fd size) s₃ in
      let s₄ : Socket = record s₃ { calls = s₃.calls ++ (Call.mmap fd size ∷ []) } in
      (
        fd,
        os.mapped s₄.calls fd size,
        s₄.calls,
        ground (
          arith,
          there,
          opened,
          sys_-accepted os accepts (Call.add_seals fd) s₁,
          sys_-accepted os accepts (Call.ftruncate fd size) s₂,
          mapped,
        ),
        s₄.calls,
        refl,
      )

  -- With one queue pair and sizes that fit, the slave that had no region is laid out.
  pub initialize_regions-LaidOut :
      get_elem? s.interfaces i ≡ some x
      → x.regions ≡ []
      → x.args.is_master ≡ false
      → x.run.num_queue_pairs ≡ 1
      → Fits x.run
      → 0 < x.run.packet_buffer_size
      → ((calls : List Call) (fd size : ℕ) → length (os.mapped calls fd size) ≡ size)
      → (y : Interface) × (d : List ℕ) × (s' : Socket) × (initialize_regions os i s ≡ done tt s')
        × (get_elem? s'.interfaces i ≡ some y)
        × LaidOut y d
        × (y.run ≡ x.run)
        × (y.tx_queues ≡ x.tx_queues)
        × Opened x y s s'
  unfolding region_data
  initialize_regions-LaidOut there empty slave one fits pos whole =
      let (fd, xs, calls, ok, before, shown) = initialize_regions-eq there in
      let region : MemoryRegion = record {
        bytes = some xs;
        size = region_size x.run true true;
        fd = fd;
        packet_buffer_offset = packet_buffer_offset x.run true;
      } in
      let first : get_elem? (x.regions ++ (region ∷ [])) 0 ≡ some region =
        ap (λ (rs : List MemoryRegion). get_elem? (rs ++ (region ∷ [])) 0) empty in
      (
        with_region fd xs x,
        xs,
        record s { interfaces = set s.interfaces i (with_region fd xs x); calls = calls },
        ok,
        get_elem?-set_self s.interfaces i (with_region fd xs x) (lt_length s.interfaces i there),
        record {
          slave = slave;
          one_pair = one;
          fits = fits;
          some_bytes = pos;
          buffers = (region, first, refl);
          mapped = rw first refl;
          whole = ap length shown ∙ whole before fd (region_size x.run true true);
        },
        refl,
        refl,
        record {
          args = refl;
          rx_queues = refl;
          shaped = (fd, ap (λ (rs : List MemoryRegion). shapes (rs ++ (region ∷ []))) empty);
          beside = record { channels = refl; app_name = refl };
        },
      )
