-- ===== src/Setup/Round.antt =====
-- One round of initializeQueues of memif-new/memif/interface.go, for the first queue pair: the header
-- of a ring and its descriptors.
use memif.Prelude.{
  ℕ, ◌+◌, ◌*◌, ◌^◌, ◌≤◌, ◌<◌, ◌≡◌, refl, ap, sym, ◌∙◌, arith, subst, List, [], ◌∷◌, ◌++◌, length,
  some, get_elem?, lt→ltb,
}
use memif.Bytes.{copy_at}
use memif.Bytes.Copy.{length-copy_at}
use memif.Desc.{DescBuf}
use memif.Types.{Interface, Queue, MemoryConfig, RingType, s2m, m2s}
use memif.Types.Os.{Os, Call}
use memif.Ring
use memif.Ring.{cookie, interface_new_ring}
use memif.Region.Layout.{
  Fits, ring_count, rank, ring_extent, rank_fits, extent_small, interface_new_ring-offset,
}
use memif.Queue.{region_data, set_region_data, put_ring}
use memif.Queue.Memory.{region_data-set, slice_from-eq, args-set_region_data, run-set_region_data}
use memif.Link.Release.{sys-accepted}
use memif.Socket.{Socket, done, ◌>>=◌, ◌>>◌, get_interface, put_interface}
use memif.Setup.{initialize_queue, add_queue, rounds, on_memory, write_descs}
use memif.Setup.Descs.{described, length-described}
use memif.Setup.Write.{
  get_interface-eq, bind-done, on_memory-eq, write_descs-eq, with_interface, FirstBuffers,
  FirstBuffers-set, shapes, shapes-set_region_data, last_desc, interface_put,
}

-- The queue that is set up, with this eventfd.
unfoldable pub new_queue : MemoryConfig → RingType → ℕ → Queue
new_queue run t efd = record {
  ring = Ring.set_flags 1 (Ring.set_cookie cookie (interface_new_ring run 0 t 0));
  last_head = 0;
  last_tail = 0;
  interrupt_fd = efd;
}

module _ (run : MemoryConfig) (fits : Fits run) (t : RingType) (efd : ℕ) where
  pub slots_small : 2 ^ run.log2_ring_size < 2 ^ 16
  slots_small = omega (arith, extent_small run fits.some_pair fits.rings)

  pub size-new_queue : (new_queue run t efd).ring.size ≡ 2 ^ run.log2_ring_size
  unfolding new_queue interface_new_ring Ring.set_flags Ring.set_cookie
  size-new_queue = omega (arith, slots_small)

  pub offset-new_queue : (new_queue run t efd).ring.offset ≡ rank run t 0 * ring_extent run
  unfolding new_queue interface_new_ring Ring.set_flags Ring.set_cookie
  offset-new_queue = interface_new_ring-offset run fits.some_pair fits.rings t 0 fits.some_pair

  pub region-new_queue : (new_queue run t efd).ring.region ≡ 0
  unfolding new_queue interface_new_ring Ring.set_flags Ring.set_cookie
  region-new_queue = refl

  pub rb-new_queue : length (new_queue run t efd).ring.rb ≡ 128
  unfolding new_queue interface_new_ring Ring.set_flags Ring.set_cookie
  rb-new_queue = (length-copy_at _ 4 _ ∙ length-copy_at _ 0 _)

-- The region's bytes once the header and the descriptors are there.
abbrev pub queue_bytes : Queue → MemoryConfig → ℕ → ℕ → DescBuf → List ℕ → List ℕ
queue_bytes q run n first desc d =
    described q run first n 0 desc (copy_at d q.ring.offset q.ring.rb)

-- The channels and the name of a socket stay.
pub record Beside (s s' : Socket) : Type 0 where
  pub channels : s'.channels ≡ s.channels
  pub app_name : s'.app_name ≡ s.app_name

-- What a round of either loop leaves for the first queue pair: a new queue, and the region's bytes.
pub record Rounded (config : MemoryConfig) (t : RingType) (n first : ℕ) (desc : DescBuf)
    (x x' : Interface) (d : List ℕ) (q : Queue) : Type 0 where
  pub args : x'.args ≡ x.args
  pub run : x'.run ≡ config
  pub first_buffers : FirstBuffers x' first
  pub shaped : shapes x'.regions ≡ shapes x.regions
  pub mapped : region_data x' 0 ≡ some (queue_bytes q config n first desc d)
  pub tx : x'.tx_queues ≡ (add_queue t q x).tx_queues
  pub rx : x'.rx_queues ≡ (add_queue t q x).rx_queues

put_ring-eq :
    (q : Queue) (x : Interface) (d : List ℕ)
    → region_data x q.ring.region ≡ some d
    → q.ring.offset ≤ length d
    → put_ring q x ≡ some (set_region_data q.ring.region (copy_at d q.ring.offset q.ring.rb) x)
unfolding put_ring
put_ring-eq q x d mapped inside =
    rw (mapped, slice_from-eq x q.ring.region mapped q.ring.offset inside)

tx_queues-set_region_data :
    (x : Interface) (k : ℕ) (d : List ℕ) → (set_region_data k d x).tx_queues ≡ x.tx_queues
unfolding set_region_data
tx_queues-set_region_data x k d = ground arith

rx_queues-set_region_data :
    (x : Interface) (k : ℕ) (d : List ℕ) → (set_region_data k d x).rx_queues ≡ x.rx_queues
unfolding set_region_data
rx_queues-set_region_data x k d = ground arith

region_data-add_queue :
    (t : RingType) (q : Queue) (x : Interface) (k : ℕ)
    → region_data (add_queue t q x) k ≡ region_data x k
unfolding region_data
region_data-add_queue s2m q x k = refl
region_data-add_queue m2s q x k = refl

FirstBuffers-add_queue :
    (t : RingType) (q : Queue) (x : Interface) (first : ℕ)
    → FirstBuffers x first
    → FirstBuffers (add_queue t q x) first
FirstBuffers-add_queue s2m q x first h = h
FirstBuffers-add_queue m2s q x first h = h

shapes-add_queue :
    (t : RingType) (q : Queue) (x : Interface) → shapes (add_queue t q x).regions ≡ shapes x.regions
shapes-add_queue s2m q x = refl
shapes-add_queue m2s q x = refl

args-add_queue : (t : RingType) (q : Queue) (x : Interface) → (add_queue t q x).args ≡ x.args
args-add_queue s2m q x = refl
args-add_queue m2s q x = refl

run-add_queue : (t : RingType) (q : Queue) (x : Interface) → (add_queue t q x).run ≡ x.run
run-add_queue s2m q x = refl
run-add_queue m2s q x = refl

tx-add_queue :
    (t : RingType) (q : Queue) (x y : Interface)
    → y.tx_queues ≡ x.tx_queues
    → (add_queue t q y).tx_queues ≡ (add_queue t q x).tx_queues
tx-add_queue s2m q x y e = ap (λ qs. qs ++ (q ∷ [])) e
tx-add_queue m2s q x y e = e

rx-add_queue :
    (t : RingType) (q : Queue) (x y : Interface)
    → y.rx_queues ≡ x.rx_queues
    → (add_queue t q y).rx_queues ≡ (add_queue t q x).rx_queues
rx-add_queue s2m q x y e = e
rx-add_queue m2s q x y e = ap (λ qs. qs ++ (q ∷ [])) e

-- After the eventfd, on a queue whose ring fits the region.
module _ (i : ℕ) (t : RingType) (q : Queue) (n first : ℕ) (desc : DescBuf) (x : Interface)
    (d : List ℕ) (s : Socket) (there : get_elem? s.interfaces i ≡ some x)
    (buffers : FirstBuffers x first) (mapped : region_data x q.ring.region ≡ some d)
    (room : q.ring.offset + 128 + n * 16 ≤ length d) (small : length d < 2 ^ 63) where
  abbrev headed : List ℕ
  headed = copy_at d q.ring.offset q.ring.rb

  abbrev x₁ : Interface
  x₁ = set_region_data q.ring.region headed x

  abbrev x₂ : Interface
  x₂ = add_queue t q x₁

  abbrev x₃ : Interface
  x₃ = set_region_data q.ring.region (described q x₂.run first n 0 desc headed) x₂

  whole : length headed ≡ length d
  whole = length-copy_at d q.ring.offset q.ring.rb

  mapped₂ : region_data x₂ q.ring.region ≡ some headed
  mapped₂ =
      region_data-add_queue t q x₁ q.ring.region
      ∙ region_data-set x q.ring.region mapped headed whole

  run₂ : x₂.run ≡ x.run
  run₂ = run-add_queue t q x₁ ∙ run-set_region_data x q.ring.region headed

  buffers₂ : FirstBuffers x₂ first
  buffers₂ =
      FirstBuffers-add_queue t q x₁ first (FirstBuffers-set x q.ring.region headed first buffers)

  abbrev s₃ : Socket
  s₃ = with_interface i x₃ (with_interface i x₂ (with_interface i x₁ s))

  rest-eq :
      (m z : ℕ)
      → m ≡ n
      → z ≡ 0
      → (on_memory i (put_ring q)
            >> (get_interface i >>= λ y.
                put_interface i (add_queue t q y) >> write_descs i m q z desc))
          s
        ≡ done (last_desc x.run first n 0 desc) s₃
  unfolding put_interface ◌>>=◌
  rest-eq m z em ez =
      bind-done (on_memory i (put_ring q)) _ tt s (with_interface i x₁ s)
        (on_memory-eq i _ x x₁ s there (put_ring-eq q x d mapped (omega arith)))
      ∙ get_interface-eq i x₁ (with_interface i x₁ s)
          (λ y. put_interface i (add_queue t q y) >> write_descs i m q z desc)
          (interface_put i x x₁ s there)
      ∙ ap (λ (k : ℕ). write_descs i k q z desc (with_interface i x₂ (with_interface i x₁ s))) em
      ∙ ap (λ (k : ℕ). write_descs i n q k desc (with_interface i x₂ (with_interface i x₁ s))) ez
      ∙ write_descs-eq i n q 0 first desc x₂ headed (with_interface i x₂ (with_interface i x₁ s))
          (interface_put i x₁ x₂ (with_interface i x₁ s) (interface_put i x x₁ s there)) buffers₂
          mapped₂ (omega (arith, whole)) (omega (arith, whole))
      ∙ ap (λ (r : MemoryConfig). done (last_desc r first n 0 desc) s₃) run₂

  there₃ : get_elem? s₃.interfaces i ≡ some x₃
  there₃ =
      interface_put i x₂ x₃ (with_interface i x₂ (with_interface i x₁ s))
        (interface_put i x₁ x₂ (with_interface i x₁ s) (interface_put i x x₁ s there))

  pub run₃ : x₃.run ≡ x.run
  run₃ = run-set_region_data x₂ q.ring.region _ ∙ run₂

  mapped₃ : region_data x₃ q.ring.region ≡ some (described q x.run first n 0 desc headed)
  mapped₃ =
      region_data-set x₂ q.ring.region mapped₂ (described q x₂.run first n 0 desc headed)
        (length-described q x₂.run first n 0 desc headed)
      ∙ ap (λ (r : MemoryConfig). some (described q r first n 0 desc headed)) run₂

  args₃ : x₃.args ≡ x.args
  args₃ =
      args-set_region_data x₂ q.ring.region _
      ∙ args-add_queue t q x₁
      ∙ args-set_region_data x q.ring.region headed

  shaped₃ : shapes x₃.regions ≡ shapes x.regions
  shaped₃ =
      shapes-set_region_data x₂ q.ring.region _
      ∙ shapes-add_queue t q x₁
      ∙ shapes-set_region_data x q.ring.region headed

  tx₃ : x₃.tx_queues ≡ (add_queue t q x).tx_queues
  tx₃ =
      tx_queues-set_region_data x₂ q.ring.region _
      ∙ tx-add_queue t q x x₁ (tx_queues-set_region_data x q.ring.region headed)

  rx₃ : x₃.rx_queues ≡ (add_queue t q x).rx_queues
  rx₃ =
      rx_queues-set_region_data x₂ q.ring.region _
      ∙ rx-add_queue t q x x₁ (rx_queues-set_region_data x q.ring.region headed)

  rounded₃ : q.ring.region ≡ 0 → Rounded x.run t n first desc x x₃ d q
  rounded₃ region = record {
    args = args₃;
    run = run₃;
    shaped = shaped₃;
    first_buffers = FirstBuffers-set x₂ q.ring.region _ first buffers₂;
    mapped =
        subst (λ k. region_data x₃ k ≡ some (queue_bytes q x.run n first desc d)) region mapped₃;
    tx = tx₃;
    rx = rx₃;
  }

module _ (os : Os)
    (accepts : (calls : List Call) (c : Call) → ((v : ℕ) × (os.reply calls c ≡ some v))) (i : ℕ)
    (t : RingType) (first : ℕ) (desc : DescBuf) (x : Interface) (d : List ℕ) (s : Socket)
    (there : get_elem? s.interfaces i ≡ some x) (fits : Fits x.run) (buffers : FirstBuffers x first)
    (mapped : region_data x 0 ≡ some d) (room : ring_count x.run * ring_extent x.run ≤ length d)
    (small : length d < 2 ^ 63) where
  abbrev n : ℕ
  n = 2 ^ x.run.log2_ring_size

  here : (efd : ℕ) → region_data x (new_queue x.run t efd).ring.region ≡ some d
  here efd = subst (λ k. region_data x k ≡ some d) (sym (region-new_queue x.run fits t efd)) mapped

  inside : (efd : ℕ) → (new_queue x.run t efd).ring.offset + 128 + n * 16 ≤ length d
  inside efd = omega (
    arith,
    offset-new_queue x.run fits t efd,
    rank_fits x.run fits.some_pair fits.rings t 0 fits.some_pair,
  )

  rounds-eq : (size : ℕ) → size ≡ n → rounds size ≡ n
  rounds-eq size e = rw (lt→ltb size (2 ^ 63) (omega (arith, e, slots_small x.run fits t 0))) e

  -- On a system that accepts every request, the round of the first queue pair succeeds, for either
  -- kind of ring.
  pub initialize_queue-Rounded :
      (efd : ℕ) × (x' : Interface) × (s' : Socket) × (initialize_queue os i t 0 desc s
        ≡ done (last_desc x.run first n 0 desc) s')
      × (get_elem? s'.interfaces i ≡ some x')
      × Rounded x.run t n first desc x x' d (new_queue x.run t efd)
      × Beside s s'
  unfolding initialize_queue new_queue
  initialize_queue-Rounded =
      let (efd, answered) = sys-accepted os accepts Call.eventfd s in
      let q = new_queue x.run t efd in
      let s₀ : Socket = record s { calls = s.calls ++ (Call.eventfd ∷ []) } in
      (
        efd,
        x₃ i t q n first desc x d s₀ there buffers (here efd) (inside efd) small,
        s₃ i t q n first desc x d s₀ there buffers (here efd) (inside efd) small,
        get_interface-eq i x s _ there
            ∙ bind-done _ _ efd s s₀ answered
            ∙ rest-eq i t q n first desc x d s₀ there buffers (here efd) (inside efd) small
                (rounds q.ring.size) (0 * q.ring.size)
                (rounds-eq q.ring.size (size-new_queue x.run fits t efd)) (omega arith),
        there₃ i t q n first desc x d s₀ there buffers (here efd) (inside efd) small,
        rounded₃ i t q n first desc x d s₀ there buffers (here efd) (inside efd) small
            (region-new_queue x.run fits t efd),
        record { channels = refl; app_name = refl },
      )

-- The same, for an interface whose configuration is known.
pub round-Rounded :
    (os : Os) (accepts : (calls : List Call) (c : Call) → ((v : ℕ) × (os.reply calls c ≡ some v)))
    (i : ℕ) (t : RingType) (first : ℕ) (desc : DescBuf) (x : Interface) (d : List ℕ) (s : Socket)
    (config : MemoryConfig)
    → x.run ≡ config
    → get_elem? s.interfaces i ≡ some x
    → Fits config
    → FirstBuffers x first
    → region_data x 0 ≡ some d
    → ring_count config * ring_extent config ≤ length d
    → length d < 2 ^ 63
    → (efd : ℕ) × (x' : Interface) × (s' : Socket) × (initialize_queue os i t 0 desc s
        ≡ done (last_desc config first (2 ^ config.log2_ring_size) 0 desc) s')
      × (get_elem? s'.interfaces i ≡ some x')
      × Rounded config t (2 ^ config.log2_ring_size) first desc x x' d (new_queue config t efd)
      × Beside s s'
round-Rounded os accepts i t first desc x d s config same there fits buffers mapped room small =
    subst
      (λ (run : MemoryConfig).
        Fits run
        → ring_count run * ring_extent run ≤ length d
        → (efd : ℕ) × (x' : Interface) × (s' : Socket) × (initialize_queue os i t 0 desc s
            ≡ done (last_desc run first (2 ^ run.log2_ring_size) 0 desc) s')
          × (get_elem? s'.interfaces i ≡ some x')
          × Rounded run t (2 ^ run.log2_ring_size) first desc x x' d (new_queue run t efd)
          × Beside s s')
      same
      (λ h r.
        initialize_queue-Rounded os accepts i t first desc x d s there h buffers mapped r small)
      fits room
