-- ===== src/Session/Answer.antt =====
-- A slave's answer to a hello message (parseMsg of memif-new/memif/control_channel.go).
use memif.Prelude.{
  ℕ, ◌≤◌, ◌<◌, ◌≡◌, refl, ap, ◌∙◌, subst, arith, true, false, List, [], ◌∷◌, ◌++◌, length, some,
  get_elem?, set, drop, lt_length, get_elem?-set_self,
}
use memif.Types.{Interface, MemoryRegion, MemoryConfig, Queue}
use memif.Types.Os.{Os, Call}
use memif.Message.{read_hello, version, msg_type_size}
use memif.Region.{region_size}
use memif.Region.Layout.{Fits}
use memif.Setup.{initialize_regions, initialize_queues}
use memif.Setup.Write.{bind-done, shapes}
use memif.Setup.Regions.{initialize_regions-LaidOut}
use memif.Setup.Pair.{SetUp, initialize_queues-SetUp}
use memif.Channel.Hello.{Received, negotiated, parse_hello-ok}
use memif.Channel.Parse.{parse_hello}
use memif.Channel.Dispatch.{on_hello}
use memif.Session.Queueing.{answer, add, Announces, announce-queue, channel_interface-eq}
use memif.Socket.{Socket, ControlChannel, ControlMsg, done, channel_interface}

-- A slave before its first hello, for which `config` is negotiated.
pub record Bare (x : Interface) (config : MemoryConfig) : Type 0 where
  pub slave : x.args.is_master ≡ false
  pub no_region : x.regions ≡ []
  pub no_tx : x.tx_queues ≡ []
  pub no_rx : x.rx_queues ≡ []
  pub one_pair : config.num_queue_pairs ≡ 1
  pub fits : Fits config
  pub narrow : config.log2_ring_size < 256
  pub some_bytes : 0 < config.packet_buffer_size

-- What the hello leaves of the slave `x`: the interface `y` with a ready ring of each kind, in the
-- bytes `e`, and the announcement of its setup in the channel's queue.
pub record Answered (s s' : Socket) (c i : ℕ) (ch : ControlChannel) (x : Interface)
    (config : MemoryConfig) : Type 0 where
  pub before : Interface
  pub y : Interface
  pub tx : Queue
  pub rx : Queue
  pub e : List ℕ
  pub fd : ℕ
  pub run : before.run ≡ config
  pub narrow : config.log2_ring_size < 256
  pub up : SetUp before tx rx y e
  pub args : y.args ≡ x.args
  pub sends : y.tx_queues ≡ tx ∷ []
  pub receives : y.rx_queues ≡ rx ∷ []
  pub queued : Received s' c i (add ch (answer s x (region_size config true true) fd tx rx)) y

one-shape :
    (rs : List MemoryRegion) (size fd : ℕ)
    → shapes rs ≡ (size, fd) ∷ []
    → (r : MemoryRegion) × (rs ≡ r ∷ []) × (r.size ≡ size) × (r.fd ≡ fd)
one-shape [] size fd h = absurd (ground (arith, h))
one-shape (r ∷ []) size fd h = (r, refl, ground (arith, h), ground (arith, h))
one-shape (r ∷ r₁ ∷ rs) size fd h = absurd (ground (arith, h))

answer-eq :
    (s s' : Socket) (x y : Interface) (size fd : ℕ) (tx rx : Queue)
    → s'.app_name ≡ s.app_name
    → y.args ≡ x.args
    → answer s' y size fd tx rx ≡ answer s x size fd tx rx
answer-eq s s' x y size fd tx rx name args = rw (name, args) refl

module _ (os : Os)
    (accepts : (calls : List Call) (c : Call) → ((v : ℕ) × (os.reply calls c ≡ some v)))
    (whole : (calls : List Call) (fd size : ℕ) → length (os.mapped calls fd size) ≡ size) where
  -- On a system that accepts every request and maps as many bytes as it is asked for, a slave without
  -- regions and queues answers a hello message whose versions take in 2.0, and which leaves it one
  -- queue pair and sizes that fit: it sets up a ring of each kind, ready for packets, and puts in the
  -- channel's queue, in this order and behind what was there, the init message, the region's with its
  -- size and descriptor, that of the ring it sends on, that of the ring it receives on, and connect.
  pub on_hello-Answered :
      (s : Socket) (c i : ℕ) (ch : ControlChannel) (x : Interface)
      → Received s c i ch x
      → (read_hello (drop msg_type_size ch.payload)).version_min ≤ version
      → version ≤ (read_hello (drop msg_type_size ch.payload)).version_max
      → Bare x (negotiated (read_hello (drop msg_type_size ch.payload)) x.args.memory_config)
      → (s' : Socket) × (on_hello os c s ≡ done tt s')
        × Answered s s' c i ch x
            (negotiated (read_hello (drop msg_type_size ch.payload)) x.args.memory_config)
  unfolding on_hello
  on_hello-Answered s c i ch x r lo hi bare =
      let h = read_hello (drop msg_type_size ch.payload) in
      let config = negotiated h x.args.memory_config in
      let x₀ : Interface = record x { run = config; remote_name = h.name } in
      let s₀ : Socket = record s { interfaces = set s.interfaces i x₀ } in
      let there₀ = get_elem?-set_self s.interfaces i x₀ (lt_length s.interfaces i r.interface) in
      let r₀ : Received s₀ c i ch x₀ = record {
        channel = r.channel;
        owner = r.owner;
        interface = there₀;
      } in
      let (x₁, d, s₁, made, there₁, laid, run₁, tx₁, opened) =
        initialize_regions-LaidOut os accepts i x₀ s₀ there₀ bare.no_region bare.slave bare.one_pair
          bare.fits bare.some_bytes whole in
      let (tx, rx, y, e, s₂, ready, there₂, up, beside) =
        initialize_queues-SetUp os accepts i s₁ x₁ d there₁ laid in
      let (fd, shaped) = opened.shaped in
      let (region, only, sized, opened_fd) =
        one-shape y.regions (region_size config true true) fd (up.shaped ∙ shaped) in
      let r₂ : Received s₂ c i ch y = record {
        channel =
            ap (λ (cs : List ControlChannel). get_elem? cs c)
              (beside.channels ∙ opened.beside.channels)
            ∙ r.channel;
        owner = r.owner;
        interface = there₂;
      } in
      let announces : Announces y (region_size config true true) fd tx rx = record {
        region = region;
        only = only;
        sized = sized;
        opened = opened_fd;
        one_pair = ap (λ (m : MemoryConfig). m.num_queue_pairs) (up.run ∙ run₁) ∙ bare.one_pair;
        sends = up.tx_queues ∙ ap (λ qs. qs ++ (tx ∷ [])) (tx₁ ∙ bare.no_tx);
        receives = up.rx_queues ∙ ap (λ qs. qs ++ (rx ∷ [])) (opened.rx_queues ∙ bare.no_rx);
      } in
      let (s₃, told, r₃) = announce-queue r₂ announces in
      (
        s₃,
        bind-done (parse_hello c) _ tt s s₀ (parse_hello-ok r lo hi)
            ∙ bind-done (channel_interface c) _ i s₀ s₀ (channel_interface-eq r₀)
            ∙ bind-done (initialize_regions os i) _ tt s₀ s₁ made
            ∙ bind-done (initialize_queues os i) _ tt s₁ s₂ ready
            ∙ told,
        record {
          before = x₁;
          y = y;
          tx = tx;
          rx = rx;
          e = e;
          fd = fd;
          run = run₁;
          narrow = bare.narrow;
          up = up;
          args = up.args ∙ opened.args;
          sends = announces.sends;
          receives = announces.receives;
          queued =
              subst (λ (ms : List ControlMsg). Received s₃ c i (add ch ms) y)
                (answer-eq s s₂ x y (region_size config true true) fd tx rx
                  (beside.app_name ∙ opened.beside.app_name) (up.args ∙ opened.args))
                r₃;
        },
      )
