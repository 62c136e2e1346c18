-- ===== src/Session/Handshake.antt =====
-- A slave's announcement until the master's interface is up (parseMsg of
-- memif-new/memif/control_channel.go, connect of interface.go), and packets after that.
use memif.Prelude.{
  ℕ, ◌^◌, ◌<◌, ◌≡◌, refl, ap, ◌∙◌, sym, subst, arith, true, List, [], ◌∷◌, ◌++◌, some, none,
  lt_length, get_elem?-set_self, drop,
}
use memif.Bytes.{to_le}
use memif.Types.{Interface, MemoryConfig, MemoryRegion, Queue, s2m, m2s}
use memif.Types.Os.{Os, Call, Datagram}
use memif.Ring.{new_ring}
use memif.Region.{region_size}
use memif.Message.{
  connect_type, connected_type, msg_type_size, msg_type_code, text_field, read_connect,
  write_connect, write_connected,
}
use memif.Queue.{region_data}
use memif.Setup.Write.{bind-done}
use memif.Setup.Traffic.{ends-Stream}
use memif.Packet.Stream.{World, Action, run, queue_run}
use memif.Packet.Stream.Refine.{AllFit, run_refines}
use memif.Channel.{enqueue, msg_enq_connected}
use memif.Channel.Dispatch.{on_message}
use memif.Channel.Hello.{Received}
use memif.Channel.Parse.{parse_connect, body}
use memif.Channel.Rings.{take_up}
use memif.Channel.Secret.{init_of}
use memif.Session.Queueing.{connect_msg, queue_up}
use memif.Session.Delivery.{delivering, readable, Carries, Willing, filled, arrived}
use memif.Session.Joining.{Marked, joined, with_header}
use memif.Session.Meeting.{At, assigned, with_peer_region, got, link_up-joined, handled}
use memif.Session.Steps.{
  converse, peer_ring, peer-Marked, ring_of-IsAddRing, Told, Awaits, carried-type, introduced,
  given_region, given_ring,
}
use memif.Session.Answer.{Answered}
use memif.Events.{handle_channel_event}
use memif.Socket.{
  Socket, ControlChannel, ControlMsg, done, ◌>>=◌, return, get_channel, put_channel, get_interface,
  channel_interface,
}

abbrev connected_msg : Interface → ControlMsg
connected_msg x = record {
  buffer =
      to_le 2 (msg_type_code connected_type)
      ++ write_connected (record { name = text_field 32 x.args.name });
  fd = none;
}

msg_enq_connected-queue :
    {s : Socket} {c i : ℕ} {ch : ControlChannel} {y : Interface}
    → Received s c i ch y
    → msg_enq_connected c s ≡ done tt (queue_up c ch (connected_msg y) s)
unfolding msg_enq_connected enqueue get_channel put_channel get_interface channel_interface ◌>>=◌
msg_enq_connected-queue r = ground (arith, r.channel, r.owner, r.interface)

module _ (os : Os) (willing : Willing os) (c j fd : ℕ) where
  -- The connect message, for a master that has one region and one queue of each kind.
  brought_up :
      (x : Interface) (t : Socket) (ch : ControlChannel) (m : Interface) (d : Datagram)
      (r : MemoryRegion) (e : List ℕ) (p q : Queue)
      → At t c j ch m
      → Carries d (connect_msg x)
      → m.regions ≡ r ∷ []
      → r.bytes ≡ none
      → ((calls : List Call) → os.mapped calls r.fd r.size ≡ e)
      → m.tx_queues ≡ p ∷ []
      → m.rx_queues ≡ q ∷ []
      → Marked p e
      → Marked q e
      → (t' : Socket) × (ch' : ControlChannel) × (name : List ℕ) × (handle_channel_event
            (delivering os d)
            c
            (readable fd)
            t
          ≡ done tt t')
        × At t' c j ch'
            (joined (delivering os d) willing.accepts j (record m { peer_name = name }) r e p q)
        × (ch'.is_connected ≡ true)
  unfolding on_message parse_connect body return ◌>>=◌
  brought_up x t ch m d r e p q at carries only unmapped shows one_tx one_rx mp mq =
      let t₁ = arrived c ch d t in
      let here =
        get_elem?-set_self t.channels c (filled ch d) (lt_length t.channels c at.owned.channel) in
      let name = (read_connect (drop msg_type_size d.payload)).name in
      let (t₂, ok, own, before, called) =
        link_up-joined (delivering os d) willing.accepts t₁ c j (filled ch d) m name r e p q
          (record { channel = here; owner = at.owned.owner; interface = at.owned.interface }) only
          unmapped shows one_tx one_rx mp mq in
      let ch₂ : ControlChannel = record (filled ch d) { is_connected = true } in
      let z = joined (delivering os d) willing.accepts j (record m { peer_name = name }) r e p q in
      let (t', done_it, at') =
        handled os willing c j d (parse_connect (delivering os d) c) (msg_enq_connected c)
          (connected_msg z) connect_type fd t t₂ ch ch₂ z at.owned.channel at.full carries.full
          (carried-type connect_type (write_connect (record { name = text_field 32 x.args.name }))
            none d (λ e. ground (arith, e)) carries)
          refl
          (bind-done (body c) _ (drop msg_type_size d.payload) t₁ t₁
              (bind-done (get_channel c) _ (filled ch d) t₁ t₁ (got c here))
            ∙ ok)
          (record { owned = own; idle = at.idle; full = carries.full })
          (msg_enq_connected-queue own) in
      (t', record ch₂ { msg_queue = [] }, name, done_it, at', refl)

size-fits : (config : MemoryConfig) → region_size config true true < 256 ^ 8
unfolding region_size
size-fits config = omega arith

-- The slave `x` has answered a hello (`Answered`), and its messages arrive in order, each at the start
-- of a full datagram and with one descriptor where the slave passes one (`Told`), at a channel on which
-- no message is waiting. The first interface that the channel's socket lists is a master without
-- connection, regions and queues, with the slave's id, a secret of zeros and a queue pair at least
-- (`Awaits`). The system accepts every request, and mmap(2) of the descriptor that came with the region
-- shows the slave's bytes. Then the channel handles all five events without an error: the master is
-- linked to it and up, with the slave's bytes mapped and one queue to receive on. And with that queue,
-- the calls of the slave's WritePacket and the master's ReadPacket, in any number and order, with no
-- written packet longer than a packet buffer and no buffer read into shorter, all return, and answer as
-- a first-in-first-out queue does that begins empty and has room for as many packets as the ring has
-- slots.
pub converse-connects :
    (s s' : Socket) (k i : ℕ) (own : ControlChannel) (x : Interface) (config : MemoryConfig)
    (a : Answered s s' k i own x config) (os : Os) (willing : Willing os) (c j fd : ℕ) (t : Socket)
    (ch : ControlChannel) (m : Interface) (d₁ d₂ d₃ d₄ d₅ : Datagram) (region_fd tx_fd rx_fd : ℕ)
    (acts : List Action)
    → x.args.id < 256 ^ 4
    → Awaits t c j ch m x.args.id
    → Told s x (region_size config true true) a.fd a.tx a.rx d₁ d₂ d₃ d₄ d₅ region_fd tx_fd rx_fd
    → ((calls : List Call) → os.mapped calls region_fd (region_size config true true) ≡ a.e)
    → AllFit config.packet_buffer_size acts
    → (t' : Socket) × (last : ControlChannel) × (z : Interface) × (q : Queue) × (w' : World)
      × (converse os c fd (d₁ ∷ d₂ ∷ d₃ ∷ d₄ ∷ d₅ ∷ []) t ≡ done tt t')
      × Received t' c j last z
      × (last.is_connected ≡ true)
      × (z.cc ≡ some c)
      × (z.rx_queues ≡ q ∷ [])
      × (region_data z 0 ≡ some a.e)
      × (run acts (record { tx = a.tx; sender = a.y; rx = q; receiver = z })
          ≡ some ((queue_run (2 ^ config.log2_ring_size) acts []).0, w'))
unfolding converse return region_data new_ring
converse-connects s s' k i own x config a os willing c j fd t ch m d₁ d₂ d₃ d₄ d₅ region_fd tx_fd
      rx_fd acts fits awaits told shows short =
    let size = region_size config true true in
    let narrow = ap (λ (g : MemoryConfig). g.log2_ring_size) a.run in
    let region : MemoryRegion = record {
      bytes = none;
      size = size;
      fd = region_fd;
      packet_buffer_offset = 0;
    } in
    let q = peer_ring s2m a.tx tx_fd in
    let p = peer_ring m2s a.rx rx_fd in
    let (t₁, ch₁, ok₁, at₁) = introduced os willing c j fd s x t ch m d₁ fits awaits told.init in
    let (t₂, ch₂, ok₂, at₂) =
      given_region os willing c j fd size a.fd region_fd t₁ ch₁ _ d₂ (size-fits config) at₁
        told.region told.region_passed in
    let (t₃, ch₃, ok₃, at₃) =
      given_ring os willing c j fd s2m a.tx tx_fd t₂ ch₂ _ d₃
        (ring_of-IsAddRing s2m a.before.run a.tx a.up.tx_placed (omega (arith, narrow, a.narrow)))
        at₂ told.sends told.tx_passed awaits.some_pair in
    let (t₄, ch₄, ok₄, at₄) =
      given_ring os willing c j fd m2s a.rx rx_fd t₃ ch₃ _ d₄
        (ring_of-IsAddRing m2s a.before.run a.rx a.up.rx_placed (omega (arith, narrow, a.narrow)))
        at₃ told.receives told.rx_passed awaits.some_pair in
    let (t₅, ch₅, name, ok₅, at₅, up) =
      brought_up os willing c j fd x t₄ ch₄ _ d₅ region a.e p q at₄ told.connect
        (ap (λ rs. rs ++ (region ∷ [])) awaits.no_region) refl shows
        (ap (λ qs. qs ++ (p ∷ [])) awaits.no_tx) (ap (λ qs. qs ++ (q ∷ [])) awaits.no_rx)
        (peer-Marked m2s a.rx rx_fd _ _ a.e a.up.rx_at a.up.rx_fresh)
        (peer-Marked s2m a.tx tx_fd _ _ a.e a.up.sends.ring_at a.up.tx_fresh) in
    let same = a.up.announced tx_fd in
    let asked =
      with_peer_region (record { index = 0; size = size }) region_fd (assigned c (init_of s x) m) in
    let z : Interface =
      joined (delivering os d₅) willing.accepts j
        (record (take_up m2s p (take_up s2m q asked)) { peer_name = name }) region a.e p q in
    let w : World = record { tx = a.tx; sender = a.y; rx = with_header a.e q; receiver = z } in
    let (w', ran, _) =
      run_refines acts w []
        (subst (λ (g : MemoryConfig). AllFit g.packet_buffer_size acts) (sym a.run) short)
        (ends-Stream {m = z} a.up awaits.master (with_header a.e q)
          (record { region = same.region; offset = same.offset; size = same.size }) refl refl) in
    (
      t₅,
      ch₅,
      z,
      with_header a.e q,
      w',
      bind-done (handle_channel_event (delivering os d₁) c (readable fd)) _ tt t t₁ ok₁
          ∙ bind-done (handle_channel_event (delivering os d₂) c (readable fd)) _ tt t₁ t₂ ok₂
          ∙ bind-done (handle_channel_event (delivering os d₃) c (readable fd)) _ tt t₂ t₃ ok₃
          ∙ bind-done (handle_channel_event (delivering os d₄) c (readable fd)) _ tt t₃ t₄ ok₄
          ∙ bind-done (handle_channel_event (delivering os d₅) c (readable fd)) _ tt t₄ t₅ ok₅,
      at₅.owned,
      up,
      refl,
      refl,
      refl,
      subst (λ (n : ℕ). run acts w ≡ some ((queue_run n acts []).0, w'))
          (a.up.sends.ring_at.slots ∙ ap (λ (g : MemoryConfig). 2 ^ g.log2_ring_size) a.run) ran,
    )
