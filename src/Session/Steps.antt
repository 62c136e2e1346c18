-- ===== src/Session/Steps.antt =====
-- The steps in which a master takes up what a slave announces (parseMsg of
-- memif-new/memif/control_channel.go).
use memif.Prelude.{
  ℕ, ◌^◌, ◌<◌, ◌≡◌, ◌≢◌, refl, ap, ◌∙◌, arith, true, List, [], ◌∷◌, ◌++◌, length, Option, some,
  none, get_elem?, set, lt_length, get_elem?-set_self, drop, replicate,
}
use memif.Bytes.{to_le, read_le}
use memif.Types.{Interface, MemoryConfig, Queue, RingType, s2m, m2s}
use memif.Types.Os.{Os, Datagram, rights}
use memif.Ring.{new_ring}
use memif.Message.{
  MsgType, MsgAddRegion, ack_type, none_type, init_type, add_region_type, add_ring_type, msg_size,
  msg_type_size, msg_type_code, read_init, read_add_region, read_add_ring, write_init,
  write_add_region, write_add_ring,
}
use memif.Message.RoundTrip.{IsAddRing, read_init-sent, read_add_ring-sent, read_add_region-sent}
use memif.Queue.View.{RingAt}
use memif.Setup.Write.{interface_put}
use memif.Setup.Pair.{Placed}
use memif.Setup.Memory.{Fresh}
use memif.Channel.{msg_enq_ack, enqueue}
use memif.Channel.Dispatch.{msg_type_of, on_message}
use memif.Channel.Hello.{Received}
use memif.Channel.Parse.{peer_queue, parse_init, parse_add_region, parse_add_ring, body}
use memif.Channel.Rings.{ring_of, ring_msg, take_up, direction, taken_up}
use memif.Channel.Secret.{init_of, init_msg, init_of-IsInit}
use memif.Session.Queueing.{region_msg, connect_msg, queue_up}
use memif.Session.Delivery.{delivering, readable, Carries, Willing, filled, arrived, type_sent}
use memif.Session.Joining.{Marked}
use memif.Session.Meeting.{
  At, assigned, parse_init-assigned, with_peer_region, parse_add_region-taken, handled,
}
use memif.Events.{handle_channel_event}
use memif.Socket.{
  Socket, ControlChannel, ControlMsg, done, M, ◌>>=◌, ◌>>◌, return, get_channel, put_channel,
}

-- A channel handles one datagram after the other.
unfoldable pub converse : Os → ℕ → ℕ → List Datagram → M (Unit {0})
converse os c fd [] = return tt
converse os c fd (d ∷ ds) = do
  handle_channel_event (delivering os d) c (readable fd)
  converse os c fd ds

abbrev pub ack_msg : ControlMsg
ack_msg = record { buffer = to_le 2 (msg_type_code ack_type) ++ []; fd = none }

acknowledged :
    (s : Socket) (c : ℕ) (ch : ControlChannel)
    → get_elem? s.channels c ≡ some ch
    → msg_enq_ack c s ≡ done tt (queue_up c ch ack_msg s)
unfolding msg_enq_ack enqueue get_channel put_channel ◌>>=◌
acknowledged s c ch there = ground (arith, there)

-- The queue that a slave's ring becomes at the master, once its header is read.
abbrev pub peer_ring : RingType → Queue → ℕ → Queue
peer_ring t q fd = peer_queue t q.ring.region q.ring.offset q.ring.log2_size fd

pub peer-Marked :
    (t : RingType) (q : Queue) (fd : ℕ) (off : ℕ → ℕ) (l : ℕ) (e : List ℕ)
    → RingAt q l e
    → Fresh q off e
    → Marked (peer_ring t q fd) e
unfolding new_ring
peer-Marked t q fd off l e at fresh = record {
  first = refl;
  header = refl;
  inside = omega (arith, at.inside);
  word = fresh.cookie_word;
}

direction-lt : (t : RingType) → direction t < 256 ^ 2
direction-lt s2m = omega arith
direction-lt m2s = omega arith

pub ring_of-IsAddRing :
    (t : RingType) (run : MemoryConfig) (q : Queue)
    → Placed run q
    → run.log2_ring_size < 256
    → IsAddRing (ring_of t 0 q)
ring_of-IsAddRing t run q placed narrow = record {
  flags_fits = direction-lt t;
  index_fits = omega arith;
  region_fits = omega (arith, placed.region);
  offset_fits = omega (arith, placed.offset);
  log2_fits = omega (arith, placed.log2, narrow);
  header_fits = omega arith;
}

module _ (os : Os) (willing : Willing os) (c j fd : ℕ) where
  -- A message that is taken up by an interface and acknowledged.
  acked :
      (p : M (Unit {0})) (t : MsgType) (d : Datagram) (s : Socket) (ch : ControlChannel)
      (m m' : Interface)
      → At s c j ch m
      → length d.payload ≡ msg_size
      → msg_type_of (read_le 2 0 d.payload) ≡ some t
      → on_message (delivering os d) c t ≡ (p >> msg_enq_ack c)
      → (Received (arrived c ch d s) c j (filled ch d) m
          → p (arrived c ch d s)
            ≡ done tt (record (arrived c ch d s) { interfaces = set s.interfaces j m' }))
      → (s' : Socket) × (ch' : ControlChannel) × (handle_channel_event
            (delivering os d)
            c
            (readable fd)
            s
          ≡ done tt s')
        × At s' c j ch' m'
  acked p t d s ch m m' at full type branch took =
      let here =
        get_elem?-set_self s.channels c (filled ch d) (lt_length s.channels c at.owned.channel) in
      let s₂ : Socket = record (arrived c ch d s) { interfaces = set s.interfaces j m' } in
      let (s', ok, at') =
        handled os willing c j d p (msg_enq_ack c) ack_msg t fd s s₂ ch (filled ch d) m'
          at.owned.channel at.full full type branch
          (took (record { channel = here; owner = at.owned.owner; interface = at.owned.interface }))
          (record {
            owned = record {
              channel = here;
              owner = at.owned.owner;
              interface = interface_put j m m' s at.owned.interface;
            };
            idle = at.idle;
            full = full;
          })
          (acknowledged s₂ c (filled ch d) here) in
      (s', record (filled ch d) { msg_queue = [] }, ok, at')

-- What arrives of a slave's announcement: each message at the start of a full datagram, and with those
-- that pass a descriptor one descriptor.
pub record Told (s : Socket) (x : Interface) (size sent : ℕ) (tx rx : Queue)
    (d₁ d₂ d₃ d₄ d₅ : Datagram) (region_fd tx_fd rx_fd : ℕ) : Type 0 where
  pub init : Carries d₁ (init_msg s x)
  pub region : Carries d₂ (region_msg 0 size sent)
  pub sends : Carries d₃ (ring_msg s2m 0 tx)
  pub receives : Carries d₄ (ring_msg m2s 0 rx)
  pub connect : Carries d₅ (connect_msg x)
  pub region_passed : d₂.control ≡ some (rights (some (region_fd ∷ [])) ∷ [])
  pub tx_passed : d₃.control ≡ some (rights (some (tx_fd ∷ [])) ∷ [])
  pub rx_passed : d₄.control ≡ some (rights (some (rx_fd ∷ [])) ∷ [])

-- The type of a message that a datagram carries.
pub carried-type :
    (t : MsgType) (body : List ℕ) (pass : Option ℕ) (d : Datagram)
    → t ≢ none_type
    → Carries d (record { buffer = to_le 2 (msg_type_code t) ++ body; fd = pass })
    → msg_type_of (read_le 2 0 d.payload) ≡ some t
carried-type t body pass d known carries =
    ap (λ xs. msg_type_of (read_le 2 0 xs)) carries.begins ∙ type_sent t body carries.rest known

-- A master without a connection, which asks for no secret, in a socket that lists it first.
pub record Awaits (t : Socket) (c j : ℕ) (ch : ControlChannel) (m : Interface) (id : ℕ)
    : Type 0 where
  pub channel : get_elem? t.channels c ≡ some ch
  pub idle : ch.msg_queue ≡ []
  pub full : length ch.payload ≡ msg_size
  pub interface : get_elem? t.interfaces j ≡ some m
  pub others : List ℕ
  pub listed : t.interface_list ≡ j ∷ others
  pub master : m.args.is_master ≡ true
  pub free : m.cc ≡ none
  pub same_id : m.args.id ≡ id
  pub no_secret : m.args.secret ≡ replicate 24 0
  pub some_pair : 0 < m.args.memory_config.num_queue_pairs
  pub no_region : m.regions ≡ []
  pub no_tx : m.tx_queues ≡ []
  pub no_rx : m.rx_queues ≡ []

module _ (os : Os) (willing : Willing os) (c j fd : ℕ) where
  -- The init message.
  pub introduced :
      (s : Socket) (x : Interface) (t : Socket) (ch : ControlChannel) (m : Interface) (d : Datagram)
      → x.args.id < 256 ^ 4
      → Awaits t c j ch m x.args.id
      → Carries d (init_msg s x)
      → (t' : Socket) × (ch' : ControlChannel) × (handle_channel_event
            (delivering os d)
            c
            (readable fd)
            t
          ≡ done tt t')
        × At t' c j ch' (assigned c (init_of s x) m)
  unfolding on_message
  introduced s x t ch m d fits awaits carries =
      let t₁ = arrived c ch d t in
      let here =
        get_elem?-set_self t.channels c (filled ch d) (lt_length t.channels c awaits.channel) in
      let m' = assigned c (init_of s x) m in
      let ch₂ : ControlChannel = record (filled ch d) { i = some j } in
      let t₂ : Socket = record t₁ {
        interfaces = set t.interfaces j m';
        channels = set t₁.channels c ch₂;
      } in
      let there₂ = get_elem?-set_self t₁.channels c ch₂ (lt_length t₁.channels c here) in
      let read : read_init (drop msg_type_size d.payload) ≡ init_of s x =
        ap (λ xs. read_init (drop msg_type_size xs)) carries.begins
        ∙ read_init-sent (to_le 2 (msg_type_code init_type)) (init_of s x) carries.rest refl
            (init_of-IsInit s x fits) in
      let (t', ok, at') =
        handled os willing c j d (parse_init c) (msg_enq_ack c) ack_msg init_type fd t t₂ ch ch₂ m'
          awaits.channel awaits.full carries.full
          (carried-type init_type (write_init (init_of s x)) none d (λ e. ground (arith, e))
            carries)
          refl
          (parse_init-assigned t₁ c j awaits.others (filled ch d) m (init_of s x) here
            awaits.interface awaits.listed read refl awaits.same_id awaits.master awaits.free
            awaits.no_secret)
          (record {
            owned = record {
              channel = there₂;
              owner = refl;
              interface = interface_put j m m' t awaits.interface;
            };
            idle = awaits.idle;
            full = carries.full;
          })
          (acknowledged t₂ c ch₂ there₂) in
      (t', record ch₂ { msg_queue = [] }, ok, at')

  -- The region's message.
  pub given_region :
      (size sent region_fd : ℕ) (t : Socket) (ch : ControlChannel) (m : Interface) (d : Datagram)
      → size < 256 ^ 8
      → At t c j ch m
      → Carries d (region_msg 0 size sent)
      → d.control ≡ some (rights (some (region_fd ∷ [])) ∷ [])
      → (t' : Socket) × (ch' : ControlChannel) × (handle_channel_event
            (delivering os d)
            c
            (readable fd)
            t
          ≡ done tt t')
        × At t' c j ch' (with_peer_region (record { index = 0; size = size }) region_fd m)
  unfolding on_message
  given_region size sent region_fd t ch m d fits at carries control =
      let a : MsgAddRegion = record { index = 0; size = size } in
      acked os willing c j fd (parse_add_region c) add_region_type d t ch m
        (with_peer_region a region_fd m) at carries.full
        (carried-type add_region_type (write_add_region a) (some sent) d (λ e. ground (arith, e))
          carries)
        refl
        (λ r.
          parse_add_region-taken a region_fd r
            (ap (λ xs. read_add_region (drop msg_type_size xs)) carries.begins
              ∙ read_add_region-sent (to_le 2 (msg_type_code add_region_type)) a carries.rest refl
                  (record { index_fits = omega arith; size_fits = fits }))
            control (omega arith))

  -- A ring's message.
  pub given_ring :
      (kind : RingType) (q : Queue) (ring_fd : ℕ) (t : Socket) (ch : ControlChannel) (m : Interface)
      (d : Datagram)
      → IsAddRing (ring_of kind 0 q)
      → At t c j ch m
      → Carries d (ring_msg kind 0 q)
      → d.control ≡ some (rights (some (ring_fd ∷ [])) ∷ [])
      → 0 < m.run.num_queue_pairs
      → (t' : Socket) × (ch' : ControlChannel) × (handle_channel_event
            (delivering os d)
            c
            (readable fd)
            t
          ≡ done tt t')
        × At t' c j ch' (take_up kind (peer_ring kind q ring_fd) m)
  unfolding on_message
  given_ring kind q ring_fd t ch m d fits at carries control inside =
      acked os willing c j fd (parse_add_ring c) add_ring_type d t ch m
        (take_up kind (peer_ring kind q ring_fd) m) at carries.full
        (carried-type add_ring_type (write_add_ring (ring_of kind 0 q)) (some q.interrupt_fd) d
          (λ e. ground (arith, e)) carries)
        refl
        (λ r.
          taken_up kind 0 q ring_fd r
            (ap (λ xs. read_add_ring (drop msg_type_size xs)) carries.begins
              ∙ read_add_ring-sent (to_le 2 (msg_type_code add_ring_type)) (ring_of kind 0 q)
                  carries.rest refl fits)
            control inside)
