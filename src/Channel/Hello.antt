-- ===== src/Channel/Hello.antt =====
-- What a slave makes of a hello message.
use memif.Prelude.{
  leb, leb→le, Bool-cases, ◌&&◌, if◌then◌else◌, ℕ, ◌≤◌, ◌<◌, ◌≡◌, ◌⊎◌, inl, inr, arith, some,
  get_elem?, set, drop, min, lt→ltb, le→ltb,
}
use memif.Types.{Interface, MemoryConfig}
use memif.Types.Os.{message}
use memif.Message.{MsgHello, read_hello, version, msg_type_size}
use memif.Channel.Parse.{body, parse_hello, min16, min8}
use memif.Socket.{
  Socket, ControlChannel, done, fail, ◌>>=◌, get_interface, put_interface, get_channel,
  channel_interface,
}

-- The configuration that a hello message leaves: what is asked for, cut to the peer's limits.
abbrev pub negotiated : MsgHello → MemoryConfig → MemoryConfig
negotiated hello c = record c {
  num_queue_pairs = min c.num_queue_pairs hello.max_ring_m2s;
  log2_ring_size = min c.log2_ring_size hello.max_log2_ring_size;
}

-- The channel, its interface, and the message in the channel's buffer.
pub record Received (s : Socket) (c i : ℕ) (cc : ControlChannel) (x : Interface) : Type 0 where
  pub channel : get_elem? s.channels c ≡ some cc
  pub owner : cc.i ≡ some i
  pub interface : get_elem? s.interfaces i ≡ some x

min16-eq : (a b : ℕ) → min16 a b ≡ min a b
min16-eq a b = ground arith

min8-eq : (a b : ℕ) → min8 a b ≡ min a b
min8-eq a b = ground arith

module _ {s : Socket} {c i : ℕ} {cc : ControlChannel} {x : Interface}
    (r : Received s c i cc x) where
  pub parse_hello-ok :
      let h = read_hello (drop msg_type_size cc.payload) in
      h.version_min ≤ version
      → version ≤ h.version_max
      → parse_hello c s
        ≡ done tt (record s {
          interfaces =
              set s.interfaces i
                (record x { run = negotiated h x.args.memory_config; remote_name = h.name });
        })
  unfolding parse_hello body get_channel channel_interface get_interface put_interface ◌>>=◌
  parse_hello-ok lo hi =
      let h = read_hello (drop msg_type_size cc.payload) in
      ground (
        arith,
        r.channel,
        r.owner,
        r.interface,
        le→ltb version h.version_min lo,
        le→ltb h.version_max version hi,
        min16-eq x.args.memory_config.num_queue_pairs h.max_ring_m2s,
        min8-eq x.args.memory_config.log2_ring_size h.max_log2_ring_size,
      )

  parse_hello-fail :
      let h = read_hello (drop msg_type_size cc.payload) in
      (version < h.version_min) ⊎ (h.version_max < version)
      → parse_hello c s ≡ fail (message "Incompatible memif version") s
  unfolding parse_hello body get_channel ◌>>=◌
  parse_hello-fail (inl lo) =
      let h = read_hello (drop msg_type_size cc.payload) in
      ground (arith, r.channel, lt→ltb version h.version_min lo)
  parse_hello-fail (inr hi) =
      let h = read_hello (drop msg_type_size cc.payload) in
      ground (arith, r.channel, lt→ltb h.version_max version hi)

  -- For a channel with an interface: a hello whose versions take in 2.0 sets the interface's running
  -- configuration to the asked one, with the queue pairs cut to the peer's master-to-slave rings
  -- and the ring size to the peer's ring size, and notes the peer's name; any other hello is an
  -- error that changes nothing.
  pub parse_hello_lem : parse_hello c s ≡ (
      let h = read_hello (drop msg_type_size cc.payload) in
      if leb h.version_min version && leb version h.version_max
      then done tt (record s {
        interfaces =
            set s.interfaces i
              (record x { run = negotiated h x.args.memory_config; remote_name = h.name });
      })
      else fail (message "Incompatible memif version") s)
  parse_hello_lem =
      let h = read_hello (drop msg_type_size cc.payload) in
      elim (Bool-cases (leb h.version_min version)) [
        | inl lo ↦ elim (Bool-cases (leb version h.version_max)) [
          | inl hi ↦
              let ok =
                parse_hello-ok (leb→le h.version_min version lo)
                  (leb→le version h.version_max hi) in
              ground (arith, ok, lo, hi)
          | inr over ↦
              let bad = parse_hello-fail (inr (ground (arith, over))) in
              ground (arith, bad, lo, over)
        ]
        | inr under ↦
            let bad = parse_hello-fail (inl (ground (arith, under))) in ground (arith, bad, under)
      ]
