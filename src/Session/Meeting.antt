-- ===== src/Session/Meeting.antt =====
-- What a master makes of each message of a slave's announcement (the parse functions of
-- memif-new/memif/control_channel.go).
use memif.Prelude.{
  ℕ, ◌≤◌, ◌≡◌, refl, ap, ◌∙◌, arith, true, List, [], ◌∷◌, ◌++◌, length, some, none, get_elem?, set,
  lt_length, get_elem?-set_self, drop, le→ltb,
}
use memif.Bytes.{read_le}
use memif.Types.{Interface, MemoryRegion, Queue}
use memif.Types.Os.{Os, Call, Datagram, rights}
use memif.Message.{
  MsgType, MsgInit, MsgAddRegion, msg_size, msg_type_size, version, read_init, read_add_region,
}
use memif.Setup.Write.{bind-done, get_interface-eq, interface_put}
use memif.Channel.Dispatch.{msg_type_of, on_message}
use memif.Channel.Hello.{Received}
use memif.Channel.Parse.{
  parse_init, find_peer, assign, bytes_eq, body, parse_add_region, parse_control_msg, scan_rights,
  link_up,
}
use memif.Channel.Sending.{sent_msg}
use memif.Link.{connect}
use memif.Session.Queueing.{add, queue_up, channel_interface-eq}
use memif.Session.Delivery.{delivering, readable, Willing, arrived, handle_channel_event-done}
use memif.Session.Joining.{Marked, joined, connect-joined}
use memif.Events.{handle_channel_event}
use memif.Socket.{
  Socket, ControlChannel, ControlMsg, done, M, ◌>>=◌, ◌>>◌, return, wrap, deref, get_interface,
  put_interface, get_channel, put_channel, channel_interface, interface_refs,
}

-- A linked channel with nothing to send and room for a message.
pub record At (s : Socket) (c j : ℕ) (ch : ControlChannel) (m : Interface) : Type 0 where
  pub owned : Received s c j ch m
  pub idle : ch.msg_queue ≡ []
  pub full : length ch.payload ≡ msg_size

bytes_eq_refl : (xs : List ℕ) → bytes_eq xs xs ≡ true
unfolding bytes_eq
bytes_eq_refl [] = refl
bytes_eq_refl (x ∷ xs) = ground (arith, bytes_eq_refl xs)

-- The master that is assigned to the channel.
abbrev pub assigned : ℕ → MsgInit → Interface → Interface
assigned c init m = record m { cc = some c; run = m.args.memory_config; remote_name = init.name }

pub parse_init-assigned :
    (s : Socket) (c j : ℕ) (js : List ℕ) (ch : ControlChannel) (m : Interface) (init : MsgInit)
    → get_elem? s.channels c ≡ some ch
    → get_elem? s.interfaces j ≡ some m
    → s.interface_list ≡ j ∷ js
    → read_init (drop msg_type_size ch.payload) ≡ init
    → init.version_number ≡ version
    → m.args.id ≡ init.id
    → m.args.is_master ≡ true
    → m.cc ≡ none
    → m.args.secret ≡ init.secret
    → parse_init c s
      ≡ done tt (record s {
        interfaces = set s.interfaces j (assigned c init m);
        channels = set s.channels c (record ch { i = some j });
      })
unfolding parse_init body interface_refs find_peer assign get_channel put_channel get_interface
    put_interface return ◌>>=◌
parse_init-assigned s c j js ch m init there here listed read vers id role free secret =
    ground
      (arith, there, here, listed, read, vers, id, role, free, secret, bytes_eq_refl init.secret)

-- The master with a region that is announced, and not mapped yet.
abbrev pub with_peer_region : MsgAddRegion → ℕ → Interface → Interface
with_peer_region a fd m = record m {
  regions =
      m.regions ++ (record { bytes = none; size = a.size; fd = fd; packet_buffer_offset = 0 } ∷ []);
}

pub parse_add_region-taken :
    {s : Socket} {c j : ℕ} {ch : ControlChannel} {m : Interface} (a : MsgAddRegion) (fd : ℕ)
    → Received s c j ch m
    → read_add_region (drop msg_type_size ch.payload) ≡ a
    → ch.control ≡ some (rights (some (fd ∷ [])) ∷ [])
    → a.index ≤ 255
    → parse_add_region c s
      ≡ done tt (record s { interfaces = set s.interfaces j (with_peer_region a fd m) })
unfolding parse_add_region parse_control_msg scan_rights body wrap get_channel get_interface
    put_interface channel_interface return ◌>>=◌
parse_add_region-taken a fd r read control inside =
    ground (arith, r.channel, r.owner, r.interface, read, control, le→ltb 255 a.index inside)

pub got :
    {s : Socket} (c : ℕ) {ch : ControlChannel}
    → get_elem? s.channels c ≡ some ch
    → get_channel c s ≡ done ch s
unfolding get_channel
got {s} c there = ap (λ o. deref o s) there

module _ (os : Os)
    (accepts : (calls : List Call) (c : Call) → ((v : ℕ) × (os.reply calls c ≡ some v))) where
  -- Both sides do this when the other is ready.
  pub link_up-joined :
      (s : Socket) (c j : ℕ) (ch : ControlChannel) (m : Interface) (name : List ℕ)
      (r : MemoryRegion) (e : List ℕ) (p q : Queue)
      → Received s c j ch m
      → m.regions ≡ r ∷ []
      → r.bytes ≡ none
      → ((calls : List Call) → os.mapped calls r.fd r.size ≡ e)
      → m.tx_queues ≡ p ∷ []
      → m.rx_queues ≡ q ∷ []
      → Marked p e
      → Marked q e
      → (s' : Socket) × (link_up os c name s ≡ done tt s')
        × Received s' c j
            (record ch { is_connected = true })
            (joined os accepts j (record m { peer_name = name }) r e p q)
        × (before : List Call) × (s'.calls ≡ before ++ (Call.connected_func j ∷ []))
  unfolding link_up put_interface put_channel ◌>>=◌
  link_up-joined s c j ch m name r e p q own only unmapped shows one_tx one_rx mp mq =
      let m₁ : Interface = record m { peer_name = name } in
      let s₁ : Socket = record s { interfaces = set s.interfaces j m₁ } in
      let (s₂, ok, there, beside, before, called) =
        connect-joined os accepts j m₁ s₁ r e p q (interface_put j m m₁ s own.interface) only
          unmapped shows one_tx one_rx mp mq in
      let here : get_elem? s₂.channels c ≡ some ch =
        ap (λ (cs : List ControlChannel). get_elem? cs c) beside.channels ∙ own.channel in
      (
        record s₂ { channels = set s₂.channels c (record ch { is_connected = true }) },
        bind-done (channel_interface c) _ j s s (channel_interface-eq own)
            ∙ get_interface-eq j m s _ own.interface
            ∙ bind-done (connect os j) _ tt s₁ s₂ ok
            ∙ bind-done (get_channel c) _ ch s₂ s₂ (got c here),
        record {
          channel = get_elem?-set_self s₂.channels c _ (lt_length s₂.channels c here);
          owner = own.owner;
          interface = there;
        },
        before,
        called,
      )

module _ (os : Os) (willing : Willing os) (c j : ℕ) (d : Datagram) where
  -- A message that is taken up and answered.
  pub handled :
      (p q : M (Unit {0})) (reply : ControlMsg) (t : MsgType) (fd : ℕ) (s s₂ : Socket)
      (ch ch₂ : ControlChannel) (m : Interface)
      → get_elem? s.channels c ≡ some ch
      → length ch.payload ≡ msg_size
      → length d.payload ≡ msg_size
      → msg_type_of (read_le 2 0 d.payload) ≡ some t
      → on_message (delivering os d) c t ≡ (p >> q)
      → p (arrived c ch d s) ≡ done tt s₂
      → At s₂ c j ch₂ m
      → q s₂ ≡ done tt (queue_up c ch₂ reply s₂)
      → (s' : Socket) × (handle_channel_event (delivering os d) c (readable fd) s ≡ done tt s')
        × At s' c j (record ch₂ { msg_queue = [] }) m
  handled p q reply t fd s s₂ ch ch₂ m there full whole type branch took here told =
      let s₃ = queue_up c ch₂ reply s₂ in
      let ch₃ = add ch₂ (reply ∷ []) in
      let there₃ =
        get_elem?-set_self s₂.channels c ch₃ (lt_length s₂.channels c here.owned.channel) in
      (
        sent_msg (delivering os d) s₃ c ch₃ reply [],
        handle_channel_event-done os willing c d s s₃ ch ch₃ t fd reply [] there full whole type
            (ap (λ (f : M (Unit {0})). f (arrived c ch d s)) branch
              ∙ bind-done p (λ _. q) tt (arrived c ch d s) s₂ took
              ∙ told)
            there₃ (ap (λ (ms : List ControlMsg). ms ++ (reply ∷ [])) here.idle),
        record {
          owned = record {
            channel =
                get_elem?-set_self s₃.channels c (record ch₂ { msg_queue = [] })
                  (lt_length s₃.channels c there₃);
            owner = here.owned.owner;
            interface = here.owned.interface;
          };
          idle = refl;
          full = here.full;
        },
      )
