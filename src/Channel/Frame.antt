-- ===== src/Channel/Frame.antt =====
-- What the handling of messages does not touch: an invariant of the socket that reads neither the
-- requests to the system nor the two stores, and that survives the removal of a channel from the
-- list, is kept by every handler of memif-new/memif/control_channel.go.
use memif.Prelude.{ℕ, zero, suc, ◌+◌, List, [], ◌∷◌, ◌++◌, Option, none, some, get_elem?, take}
use memif.Types.{RingType}
use memif.Types.Os.{Os, Call, Cmsg, rights, other, message}
use memif.Message.{MsgType, MsgInit, msg_size, add_region_type, write_add_region}
use memif.Channel.{
  app_name, enqueue, msg_enq_init, msg_enq_add_region, msg_enq_add_ring, msg_enq_connect,
  msg_enq_connected, msg_enq_disconnect, send_buffer, send_msg, passed_fd, send_disconnect,
}
use memif.Socket.{Socket, ControlChannel, ControlMsg, ◌>>=◌, ◌>>◌, return, throw, put_channel}
use memif.Socket.Keeps.{
  Keeps, Keeps-wrap, Keeps-bind, Keeps-get_channel, Keeps-get_interface, Keeps-option, Keeps-return,
  Keeps-throw,
}
use memif.Setup.Frame.{
  Insensitive, frame_rules, sys_-Keeps, channel_interface-Keeps, initialize_regions-Keeps,
  initialize_queues-Keeps,
}
use memif.Link.Frame.{connect-Keeps}
use memif.Channel.Parse.{
  body, parse_hello, parse_init, find_peer, assign, scan_rights, parse_control_msg,
  parse_add_region, parse_add_ring, link_up, parse_connect, parse_connected,
}
use memif.Channel.Dispatch.{enq_regions, enq_rings, on_hello}

module _ {P : Socket → Type 0} (free : Insensitive P) where
  pub enqueue-Keeps :
      (c : ℕ) (t : MsgType) (body : List ℕ) (fd : Option ℕ) → Keeps P (enqueue c t body fd)
  unfolding enqueue
  enqueue-Keeps c t body fd = search frame_rules depth 8

  pub app_name-Keeps : Keeps P app_name
  unfolding app_name
  app_name-Keeps = record { at = λ s h. h }

  send_buffer-Keeps : (os : Os) (fd : ℕ) (m : ControlMsg) → Keeps P (send_buffer os fd m)
  unfolding send_buffer
  send_buffer-Keeps os fd m = record {
    at = λ s h.
        (Keeps-wrap "SYS_SENDMSG: %s" _ (
            sys_-Keeps free os (
              Call.sendmsg fd (take msg_size (m.buffer ++ os.behind s.calls)) (passed_fd m.fd)))).at
          s h;
  }

  send_first-Keeps :
      (os : Os) (c : ℕ) (ch : ControlChannel) (ms : List ControlMsg)
      → Keeps {0} {A = Unit {0}} P (elim ms [
        | [] ↦ return tt
        | msg ∷ rest ↦ do put_channel c (record ch { msg_queue = rest }); send_buffer os ch.fd msg
      ])
  send_first-Keeps os c ch [] = search frame_rules
  send_first-Keeps os c ch (m ∷ ms) = search (frame_rules, send_buffer-Keeps)

  pub send_msg-Keeps : (os : Os) (c : ℕ) → Keeps P (send_msg os c)
  unfolding send_msg
  send_msg-Keeps os c =
      Keeps-bind _ _ (Keeps-get_channel c) λ ch. send_first-Keeps os c ch ch.msg_queue

  pub send_disconnect-Keeps : (os : Os) (c : ℕ) (str : List ℕ) → Keeps P (send_disconnect os c str)
  unfolding send_disconnect msg_enq_disconnect
  send_disconnect-Keeps os c str =
      search (frame_rules, enqueue-Keeps, send_msg-Keeps) depth 20 fits 10000

  pub body-Keeps : (c : ℕ) → Keeps P (body c)
  unfolding body
  body-Keeps c = search frame_rules

  msg_enq_init-Keeps : (c : ℕ) → Keeps P (msg_enq_init c)
  unfolding msg_enq_init
  msg_enq_init-Keeps c = search (frame_rules, app_name-Keeps, enqueue-Keeps) depth 12 fits 5000

  msg_enq_add_region-Keeps : (c k : ℕ) → Keeps P (msg_enq_add_region c k)
  unfolding msg_enq_add_region
  msg_enq_add_region-Keeps c k = Keeps-bind _ _ (channel_interface-Keeps free c) λ i.
      Keeps-bind _ _ (Keeps-get_interface i) λ x.
        Keeps-option (get_elem? x.regions k) _
          (λ r.
            enqueue c add_region_type (write_add_region (record { index = k; size = r.size }))
              (some r.fd))
          (Keeps-throw (message "Invalid region index"))
          λ r.
            enqueue-Keeps c add_region_type (write_add_region (record { index = k; size = r.size }))
              (some r.fd)

  msg_enq_add_ring-Keeps : (c : ℕ) (t : RingType) (k : ℕ) → Keeps P (msg_enq_add_ring c t k)
  unfolding msg_enq_add_ring
  msg_enq_add_ring-Keeps c t k = search (frame_rules, enqueue-Keeps) depth 12 fits 5000

  msg_enq_connect-Keeps : (c : ℕ) → Keeps P (msg_enq_connect c)
  unfolding msg_enq_connect
  msg_enq_connect-Keeps c = search (frame_rules, enqueue-Keeps) depth 12 fits 5000

  pub msg_enq_connected-Keeps : (c : ℕ) → Keeps P (msg_enq_connected c)
  unfolding msg_enq_connected
  msg_enq_connected-Keeps c = search (frame_rules, enqueue-Keeps) depth 12 fits 5000

  enq_regions-Keeps : (c n k : ℕ) → Keeps P (enq_regions c n k)
  unfolding enq_regions
  enq_regions-Keeps c zero k = search frame_rules
  enq_regions-Keeps c (suc n) k =
      Keeps-bind _ _ (msg_enq_add_region-Keeps c k) λ _. enq_regions-Keeps c n (k + 1)

  enq_rings-Keeps : (c : ℕ) (t : RingType) (n k : ℕ) → Keeps P (enq_rings c t n k)
  unfolding enq_rings
  enq_rings-Keeps c t zero k = search frame_rules
  enq_rings-Keeps c t (suc n) k =
      Keeps-bind _ _ (msg_enq_add_ring-Keeps c t k) λ _. enq_rings-Keeps c t n (k + 1)

  pub parse_hello-Keeps : (c : ℕ) → Keeps P (parse_hello c)
  unfolding parse_hello
  parse_hello-Keeps c = search (frame_rules, body-Keeps) depth 16 fits 5000

  pub on_hello-Keeps : (os : Os) (c : ℕ) → Keeps P (on_hello os c)
  unfolding on_hello
  on_hello-Keeps os c =
      search
        (
          frame_rules, parse_hello-Keeps, initialize_regions-Keeps, initialize_queues-Keeps,
          msg_enq_init-Keeps, enq_regions-Keeps, enq_rings-Keeps, msg_enq_connect-Keeps,
        )
        depth 30 fits 10000

  find_peer-Keeps : (c : ℕ) (init : MsgInit) (is : List ℕ) → Keeps P (find_peer c init is)
  unfolding find_peer assign
  find_peer-Keeps c init [] = search frame_rules
  find_peer-Keeps c init (i ∷ is) =
      let rest : Keeps P (find_peer c init is) = find_peer-Keeps c init is in
      search frame_rules depth 16 fits 5000

  pub parse_init-Keeps : (c : ℕ) → Keeps P (parse_init c)
  unfolding parse_init
  parse_init-Keeps c = search (frame_rules, body-Keeps, find_peer-Keeps) depth 12 fits 5000

  scan_rights-Keeps : (ms : List Cmsg) (fd : Option ℕ) → Keeps P (scan_rights ms fd)
  unfolding scan_rights
  scan_rights-Keeps [] fd = search frame_rules
  scan_rights-Keeps (other ∷ ms) fd = scan_rights-Keeps ms fd
  scan_rights-Keeps (rights none ∷ ms) fd = search frame_rules
  scan_rights-Keeps (rights (some []) ∷ ms) fd = scan_rights-Keeps ms fd
  scan_rights-Keeps (rights (some (f ∷ fs)) ∷ ms) fd = scan_rights-Keeps ms (some f)

  received_fd-Keeps :
      (ctl : Option (List Cmsg))
      → Keeps {0} {A = ℕ} P (elim ctl [
        | none ↦ throw (message "syscall.ParseSocketControlMessage: %s")
        | some [] ↦ throw (message "Missing control message")
        | some (m ∷ ms) ↦ do
          fd ← scan_rights (m ∷ ms) none
          elim fd [ none ↦ throw (message "Missing file descriptor") | some f ↦ return f ]
      ])
  received_fd-Keeps none = search frame_rules
  received_fd-Keeps (some []) = search frame_rules
  received_fd-Keeps (some (m ∷ ms)) = Keeps-bind _ _ (scan_rights-Keeps (m ∷ ms) none) λ fd.
      Keeps-option fd _ return (Keeps-throw (message "Missing file descriptor")) λ f. Keeps-return f

  parse_control_msg-Keeps : (c : ℕ) → Keeps P (parse_control_msg c)
  unfolding parse_control_msg
  parse_control_msg-Keeps c =
      Keeps-bind _ _ (Keeps-get_channel c) λ ch. received_fd-Keeps ch.control

  pub parse_add_region-Keeps : (c : ℕ) → Keeps P (parse_add_region c)
  unfolding parse_add_region
  parse_add_region-Keeps c =
      search (frame_rules, body-Keeps, parse_control_msg-Keeps) depth 20 fits 5000

  pub parse_add_ring-Keeps : (c : ℕ) → Keeps P (parse_add_ring c)
  unfolding parse_add_ring
  parse_add_ring-Keeps c =
      search (frame_rules, body-Keeps, parse_control_msg-Keeps) depth 20 fits 5000

  link_up-Keeps : (os : Os) (c : ℕ) (name : List ℕ) → Keeps P (link_up os c name)
  unfolding link_up
  link_up-Keeps os c name = search (frame_rules, connect-Keeps) depth 20 fits 5000

  pub parse_connect-Keeps : (os : Os) (c : ℕ) → Keeps P (parse_connect os c)
  unfolding parse_connect
  parse_connect-Keeps os c = search (frame_rules, body-Keeps, link_up-Keeps)

  pub parse_connected-Keeps : (os : Os) (c : ℕ) → Keeps P (parse_connected os c)
  unfolding parse_connected
  parse_connected-Keeps os c = search (frame_rules, body-Keeps, link_up-Keeps)
