-- ===== src/Tests/Attach.antt =====
-- The command memif-attach, and the loop that asks for a connection.
use memif.Prelude.{◌≡◌, refl, false, true, [], ◌++◌, none, some, replicate}
use memif.Bytes.{to_le}
use memif.Message.{MsgHello, write_hello, msg_type_code, hello_type}
use memif.Socket.{Socket, done}
use memif.Channel.Dispatch.{parse_msg}
use memif.Apps.Attach.{HelloMsg, handle_hello_msg, encode_init_msg}
use memif.Apps.Attach.Meets.{handle_hello_msg-swaps, parse_msg-refuses}
use memif.Apps.Vpp.{
  Vpp, memif_socket_filename_add_del, memif_create, sw_interface_set_flags, memif_dump, goes,
  attach, requests, attach_silent,
}
use memif.Apps.Start.{connect_loop}
use memif.Apps.Connect.{Ended, connect_loop_ends}
use memif.Tests.Data.{quiet_os, socket, channel, interface_with}

-- Version 2.0 only, as the library's masters say it.
abbrev hello : MsgHello
hello = record {
  name = replicate 32 65;
  version_min = 512;
  version_max = 512;
  max_region = 256;
  max_ring_m2s = 255;
  max_ring_s2m = 255;
  max_log2_ring_size = 14;
}

-- What memif-attach reads of it.
abbrev read_hello : HelloMsg
read_hello = record {
  ack = 512;
  name = replicate 32 65;
  min_version = 2;
  max_version = 2;
  max_region = 1;
  max_m2s_ring = 65280;
  max_s2m_ring = 65280;
  max_log2_ring_size = 14;
}

handle_hello_msg-swaps_example :
    handle_hello_msg (to_le 2 (msg_type_code hello_type) ++ (write_hello hello ++ replicate 83 0))
    ≡ some read_hello
unfolding msg_type_code
handle_hello_msg-swaps_example = handle_hello_msg-swaps hello (replicate 83 0) refl

-- A socket whose one channel has received the init message.
abbrev asked : Socket
asked = socket (interface_with true []) none (encode_init_msg read_hello ++ []) []

parse_msg-refuses_example : ¬ ((s' : Socket) × (parse_msg quiet_os 0 asked ≡ done tt s'))
parse_msg-refuses_example =
    parse_msg-refuses quiet_os 0 (channel none (encode_init_msg read_hello ++ []) []) read_hello []
      asked refl refl

connect_loop_ends_example :
    Ended (connect_loop 2 quiet_os 0 (socket (interface_with false []) none [] []))
    × (connect_loop 5 quiet_os 0 (socket (interface_with false []) none [] [])
        ≡ connect_loop 2 quiet_os 0 (socket (interface_with false []) none [] []))
connect_loop_ends_example =
    connect_loop_ends quiet_os 0 3 (socket (interface_with false []) none [] [])

-- A VPP that does not set up the interface.
abbrev careless : Vpp
careless rs (memif_socket_filename_add_del b n f) = some 0
careless rs (memif_create role n) = some 7
careless rs (sw_interface_set_flags n) = none
careless rs memif_dump = some 0

-- A hello message of zeros.
abbrev blank_hello : HelloMsg
blank_hello = record {
  ack = 0;
  name = replicate 32 0;
  min_version = 0;
  max_version = 0;
  max_region = 0;
  max_m2s_ring = 0;
  max_s2m_ring = 0;
  max_log2_ring_size = 0;
}

blank_read : handle_hello_msg (replicate 45 0) ≡ some blank_hello
unfolding handle_hello_msg
blank_read = refl

attach_silent_example :
    attach careless none (λ path. some (replicate 45 0)) true [] ≡ goes [] (requests 7)
attach_silent_example =
    attach_silent careless (λ path. some (replicate 45 0)) true 0 7 0 (replicate 45 0) blank_hello
      refl refl refl refl blank_read
