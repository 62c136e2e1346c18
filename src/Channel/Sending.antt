-- ===== src/Channel/Sending.antt =====
-- Sending what is in the queue of a control channel.
use memif.Prelude.{
  set-set, set_same, ℕ, zero, suc, ◌≡◌, refl, sym, ap, ◌∙◌, arith, List, [], ◌∷◌, ◌++◌, some,
  get_elem?, set, take, length, get_elem?-set_self, lt_length,
}
use memif.Message.{msg_size}
use memif.Types.Os.{Os, Call}
use memif.Channel.{send_msg, send_buffer, passed_fd}
use memif.Socket.{
  Socket, ControlChannel, ControlMsg, done, M, ◌>>=◌, ◌>>◌, return, sys, sys_, get_channel,
  put_channel,
}

-- `n` rounds of sendMsg.
unfoldable pub send_times : Os → ℕ → ℕ → M (Unit {0})
send_times os c zero = return tt
send_times os c (suc n) = do send_msg os c; send_times os c n

-- The request that sends a message, after the requests `calls`.
abbrev pub sending : Os → ℕ → List Call → ControlMsg → Call
sending os fd calls m =
    Call.sendmsg fd (take msg_size (m.buffer ++ os.behind calls)) (passed_fd m.fd)

-- The requests after those that send the messages, first one first.
abbrev pub sent_all : Os → ℕ → List Call → List ControlMsg → List Call
sent_all os fd calls [] = calls
sent_all os fd calls (m ∷ ms) = sent_all os fd (calls ++ (sending os fd calls m ∷ [])) ms

abbrev pub sent_msg : Os → Socket → ℕ → ControlChannel → ControlMsg → List ControlMsg → Socket
sent_msg os s c cc m ms = record s {
  channels = set s.channels c (record cc { msg_queue = ms });
  calls = s.calls ++ (sending os cc.fd s.calls m ∷ []);
}

module _ (os : Os)
    (accepts : (calls : List Call) (c : Call) → ((v : ℕ) × (os.reply calls c ≡ some v))) where
  pub send_msg-first :
      (c : ℕ) (s : Socket) (cc : ControlChannel) (m : ControlMsg) (ms : List ControlMsg)
      → get_elem? s.channels c ≡ some cc
      → cc.msg_queue ≡ m ∷ ms
      → send_msg os c s ≡ done tt (sent_msg os s c cc m ms)
  unfolding send_msg send_buffer sys_ sys get_channel put_channel ◌>>=◌
  send_msg-first c s cc m ms there queue =
      let (v, ok) = accepts s.calls (sending os cc.fd s.calls m) in ground (arith, there, queue, ok)

  -- On a system that accepts every request, sendMsg called once for each message of a channel's
  -- queue empties the queue, and asks the system to send the messages in the order of the queue,
  -- once each, and for nothing else.
  pub send_times-fifo :
      (ms : List ControlMsg) (c : ℕ) (s : Socket) (cc : ControlChannel)
      → get_elem? s.channels c ≡ some cc
      → cc.msg_queue ≡ ms
      → send_times os c (length ms) s
        ≡ done tt (record s {
          channels = set s.channels c (record cc { msg_queue = [] });
          calls = sent_all os cc.fd s.calls ms;
        })
  unfolding send_times ◌>>=◌
  send_times-fifo [] c s cc there queue =
      let e : record cc { msg_queue = [] } ≡ cc = λ i. record cc { msg_queue = sym queue i } in
      let e₁ : set s.channels c (record cc { msg_queue = [] }) ≡ s.channels =
        ap (set s.channels c) e ∙ set_same s.channels c cc there in
      λ i. done tt (record s { channels = sym e₁ i })
  send_times-fifo (m ∷ ms) c s cc there queue =
      let s' = sent_msg os s c cc m ms in
      let rest =
        send_times-fifo ms c s' (record cc { msg_queue = ms })
          (get_elem?-set_self s.channels c _ (lt_length s.channels c there)) refl in
      let e = set-set s.channels c (record cc { msg_queue = ms }) (record cc { msg_queue = [] }) in
      ground (arith, send_msg-first c s cc m ms there queue, rest, e)
