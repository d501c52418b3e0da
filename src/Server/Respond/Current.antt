-- ===== src/Server/Respond/Current.antt =====
-- About `handle_response_to_client` (gateway/src/server.c) and the current connection of a slot.
use mini_project_of_linux_pr.Prelude.{
  ℕ, ◌+◌, ◌%◌, ◌^◌, ◌<◌, ◌≤◌, true, false, some, [], ◌∷◌, ◌++◌, pos, get_elem?, set, ◌≡◌, ◌≢◌, refl,
  ◌∙◌, arith,
}
use mini_project_of_linux_pr.Heap.{Ptr, null, Heap, Cells, has}
use mini_project_of_linux_pr.Types.{Buffer, Response, max_clients, max_payload}
use mini_project_of_linux_pr.Protocol.{header_size, crc_size}
use mini_project_of_linux_pr.Protocol.Packet.{IsPacket, IsBytes, packet_encode-IsPacket}
use mini_project_of_linux_pr.Client.{
  Client, Transmit, check_response_message, packet_response_message,
}
use mini_project_of_linux_pr.Client.Outbox.{IsOutbox, message, enqueued, enqueue_message_appends}
use mini_project_of_linux_pr.Server.{Server}
use mini_project_of_linux_pr.Server.Respond.{Memory, deliver_packet, deliver_slot, deliver}
use mini_project_of_linux_pr.Server.Respond.Stale.{deliver-pos}

module _ {R : Type 0} where
  deliver_slot-current :
      (sv : Server R) (slot : ℕ) (rp : Response) (memory : Memory) (c : Client R)
      → slot < max_clients
      → get_elem? sv.clients slot ≡ some c
      → c.alive ≡ true
      → c.generation ≡ rp.generation
      → deliver_slot sv slot rp memory
        ≡ deliver_packet sv slot c rp memory.1 (packet_response_message rp memory.0)
  unfolding deliver_slot check_response_message
  deliver_slot-current sv slot rp (buffer, p) c small there live same =
      ground (arith, there, live, same)

  -- All but the ends of the list of messages and the number of bytes to send, to which `n` are added.
  pub record SameButOutbox (n : ℕ) (c c' : Client R) : Type 0 where
    pub fd : c'.fd ≡ c.fd
    pub generation : c'.generation ≡ c.generation
    pub alive : c'.alive ≡ c.alive
    pub rate : c'.rate ≡ c.rate
    pub stage : c'.stage ≡ c.stage
    pub data_receive : c'.data_receive ≡ c.data_receive
    pub rx_len : c'.rx_len ≡ c.rx_len
    pub bytes_need_to_send : c'.bytes_need_to_send ≡ (c.bytes_need_to_send + n) % 2 ^ 64
    pub addr : c'.addr ≡ c.addr
    pub last_active_ms : c'.last_active_ms ≡ c.last_active_ms
    pub ssl : c'.ssl ≡ c.ssl
    pub tls_handshake_done : c'.tls_handshake_done ≡ c.tls_handshake_done
    pub tls_read_pending : c'.tls_read_pending ≡ c.tls_read_pending

  -- A response to the connection that its live slot has now, of at most 4096 bytes, with memory for
  -- the packet and for a list node that does not wait already: one packet with its type, request
  -- number and payload goes behind the messages that wait for that client, and its bytes are added to
  -- those to send. Nothing else of that client, no other slot, no other part of the server, and no
  -- memory but the new node and that client's messages changes.
  pub deliver_appends :
      (sv : Server R) (slot : ℕ) (rp : Response) (buffer : Buffer) (p : Ptr) (c : Client R)
      (xs : Cells Transmit)
      → slot < max_clients
      → rp.slot ≡ pos slot
      → get_elem? sv.clients slot ≡ some c
      → c.alive ≡ true
      → c.generation ≡ rp.generation
      → rp.type < 2 ^ 16
      → rp.request_id < 2 ^ 32
      → rp.length ≤ max_payload
      → IsBytes rp.payload rp.length
      → IsOutbox sv.transmit_heap c xs
      → p ≢ null
      → has p xs ≡ false
      → (out : Buffer) × (g : Heap Transmit) × (c' : Client R) × IsPacket out rp.type rp.request_id
          rp.payload rp.length
        × (deliver sv rp (some buffer, p)
            ≡ some (record sv { clients = set sv.clients slot c'; transmit_heap = g }))
        × IsOutbox g c' (xs ++ (p, message out (rp.length + crc_size + header_size)) ∷ [])
        × SameButOutbox (rp.length + crc_size + header_size) c c'
        × ((a : Ptr) → a ≢ p → has a xs ≡ false → g a ≡ sv.transmit_heap a)
  unfolding deliver_packet packet_response_message
  deliver_appends sv slot rp buffer p c xs small es there live same ht hr hl bytes v ne out' =
      let n = rp.length + crc_size + header_size in
      let (out, encoded, packet, _) =
        packet_encode-IsPacket buffer rp.payload (header_size + rp.length + crc_size) rp.type
          rp.request_id rp.length ht hr hl (omega arith) bytes in
      let (g, queued, v', frame) = enqueue_message_appends out n p v ne out' in
      (
        out,
        g,
        enqueued c n p,
        packet,
        deliver-pos sv slot rp (some buffer, p) es
            ∙ deliver_slot-current sv slot rp (some buffer, p) c small there live same
            ∙ rw (encoded, queued) refl,
        v',
        record {
          fd = refl;
          generation = refl;
          alive = refl;
          rate = refl;
          stage = refl;
          data_receive = refl;
          rx_len = refl;
          bytes_need_to_send = refl;
          addr = refl;
          last_active_ms = refl;
          ssl = refl;
          tls_handshake_done = refl;
          tls_read_pending = refl;
        },
        frame,
      )
