-- ===== src/Tests/Clients.antt =====
-- The slots and the messages that wait (gateway/src/client.c) at concrete inputs.
use mini_project_of_linux_pr.Prelude.{
  ℕ, true, false, none, some, ◌≡◌, ◌≢◌, refl, arith, List, [], ◌∷◌, pos, minus_one, get_elem?,
  if◌then◌else◌, ◌==◌,
}
use mini_project_of_linux_pr.Heap.{Ptr, null, Heap, node, Cells, has}
use mini_project_of_linux_pr.Types.{Buffer, ok}
use mini_project_of_linux_pr.Protocol.{read_header}
use mini_project_of_linux_pr.Client.{Client, Transmit, close_client}
use mini_project_of_linux_pr.Client.Outbox.{IsOutbox, message}
use mini_project_of_linux_pr.Client.Close.{Emptied, close_client_vacates}
use mini_project_of_linux_pr.Client.Send.{client_flush_tx_tls, wrote, input}
use mini_project_of_linux_pr.Client.Flush.{drained, flush_empties}

abbrev idle : Client ℕ
idle = record {
  fd = minus_one;
  generation = 4;
  alive = false;
  rate = 0;
  stage = read_header;
  data_receive = λ i. 0;
  rx_len = 0;
  tail = null;
  head = null;
  bytes_need_to_send = 0;
  addr = 0;
  last_active_ms = 0;
  ssl = none;
  tls_handshake_done = false;
  tls_read_pending = false;
}

-- two messages wait
abbrev busy_client : Client ℕ
busy_client = record idle {
  fd = pos 9;
  alive = true;
  ssl = some 1;
  tls_handshake_done = true;
  head = 1;
  tail = 2;
  bytes_need_to_send = 5;
}

abbrev slots : List (Client ℕ)
slots = busy_client ∷ idle ∷ []

abbrev body : Buffer
body i = 97

abbrev waiting_heap : Heap Transmit
waiting_heap p =
    if p == 1
    then some (node (message body 3) 2)
    else if p == 2
    then some (node (message body 2) null)
    else none

abbrev waiting_cells : Cells Transmit
waiting_cells = (1, message body 3) ∷ (2, message body 2) ∷ []

busy_client-IsOutbox : IsOutbox waiting_heap busy_client waiting_cells
busy_client-IsOutbox = record {
  links = (omega arith, refl, refl, (omega arith, refl, refl, tt));
  head = refl;
  tail = refl;
}

close_client_vacates_example :
    (cs' : List (Client ℕ)) × (g : Heap Transmit) × (c' : Client ℕ) × (close_client 3 slots
        (pos 0)
        waiting_heap
      ≡ some (ok, some (pos 9), cs', g))
    × ((a : Ptr) → g a ≡ (if has a waiting_cells then none else waiting_heap a))
    × (get_elem? cs' 0 ≡ some c')
    × Emptied busy_client c'
    × ((j : ℕ) → 0 ≢ j → get_elem? cs' j ≡ get_elem? slots j)
close_client_vacates_example =
    close_client_vacates 3 0 slots refl busy_client-IsOutbox (omega arith) refl

flush_empties_example :
    (g : Heap Transmit) × (client_flush_tx_tls 2 50 busy_client waiting_heap (wrote 3 ∷ [])
      ≡ some (
        pos 0,
        some input,
        drained 1 (message body 3) ((2, message body 2) ∷ []) busy_client-IsOutbox (omega arith) 50,
        g,
        [],
      ))
flush_empties_example =
    flush_empties 1 (message body 3) ((2, message body 2) ∷ []) busy_client-IsOutbox (omega arith) 0
      50 [] (omega arith)
