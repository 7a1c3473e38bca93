-- ===== src/Rtsp/Reader/Tests.antt =====
-- The session theorem at a line, a packet and a line, of which each `read` returns three bytes.
use gaminganywhere.Base.{
  ℕ, ◌≡◌, refl, arith, List, [], ◌∷◌, Option, some, length, map, replicate, length-replicate,
}
use gaminganywhere.Rtsp.Reader.{Bytes, Conn, message}
use gaminganywhere.Rtsp.Reader.Stream.{IsConn, Reliable}
use gaminganywhere.Rtsp.Reader.Session.{
  Item, line, binary, bytes_of, sent, AllItems, calls, calls-items,
}

-- `replicate`, shut, so that the buffer is not spelled out
zeros : ℕ → Bytes
zeros n = replicate n 0

length-zeros : (n : ℕ) → length (zeros n) ≡ n
unfolding zeros
length-zeros n = length-replicate n 0

abbrev items : List Item
items = line (79 ∷ 75 ∷ 13 ∷ []) ∷ binary 1 0 2 (7 ∷ 10 ∷ []) ∷ line [] ∷ []

abbrev start : Conn
start = record {
  rbuffer = [];
  rbufhead = 0;
  rbuftail = 0;
  rbufsize = 0;
  pending = sent items;
  reads = 0;
}

abbrev opened : Conn
opened = record start { rbuffer = zeros 65536; rbufsize = 65536 }

abbrev block : ℕ → Option Bytes
block n = some (zeros n)

opened-IsConn : IsConn opened
opened-IsConn = record {
  memory = length-zeros 65536;
  order = omega arith;
  inside = omega arith;
  empty = λ e. e;
}

three-Reliable : Reliable (λ k. 3)
three-Reliable k = omega arith

items-AllItems : AllItems 8192 items
items-AllItems = ground arith

calls-items_example :
    calls (λ k. 3) block 20 8192 (length items) start ≡ map (λ i. message (bytes_of i)) items
calls-items_example =
    calls-items (λ k. 3) block 20 8192 start opened items three-Reliable refl opened-IsConn
      (omega arith) (omega arith) items-AllItems refl (omega arith)
