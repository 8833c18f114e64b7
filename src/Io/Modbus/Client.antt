-- ===== src/Io/Modbus/Client.antt =====
-- ModbusClient: one transaction. A socket is the list of what its calls of `recv` meet: bytes (at
-- least one), the end of the stream, a timeout or an error; what comes after the list is the end of
-- the stream. Byte strings are Python's: `"".join` of bytes raises TypeError.
pub mod Results
use py2to3_example_project.Prelude.{
  ℕ, zero, suc, ◌+◌, ◌-◌, ◌%◌, ◌≡◌, refl, ap, ◌∙◌, ◌⊎◌, inl, inr, Bool, false, List, [], ◌∷◌, ◌++◌,
  arith, length, ltb, leb, if◌then◌else◌, take, drop, ◌≢◌, Bool-cases,
}
use py2to3_example_project.Prelude.Py.{
  Exc, Raw, bytes, text, elements, Result, ok, raise, ◌>>=◌, modbus_error, type_error, index_error,
}
use py2to3_example_project.Prelude.Struct.{slice, slice_raw, big_endian}
use py2to3_example_project.Io.Modbus.Frame.{
  Frame, to_tcp_adu, build_read_holding, build_write_single,
}
use py2to3_example_project.Io.Modbus.Bank.{RegisterBank, new_bank}

pub data Event : Type 0 where
  received : (first : ℕ) (rest : List ℕ) → Event
  closed timeout failed : Event

-- What a call of `recv(n)` gives: at most `n` bytes, and the rest of a longer event stays.
pub data Chunk : Type 0 where
  chunk : List ℕ → Chunk
  timed_out broken : Chunk

unfoldable pub recv : ℕ → List Event → Chunk × List Event
recv n [] = (chunk [], [])
recv n (closed ∷ es) = (chunk [], closed ∷ es)
recv n (timeout ∷ es) = (timed_out, es)
recv n (failed ∷ es) = (broken, es)
recv n (received b bs ∷ es) = elim (drop n (b ∷ bs)) [
  | [] ↦ (chunk (take n (b ∷ bs)), es)
  | c ∷ cs ↦ (chunk (take n (b ∷ bs)), received c cs ∷ es)
]

-- The two exceptions of the socket, beside the platform's.
pub data Fault : Type 0 where
  socket_timeout socket_error : Fault
  python : Exc → Fault

pub data Got {ℓ} (A : Type ℓ) : Type ℓ where
  got : A → Got A
  fault : Fault → Got A

-- `"".join(chunks)`
unfoldable pub join_text : List (List ℕ) → Got Raw
join_text [] = got (text [])
join_text (c ∷ cs) = fault (python type_error)

-- The body of the loop, on what `recv` gave; the bytes go to the next round.
pub take_chunk :
    Chunk → List (List ℕ) → List Event → (List ℕ → Got Raw × List Event) → Got Raw × List Event
take_chunk timed_out chunks es next = (fault socket_timeout, es)
take_chunk broken chunks es next = (fault socket_error, es)
take_chunk (chunk []) chunks es next = (join_text chunks, es)
take_chunk (chunk (b ∷ bs)) chunks es next = next (b ∷ bs)

-- The `while got < n` loop. A round that goes on receives a byte.
pub recv_loop : ℕ → (n count : ℕ) → List (List ℕ) → List Event → Got Raw × List Event
unfolding recv join_text take_chunk
recv_loop zero n count chunks es = (join_text chunks, es)
recv_loop (suc fuel) n count chunks es =
    if ltb count n
    then take_chunk (recv (n - count) es).0 chunks (recv (n - count) es).1
        (λ bs. recv_loop fuel n (count + length bs) (chunks ++ bs ∷ []) (recv (n - count) es).1)
    else (join_text chunks, es)

unfoldable pub recv_exact : ℕ → List Event → Got Raw × List Event
unfolding recv_loop
recv_exact n es = recv_loop (suc n) n 0 [] es

pub record Client : Type 0 where
  pub unit_id : ℕ
  pub connected : Bool
  pub counter : ℕ
  pub incoming : List Event

-- What the `except` clauses of `_transact` make of a fault, and the `_connected` flag after it.
abbrev handle {ℓ} : {A : Type ℓ} → Client → Fault → Client × Result A
handle c socket_timeout = (c, raise modbus_error)
handle c socket_error = (record c { connected = false }, raise modbus_error)
handle c (python e) = (c, raise e)

-- `_recv_exact(length - 1)`, after the header has been unpacked.
unfoldable pub receive_body : Client → Raw → Client × Result Raw
receive_body c (text cs) = (c, raise type_error)
receive_body c (bytes hdr) =
    let (r, es) = recv_exact (big_endian 0 (slice 4 6 hdr) - 1) c.incoming in
    let c' : Client = record c { incoming = es } in
    elim r [ fault f ↦ handle c' f | got raw ↦ (c', ok raw) ]

-- `sent` is how `send` ends: it returns, or a timeout or an error of the socket is raised.
unfoldable pub transact : Client → Frame → (sent : Got (Unit {0})) → Client × Result Raw
transact c f sent =
    if c.connected
    then elim (to_tcp_adu f) [
      | raise e ↦ (c, raise e)
      | ok adu ↦ elim sent [
        | fault e ↦ handle c e
        | got u ↦
            let (r, es) = recv_exact 7 c.incoming in
            let c' : Client = record c { incoming = es } in
            elim r [
              | fault e ↦ handle c' e
              | got hdr ↦
                  if ltb (length (elements hdr)) 7
                  then (c', raise modbus_error)
                  else receive_body c' hdr
            ]
      ]
    ]
    else (c, raise modbus_error)

-- `ord(response[0])`: a text gives the code, bytes give an int, on which `ord` raises TypeError.
abbrev ord_at : ℕ → Raw → Result ℕ
ord_at i (bytes cs) = raise type_error
ord_at i (text cs) = elim (slice i (i + 1) cs) [ [] ↦ raise index_error | c ∷ _ ↦ ok c ]

read_response : ℕ → Raw → Result RegisterBank
unfolding new_bank
read_response start_addr response =
    if ltb (length (elements response)) 2 then raise modbus_error else do
      resp_fc ← ord_at 0 response
      byte_count ← ord_at 1 response
      if leb 128 (resp_fc % 256)
          then raise modbus_error
          else ok (new_bank start_addr (slice_raw 2 (2 + byte_count) response))

unfoldable pub read_holding_registers :
    Client → (start_addr quantity : ℕ) → (sent : Got (Unit {0})) → Client × Result RegisterBank
unfolding read_response
read_holding_registers c start_addr quantity sent =
    elim (build_read_holding c.counter c.unit_id start_addr quantity) [
      | raise e ↦ (c, raise e)
      | ok (counter, frame) ↦
          let (c', r) = transact (record c { counter = counter }) frame sent in
          (c', r >>= read_response start_addr)
    ]

write_response : Raw → Result (Unit {0})
write_response response = do
  code ← ord_at 0 response
  if leb 128 (code % 256) then (ord_at 1 response >>= λ _. raise modbus_error) else ok tt

unfoldable pub write_single_register :
    Client → (address value : ℕ) → (sent : Got (Unit {0})) → Client × Result (Unit {0})
unfolding write_response
write_single_register c address value sent =
    elim (build_write_single c.counter c.unit_id address value) [
      | raise e ↦ (c, raise e)
      | ok (counter, frame) ↦
          let (c', r) = transact (record c { counter = counter }) frame sent in
          (c', r >>= write_response)
    ]
