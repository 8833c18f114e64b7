-- ===== src/Io/Modbus/Client/Results.antt =====
-- What a transaction can return.
use py2to3_example_project.Prelude.{
  ◌<◌, ℕ, zero, suc, ◌+◌, ◌-◌, ◌≡◌, refl, ap, ◌∙◌, ◌⊎◌, inl, inr, List, [], ◌∷◌, ◌++◌, arith,
  length, ltb, ◌≢◌, Bool-cases,
}
use py2to3_example_project.Prelude.Py.{Raw, text, Result, ok, raise}
use py2to3_example_project.Io.Modbus.Frame.{Frame, build_read_holding}
use py2to3_example_project.Io.Modbus.Bank.{RegisterBank}
use py2to3_example_project.Io.Modbus.Client.{
  Event, Chunk, chunk, recv, Fault, Got, got, fault, join_text, take_chunk, recv_loop, recv_exact,
  Client, transact, read_holding_registers, timed_out, broken, socket_timeout, socket_error, python,
}

take_chunk-next :
    (c : Chunk) (chunks : List (List ℕ)) (es : List Event) (f g : List ℕ → Got Raw × List Event)
    → ((b : ℕ) (bs : List ℕ) → f (b ∷ bs) ≡ g (b ∷ bs))
    → take_chunk c chunks es f ≡ take_chunk c chunks es g
unfolding take_chunk
take_chunk-next timed_out chunks es f g h = refl
take_chunk-next broken chunks es f g h = refl
take_chunk-next (chunk []) chunks es f g h = refl
take_chunk-next (chunk (b ∷ bs)) chunks es f g h = h b bs

-- Fuel above the number of missing bytes is enough: more changes nothing.
pub recv_loop_fuel :
    (fuel n count : ℕ) (chunks : List (List ℕ)) (es : List Event)
    → n - count < fuel
    → recv_loop (suc fuel) n count chunks es ≡ recv_loop fuel n count chunks es
unfolding recv_loop
recv_loop_fuel zero n count chunks es h = absurd (omega arith)
recv_loop_fuel (suc fuel) n count chunks es h = elim (Bool-cases (ltb count n)) [
  | inr done ↦ rw done refl
  | inl more ↦ rw more (
      take_chunk-next (recv (n - count) es).0 chunks (recv (n - count) es).1
        (λ bs.
          recv_loop (suc fuel) n (count + length bs) (chunks ++ bs ∷ []) (recv (n - count) es).1)
        (λ bs. recv_loop fuel n (count + length bs) (chunks ++ bs ∷ []) (recv (n - count) es).1)
        (λ b bs.
          recv_loop_fuel fuel n (count + length (b ∷ bs)) (chunks ++ (b ∷ bs) ∷ [])
            (recv (n - count) es).1 (ground arith)))
]

join_text-got : (chunks : List (List ℕ)) (raw : Raw) → join_text chunks ≡ got raw → raw ≡ text []
unfolding join_text
join_text-got [] raw e = ground arith
join_text-got (c ∷ cs) raw e = ground arith

take_chunk-got :
    (c : Chunk) (chunks : List (List ℕ)) (es : List Event) (next : List ℕ → Got Raw × List Event)
    (raw : Raw)
    → ((bs : List ℕ) → (next bs).0 ≡ got raw → raw ≡ text [])
    → (take_chunk c chunks es next).0 ≡ got raw
    → raw ≡ text []
unfolding take_chunk
take_chunk-got timed_out chunks es next raw h e = absurd (ground arith)
take_chunk-got broken chunks es next raw h e = absurd (ground arith)
take_chunk-got (chunk []) chunks es next raw h e = join_text-got chunks raw e
take_chunk-got (chunk (b ∷ bs)) chunks es next raw h e = h (b ∷ bs) e

recv_loop-got :
    (fuel n count : ℕ) (chunks : List (List ℕ)) (es : List Event) (raw : Raw)
    → (recv_loop fuel n count chunks es).0 ≡ got raw
    → raw ≡ text []
unfolding recv_loop
recv_loop-got zero n count chunks es raw e = join_text-got chunks raw e
recv_loop-got (suc fuel) n count chunks es raw e = elim (Bool-cases (ltb count n)) [
  | inr done ↦ join_text-got chunks raw (rw done at e)
  | inl more ↦
      take_chunk-got (recv (n - count) es).0 chunks (recv (n - count) es).1
        (λ bs. recv_loop fuel n (count + length bs) (chunks ++ bs ∷ []) (recv (n - count) es).1) raw
        (λ bs.
          recv_loop-got fuel n (count + length bs) (chunks ++ bs ∷ []) (recv (n - count) es).1 raw)
        (rw more at e)
]

-- `_recv_exact` ends in a fault, or with the empty text.
pub recv_exact_cases :
    (n : ℕ) (es : List Event)
    → ((f : Fault) × ((recv_exact n es).0 ≡ fault f)) ⊎ ((recv_exact n es).0 ≡ got (text []))
unfolding recv_exact
recv_exact_cases n es = by_result (recv_loop (suc n) n 0 [] es).0 refl
  where
    by_result :
        (r : Got Raw)
        → (recv_loop (suc n) n 0 [] es).0 ≡ r
        → ((f : Fault) × ((recv_loop (suc n) n 0 [] es).0 ≡ fault f))
          ⊎ ((recv_loop (suc n) n 0 [] es).0 ≡ got (text []))
    by_result (fault f) q = inl (f, q)
    by_result (got raw) q = inr (q ∙ ap got (recv_loop-got (suc n) n 0 [] es raw q))

transact-ne-ok :
    (c : Client) (f : Frame) (sent : Got (Unit {0})) (raw : Raw) → (transact c f sent).1 ≢ ok raw
unfolding transact
transact-ne-ok c f (fault x) raw e = by_fault x e
  where
    by_fault : (y : Fault) → (transact c f (fault y)).1 ≢ ok raw
    by_fault socket_timeout h = ground arith
    by_fault socket_error h = ground arith
    by_fault (python x) h = ground arith
transact-ne-ok c f (got u) raw e = elim (recv_exact_cases 7 c.incoming) [
  | inl (g, q) ↦ ground arith
  | inr q ↦ ground arith
]

-- No read of registers ever succeeds, however `send` ends and whatever the device answers: the bytes
-- that arrive cannot be joined to a text.
pub read_holding_registers-ne-ok :
    (c : Client) (start_addr quantity : ℕ) (sent : Got (Unit {0})) (bank : RegisterBank)
    → (read_holding_registers c start_addr quantity sent).1 ≢ ok bank
unfolding read_holding_registers
read_holding_registers-ne-ok c start_addr quantity sent bank e =
    by_frame (build_read_holding c.counter c.unit_id start_addr quantity) refl
  where
    by_frame :
        (r : Result (ℕ × Frame))
        → build_read_holding c.counter c.unit_id start_addr quantity ≡ r
        → ⊥
    by_frame (raise x) q = ground arith
    by_frame (ok (counter, frame)) q =
        by_answer (transact (record c { counter = counter }) frame sent).1 refl
      where
        by_answer :
            (a : Result Raw) → (transact (record c { counter = counter }) frame sent).1 ≡ a → ⊥
        by_answer (raise x) w = ground arith
        by_answer (ok raw) w = transact-ne-ok (record c { counter = counter }) frame sent raw w
