-- ===== src/Io/Mqtt/Listener.antt =====
-- MqttListener: its packets and its operations. Byte strings and texts do not add up. A topic is
-- given by its code points, and by its levels where a filter is matched.
use Prim.Native.String.{String}
use py2to3_example_project.Prelude.{
  ℕ, ◌+◌, ◌%◌, ◌^◌, ◌≡◌, refl, Bool, true, false, Option, none, some, List, [], ◌∷◌, ◌++◌, arith,
  ltb, ◌==◌, if◌then◌else◌, length,
}
use py2to3_example_project.Prelude.Py.{
  Raw, bytes, text, elements, Result, ok, raise, ◌>>=◌, type_error, struct_error, mqtt_error,
}
use py2to3_example_project.Prelude.Struct.{pack_u8, pack_u16, pack_u16_le}
use py2to3_example_project.Io.Mqtt.Length.{el, dl}
use py2to3_example_project.Io.Mqtt.Subscription.{Subscription, new_subscription}

-- `a + b` of byte strings or texts.
abbrev join : Raw → Raw → Result Raw
join (bytes xs) (bytes ys) = ok (bytes (xs ++ ys))
join (text xs) (text ys) = ok (text (xs ++ ys))
join (bytes xs) (text ys) = raise type_error
join (text xs) (bytes ys) = raise type_error

abbrev packed : Result (List ℕ) → Result Raw
packed r = r >>= λ bs. ok (bytes bs)

-- `_el`, out of its fuel.
abbrev el_of : ℕ → Result Raw
el_of n = elim (el n) [ none ↦ raise struct_error | some r ↦ r ]

-- "MQTT"
abbrev mqtt : Raw
mqtt = text (77 ∷ 81 ∷ 84 ∷ 84 ∷ [])

unfoldable pub mk_connect : (client_id : List ℕ) → (keepalive : ℕ) → Result Raw
unfolding el pack_u16 pack_u8 pack_u16_le
mk_connect client_id keepalive = do
  size ← packed (pack_u16 4)
  name ← join size mqtt
  level ← packed (pack_u16_le keepalive)
  vh ← join name (bytes (4 ∷ 2 ∷ elements level))
  id_size ← packed (pack_u16 (length client_id))
  pl ← join id_size (text client_id)
  kind ← packed (pack_u8 16)
  rem ← el_of (length (elements vh) + length (elements pl))
  head ← join kind rem
  rest ← join head vh
  join rest pl

unfoldable pub mk_sub : (count : ℕ) → (topic : List ℕ) → (qos : ℕ) → Result Raw
unfolding el pack_u16 pack_u8
mk_sub count topic qos = do
  vh ← packed (pack_u16 ((count + 1) % 2 ^ 16))
  size ← packed (pack_u16 (length topic))
  name ← join size (text topic)
  level ← packed (pack_u8 qos)
  pl ← join name level
  kind ← packed (pack_u8 130)
  rem ← el_of (length (elements vh) + length (elements pl))
  head ← join kind rem
  rest ← join head vh
  join rest pl

unfoldable pub mk_pub : (topic : List ℕ) → (payload : Raw) → Result Raw
unfolding el pack_u16 pack_u8
mk_pub topic payload = do
  size ← packed (pack_u16 (length topic))
  vh ← join size (text topic)
  kind ← packed (pack_u8 48)
  rem ← el_of (length (elements vh) + length (elements payload))
  head ← join kind rem
  rest ← join head vh
  join rest payload

-- `_rx` on the bytes that are still to come; None at the end of the stream.
unfoldable pub rx : List ℕ → Result (Option Raw)
unfolding dl
rx [] = ok none
rx (first ∷ stream) =
    let (rem, rest) = dl stream in
    if rem == 0
    then (join (bytes (first ∷ [])) (text (0 ∷ [])) >>= λ r. ok (some r))
    else elim rest [
      | [] ↦ ok none
      | c ∷ cs ↦ (join (text []) (bytes (c ∷ [])) >>= λ r. ok (some r))
    ]

pub record Listener : Type 0 where
  pub client_id : List ℕ
  pub keepalive : ℕ
  pub has_socket : Bool
  pub up : Bool
  pub on : Bool
  pub subs : List (Subscription Raw)
  pub received : ℕ

unfoldable pub new_listener : (client_id : List ℕ) → (keepalive : ℕ) → Listener
new_listener client_id keepalive = record {
  client_id = client_id;
  keepalive = keepalive;
  has_socket = false;
  up = false;
  on = false;
  subs = [];
  received = 0;
}

-- What follows the acknowledgement; `ord` refuses an element of bytes.
abbrev check_ack : Listener → Result (Option Raw) → Listener × Result (Unit {0})
check_ack l (raise e) = (l, raise e)
check_ack l (ok none) = (l, raise mqtt_error)
check_ack l (ok (some (bytes cs))) =
    (l, if ltb (length cs) 4 then raise mqtt_error else raise type_error)
check_ack l (ok (some (text cs))) = if ltb (length cs) 4 then (l, raise mqtt_error) else elim cs [
  | a ∷ b ∷ c ∷ rc ∷ rest ↦
      if rc == 0 then (record l { up = true }, ok tt) else (l, raise mqtt_error)
  | _ ↦ (l, raise mqtt_error)
]

-- `reachable` says whether the socket connects; `stream` is what the broker sends.
unfoldable pub connect :
    Listener → (reachable : Bool) → (stream : List ℕ) → Listener × Result (Unit {0})
unfolding mk_connect rx
connect l reachable stream =
    let l' : Listener = record l { has_socket = true } in
    if reachable
    then elim (mk_connect l.client_id l.keepalive) [
      | raise e ↦ (l', raise e)
      | ok packet ↦ check_ack l' (rx stream)
    ]
    else (l', raise mqtt_error)

unfoldable pub disconnect : Listener → Listener
disconnect l =
    if l.up
    then record l { on = false; has_socket = false; up = false }
    else record l { on = false }

unfoldable pub subscribe :
    Listener
    → (levels : List String) → (topic : List ℕ) → (qos : ℕ) → (stream : List ℕ)
    → Listener × Result (Subscription Raw)
unfolding new_subscription mk_sub rx
subscribe l levels topic qos stream =
    if l.up
    then (let sub = new_subscription levels qos 10000 in
        let l' : Listener = record l { subs = l.subs ++ sub ∷ [] } in
        (l', (mk_sub l.received topic qos >>= λ packet. rx stream >>= λ answer. ok sub)))
    else (l, raise mqtt_error)

unfoldable pub publish : Listener → (topic : List ℕ) → (payload : Raw) → Result (Unit {0})
unfolding mk_pub
publish l topic payload =
    if l.up then (mk_pub topic payload >>= λ packet. ok tt) else raise mqtt_error

unfoldable pub start_listener : Listener → Listener
start_listener l = record l { on = true }

unfoldable pub stop_listener : Listener → Listener
stop_listener l = record l { on = false }

-- A call of the listener's interface.
pub data Step (l : Listener) : Listener → Type 0 where
  connecting : (reachable : Bool) (stream : List ℕ) → Step l (connect l reachable stream).0
  disconnecting : Step l (disconnect l)
  subscribing :
      (levels : List String) (topic : List ℕ) (qos : ℕ) (stream : List ℕ)
      → Step l (subscribe l levels topic qos stream).0
  starting : Step l (start_listener l)
  stopping : Step l (stop_listener l)

pub data Reach (l : Listener) : Listener → Type 0 where
  here : Reach l l
  next : {m n : Listener} → Reach l m → Step m n → Reach l n

-- The listener is not connected and has no subscription.
abbrev pub IsDown : Listener → Type 0
IsDown l = (l.up ≡ false) × (l.subs ≡ [])

Step-IsDown : {l m : Listener} → Step l m → IsDown l → IsDown m
Step-IsDown {l} (connecting reachable stream) d = unfold connect mk_connect pack_u16 in ground arith
Step-IsDown {l} disconnecting d = unfold disconnect in ground arith
Step-IsDown {l} (subscribing levels topic qos stream) d = unfold subscribe in ground arith
Step-IsDown {l} starting d = unfold start_listener in d
Step-IsDown {l} stopping d = unfold stop_listener in d

Reach-IsDown : {l m : Listener} → Reach l m → IsDown l → IsDown m
Reach-IsDown here d = d
Reach-IsDown (next r s) d = Step-IsDown s (Reach-IsDown r d)

-- Whatever is called on a new listener, and whatever the broker sends, it never gets connected: a
-- connect to a broker that is reached raises TypeError, and every publish raises MqttError.
pub Reach-up :
    (client_id : List ℕ) (keepalive : ℕ) {l : Listener} (stream topic : List ℕ) (payload : Raw)
    → Reach (new_listener client_id keepalive) l
    → (l.up ≡ false)
      × ((connect l true stream).1 ≡ raise type_error)
      × (publish l topic payload ≡ raise mqtt_error)
unfolding new_listener
Reach-up client_id keepalive {l} stream topic payload r =
    let down = Reach-IsDown r (refl, refl) in
    (down.0, (unfold connect mk_connect pack_u16 in ground arith), unfold publish in ground arith)
