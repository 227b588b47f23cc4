-- ===== src/Ax25.antt =====
-- ax25.h and ax25.cpp: AX.25 addresses and packets. The member `data` is `payload` here.
pub mod Address
pub mod Packet
use ham_router.Common.{
  ℕ, zero, suc, ◌+◌, ◌-◌, ◌*◌, ◌/◌, ◌%◌, bit_or, List, [], ◌∷◌, ◌++◌, length, get_or, take, drop,
  Bool, true, false, not, ◌&&◌, ◌||◌, ltb, leb, ◌==◌, if◌then◌else◌, Option, none, some,
}
use ham_router.Buffer.{Buffer, make, assign}

-- `ssid` is a character, as its byte.
pub record Ax25Address : Type 0 where
  pub valid : Bool
  pub address : List ℕ
  pub ssid : ℕ
  pub end_mark : Bool
  pub repeated : Bool

-- `ax25_address()`
abbrev pub no_address : Ax25Address
no_address = record { valid = false; address = []; ssid = b'0'; end_mark = false; repeated = false }

-- The loop over the characters of an address: whether it came to its end, and the address so far.
unfoldable pub read_callsign : ℕ → List ℕ → Bool → List ℕ → Bool × List ℕ
read_callsign zero from end address = (true, address)
read_callsign (suc n) [] end address = (false, address)
read_callsign (suc n) (b ∷ from) end address =
    let c = b / 2 in
    let stop = c == 0 || c == 32 || end in
    let rest = read_callsign n from stop (if stop then address else address ++ c ∷ []) in
    if b % 2 == 1 then (false, address) else rest

-- `ax25_address(from)`; a byte with its lowest bit set ends it early.
unfoldable pub ax25_address : List ℕ → Ax25Address
unfolding read_callsign
ax25_address from =
    let (whole, address) = read_callsign 6 from false [] in
    let last = get_or from 6 0 in
    if ltb (length from) 7
    then no_address
    else if whole
    then record {
      valid = true;
      address = address;
      ssid = b'0' + last / 2 % 16;
      end_mark = last % 2 == 1;
      repeated = last / 128 % 2 == 1;
    }
    else record no_address { address = address }

-- The constructor with four arguments. Its `ssid` is not used: the member is set to `true`.
unfoldable pub make_address : List ℕ → ℕ → Bool → Bool → Ax25Address
make_address a ssid end_mark repeated = record {
  valid = true;
  address = a;
  ssid = 1;
  end_mark = end_mark;
  repeated = repeated;
}

-- `operator=` marks what it is given to as valid.
unfoldable pub assign_address : Ax25Address → Ax25Address
assign_address a = record a { valid = true }

unfoldable pub set_address : List ℕ → ℕ → Ax25Address → Ax25Address
set_address address ssid a = record a { address = address; ssid = ssid }

-- The loops of `generate_address`: the characters, then spaces.
unfoldable pub put_callsign : ℕ → List ℕ → List ℕ
put_callsign zero address = []
put_callsign (suc n) [] = (32 * 2) ∷ put_callsign n []
put_callsign (suc n) (c ∷ address) = (c * 2 % 256) ∷ put_callsign n address

abbrev pub bit : Bool → ℕ → ℕ
bit b v = if b then v else 0

unfoldable pub generate_address : Ax25Address → List ℕ
unfolding put_callsign
generate_address a =
    put_callsign 6 a.address
    ++ (bit_or (bit_or (a.ssid * 2) (bit a.end_mark 1)) (bit a.repeated 128) % 256) ∷ []

pub record Ax25 : Type 0 where
  pub valid : Bool
  pub from : Ax25Address
  pub to : Ax25Address
  pub seen_by : List Ax25Address
  pub control : ℕ
  pub msg_nr : Option ℕ
  pub pid : Option ℕ
  pub payload : Buffer

-- `ax25()`
abbrev pub no_packet : Ax25
no_packet = record {
  valid = false;
  from = no_address;
  to = no_address;
  seen_by = [];
  control = 0;
  msg_nr = none;
  pid = none;
  payload = make [];
}

-- What `ax25(in)` comes to: a packet, or a read behind the end of `in`.
pub data Parsed : Type 0 where
  packet : Ax25 → Parsed
  past_end : Parsed

-- The loop over the digipeaters. It returns early (`inl`) at one that is not valid.
pub data Digipeaters : Type 0 where
  early : List Ax25Address → Digipeaters
  through : ℕ → List Ax25Address → Digipeaters
  outside : Digipeaters

unfoldable pub read_seen_by : ℕ → List ℕ → Bool → ℕ → List Ax25Address → Digipeaters
read_seen_by zero input end_mark offset seen_by = through offset seen_by
read_seen_by (suc n) input end_mark offset seen_by =
    let a = ax25_address (take 7 (drop offset input)) in
    let rest = read_seen_by n input a.end_mark (offset + 7) (seen_by ++ a ∷ []) in
    if end_mark
    then through offset seen_by
    else if ltb (length input) (offset + 7)
    then outside
    else if not a.valid
    then early seen_by
    else rest

-- An optional byte of the header: the value, and where it leaves the offset.
unfoldable pub optional_byte : Bool → List ℕ → ℕ → Option ℕ × ℕ
optional_byte present input offset =
    if present then (some (get_or input offset 0), offset + 1) else (none, offset)

-- From the control byte on. The control byte goes to a local variable, not to the member. The data
-- are taken if two bytes of them are there.
unfoldable pub read_body : List ℕ → ℕ → Ax25 → Parsed
unfolding optional_byte
read_body input offset p =
    let control = get_or input offset 0 in
    let type = control % 4 in
    let (msg_nr, offset_nr) = optional_byte (type == 0 || type == 1) input (offset + 1) in
    let (pid, offset_pid) = optional_byte (type == 0 || type == 3) input offset_nr in
    if ltb (length input) offset_pid
    then past_end
    else packet (record p {
      msg_nr = msg_nr;
      pid = pid;
      payload =
          if ltb offset_pid (length input - 1)
          then assign p.payload (make (drop offset_pid input))
          else p.payload;
      valid = true;
    })

-- `ax25(in)` when both addresses are assigned.
unfoldable pub read_packet : List ℕ → Ax25Address → Ax25Address → Parsed
unfolding read_seen_by
read_packet input to from =
    let p = record no_packet { to = to } in
    let q = record p { from = from } in
    if not to.valid
    then packet p
    else if not from.valid
    then packet q
    else elim (read_seen_by 2 input from.end_mark 14 []) [
      | early seen_by ↦ packet (record q { seen_by = seen_by })
      | outside ↦ past_end
      | through offset seen_by ↦ read_body input offset (record q { seen_by = seen_by })
    ]

-- `ax25(in)`
unfoldable pub ax25 : List ℕ → Parsed
ax25 input =
    if ltb (length input) 14
    then packet no_packet
    else read_packet input (assign_address (ax25_address (take 7 input)))
        (assign_address (ax25_address (take 7 (drop 7 input))))

unfoldable pub set_from : List ℕ → ℕ → Bool → Bool → Ax25 → Ax25
set_from callsign ssid end_mark repeated p = record p {
  from = assign_address (make_address callsign ssid end_mark repeated);
}

unfoldable pub set_to : List ℕ → ℕ → Bool → Bool → Ax25 → Ax25
set_to callsign ssid end_mark repeated p = record p {
  to = assign_address (make_address callsign ssid end_mark repeated);
}

unfoldable pub set_control : ℕ → Ax25 → Ax25
set_control control p = record p { control = control }

unfoldable pub set_pid : ℕ → Ax25 → Ax25
set_pid pid p = record p { pid = some pid }

unfoldable pub set_data : List ℕ → Ax25 → Ax25
set_data bytes p = record p { payload = assign p.payload (make bytes) }

-- `value()` of an empty optional throws (`none`).
unfoldable pub put_optional : Bool → Option ℕ → List ℕ → Option (List ℕ)
put_optional false v out = some out
put_optional true none out = none
put_optional true (some v) out = some (out ++ v ∷ [])

abbrev pub and_put : Option (List ℕ) → (List ℕ → Option (List ℕ)) → Option (List ℕ)
and_put none k = none
and_put (some out) k = k out

-- The digipeaters are not written.
unfoldable pub generate_packet : Ax25 → Option (List ℕ)
unfolding put_optional
generate_packet p =
    let type = p.control % 4 in
    let header = generate_address p.to ++ generate_address p.from ++ p.control ∷ [] in
    and_put (put_optional (type == 0 || type == 1) p.msg_nr header) (λ out.
      and_put (put_optional (type == 0 || type == 3) p.pid out) (λ out. some (out ++ p.payload.p)))
