-- ===== src/Kiss/Stuffing.antt =====
-- The frame as a plain function of the packet: its length, and where FEND may stand.
use ham_router.Common.{
  ℕ, ◌+◌, ◌*◌, ◌%◌, ◌^◌, ◌≤◌, ◌<◌, bit_or, List, [], ◌∷◌, ◌++◌, length, ◌==◌, if◌then◌else◌, ◌≡◌,
  ◌≢◌, refl, sym, ap, ◌∙◌, arith, append_assoc, append-nil, length-append, All, All-append,
}
use ham_router.Common.Bits.{bit_or_fields}
use ham_router.Kiss.{fend, fesc, tfend, tfesc, escape_put, put_all, frame, max_len}

-- One byte on the line.
unfoldable pub stuffed : ℕ → List ℕ
stuffed c = if c == fend then fesc ∷ tfend ∷ [] else if c == fesc then fesc ∷ tfesc ∷ [] else c ∷ []

unfoldable pub stuffed_all : List ℕ → List ℕ
unfolding stuffed
stuffed_all [] = []
stuffed_all (c ∷ cs) = stuffed c ++ stuffed_all cs

escape_put-stuffed : (p : List ℕ) (c : ℕ) → escape_put p c ≡ p ++ stuffed c
unfolding escape_put stuffed
escape_put-stuffed p c = ground arith

put_all-stuffed : (out cs : List ℕ) → put_all out cs ≡ out ++ stuffed_all cs
unfolding put_all stuffed_all
put_all-stuffed out [] = sym (append-nil out)
put_all-stuffed out (c ∷ cs) =
    put_all-stuffed (escape_put out c) cs
    ∙ ap (λ o. o ++ stuffed_all cs) (escape_put-stuffed out c)
    ∙ append_assoc out (stuffed c) (stuffed_all cs)

-- The command byte: the channel above, the command below.
command_byte :
    (cmd channel : ℕ)
    → cmd < 16
    → channel < 16
    → bit_or (channel * 2 ^ 4) cmd % 256 ≡ channel * 16 + cmd
command_byte cmd channel h k = omega (arith, bit_or_fields 4 channel cmd h)

-- A frame is the command byte and the packet, escaped, between two FENDs.
pub frame-stuffed :
    (cmd channel : ℕ) (p : List ℕ)
    → cmd < 16
    → channel < 16
    → frame cmd channel p ≡ fend ∷ stuffed_all ((channel * 16 + cmd) ∷ p) ++ fend ∷ []
unfolding frame
frame-stuffed cmd channel p h k =
    ap (λ o. o ++ fend ∷ [])
      (put_all-stuffed (escape_put (fend ∷ []) (bit_or (channel * 2 ^ 4) cmd % 256)) p
        ∙ ap (λ o. o ++ stuffed_all p)
            (escape_put-stuffed (fend ∷ []) (bit_or (channel * 2 ^ 4) cmd % 256)
              ∙ ap (λ c. fend ∷ stuffed c) (command_byte cmd channel h k)))
    ∙ unfold stuffed_all in refl

stuffed_no_fend : (c : ℕ) → All (λ b. b ≢ fend) (stuffed c)
unfolding stuffed
stuffed_no_fend c = ground arith

no_fend : (cs : List ℕ) → All (λ c. c ≢ fend) (stuffed_all cs)
unfolding stuffed_all
no_fend [] = tt
no_fend (c ∷ cs) =
    All-append (λ b. b ≢ fend) (stuffed c) (stuffed_all cs) (stuffed_no_fend c) (no_fend cs)

length-stuffed_all : (cs : List ℕ) → length (stuffed_all cs) ≤ 2 * length cs
unfolding stuffed_all stuffed
length-stuffed_all [] = omega arith
length-stuffed_all (c ∷ cs) =
    ground (arith, length-stuffed_all cs, length-append (stuffed c) (stuffed_all cs))

-- The byte goes over the line as it is.
abbrev pub IsPlain : ℕ → Type 0
IsPlain c = (c ≢ fend) × (c ≢ fesc)

length-stuffed_plain : (c : ℕ) → IsPlain c → length (stuffed c) ≡ 1
unfolding stuffed
length-stuffed_plain c h = ground arith

length-frame :
    (cmd channel : ℕ) (p : List ℕ)
    → cmd < 16
    → channel < 16
    → length (frame cmd channel p)
      ≡ length (stuffed (channel * 16 + cmd)) + length (stuffed_all p) + 2
unfolding stuffed_all
length-frame cmd channel p h k =
    let b : ℕ = channel * 16 + cmd in
    omega (
      arith,
      ap length (frame-stuffed cmd channel p h k),
      length-append (stuffed b ++ stuffed_all p) (fend ∷ []),
      length-append (stuffed b) (stuffed_all p),
    )

-- FEND stands at the two ends of a frame only. The frame fits the buffer allocated for it if the
-- command byte needs no escape, and is at most one byte too long if it does.
pub frame_shape :
    (cmd channel : ℕ) (p : List ℕ)
    → cmd < 16
    → channel < 16
    → ((body : List ℕ) × (frame cmd channel p ≡ fend ∷ body ++ fend ∷ [])
        × All (λ c. c ≢ fend) body)
      × (IsPlain (channel * 16 + cmd) → length (frame cmd channel p) ≤ max_len p)
      × (length (frame cmd channel p) ≤ max_len p + 1)
unfolding max_len
frame_shape cmd channel p h k =
    let b : ℕ = channel * 16 + cmd in
    let len = length-frame cmd channel p h k in
    let rest = length-stuffed_all p in
    let first : length (stuffed b) ≤ 2 = unfold stuffed in ground arith in
    (
      (stuffed_all (b ∷ p), frame-stuffed cmd channel p h k, no_fend (b ∷ p)),
      λ plain. omega (arith, len, rest, length-stuffed_plain b plain),
      omega (arith, len, rest, first),
    )

length-stuffed_special :
    (p : List ℕ) → All (λ c. c ≡ fend) p → length (stuffed_all p) ≡ 2 * length p
unfolding stuffed_all stuffed
length-stuffed_special [] h = omega arith
length-stuffed_special (c ∷ cs) h =
    ground (arith, length-stuffed_special cs, length-append (stuffed c) (stuffed_all cs))

escaped_twice : length (stuffed fend) ≡ 2
unfolding stuffed
escaped_twice = refl

-- With command 0 on channel 12 the command byte is FEND itself, and a packet of FENDs makes a frame
-- one byte longer than the buffer that is allocated for it.
pub frame_overflow : (p : List ℕ) → All (λ c. c ≡ fend) p → length (frame 0 12 p) ≡ max_len p + 1
unfolding max_len
frame_overflow p h = omega (
  arith,
  length-frame 0 12 p (omega arith) (omega arith),
  length-stuffed_special p h,
  escaped_twice,
)
