-- ===== src/Linux/Addresses.antt =====
-- psutil/_pslinux.py: `NetConnections.decode_address`. An address is its bytes in network order, which
-- `socket.inet_ntop` prints.
pub mod RoundTrip
use psutil.Prelude.{
  ℕ, suc, ◌+◌, ◌-◌, ◌*◌, Bool, true, false, ◌&&◌, Option, none, some, List, [], ◌∷◌, ◌++◌, Result,
  ok, err, Error, ◌>>=◌, leb, ltb, ◌==◌, if◌then◌else◌, length,
}
use psutil.Text.{Bytes, split, to_int}

-- The kinds of sockets of `tmap`.
pub data Family : Type 0 where
  inet inet6 unix : Family

-- A digit for `base64.b16decode`, which takes no lower case.
unfoldable pub hex_value : ℕ → Option ℕ
hex_value c =
    if leb b'0' c && leb c b'9'
    then some (c - b'0')
    else if leb b'A' c && leb c b'F'
    then some (c - 55)
    else none

abbrev pub hex_pair : Option ℕ → Option ℕ → Result ℕ
hex_pair (some h) (some l) = ok (h * 16 + l)
hex_pair (some h) none = err Error.value_error
hex_pair none _ = err Error.value_error

-- `base64.b16decode`
unfoldable pub b16decode : Bytes → Result Bytes
unfolding hex_value
b16decode [] = ok []
b16decode (c ∷ []) = err Error.value_error
b16decode (c ∷ d ∷ s) = do
  byte ← hex_pair (hex_value c) (hex_value d)
  rest ← b16decode s
  ok (byte ∷ rest)

-- `s[::-1]`
unfoldable pub reverse : Bytes → Bytes
reverse [] = []
reverse (c ∷ s) = reverse s ++ (c ∷ [])

-- `struct.pack('>4I', *struct.unpack('<4I', ip))`: each of the four words is turned round, and other
-- lengths than 16 are an error; the same format on both sides changes nothing.
unfoldable pub swap_words : Bytes → Result Bytes
swap_words (a ∷ b ∷ c ∷ d ∷ e ∷ f ∷ g ∷ h ∷ i ∷ j ∷ k ∷ l ∷ m ∷ n ∷ o ∷ p ∷ []) =
    ok (d ∷ c ∷ b ∷ a ∷ h ∷ g ∷ f ∷ e ∷ l ∷ k ∷ j ∷ i ∷ p ∷ o ∷ n ∷ m ∷ [])
swap_words _ = err Error.value_error

-- What `inet_ntop` accepts.
abbrev of_length : ℕ → Bytes → Result Bytes
of_length n ip = if length ip == n then ok ip else err Error.value_error

unfoldable pub network_order : Bool → Family → Bytes → Result Bytes
unfolding reverse swap_words
network_order true Family.inet ip = of_length 4 (reverse ip)
network_order false Family.inet ip = of_length 4 ip
network_order true _ ip = swap_words ip
network_order false _ ip = of_length 16 ip

-- The part after `split(':')`; no address where the port is 0.
abbrev pub endpoint : Bool → Family → Bytes → ℕ → Result (Option (Bytes × ℕ))
endpoint little family ip port =
    if port == 0
    then ok none
    else (do raw ← b16decode ip; bytes ← network_order little family raw; ok (some (bytes, port)))

abbrev pub two_parts : Bool → Family → List Bytes → Result (Option (Bytes × ℕ))
two_parts little family (ip ∷ port ∷ []) = do n ← to_int 16 port; endpoint little family ip n
two_parts little family _ = err Error.value_error

-- `decode_address(addr, family)`; `little` is `LITTLE_ENDIAN`.
unfoldable pub decode_address : Bool → Family → Bytes → Result (Option (Bytes × ℕ))
unfolding split to_int b16decode network_order
decode_address little family addr = two_parts little family (split b':' addr)
