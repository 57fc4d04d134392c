-- ===== src/Linux/Addresses/RoundTrip.antt =====
-- Addresses as the kernel writes them are read back.
use psutil.Prelude.{
  ℕ, ◌+◌, ◌*◌, ◌/◌, ◌%◌, ◌<◌, ◌≡◌, refl, ap, ◌∙◌, Bool, true, false, none, some, List, [], ◌∷◌,
  ◌++◌, ok, ltb, ◌==◌, if◌then◌else◌, arith,
}
use psutil.Text.{Bytes, split, to_int, to_int_from, digit, strip, lstrip, rstrip, is_space}
use psutil.Text.Split.{Uncut, split_where-append, split_where-Uncut}
use psutil.Linux.Addresses.{
  Family, hex_value, b16decode, network_order, decode_address, swap_words, reverse,
}

-- "%X" of one digit, and "%02X" of a byte
unfoldable pub hex_digit : ℕ → ℕ
hex_digit n = if ltb n 10 then b'0' + n else 55 + n

unfoldable pub hex_byte : ℕ → Bytes
unfolding hex_digit
hex_byte n = hex_digit (n / 16) ∷ hex_digit (n % 16) ∷ []

unfoldable pub hex : Bytes → Bytes
unfolding hex_byte
hex [] = []
hex (n ∷ s) = hex_byte n ++ hex s

-- The kernel writes each word of four bytes as a number of the machine, and the port in network order.
unfoldable pub word_order : Bool → Bytes → Bytes
word_order true (a ∷ b ∷ c ∷ d ∷ s) = d ∷ c ∷ b ∷ a ∷ word_order true s
word_order true s = s
word_order false s = s

unfoldable pub show_address : Bool → Bytes → ℕ → Bytes
unfolding hex word_order
show_address little ip port =
    hex (word_order little ip) ++ (b':' ∷ hex (port / 256 ∷ port % 256 ∷ []))

abbrev pub AllBytes : Bytes → Type 0
AllBytes [] = Unit
AllBytes (n ∷ s) = (n < 256) × AllBytes s

hex_value-hex_digit : (n : ℕ) → n < 16 → hex_value (hex_digit n) ≡ some n
unfolding hex_value hex_digit
hex_value-hex_digit n h = ground arith

digit-hex_digit : (n : ℕ) → n < 16 → digit (hex_digit n) ≡ some n
unfolding digit hex_digit
digit-hex_digit n h = ground arith

hex_digit_colon : (n : ℕ) → n < 16 → (hex_digit n == b':') ≡ false
unfolding hex_digit
hex_digit_colon n h = ground arith

hex_digit_space : (n : ℕ) → n < 16 → is_space (hex_digit n) ≡ false
unfolding hex_digit is_space
hex_digit_space n h = ground arith

whole : (n : ℕ) → n / 16 * 16 + n % 16 ≡ n
whole n = omega arith

b16decode-hex : (s : Bytes) → AllBytes s → b16decode (hex s) ≡ ok s
unfolding b16decode hex
b16decode-hex [] h = refl
b16decode-hex (n ∷ s) h =
    rw
      (
        hex_value-hex_digit (n / 16) (omega (arith, h.0)),
        hex_value-hex_digit (n % 16) (omega arith),
        b16decode-hex s h.1,
        whole n,
      )
      refl

hex-Uncut : (s : Bytes) → AllBytes s → Uncut (λ c. c == b':') (hex s)
unfolding hex
hex-Uncut [] h = tt
hex-Uncut (n ∷ s) h = (
  hex_digit_colon (n / 16) (omega (arith, h.0)),
  (hex_digit_colon (n % 16) (omega arith), hex-Uncut s h.1),
)

strip_digits :
    (c d e f : ℕ)
    → is_space c ≡ false
    → is_space d ≡ false
    → is_space e ≡ false
    → is_space f ≡ false
    → strip (c ∷ d ∷ e ∷ f ∷ []) ≡ c ∷ d ∷ e ∷ f ∷ []
unfolding strip lstrip rstrip
strip_digits c d e f hc hd he hf = rw (hc, hf) refl

ltb_lem : (n m : ℕ) → n < m → ltb n m ≡ true
ltb_lem n m h = ground arith

to_int-hex : (port : ℕ) → port < 65536 → to_int 16 (hex (port / 256 ∷ port % 256 ∷ [])) ≡ ok port
unfolding to_int to_int_from hex
to_int-hex port h =
    let hi = port / 256 in
    let lo = port % 256 in
    rw
      (
        strip_digits (hex_digit (hi / 16)) (hex_digit (hi % 16)) (hex_digit (lo / 16))
            (hex_digit (lo % 16)) (hex_digit_space (hi / 16) (omega arith))
            (hex_digit_space (hi % 16) (omega arith)) (hex_digit_space (lo / 16) (omega arith))
            (hex_digit_space (lo % 16) (omega arith)),
        digit-hex_digit (hi / 16) (omega arith),
        digit-hex_digit (hi % 16) (omega arith),
        digit-hex_digit (lo / 16) (omega arith),
        digit-hex_digit (lo % 16) (omega arith),
        ltb_lem (hi / 16) 16 (omega arith),
        ltb_lem (hi % 16) 16 (omega arith),
        ltb_lem (lo / 16) 16 (omega arith),
        ltb_lem (lo % 16) 16 (omega arith),
      )
      (ap ok (omega arith))

-- What is known of the port's digits.
port_bytes : (port : ℕ) → port < 65536 → AllBytes (port / 256 ∷ port % 256 ∷ [])
port_bytes port h = (omega arith, (omega arith, tt))

split-show_address :
    (little : Bool) (ip : Bytes) (port : ℕ)
    → AllBytes (word_order little ip)
    → port < 65536
    → split b':' (show_address little ip port)
      ≡ hex (word_order little ip) ∷ hex (port / 256 ∷ port % 256 ∷ []) ∷ []
unfolding split show_address
split-show_address little ip port h k =
    split_where-append (λ c. c == b':') (hex (word_order little ip))
      (hex (port / 256 ∷ port % 256 ∷ [])) b':' (hex-Uncut (word_order little ip) h) refl
    ∙ ap (λ (l : List Bytes). hex (word_order little ip) ∷ l)
        (split_where-Uncut (λ c. c == b':') (hex (port / 256 ∷ port % 256 ∷ []))
          (hex-Uncut (port / 256 ∷ port % 256 ∷ []) (port_bytes port k)))

-- An address of a family: four or sixteen bytes.
pub data IsAddress : Family → Bytes → Type 0 where
  four : (a b c d : ℕ) → AllBytes (a ∷ b ∷ c ∷ d ∷ []) → IsAddress Family.inet (a ∷ b ∷ c ∷ d ∷ [])
  sixteen :
      (a b c d e f g h i j k l m n o p : ℕ)
      → AllBytes (a ∷ b ∷ c ∷ d ∷ e ∷ f ∷ g ∷ h ∷ i ∷ j ∷ k ∷ l ∷ m ∷ n ∷ o ∷ p ∷ [])
      → IsAddress Family.inet6 (a ∷ b ∷ c ∷ d ∷ e ∷ f ∷ g ∷ h ∷ i ∷ j ∷ k ∷ l ∷ m ∷ n ∷ o ∷ p ∷ [])

word_order-AllBytes :
    (little : Bool) {family : Family} {ip : Bytes}
    → IsAddress family ip
    → AllBytes (word_order little ip)
unfolding word_order
word_order-AllBytes true (four a b c d h) = omega arith
word_order-AllBytes false (four a b c d h) = h
word_order-AllBytes true (sixteen a b c d e f g h i j k l m n o p r) = omega arith
word_order-AllBytes false (sixteen a b c d e f g h i j k l m n o p r) = r

network_order-word_order :
    (little : Bool) {family : Family} {ip : Bytes}
    → IsAddress family ip
    → network_order little family (word_order little ip) ≡ ok ip
unfolding word_order network_order swap_words reverse
network_order-word_order true (four a b c d h) = refl
network_order-word_order false (four a b c d h) = refl
network_order-word_order true (sixteen a b c d e f g h i j k l m n o p r) = refl
network_order-word_order false (sixteen a b c d e f g h i j k l m n o p r) = refl

-- An IPv4 or IPv6 address and a port other than 0, as the kernel of a machine of either byte order writes
-- them, are read back; with port 0 the answer is that there is no address.
pub decode_address-show_address :
    (little : Bool) {family : Family} {ip : Bytes} (port : ℕ)
    → IsAddress family ip
    → port < 65536
    → decode_address little family (show_address little ip port)
      ≡ ok (if port == 0 then none else some (ip, port))
unfolding decode_address
decode_address-show_address little {family} {ip} port v h =
    rw
      (
        split-show_address little ip port (word_order-AllBytes little v) h,
        to_int-hex port h,
        b16decode-hex (word_order little ip) (word_order-AllBytes little v),
        network_order-word_order little v,
      )
      (ground arith)
