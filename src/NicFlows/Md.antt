-- ===== src/NicFlows/Md.antt =====
-- pkg/agent/utils/cls_md.go: the addresses that stand for the clients of the metadata service. `sum` is
-- the first two bytes of the SHA-256 sum.
use sdnagent.Base.{
  ℕ, ◌+◌, ◌*◌, ◌/◌, ◌%◌, ◌<◌, ◌∷◌, ◌++◌, Str, codes, ℤ, pos, print_int, print_dec, print_hex,
  bit_and, bit_and_low, bit_and_high, ltb, if◌then◌else◌, ◌≡◌, refl, arith,
}

-- `%02x`
unfoldable pub print_byte : ℕ → Str
unfolding print_hex
print_byte n = if ltb n 16 then 48 ∷ print_hex n else print_hex n

-- A prefix, an address in it and a hardware address.
pub record FakeClient : Type 0 where
  pub prefix : Str
  pub ip : Str
  pub mac : Str

abbrev pub byte_size : ℕ
byte_size = 256

module _ (sum : Str → ℕ × ℕ) where
  -- The bytes of the address after the first, 100: of the prefix, and of the client of a port.
  unfoldable pub prefix_bytes : Str → Str → ℕ × ℕ
  prefix_bytes ip mac = let (a, b) = sum (ip ++ mac) in (a, bit_and b 0xf0)

  unfoldable pub client_bytes : Str → Str → ℤ → ℕ × ℕ × ℕ
  unfolding prefix_bytes print_int
  client_bytes ip mac port =
      let (a, b) = prefix_bytes ip mac in
      let (c, d) = sum (ip ++ mac ++ print_int port) in (a, (b + bit_and c 0x0f) % byte_size, d)

  -- fakeMdSrcIpMac
  unfoldable pub fake_md_src_ip_mac : Str → Str → ℤ → FakeClient
  unfolding client_bytes prefix_bytes print_dec print_byte
  fake_md_src_ip_mac ip mac port =
      let (a, b) = prefix_bytes ip mac in
      let (a', bc, d) = client_bytes ip mac port in
      record {
        prefix = (codes "100." ++ (print_dec a ++ (codes "." ++ (print_dec b ++ codes ".0/20"))));
        ip =
            (codes "100."
              ++ (print_dec a ++ (codes "." ++ (print_dec bc ++ (codes "." ++ print_dec d)))));
        mac = (codes "ee:ee:ee:" ++ (print_byte a ++ (codes ":" ++ (print_byte b ++ codes ":00"))));
      }

  abbrev pub merge_byte : ℕ → ℕ → ℕ
  merge_byte a b = a * byte_size + b

  -- fakeMdSrcIp6Mac
  unfoldable pub fake_md_src_ip6_mac : Str → Str → ℤ → Str → FakeClient
  unfolding print_hex print_byte print_int
  fake_md_src_ip6_mac ip6 mac port meta_ip6 =
      let (a, b) = sum (ip6 ++ mac) in
      let (c, d) = sum (ip6 ++ mac ++ print_int port ++ meta_ip6) in
      record {
        prefix = (codes "fd00:fec2::" ++ (print_hex (merge_byte a b) ++ codes ":0/112"));
        ip =
            (codes "fd00:fec2::"
              ++ (print_hex (merge_byte a b) ++ (codes ":" ++ print_hex (merge_byte c d))));
        mac = (codes "ee:ee:ee:" ++ (print_byte a ++ (codes ":" ++ (print_byte b ++ codes ":01"))));
      }

  -- An IPv4 address of the range 100.0.0.0/8 as a number.
  abbrev pub address : ℕ → ℕ → ℕ → ℕ
  address a b c = ((100 * 256 + a) * 256 + b) * 256 + c

  -- The third byte of the client's address does not wrap.
  client_third :
      (ip mac : Str) (port : ℤ)
      → (client_bytes ip mac port).1
        ≡ (sum (ip ++ mac)).1 / 16 % 16 * 16 + (sum (ip ++ mac ++ print_int port)).0 % 16
  unfolding client_bytes prefix_bytes
  client_third ip mac port =
      rw (bit_and_high (sum (ip ++ mac)).1 4 4, bit_and_low (sum (ip ++ mac ++ print_int port)).0 4)
        (omega arith)

  same_network :
      (a x c b third d : ℕ)
      → third ≡ x * 16 + c
      → b ≡ x * 16
      → c < 16
      → d < byte_size
      → address a third d / 0x1000 ≡ address a b 0 / 0x1000
  same_network a x c b third d e f low_c low_d = omega (arith, e, f)

  -- For every port, if `sum` gives bytes: the address of the port's client is made of bytes, and lies
  -- in the network of 20 bits that is the prefix, which together with the hardware address depends on
  -- the host's address alone.
  pub client_bytes-prefix_bytes :
      ((s : Str) → ((sum s).0 < byte_size) × ((sum s).1 < byte_size))
      → (ip mac : Str) (port : ℤ)
      → ((client_bytes ip mac port).0 < byte_size)
        × ((client_bytes ip mac port).1 < byte_size)
        × ((client_bytes ip mac port).2 < byte_size)
        × (let (a, b, c) = client_bytes ip mac port in
            address a b c / 0x1000
            ≡ address (prefix_bytes ip mac).0 (prefix_bytes ip mac).1 0 / 0x1000)
        × ((fake_md_src_ip_mac ip mac port).prefix ≡ (fake_md_src_ip_mac ip mac (pos 0)).prefix)
        × ((fake_md_src_ip_mac ip mac port).mac ≡ (fake_md_src_ip_mac ip mac (pos 0)).mac)
  unfolding client_bytes prefix_bytes fake_md_src_ip_mac
  client_bytes-prefix_bytes bytes ip mac port =
      let third = client_third ip mac port in
      let (low_a, low_b) = bytes (ip ++ mac) in
      let (low_c, low_d) = bytes (ip ++ mac ++ print_int port) in
      (
        low_a,
        omega (arith, third),
        low_d,
        same_network (sum (ip ++ mac)).0 ((sum (ip ++ mac)).1 / 16 % 16)
            ((sum (ip ++ mac ++ print_int port)).0 % 16) _ _ _ third
            (bit_and_high (sum (ip ++ mac)).1 4 4) (omega arith) low_d,
        refl,
        refl,
      )
