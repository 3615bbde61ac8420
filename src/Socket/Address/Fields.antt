-- ===== src/Socket/Address/Fields.antt =====
-- What an address made from a port holds, on hosts of both byte orders.
use tools_cxx.Prelude.{
  ℕ, ◌+◌, ◌/◌, ◌%◌, ◌<◌, ◌≡◌, ◌⊎◌, inl, inr, refl, arith, Bool, true, false, if◌then◌else◌, ◌==◌,
}
use tools_cxx.Socket.Endian.{ByteOrder, little, big}
use tools_cxx.Socket.Address.{Memory, of_port, get_family, to_port, af_inet, af_inet6}

-- The port lies in the two bytes in network order, whatever the host's order, and is read back; the
-- family is read back.
pub record HasPort (order : ByteOrder) (m : Memory) (family port : ℕ) : Type 0 where
  pub high : m 2 ≡ port / 256
  pub low : m 3 ≡ port % 256
  pub read_back : to_port order m ≡ port
  pub family_lem : get_family order m ≡ family

-- The address of any interface, or the loopback address, in network order.
abbrev pub HasIp : Memory → ℕ → Bool → Type 0
HasIp m family loopback =
    if family == af_inet
    then (m 4 ≡ (if loopback then 127 else 0))
      × (m 5 ≡ 0)
      × (m 6 ≡ 0)
      × (m 7 ≡ (if loopback then 1 else 0))
    else ((i : ℕ) → i < 15 → m (8 + i) ≡ 0) × (m 23 ≡ (if loopback then 1 else 0))

of_port_inet :
    (order : ByteOrder) (m : Memory) (port : ℕ) (loopback : Bool)
    → port < 65536
    → HasPort order (of_port order m port af_inet loopback) af_inet port
unfolding of_port to_port get_family
of_port_inet little m port true h = omega arith
of_port_inet little m port false h = omega arith
of_port_inet big m port true h = omega arith
of_port_inet big m port false h = omega arith

of_port_inet6 :
    (order : ByteOrder) (m : Memory) (port : ℕ) (loopback : Bool)
    → port < 65536
    → HasPort order (of_port order m port af_inet6 loopback) af_inet6 port
unfolding of_port to_port get_family
of_port_inet6 little m port true h = omega arith
of_port_inet6 little m port false h = omega arith
of_port_inet6 big m port true h = omega arith
of_port_inet6 big m port false h = omega arith

ip_inet :
    (order : ByteOrder) (m : Memory) (port : ℕ) (loopback : Bool)
    → HasIp (of_port order m port af_inet loopback) af_inet loopback
unfolding of_port
ip_inet little m port true = (refl, refl, refl, refl)
ip_inet little m port false = (refl, refl, refl, refl)
ip_inet big m port true = (refl, refl, refl, refl)
ip_inet big m port false = (refl, refl, refl, refl)

ip_inet6 :
    (order : ByteOrder) (m : Memory) (port : ℕ) (loopback : Bool)
    → HasIp (of_port order m port af_inet6 loopback) af_inet6 loopback
unfolding of_port
ip_inet6 little m port true = (λ i h. ground arith, refl)
ip_inet6 little m port false = (λ i h. ground arith, refl)
ip_inet6 big m port true = (λ i h. ground arith, refl)
ip_inet6 big m port false = (λ i h. ground arith, refl)

-- An address made from a port and one of the two families has that family, the port in network order,
-- which is read back, and the address of any interface or of the loopback, on hosts of both orders and
-- whatever the memory held before.
pub of_port-HasPort :
    (order : ByteOrder) (m : Memory) (port family : ℕ) (loopback : Bool)
    → port < 65536
    → (family ≡ af_inet) ⊎ (family ≡ af_inet6)
    → HasPort order (of_port order m port family loopback) family port
      × HasIp (of_port order m port family loopback) family loopback
of_port-HasPort order m port family loopback h (inl e) =
    rw e (of_port_inet order m port loopback h, ip_inet order m port loopback)
of_port-HasPort order m port family loopback h (inr e) =
    rw e (of_port_inet6 order m port loopback h, ip_inet6 order m port loopback)
