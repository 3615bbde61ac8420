-- ===== src/Socket/Address.antt =====
-- tools/socket/InetAddress.h and InetAddress.cpp, and the functions of SocketsOps.cpp that turn addresses
-- into text and back. The union of `sockaddr_in` and `sockaddr_in6` is its bytes, by offset.
pub mod Fields
pub mod Texts
use tools_cxx.Prelude.{
  ℕ, ◌+◌, ◌-◌, ◌*◌, ◌/◌, ◌%◌, Bool, true, false, Option, none, some, List, [], ◌∷◌, ◌++◌, ltb, leb,
  ◌==◌, if◌then◌else◌, length, take, update_at, assert, ◌>>=◌, ◌>>◌, Bytes,
}
use tools_cxx.Socket.Endian.{
  ByteOrder, little, big, host_to_network16, host_to_network32, network_to_host16,
}

abbrev pub Memory : Type 0
Memory = ℕ → ℕ

abbrev pub store16 : ByteOrder → Memory → ℕ → ℕ → Memory
store16 little m at n = update_at (update_at m at (n % 256)) (at + 1) (n / 256 % 256)
store16 big m at n = update_at (update_at m at (n / 256 % 256)) (at + 1) (n % 256)

abbrev pub store32 : ByteOrder → Memory → ℕ → ℕ → Memory
store32 little m at n = store16 little (store16 little m at (n % 65536)) (at + 2) (n / 65536)
store32 big m at n = store16 big (store16 big m at (n / 65536)) (at + 2) (n % 65536)

abbrev pub load16 : ByteOrder → Memory → ℕ → ℕ
load16 little m at = m at + m (at + 1) * 256
load16 big m at = m at * 256 + m (at + 1)

abbrev pub load32 : ByteOrder → Memory → ℕ → ℕ
load32 little m at = load16 little m at + load16 little m (at + 2) * 65536
load32 big m at = load16 big m at * 65536 + load16 big m (at + 2)

-- `memset` of the first bytes to zero.
abbrev pub cleared : Memory → ℕ → Memory
cleared m size i = if ltb i size then 0 else m i

abbrev pub store_bytes : Memory → ℕ → Bytes → Memory
store_bytes m at [] = m
store_bytes m at (b ∷ bs) = store_bytes (update_at m at b) (at + 1) bs

abbrev pub af_inet : ℕ
af_inet = 2

abbrev pub af_inet6 : ℕ
af_inet6 = 10

-- Sizes and offsets of the fields.
abbrev pub sockaddr_in_size : ℕ
sockaddr_in_size = 16

abbrev pub sockaddr_in6_size : ℕ
sockaddr_in6_size = 28

abbrev pub family_at : ℕ
family_at = 0

abbrev pub port_at : ℕ
port_at = 2

abbrev pub sin_addr_at : ℕ
sin_addr_at = 4

abbrev pub sin6_addr_at : ℕ
sin6_addr_at = 8

abbrev pub inaddr_loopback : ℕ
inaddr_loopback = 0x7f000001

abbrev pub in6addr_any : Bytes
in6addr_any = 0 ∷ 0 ∷ 0 ∷ 0 ∷ 0 ∷ 0 ∷ 0 ∷ 0 ∷ 0 ∷ 0 ∷ 0 ∷ 0 ∷ 0 ∷ 0 ∷ 0 ∷ 0 ∷ []

abbrev pub in6addr_loopback : Bytes
in6addr_loopback = 0 ∷ 0 ∷ 0 ∷ 0 ∷ 0 ∷ 0 ∷ 0 ∷ 0 ∷ 0 ∷ 0 ∷ 0 ∷ 0 ∷ 0 ∷ 0 ∷ 0 ∷ 1 ∷ []

-- `InetAddress(port, family, loopbackOnly)`, over what the memory holds before.
unfoldable pub of_port : ByteOrder → Memory → ℕ → ℕ → Bool → Memory
unfolding host_to_network16 host_to_network32
of_port order m port family loopback_only =
    if family == af_inet
    then (let ip : ℕ = if loopback_only then inaddr_loopback else 0 in
        let zeros = cleared m sockaddr_in_size in
        let named = store16 order zeros family_at af_inet in
        let with_ip = store32 order named sin_addr_at (host_to_network32 order ip) in
        store16 order with_ip port_at (host_to_network16 order port))
    else (let ip = if loopback_only then in6addr_loopback else in6addr_any in
        let zeros = cleared m sockaddr_in6_size in
        let named = store16 order zeros family_at af_inet6 in
        let with_ip = store_bytes named sin6_addr_at ip in
        store16 order with_ip port_at (host_to_network16 order port))

unfoldable pub get_family : ByteOrder → Memory → ℕ
get_family order m = load16 order m family_at

unfoldable pub get_netendian_port : ByteOrder → Memory → ℕ
get_netendian_port order m = load16 order m port_at

unfoldable pub get_netendian_ip : ByteOrder → Memory → Option ℕ
unfolding get_family
get_netendian_ip order m = do
  assert (get_family order m == af_inet)
  some (load32 order m sin_addr_at)

unfoldable pub to_port : ByteOrder → Memory → ℕ
unfolding network_to_host16 get_netendian_port
to_port order m = network_to_host16 order (get_netendian_port order m)

-- What inet_pton(3) does with a text: it writes the bytes of the address, returns 0, or returns -1.
pub data Converted : Type 0 where
  address : Bytes → Converted
  invalid unsupported : Converted

-- inet_ntop(3) and inet_pton(3), by the family of the address; `decimal` is what `%u` prints.
pub record AddressText : Type 0 where
  pub inet_ntop : ℕ → Memory → Bytes
  pub inet_pton : ℕ → Bytes → Converted
  pub decimal : ℕ → Bytes

abbrev pub inet_addrstrlen : ℕ
inet_addrstrlen = 16

abbrev pub inet6_addrstrlen : ℕ
inet6_addrstrlen = 46

module _ (order : ByteOrder) (text : AddressText) where
  -- `sockets::to_ip`: the text in a buffer of the given size.
  unfoldable pub to_ip : Memory → ℕ → Option Bytes
  unfolding get_family
  to_ip m size =
      if get_family order m == af_inet
      then (do assert (leb inet_addrstrlen size); some (text.inet_ntop af_inet m))
      else (do assert (leb inet6_addrstrlen size); some (text.inet_ntop af_inet6 m))

  -- `sockets::to_ip_and_port`; `snprintf` keeps one byte for the final zero.
  unfoldable pub to_ip_and_port : Memory → ℕ → Option Bytes
  unfolding to_ip to_port
  to_ip_and_port m size = do
    ip ← to_ip m size
    assert (ltb (length ip) size)
    some (ip ++ take (size - length ip - 1) (b':' ∷ text.decimal (to_port order m)))

  -- The result of inet_pton(3) is compared with zero for less, so a text that is no address passes.
  unfoldable pub from_ip_and_port : Memory → ℕ → Bytes → ℕ → Option Memory
  unfolding host_to_network16
  from_ip_and_port m family ip port =
      let address_at = if family == af_inet then sin_addr_at else sin6_addr_at in
      let named = store16 order m family_at family in
      let with_port = store16 order named port_at (host_to_network16 order port) in
      elim (text.inet_pton family ip) [
        | address bytes ↦ some (store_bytes with_port address_at bytes)
        | invalid ↦ some with_port
        | unsupported ↦ none
      ]

  -- `InetAddress(ip, port, family)`; `none` is a family that inet_pton(3) does not support, whose message
  -- has no defined behaviour.
  unfoldable pub of_text : Memory → Bytes → ℕ → ℕ → Option Memory
  unfolding from_ip_and_port
  of_text m ip port family =
      if family == af_inet
      then from_ip_and_port (cleared m sockaddr_in_size) af_inet ip port
      else from_ip_and_port (cleared m sockaddr_in6_size) af_inet6 ip port
