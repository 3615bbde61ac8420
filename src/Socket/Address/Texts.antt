-- ===== src/Socket/Address/Texts.antt =====
-- Addresses as text.
use tools_cxx.Prelude.{
  ℕ, ◌-◌, ◌≤◌, ◌<◌, ◌≡◌, refl, sym, ap, arith, true, false, Bool-cases, inl, inr, some, ◌∷◌, ◌++◌,
  length, ltb, if◌then◌else◌, ◌==◌, Bytes, lt→ltb, if_cases, take-all, ◌⊎◌,
}
use tools_cxx.Socket.Endian.{ByteOrder, little, big, host_to_network16}
use tools_cxx.Socket.Address.{
  Memory, AddressText, to_ip, to_ip_and_port, to_port, get_family, of_text, from_ip_and_port,
  af_inet, af_inet6, inet_addrstrlen, inet6_addrstrlen, port_at, family_at, sockaddr_in_size,
  sockaddr_in6_size, store16, cleared, invalid,
}
use tools_cxx.Socket.Address.Fields.{HasPort, HasIp}

-- A text of a family fits INET_ADDRSTRLEN or INET6_ADDRSTRLEN, and a port has at most five digits.
pub record IsShort (text : AddressText) : Type 0 where
  pub inet : (m : Memory) → length (text.inet_ntop af_inet m) < inet_addrstrlen
  pub inet6 : (m : Memory) → length (text.inet_ntop af_inet6 m) < inet6_addrstrlen
  pub decimal : (n : ℕ) → n < 65536 → length (text.decimal n) ≤ 5

-- The text of the address alone.
abbrev pub ip_text : ByteOrder → AddressText → Memory → Bytes
ip_text order text m =
    if get_family order m == af_inet then text.inet_ntop af_inet m else text.inet_ntop af_inet6 m

module _ (order : ByteOrder) (text : AddressText) (short : IsShort text) where
  ip_text-lt : (m : Memory) → length (ip_text order text m) < inet6_addrstrlen
  ip_text-lt m =
      if_cases (λ s. length s < inet6_addrstrlen) (get_family order m == af_inet)
        (λ e. omega (arith, short.inet m)) (λ e. short.inet6 m)

  to_ip_64 : (m : Memory) → to_ip order text m 64 ≡ some (ip_text order text m)
  unfolding to_ip
  to_ip_64 m = elim (Bool-cases (get_family order m == af_inet)) [
    | inl e ↦ rw e refl
    | inr e ↦ rw e refl
  ]

  -- When the texts of addresses and ports are within their documented lengths and the port has 16 bits,
  -- in the buffer of 64 bytes no assertion fails and nothing is cut off: the text of an address of either
  -- family, a colon and the port in decimal.
  pub to_ip_and_port_whole :
      (m : Memory)
      → to_port order m < 65536
      → to_ip_and_port order text m 64
        ≡ some (ip_text order text m ++ b':' ∷ text.decimal (to_port order m))
  unfolding to_ip_and_port
  to_ip_and_port_whole m h =
      let ip = ip_text order text m in
      let fits : ltb (length ip) 64 ≡ true = lt→ltb (length ip) 64 (omega (arith, ip_text-lt m)) in
      let rest : Bytes = b':' ∷ text.decimal (to_port order m) in
      rw (to_ip_64 m, fits)
        (ap (λ s. some (ip ++ s))
          (take-all (64 - length ip - 1) rest
            (omega (arith, ip_text-lt m, short.decimal (to_port order m) h))))

-- The memory of an address with the given text, which inet_pton(3) does not fill in.
abbrev unfilled : ByteOrder → Memory → ℕ → ℕ → ℕ → Memory
unfolding host_to_network16
unfilled order m size family port =
    store16 order (store16 order (cleared m size) family_at family) port_at
      (host_to_network16 order port)

unfilled_inet :
    (order : ByteOrder) (m : Memory) (port : ℕ)
    → port < 65536
    → HasPort order (unfilled order m sockaddr_in_size af_inet port) af_inet port
      × HasIp (unfilled order m sockaddr_in_size af_inet port) af_inet false
unfolding host_to_network16 to_port get_family
unfilled_inet little m port h = (omega arith, (refl, refl, refl, refl))
unfilled_inet big m port h = (omega arith, (refl, refl, refl, refl))

unfilled_inet6 :
    (order : ByteOrder) (m : Memory) (port : ℕ)
    → port < 65536
    → HasPort order (unfilled order m sockaddr_in6_size af_inet6 port) af_inet6 port
      × HasIp (unfilled order m sockaddr_in6_size af_inet6 port) af_inet6 false
unfolding host_to_network16 to_port get_family
unfilled_inet6 little m port h = (omega arith, (λ i h. ground arith, refl))
unfilled_inet6 big m port h = (omega arith, (λ i h. ground arith, refl))

-- A text that is no address of its family is taken without an error: the result is the address of any
-- interface, with the port, when the family is one of the two and the port has 16 bits.
pub of_text-invalid :
    (order : ByteOrder) (text : AddressText) (m : Memory) (ip : Bytes) (port family : ℕ)
    → port < 65536
    → (family ≡ af_inet) ⊎ (family ≡ af_inet6)
    → text.inet_pton family ip ≡ invalid
    → (next : Memory) × (of_text order text m ip port family ≡ some next)
      × HasPort order next family port
      × HasIp next family false
unfolding of_text
of_text-invalid order text m ip port family h (inl e) bad =
    let no : text.inet_pton af_inet ip ≡ invalid = rw (sym e) bad in
    let filled = unfilled_inet order m port h in
    rw e (
      unfilled order m sockaddr_in_size af_inet port,
      rw (from_ip_and_port, no) refl,
      filled.0,
      filled.1,
    )
of_text-invalid order text m ip port family h (inr e) bad =
    let no : text.inet_pton af_inet6 ip ≡ invalid = rw (sym e) bad in
    let filled = unfilled_inet6 order m port h in
    rw e (
      unfilled order m sockaddr_in6_size af_inet6 port,
      rw (from_ip_and_port, no) refl,
      filled.0,
      filled.1,
    )
