-- ===== src/Socket/Endian.antt =====
-- tools/socket/Endian.h: numbers in host and in network order. The host's order is a parameter.
use tools_cxx.Prelude.{ℕ, ◌+◌, ◌*◌, ◌/◌, ◌%◌}

pub data ByteOrder : Type 0 where
  little big : ByteOrder

abbrev pub swap16 : ℕ → ℕ
swap16 n = n % 256 * 256 + n / 256 % 256

abbrev pub swap32 : ℕ → ℕ
swap32 n = swap16 (n % 65536) * 65536 + swap16 (n / 65536 % 65536)

abbrev pub swap64 : ℕ → ℕ
swap64 n = swap32 (n % 4294967296) * 4294967296 + swap32 (n / 4294967296 % 4294967296)

unfoldable pub host_to_network16 : ByteOrder → ℕ → ℕ
host_to_network16 little n = swap16 n
host_to_network16 big n = n

unfoldable pub host_to_network32 : ByteOrder → ℕ → ℕ
host_to_network32 little n = swap32 n
host_to_network32 big n = n

unfoldable pub host_to_network64 : ByteOrder → ℕ → ℕ
host_to_network64 little n = swap64 n
host_to_network64 big n = n

unfoldable pub network_to_host16 : ByteOrder → ℕ → ℕ
network_to_host16 little n = swap16 n
network_to_host16 big n = n

unfoldable pub network_to_host32 : ByteOrder → ℕ → ℕ
network_to_host32 little n = swap32 n
network_to_host32 big n = n

unfoldable pub network_to_host64 : ByteOrder → ℕ → ℕ
network_to_host64 little n = swap64 n
network_to_host64 big n = n
