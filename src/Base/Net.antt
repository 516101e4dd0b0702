-- ===== src/Base/Net.antt =====
-- std::net as far as the program reads it: octets, addresses, ports in network order.
use Prim.Native.Nat.{ℕ, ◌+◌, ◌*◌, ◌/◌, ◌%◌, ◌<◌}
use mathlib.Core.Path.{◌≡◌}
use mathlib.Core.List.{List, [], ◌∷◌}
use native.Mathlib.Omega.{arith}
use dynet.Base.Lists.{All}

abbrev pub Bytes : Type 0
Bytes = List ℕ

abbrev pub IsByte : ℕ → Type 0
IsByte b = b < 256

abbrev pub AreBytes : Bytes → Type 0
AreBytes = All IsByte

-- An address is its octets, in network order.
pub data IpAddr : Type 0 where
  v4 : Bytes → IpAddr
  v6 : Bytes → IpAddr

pub record SocketAddr : Type 0 where
  pub ip : IpAddr
  pub port : ℕ

-- `u16::from_be_bytes` and `to_be_bytes`.
abbrev pub be16 : ℕ → ℕ → ℕ
be16 hi lo = hi * 256 + lo

abbrev pub be16_bytes : ℕ → Bytes
be16_bytes n = n / 256 % 256 ∷ n % 256 ∷ []

pub be16-be16_bytes : (n : ℕ) → n < 65536 → be16 (n / 256 % 256) (n % 256) ≡ n
be16-be16_bytes n h = omega arith
