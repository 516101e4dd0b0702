-- ===== src/Socks/Wire.antt =====
-- The addresses of RFC 1928, section 5, written out, and how parts of a packet are read.
use dynet.Base.{
  ℕ, ◌+◌, ◌<◌, ◌≡◌, refl, true, [], ◌∷◌, ◌++◌, some, length, get_elem?, get_elem?-append_right,
  length-append, arith, subst,
}
use mathlib.Core.List.{append-nil}
use dynet.Base.Net.{Bytes, v4, v6, SocketAddr, be16_bytes}
use dynet.Base.Outcome.{ok, index, slice, slice-append}
use dynet.Base.Text.{is_utf8}
use dynet.Socks.{SocksError, SocksDestination, socket, domain, slice_from}

-- The octets of an address of either family, and a port.
abbrev pub IsAddress : SocketAddr → Type 0
IsAddress address =
    (elim address.ip [ v4 octets ↦ length octets ≡ 4 | v6 octets ↦ length octets ≡ 16 ])
    × (address.port < 65536)

abbrev pub IsDestination : SocksDestination → Type 0
IsDestination (socket address) = IsAddress address
IsDestination (domain name port) = (length name < 256) × (is_utf8 name ≡ true) × (port < 65536)

-- A destination: its type, its address or its name with the length in front, and its port.
abbrev pub destination_bytes : SocksDestination → Bytes
destination_bytes (socket address) = elim address.ip [
  | v4 octets ↦ 1 ∷ octets ++ be16_bytes address.port
  | v6 octets ↦ 4 ∷ octets ++ be16_bytes address.port
]
destination_bytes (domain name port) = 3 ∷ length name ∷ name ++ be16_bytes port

pub slice_from-append :
    (xs ys : Bytes) (from : ℕ) → from ≡ length xs → slice_from (xs ++ ys) from ≡ ok ys
slice_from-append xs ys from h =
    subst (λ zs. slice (xs ++ zs) from (length (xs ++ ys)) ≡ ok ys) (append-nil ys)
      (slice-append xs ys [] from (length (xs ++ ys)) h (length-append xs ys))

pub index-append :
    (xs ys : Bytes) (i at : ℕ) {b : ℕ}
    → at ≡ length xs + i
    → get_elem? ys i ≡ some b
    → index {E = SocksError} (xs ++ ys) at ≡ ok b
unfolding index
index-append xs ys i at h e = rw (h, get_elem?-append_right xs ys i, e) refl

pub four :
    (xs : Bytes) → length xs ≡ 4 → (a : ℕ) × (b : ℕ) × (c : ℕ) × (d : ℕ) × (xs ≡ a ∷ b ∷ c ∷ d ∷ [])
four (a ∷ b ∷ c ∷ d ∷ []) h = (a, b, c, d, refl)
four [] h = absurd (omega (arith, h))
four (a ∷ []) h = absurd (omega (arith, h))
four (a ∷ b ∷ []) h = absurd (omega (arith, h))
four (a ∷ b ∷ c ∷ []) h = absurd (omega (arith, h))
four (a ∷ b ∷ c ∷ d ∷ e ∷ xs) h = absurd (omega (arith, h))
