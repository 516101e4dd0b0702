-- ===== src/Routing/Cidr.antt =====
-- `ip_matches_cidr` of crates/dynet-runtime/src/model/cidr.rs.
use dynet.Base.{
  ℕ, zero, suc, ◌+◌, ◌-◌, ◌*◌, ◌/◌, ◌^◌, ◌<◌, ◌≡◌, ◌↔◌, refl, ap, sym, ◌∙◌, Bool, true, false, ◌&&◌,
  [], ◌∷◌, Option, none, some, leb, ◌==◌, if◌then◌else◌, arith,
}
use native.Mathlib.Nat.{pow-suc, mul-div_cancel}
use dynet.Base.Net.{Bytes, IpAddr, v4, v6}
use dynet.Base.Parse.{parse_ip, parse_unsigned, split_once}
use dynet.Base.Text.{Text, text}

-- The number that the octets of an address spell: `u32::from` and `u128::from`.
unfoldable pub address_number : Bytes → ℕ
address_number octets = go 0 octets
  where
    go : ℕ → Bytes → ℕ
    go value [] = value
    go value (b ∷ r) = go (value * 256 + b) r

-- `number & (MAX << (width - prefix))`, and 0 at prefix 0: the low `width - prefix` bits cleared.
unfoldable pub masked : ℕ → ℕ → ℕ → ℕ
masked width prefix number =
    if prefix == 0 then 0 else number / 2 ^ (width - prefix) * 2 ^ (width - prefix)

family_matches : IpAddr → Option IpAddr → Option ℕ → Bool
family_matches (v4 address) (some (v4 base)) (some prefix) =
    leb prefix 32
    && masked 32 prefix (address_number address) == masked 32 prefix (address_number base)
family_matches (v6 address) (some (v6 base)) (some prefix) =
    leb prefix 128
    && masked 128 prefix (address_number address) == masked 128 prefix (address_number base)
family_matches _ _ _ = false

unfoldable pub ip_matches_cidr : IpAddr → Text → Bool
unfolding address_number masked family_matches
ip_matches_cidr address cidr = elim (split_once b'/' cidr) [
  | none ↦ false
  | some (base, prefix) ↦ family_matches address (parse_ip base) (parse_unsigned 256 prefix)
]

inside : ip_matches_cidr (v4 (10 ∷ 1 ∷ 2 ∷ 3 ∷ [])) (text "10.1.0.0/16") ≡ true
unfolding ip_matches_cidr split_once parse_ip parse_unsigned
inside = refl

outside : ip_matches_cidr (v4 (10 ∷ 2 ∷ 2 ∷ 3 ∷ [])) (text "10.1.0.0/16") ≡ false
unfolding ip_matches_cidr split_once parse_ip parse_unsigned
outside = refl

pow-pos : (k : ℕ) → 0 < 2 ^ k
pow-pos zero = omega arith
pow-pos (suc k) = rw (pow-suc 2 k) (omega (arith, pow-pos k))

masked-pos :
    (width prefix a : ℕ)
    → 0 < prefix
    → masked width prefix a ≡ a / 2 ^ (width - prefix) * 2 ^ (width - prefix)
unfolding masked
masked-pos width prefix a h = ground arith

mul_right_cancel : (a b m : ℕ) → 0 < m → a * m ≡ b * m → a ≡ b
mul_right_cancel a b m h e = sym (mul-div_cancel a h) ∙ ap (λ t. t / m) e ∙ mul-div_cancel b h

-- Masked numbers agree exactly when what is left of them after the shift does.
pub masked_iff :
    (width prefix a b : ℕ)
    → 0 < prefix
    → (masked width prefix a ≡ masked width prefix b)
      ↔ (a / 2 ^ (width - prefix) ≡ b / 2 ^ (width - prefix))
masked_iff width prefix a b h =
    rw (masked-pos width prefix a h, masked-pos width prefix b h)
      (mul_right_cancel _ _ _ (pow-pos (width - prefix)), ap (λ t. t * 2 ^ (width - prefix)))
