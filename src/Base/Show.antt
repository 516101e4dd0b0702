-- ===== src/Base/Show.antt =====
-- `IpAddr`'s `to_string`.
use Prim.Native.Nat.{ℕ, ◌+◌, ◌*◌, ◌/◌, ◌-◌, ◌%◌}
use mathlib.Core.Path.{◌≡◌, refl}
use mathlib.Core.List.{List, [], ◌∷◌, ◌++◌, map}
use dynet.Base.Tests.{ltb, ◌==◌, if◌then◌else◌}
use dynet.Base.Lists.{take, drop, replicate}
use dynet.Base.Net.{Bytes, IpAddr, v4, v6}
use dynet.Base.Order.{nat_ord, list_ord, eqb}
use dynet.Base.Parse.{show_unsigned}
use dynet.Base.Text.{Text, text}

join : Text → List Text → Text
join sep [] = []
join sep (t ∷ []) = t
join sep (t ∷ u ∷ ts) = t ++ sep ++ join sep (u ∷ ts)

dotted : Bytes → Text
dotted octets = join (text ".") (map show_unsigned octets)

segments : Bytes → List ℕ
segments (a ∷ b ∷ t) = (a * 256 + b) ∷ segments t
segments _ = []

hex_digit : ℕ → ℕ
hex_digit n = if ltb n 10 then b'0' + n else b'a' + n - 10

-- At most four digits, the leading zeros left out.
hex : ℕ → Text
hex n =
    let d3 = n / 4096 in
    let d2 = n / 256 % 16 in
    let d1 = n / 16 % 16 in
    let low = hex_digit (n % 16) ∷ [] in
    if ltb n 16
    then low
    else if ltb n 256
    then hex_digit d1 ∷ low
    else if ltb n 4096
    then hex_digit d2 ∷ hex_digit d1 ∷ low
    else hex_digit d3 ∷ hex_digit d2 ∷ hex_digit d1 ∷ low

-- The first longest run of zeros: where it starts, and its length. `at` counts the segments read,
-- the run that is open started at `start` and has `run` zeros.
longest : List ℕ → ℕ → ℕ × ℕ → ℕ × ℕ → ℕ × ℕ
longest [] at (start, run) best = best
longest (s ∷ ss) at (start, run) best =
    let current = if run == 0 then (at, 1) else (start, run + 1) in
    let next = if s == 0 then current else (0, 0) in
    longest ss (at + 1) next (if ltb best.1 next.1 then next else best)

colons : List ℕ → Text
colons ss = join (text ":") (map hex ss)

show_segments : List ℕ → Text
show_segments ss =
    let (start, run) = longest ss 0 (0, 0) (0, 0) in
    if ltb 1 run
    then colons (take start ss) ++ text "::" ++ colons (drop (start + run) ss)
    else colons ss

unfoldable pub show_ip : IpAddr → Text
unfolding join dotted segments hex_digit hex longest colons show_segments
show_ip (v4 octets) = dotted octets
show_ip (v6 octets) =
    if eqb (take 12 octets) (replicate 10 0 ++ 255 ∷ 255 ∷ [])
    then text "::ffff:" ++ dotted (drop 12 octets)
    else show_segments (segments octets)

show_v4 : show_ip (v4 (192 ∷ 168 ∷ 0 ∷ 1 ∷ [])) ≡ text "192.168.0.1"
unfolding show_ip show_unsigned
show_v4 = refl

show_v6 :
    show_ip (v6 (0x20 ∷ 0x01 ∷ 0x0d ∷ 0xb8 ∷ replicate 10 0 ++ 0 ∷ 0x1f ∷ [])) ≡ text "2001:db8::1f"
unfolding show_ip show_unsigned
show_v6 = refl

show_any : show_ip (v6 (replicate 16 0)) ≡ text "::"
unfolding show_ip show_unsigned
show_any = refl

show_mapped :
    show_ip (v6 (replicate 10 0 ++ 255 ∷ 255 ∷ 10 ∷ 0 ∷ 0 ∷ 1 ∷ [])) ≡ text "::ffff:10.0.0.1"
unfolding show_ip show_unsigned
show_mapped = refl
