-- ===== src/Dns/Names.antt =====
-- `read_name` of dns.rs ends on every packet, cyclic pointers included, and stays in the packet.
use dynet.Base.{
  ℕ, zero, suc, ◌+◌, ◌-◌, ◌*◌, ◌%◌, ◌≤◌, ◌<◌, ◌≡◌, refl, ◌⊎◌, inl, inr, List, [], ◌∷◌, ◌++◌, Option,
  none, some, length, get_elem?, ltb, leb, ltb→ge, ◌==◌, Bool-cases, Option-cases, arith, subst,
}
use dynet.Base.Net.{Bytes, be16}
use dynet.Base.Opt.{get_or}
use dynet.Base.Text.{Text, to_ascii_lowercase, is_utf8}
use dynet.Dns.{get_range, walk_name, name_fuel, read_name, join_dots}

pub get_elem?-some_lt :
    {A : Type 0} (xs : List A) (i : ℕ) {a : A} → get_elem? xs i ≡ some a → i < length xs
get_elem?-some_lt [] i h = cc
get_elem?-some_lt (x ∷ xs) zero h = omega arith
get_elem?-some_lt (x ∷ xs) (suc i) h = omega (arith, get_elem?-some_lt xs i h)

get_range_le :
    (packet : Bytes) (start size : ℕ) {bytes : Bytes}
    → get_range packet start size ≡ some bytes
    → start + size ≤ length packet
unfolding get_range
get_range_le packet start size h = ground (arith, h)

-- How many rounds are left at most, with so many jumps left.
budget : ℕ → ℕ → ℕ
budget zero size = 0
budget (suc left) size = size + 1 + budget left size

abbrev Within : ℕ → Option ℕ → Type 0
Within size none = Unit {0}
Within size (some offset) = offset ≤ size

-- A name ends in the packet.
abbrev pub EndsWithin : ℕ → Option (Text × ℕ) → Type 0
EndsWithin size none = Unit {0}
EndsWithin size (some (name, end)) = end ≤ size

get_or-Within :
    (size offset : ℕ) (next : Option ℕ)
    → Within size next
    → offset ≤ size
    → get_or next offset ≤ size
get_or-Within size offset none w h = h
get_or-Within size offset (some n) w h = w

suc-cases : (n : ℕ) → (n ≡ 0) ⊎ ((l : ℕ) × (n ≡ suc l))
suc-cases zero = inl refl
suc-cases (suc l) = inr (l, refl)

abbrev Ends : ℕ → Bytes → ℕ → Option ℕ → ℕ → List Text → Type 0
Ends fuel packet cursor next jumps labels =
    (r : Option (Text × ℕ)) × (walk_name fuel packet cursor next jumps labels ≡ some r)
    × EndsWithin (length packet) r

walk_name-Ends :
    (fuel : ℕ) (packet : Bytes) (cursor : ℕ) (next : Option ℕ) (jumps left : ℕ) (labels : List Text)
    → jumps + left ≡ 8
    → budget left (length packet) + (length packet - cursor) < fuel
    → Within (length packet) next
    → Ends fuel packet cursor next jumps labels
unfolding walk_name budget
walk_name-Ends zero packet cursor next jumps left labels j h w = absurd (omega arith)
walk_name-Ends (suc fuel) packet cursor next jumps left labels j h w =
    elim (Option-cases (get_elem? packet cursor)) [
      | inl e ↦ (none, ground (arith, e), tt)
      | inr (size, e) ↦
          let inside = get_elem?-some_lt packet cursor e in
          elim (Bool-cases (leb 192 size)) [
            | inl p ↦ elim (Option-cases (get_elem? packet (cursor + 1))) [
              | inl f ↦ (none, ground (arith, e, p, f), tt)
              | inr (low, f) ↦ elim (Bool-cases (ltb 8 (jumps + 1))) [
                | inl q ↦ (none, ground (arith, e, p, f, q), tt)
                | inr q ↦ elim (suc-cases left) [
                  | inl z ↦ absurd (omega (arith, z, j, ltb→ge 8 (jumps + 1) q))
                  | inr (l, z) ↦
                      let rounds =
                        subst (λ t. budget t (length packet) + (length packet - cursor) < suc fuel)
                          z h in
                      let (r, eq, b) =
                        walk_name-Ends fuel packet (be16 (size % 64) low)
                          (some (get_or next (cursor + 2))) (jumps + 1) l labels
                          (omega (arith, j, z)) (omega (arith, rounds))
                          (get_or-Within (length packet) (cursor + 2) next w
                            (omega (arith, get_elem?-some_lt packet (cursor + 1) f))) in
                      (r, ground (arith, e, p, f, q, eq), b)
                ]
              ]
            ]
            | inr p ↦ elim (Bool-cases (size == 0)) [
              | inl z ↦ (
                some (join_dots labels, get_or next (cursor + 1)),
                ground (arith, e, p, z),
                get_or-Within (length packet) (cursor + 1) next w (omega (arith, inside)),
              )
              | inr z ↦ elim (Option-cases (get_range packet (cursor + 1) size)) [
                | inl g ↦ (none, ground (arith, e, p, z, g), tt)
                | inr (label, g) ↦ elim (Bool-cases (is_utf8 label)) [
                  | inr u ↦ (none, ground (arith, e, p, z, g, u), tt)
                  | inl u ↦
                      let (r, eq, b) =
                        walk_name-Ends fuel packet (cursor + 1 + size) next jumps left
                          (labels ++ (to_ascii_lowercase label ∷ [])) j (omega (arith, h, inside))
                          w in
                      (r, ground (arith, e, p, z, g, u, eq), b)
                ]
              ]
            ]
          ]
    ]

budget-eight : (size : ℕ) → budget 8 size ≡ 8 * (size + 1)
unfolding budget
budget-eight size = omega arith

-- Whatever the packet holds, cyclic pointers included, `read_name` does not run on: the loop ends
-- within its fuel, and what a name it reads is followed by lies in the packet or at its end.
pub read_name-EndsWithin :
    (packet : Bytes) (offset : ℕ)
    → (r : Option (Text × ℕ)) × (walk_name (name_fuel packet) packet offset none 0 [] ≡ some r)
      × (read_name packet offset ≡ r)
      × EndsWithin (length packet) r
unfolding read_name
read_name-EndsWithin packet offset =
    let (r, e, b) =
      walk_name-Ends (name_fuel packet) packet offset none 0 8 [] (omega arith)
        (omega (arith, budget-eight (length packet))) tt in
    (r, e, ground (arith, e), b)
