-- ===== src/Egress/Blocks.antt =====
-- The classes of IPv4 addresses as blocks of 32-bit numbers.
use mcpdef.Prelude.{
  ℕ, ◌+◌, ◌*◌, ◌<◌, ◌≤◌, List, [], ◌∷◌, Bool, true, false, ◌&&◌, ◌||◌, ◌≡◌, ◌≢◌, ◌↔◌, ◌⊎◌, inl, inr,
  refl, Any, arith, leb, ◌==◌, or_iff, eq-false_iff, if◌then◌else◌,
}
use mcpdef.Egress.{
  IpClass, link_local, unspecified, special_use, loopback, private, public, Ipv4, is_unspecified_v4,
  is_broadcast, is_private, is_special_v4, classify_v4,
}

-- The address as a number, its first octet the highest.
abbrev pub bits : Ipv4 → ℕ
bits ip = ip.a * 16777216 + (ip.b * 65536 + (ip.c * 256 + ip.d))

-- The octets are below 256.
abbrev pub IsIpv4 : Ipv4 → Type 0
IsIpv4 ip = (ip.a < 256) × (ip.b < 256) × (ip.c < 256) × (ip.d < 256)

-- The number lies in the block of a first address and a size.
abbrev pub InBlock : ℕ → ℕ × ℕ → Type 0
InBlock n (first, size) = (first ≤ n) × (n < first + size)

-- What may not be reached at all, beside the broadcast address and 0.0.0.0, which two of the blocks
-- hold: 0.0.0.0/8, 169.254.0.0/16, 192.0.0.0/24, 192.0.2.0/24, 198.18.0.0/15, 198.51.100.0/24,
-- 203.0.113.0/24, 224.0.0.0/4 and 240.0.0.0/4.
abbrev pub never : List (ℕ × ℕ)
never =
    (0, 16777216)
    ∷ (2851995648, 65536)
    ∷ (3221225472, 256)
    ∷ (3221225984, 256)
    ∷ (3323068416, 131072)
    ∷ (3325256704, 256)
    ∷ (3405803776, 256)
    ∷ (3758096384, 268435456)
    ∷ (4026531840, 268435456)
    ∷ []

-- What the policy decides on: 10.0.0.0/8, 100.64.0.0/10, 127.0.0.0/8, 172.16.0.0/12 and
-- 192.168.0.0/16.
abbrev pub internal : List (ℕ × ℕ)
internal =
    (167772160, 16777216)
    ∷ (1681915904, 4194304)
    ∷ (2130706432, 16777216)
    ∷ (2886729728, 1048576)
    ∷ (3232235520, 65536)
    ∷ []

abbrev pub IsInternal : IpClass → Type 0
IsInternal link_local = ⊥
IsInternal unspecified = ⊥
IsInternal special_use = ⊥
IsInternal loopback = Unit
IsInternal private = Unit
IsInternal public = ⊥

ladder :
    (b1 b2 b3 b4 b5 b6 : Bool)
    → ((if b1
          then unspecified
          else if b2
          then loopback
          else if b3
          then link_local
          else if b4
          then private
          else if b5
          then private
          else if b6
          then special_use
          else public)
        ≡ public)
      ↔ ((b1 || b2 || b3 || b4 || b5 || b6) ≡ false)
ladder true b2 b3 b4 b5 b6 = (λ e. cc e, λ e. cc e)
ladder false true b3 b4 b5 b6 = (λ e. cc e, λ e. cc e)
ladder false false true b4 b5 b6 = (λ e. cc e, λ e. cc e)
ladder false false false true b5 b6 = (λ e. cc e, λ e. cc e)
ladder false false false false true b6 = (λ e. cc e, λ e. cc e)
ladder false false false false false true = (λ e. cc e, λ e. cc e)
ladder false false false false false false = (λ _. refl, λ _. refl)

inner_ladder :
    (b1 b2 b3 b4 b5 b6 : Bool)
    → IsInternal (
        if b1
        then unspecified
        else if b2
        then loopback
        else if b3
        then link_local
        else if b4
        then private
        else if b5
        then private
        else if b6
        then special_use
        else public)
    → (b2 || b4 || b5) ≡ true
inner_ladder true b2 b3 b4 b5 b6 h = absurd h
inner_ladder false true b3 b4 b5 b6 h = refl
inner_ladder false false true b4 b5 b6 h = absurd h
inner_ladder false false false true b5 b6 h = refl
inner_ladder false false false false true b6 h = refl
inner_ladder false false false false false true h = absurd h
inner_ladder false false false false false false h = absurd h

module _ (a b c d : ℕ) (h : a < 256) (k : b < 256) (l : c < 256) (m : d < 256) where
  abbrev number : ℕ
  number = a * 16777216 + (b * 65536 + (c * 256 + d))

  block_8 : (x : ℕ) → ((a == x) ≡ true) ↔ InBlock number (x * 16777216, 16777216)
  block_8 x = ground arith

  block_16 :
      (x y : ℕ)
      → y < 256
      → ((a == x && b == y) ≡ true) ↔ InBlock number (x * 16777216 + y * 65536, 65536)
  block_16 x y q = ground arith

  block_24 :
      (x y z : ℕ)
      → y < 256
      → z < 256
      → ((a == x && b == y && c == z) ≡ true)
        ↔ InBlock number (x * 16777216 + (y * 65536 + z * 256), 256)
  block_24 x y z q r = ground arith

  block_172 : ((a == 172 && (leb 16 b && leb b 31)) ≡ true) ↔ InBlock number (2886729728, 1048576)
  block_172 = ground arith

  block_100 : ((a == 100 && (leb 64 b && leb b 127)) ≡ true) ↔ InBlock number (1681915904, 4194304)
  block_100 = ground arith

  block_198 : ((a == 198 && (b == 18 || b == 19)) ≡ true) ↔ InBlock number (3323068416, 131072)
  block_198 = ground arith

  block_224 : ((leb 224 a && leb a 239) ≡ true) ↔ InBlock number (3758096384, 268435456)
  block_224 = ground arith

  block_240 : (leb 240 a ≡ true) ↔ InBlock number (4026531840, 268435456)
  block_240 = ground arith

  -- The tests of `classify_v4`, each as a block.
  abbrev Tested : Type 0
  Tested =
      ((((((number ≡ 0) ⊎ InBlock number (2130706432, 16777216))
              ⊎ (InBlock number (2851995648, 65536) ⊎ (number ≡ 4294967295)))
            ⊎ ((InBlock number (167772160, 16777216) ⊎ InBlock number (2886729728, 1048576))
                ⊎ InBlock number (3232235520, 65536)))
          ⊎ InBlock number (1681915904, 4194304))
        ⊎ (((((((InBlock number (0, 16777216) ⊎ InBlock number (3221225472, 256))
                      ⊎ InBlock number (3221225984, 256))
                    ⊎ InBlock number (3323068416, 131072))
                  ⊎ InBlock number (3325256704, 256))
                ⊎ InBlock number (3405803776, 256))
              ⊎ InBlock number (3758096384, 268435456))
            ⊎ InBlock number (4026531840, 268435456)))

  zero_iff : ((a == 0 && b == 0 && c == 0 && d == 0) ≡ true) ↔ (number ≡ 0)
  zero_iff = ground arith

  broadcast_iff : ((a == 255 && b == 255 && c == 255 && d == 255) ≡ true) ↔ (number ≡ 4294967295)
  broadcast_iff = ground arith

  abbrev address : Ipv4
  address = record { a = a; b = b; c = c; d = d }

  tested_iff :
      ((is_unspecified_v4 address
          || a == 127
          || ((a == 169 && b == 254) || is_broadcast address)
          || is_private address
          || (a == 100 && (leb 64 b && leb b 127))
          || is_special_v4 address)
        ≡ true)
      ↔ Tested
  tested_iff =
      or_iff _ _
        (or_iff _ _
          (or_iff _ _
            (or_iff _ _ (or_iff _ _ zero_iff (block_8 127))
              (or_iff _ _ (block_16 169 254 (omega arith)) broadcast_iff))
            (or_iff _ _ (or_iff _ _ (block_8 10) block_172) (block_16 192 168 (omega arith))))
          block_100)
        (or_iff _ _
          (or_iff _ _
            (or_iff _ _
              (or_iff _ _
                (or_iff _ _
                  (or_iff _ _
                    (or_iff _ _ (block_8 0) (block_24 192 0 0 (omega arith) (omega arith)))
                    (block_24 192 0 2 (omega arith) (omega arith)))
                  block_198)
                (block_24 198 51 100 (omega arith) (omega arith)))
              (block_24 203 0 113 (omega arith) (omega arith)))
            block_224)
          block_240)

  listed : Tested → Any (InBlock number) never ⊎ Any (InBlock number) internal
  listed (inl (inl (inl (inl (inl x))))) = inl (inl (omega arith, omega arith))
  listed (inl (inl (inl (inl (inr x))))) = inr (inr (inr (inl x)))
  listed (inl (inl (inl (inr (inl x))))) = inl (inr (inl x))
  listed (inl (inl (inl (inr (inr x))))) =
      inl (inr (inr (inr (inr (inr (inr (inr (inr (inl (omega arith, omega arith))))))))))
  listed (inl (inl (inr (inl (inl x))))) = inr (inl x)
  listed (inl (inl (inr (inl (inr x))))) = inr (inr (inr (inr (inl x))))
  listed (inl (inl (inr (inr x)))) = inr (inr (inr (inr (inr (inl x)))))
  listed (inl (inr x)) = inr (inr (inl x))
  listed (inr (inl (inl (inl (inl (inl (inl (inl x)))))))) = inl (inl x)
  listed (inr (inl (inl (inl (inl (inl (inl (inr x)))))))) = inl (inr (inr (inl x)))
  listed (inr (inl (inl (inl (inl (inl (inr x))))))) = inl (inr (inr (inr (inl x))))
  listed (inr (inl (inl (inl (inl (inr x)))))) = inl (inr (inr (inr (inr (inl x)))))
  listed (inr (inl (inl (inl (inr x))))) = inl (inr (inr (inr (inr (inr (inl x))))))
  listed (inr (inl (inl (inr x)))) = inl (inr (inr (inr (inr (inr (inr (inl x)))))))
  listed (inr (inl (inr x))) = inl (inr (inr (inr (inr (inr (inr (inr (inl x))))))))
  listed (inr (inr x)) = inl (inr (inr (inr (inr (inr (inr (inr (inr (inl x)))))))))

  from_never : Any (InBlock number) never → Tested
  from_never (inl x) = inr (inl (inl (inl (inl (inl (inl (inl x)))))))
  from_never (inr (inl x)) = inl (inl (inl (inr (inl x))))
  from_never (inr (inr (inl x))) = inr (inl (inl (inl (inl (inl (inl (inr x)))))))
  from_never (inr (inr (inr (inl x)))) = inr (inl (inl (inl (inl (inl (inr x))))))
  from_never (inr (inr (inr (inr (inl x))))) = inr (inl (inl (inl (inl (inr x)))))
  from_never (inr (inr (inr (inr (inr (inl x)))))) = inr (inl (inl (inl (inr x))))
  from_never (inr (inr (inr (inr (inr (inr (inl x))))))) = inr (inl (inl (inr x)))
  from_never (inr (inr (inr (inr (inr (inr (inr (inl x)))))))) = inr (inl (inr x))
  from_never (inr (inr (inr (inr (inr (inr (inr (inr (inl x))))))))) = inr (inr x)
  from_never (inr (inr (inr (inr (inr (inr (inr (inr (inr x))))))))) = absurd x

  from_internal : Any (InBlock number) internal → Tested
  from_internal (inl x) = inl (inl (inr (inl (inl x))))
  from_internal (inr (inl x)) = inl (inr x)
  from_internal (inr (inr (inl x))) = inl (inl (inl (inl (inr x))))
  from_internal (inr (inr (inr (inl x)))) = inl (inl (inr (inl (inr x))))
  from_internal (inr (inr (inr (inr (inl x))))) = inl (inl (inr (inr x)))
  from_internal (inr (inr (inr (inr (inr x))))) = absurd x

  internal_iff :
      ((a == 127 || is_private address || (a == 100 && (leb 64 b && leb b 127))) ≡ true) ↔ (
        (InBlock number (2130706432, 16777216)
          ⊎ ((InBlock number (167772160, 16777216) ⊎ InBlock number (2886729728, 1048576))
              ⊎ InBlock number (3232235520, 65536)))
        ⊎ InBlock number (1681915904, 4194304))
  internal_iff =
      or_iff _ _
        (or_iff _ _ (block_8 127)
          (or_iff _ _ (or_iff _ _ (block_8 10) block_172) (block_16 192 168 (omega arith))))
        block_100

  -- No block is of both lists.
  disjoint : Any (InBlock number) never → ¬ Any (InBlock number) internal
  disjoint n i = ground arith

-- An IPv4 address is public just where its number lies in none of the blocks: neither those that
-- are never reached, nor those that the policy decides on.
pub classify_v4-public_iff :
    (ip : Ipv4)
    → IsIpv4 ip
    → (classify_v4 ip ≡ public)
      ↔ ((¬ Any (InBlock (bits ip)) never) × (¬ Any (InBlock (bits ip)) internal))
unfolding classify_v4
classify_v4-public_iff ip (h, k, l, m) =
    let tests = eq-false_iff _ (tested_iff ip.a ip.b ip.c ip.d h k l m) in
    let steps =
      ladder (is_unspecified_v4 ip) (ip.a == 127) ((ip.a == 169 && ip.b == 254) || is_broadcast ip)
        (is_private ip) (ip.a == 100 && (leb 64 ip.b && leb ip.b 127)) (is_special_v4 ip) in
    (
      λ e.
          let no = tests.0 (steps.0 e) in
          (
            λ x. no (from_never ip.a ip.b ip.c ip.d h k l m x),
            λ x. no (from_internal ip.a ip.b ip.c ip.d h k l m x),
          ),
      λ (n, i). steps.1 (
          tests.1 (λ t. elim (listed ip.a ip.b ip.c ip.d h k l m t) [ inl x ↦ n x | inr x ↦ i x ])),
    )

-- Whatever the policy, an address in a block that is never reached is neither public nor one that
-- the policy decides on.
pub classify_v4-never :
    (ip : Ipv4)
    → IsIpv4 ip
    → Any (InBlock (bits ip)) never
    → (classify_v4 ip ≢ public) × (¬ IsInternal (classify_v4 ip))
unfolding classify_v4
classify_v4-never ip (h, k, l, m) n = (
  λ e. ((classify_v4-public_iff ip (h, k, l, m)).0 e).0 n,
  λ i.
      let inner =
        inner_ladder (is_unspecified_v4 ip) (ip.a == 127)
          ((ip.a == 169 && ip.b == 254) || is_broadcast ip) (is_private ip)
          (ip.a == 100 && (leb 64 ip.b && leb ip.b 127)) (is_special_v4 ip) i in
      disjoint ip.a ip.b ip.c ip.d h k l m n
        (elim ((internal_iff ip.a ip.b ip.c ip.d h k l m).0 inner) [
          | inl (inl x) ↦ inr (inr (inl x))
          | inl (inr (inl (inl x))) ↦ inl x
          | inl (inr (inl (inr x))) ↦ inr (inr (inr (inl x)))
          | inl (inr (inr x)) ↦ inr (inr (inr (inr (inl x))))
          | inr x ↦ inr (inl x)
        ]),
)
