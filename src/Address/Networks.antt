-- ===== src/Address/Networks.antt =====
-- The addresses of networks in src/address.cpp: what the operations with a mask do to each byte.
use Prim.Native.Nat.{bit_and, bit_or}
use idc.Prelude.{
  if◌then◌else◌, Bytes, ℕ, zero, suc, ◌+◌, ◌-◌, ◌*◌, ◌/◌, ◌%◌, ◌^◌, ◌≤◌, ◌<◌, ◌≡◌, refl, inl, inr,
  Bool-cases, ap, ap₂, ◌∙◌, min, Bool, true, false, ◌||◌, [], ◌∷◌, map, Option, some, Result, ok,
  bind_ok, arith, ◌==◌, ==_iff, ltb, le→ltb, lt→ltb,
}
use idc.Text.{equal}
use idc.Text.Search.{equal_iff}
use idc.Net.Frame.{htonl_bytes}
use idc.Address.{
  IPv4Address, create_mask, zip_bytes, broadcast_address, network_address, subnet_mask,
}

-- Whether a test holds of the first `k` numbers, for tables of the values of a byte.
passes : (ℕ → Bool) → ℕ → Bool
passes test zero = true
passes test (suc k) = if test k then passes test k else false

passes_each : (test : ℕ → Bool) (k : ℕ) → passes test k ≡ true → {i : ℕ} → i < k → test i ≡ true
unfolding passes
passes_each test zero all_pass {i} below = absurd (omega arith)
passes_each test (suc k) all_pass {i} below = elim (Bool-cases (test k)) [
  | inr fails ↦ absurd (cc (fails, rw fails at all_pass))
  | inl last ↦ elim (Bool-cases (i == k)) [
    | inl here ↦ ap test {y = k} (ground arith) ∙ last
    | inr apart ↦ passes_each test k (rw last at all_pass) (ground arith)
  ]
]

and_table : passes (λ k. passes (λ b. bit_and b (2 ^ k - 1) == b % 2 ^ k) 256) 9 ≡ true
unfolding passes
and_table = refl

or_table :
    passes (λ k. passes (λ b. bit_or b (2 ^ k - 1) == b / 2 ^ k * 2 ^ k + (2 ^ k - 1)) 256) 9 ≡ true
unfolding passes
or_table = refl

-- How many bits of the byte `i` of an address belong to the host, with this length of the prefix.
abbrev pub host_bits : ℕ → ℕ → ℕ
host_bits prefix_len i = min 8 (8 * (i + 1) - prefix_len)

abbrev host_masks : ℕ → Bytes
host_masks p =
    (2 ^ host_bits p 0 - 1)
    ∷ (2 ^ host_bits p 1 - 1)
    ∷ (2 ^ host_bits p 2 - 1)
    ∷ (2 ^ host_bits p 3 - 1)
    ∷ []

mask_table :
    passes (λ p. ltb p 2 || equal (htonl_bytes (2 ^ (32 - p) - 1)) (host_masks p)) 33 ≡ true
unfolding passes equal htonl_bytes
mask_table = refl

bit_and_low : (k b : ℕ) → k < 9 → b < 256 → bit_and b (2 ^ k - 1) ≡ b % 2 ^ k
bit_and_low k b hk hb =
    (==_iff (bit_and b (2 ^ k - 1)) (b % 2 ^ k)).0
      (passes_each _ 256 (passes_each _ 9 and_table hk) hb)

bit_or_low : (k b : ℕ) → k < 9 → b < 256 → bit_or b (2 ^ k - 1) ≡ b / 2 ^ k * 2 ^ k + (2 ^ k - 1)
bit_or_low k b hk hb =
    (==_iff (bit_or b (2 ^ k - 1)) (b / 2 ^ k * 2 ^ k + (2 ^ k - 1))).0
      (passes_each _ 256 (passes_each _ 9 or_table hk) hb)

htonl_bytes-host_masks : (p : ℕ) → 2 ≤ p → p ≤ 32 → htonl_bytes (2 ^ (32 - p) - 1) ≡ host_masks p
htonl_bytes-host_masks p low high =
    let row =
      passes_each (λ q. ltb q 2 || equal (htonl_bytes (2 ^ (32 - q) - 1)) (host_masks q)) 33
        mask_table {i = p} (omega arith) in
    (equal_iff (htonl_bytes (2 ^ (32 - p) - 1)) (host_masks p)).0 (rw (le→ltb p 2 low) at row)

create_mask_lem : (p : ℕ) → 2 ≤ p → p ≤ 32 → create_mask p ≡ ok (2 ^ (32 - p) - 1)
unfolding create_mask
create_mask_lem p low high =
    let shift : (2 ^ 32 + 32 - p) % 2 ^ 32 ≡ 32 - p = omega arith in
    rw (shift, lt→ltb (32 - p) 31 (omega arith), create_mask) refl

-- A byte with the bits of the host set, and without those of the network.
abbrev pub fill_host : ℕ → ℕ → ℕ
fill_host h b = b / 2 ^ h * 2 ^ h + (2 ^ h - 1)

abbrev pub each_byte : (ℕ → ℕ → ℕ) → ℕ → ℕ → Bytes → Bytes
each_byte f p i [] = []
each_byte f p i (b ∷ bs) = f (host_bits p i) b ∷ each_byte f p (suc i) bs

module _ (p : ℕ) (low : 2 ≤ p) (high : p ≤ 32) (a : IPv4Address) (b₀ b₁ b₂ b₃ : ℕ)
    (quad : a.sin_addr ≡ b₀ ∷ b₁ ∷ b₂ ∷ b₃ ∷ []) (h₀ : b₀ < 256) (h₁ : b₁ < 256) (h₂ : b₂ < 256)
    (h₃ : b₃ < 256) where
  -- An operation with the bytes of the mask, which does the same to each byte.
  zip_masks :
      (op f : ℕ → ℕ → ℕ)
      → ((k b : ℕ) → k < 9 → b < 256 → op b (2 ^ k - 1) ≡ f k b)
      → zip_bytes op a.sin_addr (htonl_bytes (2 ^ (32 - p) - 1)) ≡ each_byte f p 0 a.sin_addr
  zip_masks op f same =
      let at : (i b : ℕ) → b < 256 → op b (2 ^ host_bits p i - 1) ≡ f (host_bits p i) b =
        λ i b h. same (host_bits p i) b (omega arith) h in
      rw (quad, htonl_bytes-host_masks p low high)
        (ap₂ {C = Bytes} (λ x xs. x ∷ xs) (at 0 b₀ h₀)
          (ap₂ {C = Bytes} (λ x xs. x ∷ xs) (at 1 b₁ h₁)
            (ap₂ {C = Bytes} (λ x xs. x ∷ xs) (at 2 b₂ h₂)
              (ap {B = Bytes} (λ x. x ∷ []) (at 3 b₃ h₃)))))

  broadcast_address_lem :
      broadcast_address a p ≡ ok (some (record a { sin_addr = each_byte fill_host p 0 a.sin_addr }))
  unfolding broadcast_address
  broadcast_address_lem =
      rw (le→ltb 32 p high, create_mask_lem p low high, broadcast_address)
        (ap {B = Result (Option IPv4Address)} (λ t. ok (some (record a { sin_addr = t })))
          (zip_masks bit_or fill_host bit_or_low))

  network_address_lem :
      network_address a p
      ≡ ok (some (record a { sin_addr = each_byte (λ h b. b % 2 ^ h) p 0 a.sin_addr }))
  unfolding network_address
  network_address_lem =
      rw (le→ltb 32 p high, create_mask_lem p low high, network_address)
        (ap {B = Result (Option IPv4Address)} (λ t. ok (some (record a { sin_addr = t })))
          (zip_masks bit_and (λ h b. b % 2 ^ h) bit_and_low))

  subnet_mask_lem :
      subnet_mask p
      ≡ ok (record {
        sin_family = 2;
        sin_port = 0 ∷ 0 ∷ [];
        sin_addr = each_byte (λ h b. 255 - (2 ^ h - 1)) p 0 a.sin_addr;
      })
  unfolding subnet_mask
  subnet_mask_lem =
      bind_ok _ (create_mask_lem p low high)
      ∙ ap {B = Result IPv4Address}
          (λ t.
            ok (record { sin_family = 2; sin_port = 0 ∷ 0 ∷ []; sin_addr = map (λ b. 255 - b) t }))
          (htonl_bytes-host_masks p low high)
      ∙ rw quad refl

  -- For a prefix of 2 to 32 bits, the broadcast address has the bits of the network and all bits of the
  -- host; the mask has all bits of the network only; but what networdAddress gives has the bits of the
  -- host, and none of the network.
  pub broadcast_address-each_byte :
      (broadcast_address a p
        ≡ ok (some (record a { sin_addr = each_byte fill_host p 0 a.sin_addr })))
      × (subnet_mask p
          ≡ ok (record {
            sin_family = 2;
            sin_port = 0 ∷ 0 ∷ [];
            sin_addr = each_byte (λ h b. 255 - (2 ^ h - 1)) p 0 a.sin_addr;
          }))
      × (network_address a p
          ≡ ok (some (record a { sin_addr = each_byte (λ h b. b % 2 ^ h) p 0 a.sin_addr })))
  broadcast_address-each_byte = (broadcast_address_lem, subnet_mask_lem, network_address_lem)
