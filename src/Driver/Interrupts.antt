-- ===== src/Driver/Interrupts.antt =====
-- InterruptFilter() and findMSI() of Sinetek-rtsx/Sinetek_rtsx.cpp.
use Prim.Native.Nat.{bit_and-bitwise}
use sinetek_rtsx.Base.{
  ℕ, zero, suc, ◌+◌, ◌≤◌, ◌<◌, ◌≡◌, ◌≢◌, ◌↔◌, refl, Bool, true, false, Option, none, some, arith,
  Ptr, null, is_null, ◌==◌, ltb, bit_and, if◌then◌else◌, Bool-cases, Option-cases, inl, inr,
}

-- `cast` is the argument as a Sinetek_rtsx; `status` and `bier` are what READ4 reads at RTSX_BIPR and
-- RTSX_BIER.
unfoldable pub interrupt_filter : Ptr → Ptr → ℕ → ℕ → Bool
interrupt_filter arg cast status bier =
    if is_null arg
    then false
    else if is_null cast
    then false
    else if status == 0
    then false
    else if bit_and status bier == 0
    then false
    else true

bit_and-zero : (n : ℕ) → bit_and 0 n ≡ 0
bit_and-zero n = λ i. bit_and-bitwise 0 n i

-- An interrupt is passed on if and only if the argument is the driver, and some source is both
-- pending and enabled.
interrupt_filter_lem :
    (arg cast : Ptr) (status bier : ℕ)
    → (interrupt_filter arg cast status bier ≡ true)
      ↔ ((arg ≢ null) × (cast ≢ null) × (bit_and status bier ≢ 0))
unfolding interrupt_filter
interrupt_filter_lem arg cast status bier =
    let zero_mask = bit_and-zero bier in
    (λ h. ground (arith, zero_mask), λ h. ground (arith, zero_mask))

module _ (interrupt_type : ℕ → Option ℕ) (messaged : ℕ → Bool) where
  -- The `for` loop: `interrupt_type` is getInterruptType(), `none` for an error; `messaged` tests the
  -- bit kIOInterruptTypePCIMessaged. The outer `none` means that the fuel ran out, the inner is -1.
  unfoldable pub find_msi : ℕ → ℕ → Option (Option ℕ)
  find_msi zero index = none
  find_msi (suc fuel) index =
      let rest = find_msi fuel (index + 1) in
      elim (interrupt_type index) [
        | none ↦ some none
        | some kind ↦ if messaged kind then some (some index) else rest
      ]

  -- An index whose interrupt is not messaged, and one whose interrupt is.
  abbrev pub Quiet : ℕ → Type 0
  Quiet j = (kind : ℕ) → interrupt_type j ≡ some kind → messaged kind ≡ false

  abbrev pub Messaged : ℕ → Type 0
  Messaged j = (kind : ℕ) × (interrupt_type j ≡ some kind) × (messaged kind ≡ true)

  -- The first messaged index from `from` on, or none up to an index that the device does not have.
  abbrev pub First : ℕ → Option ℕ → Type 0
  First from none =
      (end : ℕ) × (interrupt_type end ≡ none) × ((j : ℕ) → from ≤ j → j < end → Quiet j)
  First from (some k) = (from ≤ k) × Messaged k × ((j : ℕ) → from ≤ j → j < k → Quiet j)

  Quiet-at :
      (index kind j : ℕ)
      → interrupt_type index ≡ some kind
      → messaged kind ≡ false
      → index ≡ j
      → Quiet j
  Quiet-at index kind j e quiet same k f = cc

  ends_at :
      (index kind bound : ℕ)
      → interrupt_type index ≡ some kind
      → interrupt_type bound ≡ none
      → index ≢ bound
  ends_at index kind bound e ends same = cc

  skip :
      (index kind : ℕ) (r : Option ℕ)
      → interrupt_type index ≡ some kind
      → messaged kind ≡ false
      → First (index + 1) r
      → First index r
  skip index kind none e quiet (end, ends, none_before) = (
    end,
    ends,
    λ j le lt. elim (Bool-cases (ltb index j)) [
      | inl h ↦ none_before j (ground arith) lt
      | inr h ↦ Quiet-at index kind j e quiet (ground arith)
    ],
  )
  skip index kind (some k) e quiet (le, found, none_before) = (
    omega arith,
    found,
    λ j le' lt. elim (Bool-cases (ltb index j)) [
      | inl h ↦ none_before j (ground arith) lt
      | inr h ↦ Quiet-at index kind j e quiet (ground arith)
    ],
  )

  -- With fuel to reach an index that the device does not have, findMSI() ends, with the first
  -- index whose interrupt is messaged, or with -1 if there is none before an index that the device
  -- does not have.
  pub find_msi_lem :
      (fuel index bound : ℕ)
      → interrupt_type bound ≡ none
      → index ≤ bound
      → bound < index + fuel
      → (r : Option ℕ) × (find_msi fuel index ≡ some r) × First index r
  unfolding find_msi
  find_msi_lem zero index bound ends le lt = absurd (omega arith)
  find_msi_lem (suc fuel) index bound ends le lt = elim (Option-cases (interrupt_type index)) [
    | inl e ↦ (none, rw (e, find_msi) refl, (index, e, λ j a b. absurd (omega arith)))
    | inr (kind, e) ↦ elim (Bool-cases (messaged kind)) [
      | inl m ↦ (
        some index,
        rw (e, m, find_msi) refl,
        (omega arith, (kind, e, m), λ j a b. absurd (omega arith)),
      )
      | inr m ↦ elim (Bool-cases (ltb index bound)) [
        | inl h ↦
            let (r, runs, first) =
              find_msi_lem fuel (index + 1) bound ends (ground arith) (omega arith) in
            (r, rw (e, m, find_msi) runs, skip index kind r e m first)
        | inr h ↦ absurd (ends_at index kind bound e ends (ground arith))
      ]
    ]
  ]
