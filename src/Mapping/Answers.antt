-- ===== src/Mapping/Answers.antt =====
-- dns_mapping.rs and linux.rs: the states of the checks, in terms of what the commands answer.
use dynet.Base.{
  ◌≡◌, refl, inl, inr, Bool, true, false, some, Bool-cases, if◌then◌else◌, arith, sym, subst,
}
use dynet.Base.Order.{nat_ord}
use dynet.Base.Text.{Text}
use dynet.Mapping.{
  Answer, CheckState, ready, missing_auto_creatable, missing_hard_fail, invalid_hard_fail,
  DnsMappingOptions, output, not_started, contains, SystemRunner, Log, link_show,
}
use dynet.Mapping.Status.{
  owned_nft_check, mapping_state, mapping_is_expected, mapping_interface_status,
}

-- What a listing says: that all is as expected, that it is not, that there is nothing, or that it
-- could not be run.
abbrev pub Lists : (Text → Bool) → Answer → CheckState → Type 0
Lists expected (output o) ready = (o.success ≡ true) × (expected o.stdout ≡ true)
Lists expected (output o) invalid_hard_fail = (o.success ≡ true) × (expected o.stdout ≡ false)
Lists expected (output o) missing_auto_creatable = o.success ≡ false
Lists expected (output o) missing_hard_fail = ⊥
Lists expected (not_started e) missing_hard_fail = Unit
Lists expected (not_started e) ready = ⊥
Lists expected (not_started e) invalid_hard_fail = ⊥
Lists expected (not_started e) missing_auto_creatable = ⊥

-- What is said of an interface: that it is there, or that it is not or could not be looked for.
abbrev pub Shows : Answer → CheckState → Type 0
Shows (output o) ready = o.success ≡ true
Shows (output o) missing_hard_fail = o.success ≡ false
Shows (not_started e) missing_hard_fail = Unit
Shows (output o) missing_auto_creatable = ⊥
Shows (output o) invalid_hard_fail = ⊥
Shows (not_started e) ready = ⊥
Shows (not_started e) missing_auto_creatable = ⊥
Shows (not_started e) invalid_hard_fail = ⊥

pub owned_nft_check-Lists :
    (marker : Text) (a : Answer) → Lists (λ t. contains t marker) a (owned_nft_check marker a)
unfolding owned_nft_check
owned_nft_check-Lists marker (not_started e) = tt
owned_nft_check-Lists marker (output o) = elim (Bool-cases o.success) [
  | inr f ↦
      let eq : owned_nft_check marker (output o) ≡ missing_auto_creatable = ground (arith, f) in
      subst (Lists (λ t. contains t marker) (output o)) (sym eq) f
  | inl s ↦ elim (Bool-cases (contains o.stdout marker)) [
    | inl c ↦
        let eq : owned_nft_check marker (output o) ≡ ready = ground (arith, s, c) in
        subst (Lists (λ t. contains t marker) (output o)) (sym eq) (s, c)
    | inr c ↦
        let eq : owned_nft_check marker (output o) ≡ invalid_hard_fail = ground (arith, s, c) in
        subst (Lists (λ t. contains t marker) (output o)) (sym eq) (s, c)
  ]
]

pub mapping_state-Lists :
    (options : DnsMappingOptions) (a : Answer)
    → Lists (λ t. mapping_is_expected t (some options)) a (mapping_state (some options) a)
unfolding mapping_state
mapping_state-Lists options (not_started e) = tt
mapping_state-Lists options (output o) = elim (Bool-cases o.success) [
  | inr f ↦
      let eq : mapping_state (some options) (output o) ≡ missing_auto_creatable =
        ground (arith, f) in
      subst (Lists (λ t. mapping_is_expected t (some options)) (output o)) (sym eq) f
  | inl s ↦ elim (Bool-cases (mapping_is_expected o.stdout (some options))) [
    | inl c ↦
        let eq : mapping_state (some options) (output o) ≡ ready = ground (arith, s, c) in
        subst (Lists (λ t. mapping_is_expected t (some options)) (output o)) (sym eq) (s, c)
    | inr c ↦
        let eq : mapping_state (some options) (output o) ≡ invalid_hard_fail =
          ground (arith, s, c) in
        subst (Lists (λ t. mapping_is_expected t (some options)) (output o)) (sym eq) (s, c)
  ]
]

abbrev pub shown : Answer → CheckState
shown (output o) = if o.success then ready else missing_hard_fail
shown (not_started e) = missing_hard_fail

pub shown-Shows : (a : Answer) → Shows a (shown a)
shown-Shows (not_started e) = tt
shown-Shows (output o) = elim (Bool-cases o.success) [
  | inl s ↦
      let eq : shown (output o) ≡ ready = ground (arith, s) in subst (Shows (output o)) (sym eq) s
  | inr f ↦
      let eq : shown (output o) ≡ missing_hard_fail = ground (arith, f) in
      subst (Shows (output o)) (sym eq) f
]

-- The state that `mapping_interface_status` finds.
pub mapping_interface_status-Shows :
    (runner : SystemRunner) (options : DnsMappingOptions) (log : Log)
    → Shows (runner log (link_show options)) (mapping_interface_status runner options log).0
unfolding mapping_interface_status
mapping_interface_status-Shows runner options log = go (runner log (link_show options)) refl
  where
    go :
        (a : Answer)
        → runner log (link_show options) ≡ a
        → Shows (runner log (link_show options)) (mapping_interface_status runner options log).0
    go a e =
        let eq : (mapping_interface_status runner options log).0 ≡ shown a = by a e in
        subst (Shows (runner log (link_show options))) (sym eq)
          (subst (λ b. Shows b (shown a)) (sym e) (shown-Shows a))
      where
        by :
            (a : Answer)
            → runner log (link_show options) ≡ a
            → (mapping_interface_status runner options log).0 ≡ shown a
        by (output o) e = rw e refl
        by (not_started x) e = rw e refl

pub not-Shows-invalid : (a : Answer) → ¬ Shows a invalid_hard_fail
not-Shows-invalid (output o) h = h
not-Shows-invalid (not_started e) h = h

pub not-Shows-creatable : (a : Answer) → ¬ Shows a missing_auto_creatable
not-Shows-creatable (output o) h = h
not-Shows-creatable (not_started e) h = h
