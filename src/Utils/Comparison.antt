-- ===== src/Utils/Comparison.antt =====
-- common/utils.ts: what `constantTimeCompare` tells of two texts.
use mathplat.Common.{
  ℕ, String, ◌≡◌, ◌≢◌, ◌⊎◌, refl, true, false, arith, inl, inr, num_eq, Bool-cases, ◌==◌, eq_iff,
}
use mathplat.Common.Outcome.{ok, throws, fault}
use mathplat.Common.Text.{utf16_length, utf8_length}
use mathplat.Crypto.{Crypto, IsCrypto}
use mathplat.Utils.{constant_time_compare}

num_eq_refl : (n : ℕ) → num_eq n n ≡ true
num_eq_refl n = ground arith

false_of_not : (a b : String) → a ≢ b → (a == b) ≡ false
false_of_not a b ne = elim (Bool-cases (a == b)) [
  | inl e ↦ elim (ne ((eq_iff a b).0 e)) [ ]
  | inr e ↦ e
]

module _ {E : Type 0} (crypto : Crypto E) (law : IsCrypto crypto) where
  same_length :
      (a b : String)
      → num_eq (utf16_length a) (utf16_length b) ≡ true
      → constant_time_compare crypto a b ≡ crypto.timing_safe_equal a b
  unfolding constant_time_compare
  same_length a b e = rw e refl

  other_length :
      (a b : String)
      → num_eq (utf16_length a) (utf16_length b) ≡ false
      → constant_time_compare crypto a b ≡ ok false
  unfolding constant_time_compare
  other_length a b e = rw e refl

  apart : (a b : String) → num_eq (utf16_length a) (utf16_length b) ≡ false → a ≢ b
  apart a b e same =
      let it : num_eq (utf16_length b) (utf16_length b) ≡ false = rw same at e in
      cc (num_eq_refl (utf16_length b), it)

  -- The comparison of two texts tells whether they are equal, if they differ in length or have as many
  -- bytes. It throws only if they have the same length, in units of UTF-16, but not as many bytes
  -- of UTF-8.
  pub constant_time_compare_lem :
      (a b : String)
      → (constant_time_compare crypto a b ≡ ok (a == b))
        ⊎ (utf16_length a ≡ utf16_length b)
          × (utf8_length a ≢ utf8_length b)
          × ((e : String) × (constant_time_compare crypto a b ≡ throws (fault e)))
  constant_time_compare_lem a b = elim (Bool-cases (num_eq (utf16_length a) (utf16_length b))) [
    | inr e ↦
        let differ : (a == b) ≡ false = false_of_not a b (apart a b e) in
        inl (rw (other_length a b e, differ) refl)
    | inl e ↦ rw (same_length a b e) (elim (Bool-cases (num_eq (utf8_length a) (utf8_length b))) [
      | inl size ↦ inl (law.equal_size a b (ground arith))
      | inr size ↦
          let ne : utf8_length a ≢ utf8_length b = ground arith in
          inr (ground arith, ne, law.other_size a b ne)
    ])
  ]

  -- As a proof for those who compare.
  pub constant_time_compare-cases :
      (a b : String)
      → (constant_time_compare crypto a b ≡ ok true) × (a ≡ b)
        ⊎ (constant_time_compare crypto a b ≡ ok false) × (a ≢ b)
        ⊎ ((e : String) × (constant_time_compare crypto a b ≡ throws (fault e)))
  constant_time_compare-cases a b = elim (constant_time_compare_lem a b) [
    | inr (_, _, failed) ↦ inr (inr failed)
    | inl done ↦ elim (Bool-cases (a == b)) [
      | inl e ↦ inl (rw (done, e) refl, (eq_iff a b).0 e)
      | inr e ↦ inr (inl (rw (done, e) refl, λ same. cc ((eq_iff a b).1 same, e)))
    ]
  ]
