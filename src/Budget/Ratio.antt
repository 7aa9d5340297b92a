-- ===== src/Budget/Ratio.antt =====
-- internal/tooling/context_budget.go: the calibration of bytes against tokens.
use native.Mathlib.Nat.{le-div_iff_mul-le, mul-le-mul_left, le_of_mul-le-mul_left}
use alt_tui.Prelude.{
  ℕ, ◌+◌, ◌-◌, ◌*◌, ◌/◌, ◌≤◌, ◌<◌, ◌≡◌, refl, inl, inr, Option, none, some, List, [], ◌∷◌, arith,
  ltb, In, Bool-cases, subst,
}
use alt_tui.Budget.{
  Message, message_for_counting, calibration, smaller_ratio, ratio_from, observed_bytes_per_token,
  estimate_byte_tokens, estimate_json_tokens,
}

-- the ratio is no larger than `visible` bytes for `tokens`
abbrev pub AtMost : ℕ × ℕ → ℕ → ℕ → Type 0
AtMost r visible tokens = r.0 * tokens ≤ visible * r.1

AtMost-trans : (r s : ℕ × ℕ) (v t : ℕ) → 0 < r.1 → AtMost s r.0 r.1 → AtMost r v t → AtMost s v t
AtMost-trans r s v t h a b =
    let a' : t * (s.0 * r.1) ≤ t * (r.0 * s.1) = mul-le-mul_left t a in
    let b' : s.1 * (r.0 * t) ≤ s.1 * (v * r.1) = mul-le-mul_left s.1 b in
    le_of_mul-le-mul_left {k = r.1} (omega (arith, a', b')) h

abbrev pub IsRatio : ℕ × ℕ → Type 0
IsRatio r = (0 < r.0) × (0 < r.1)

smaller_ratio-lem :
    (c : Option (ℕ × ℕ)) (r : ℕ × ℕ)
    → ((v t : ℕ) → c ≡ some (v, t) → IsRatio (v, t))
    → IsRatio r
    → IsRatio (smaller_ratio c r)
      × AtMost (smaller_ratio c r) r.0 r.1
      × ((v t : ℕ) → c ≡ some (v, t) → AtMost (smaller_ratio c r) v t)
smaller_ratio-lem none r pos h = (h, omega arith, λ v t e. cc)
smaller_ratio-lem (some (v, t)) r pos h = elim (Bool-cases (ltb (v * r.1) (r.0 * t))) [
  | inl e ↦ rw e (pos v t refl, ground (arith, e), λ v' t' q. ground (arith, q))
  | inr e ↦ rw e (h, omega arith, λ v' t' q. ground (arith, q, e))
]

module _ (marshal : Option Message → Option ℕ) where
  pub calibration-IsRatio :
      (m : Option Message) (v t : ℕ) → calibration marshal m ≡ some (v, t) → IsRatio (v, t)
  calibration-IsRatio m v t h = ground (arith, h)

  ratio_from-lem :
      (l : List (Option Message)) (r : ℕ × ℕ)
      → IsRatio r
      → IsRatio (ratio_from marshal l r)
        × AtMost (ratio_from marshal l r) r.0 r.1
        × ((m : Option Message) (v t : ℕ)
            → In m l
            → calibration marshal m ≡ some (v, t)
            → AtMost (ratio_from marshal l r) v t)
  unfolding ratio_from
  ratio_from-lem [] r h = (h, omega arith, λ m v t n. elim n [ ])
  ratio_from-lem (m ∷ l) r h =
      let s = smaller_ratio (calibration marshal m) r in
      let (is_ratio, le, here) =
        smaller_ratio-lem (calibration marshal m) r (calibration-IsRatio m) h in
      let (last, le', all) = ratio_from-lem l s is_ratio in
      let r' = ratio_from marshal l s in
      (
        last,
        AtMost-trans s r' r.0 r.1 is_ratio.1 le' le,
        λ n v t i e. elim i [
          | inl q ↦
              AtMost-trans s r' v t is_ratio.1 le'
                (here v t (subst (λ o. calibration marshal o ≡ some (v, t)) q e))
          | inr i' ↦ all n v t i' e
        ],
      )

  -- Calibrated estimates are conservative: with the ratio that a conversation was calibrated to, the
  -- estimate of each message of it that reported its completion is at least that many tokens.
  pub estimate-covers_completion :
      (messages : List (Option Message)) (m : Option Message) (visible tokens : ℕ)
      → In m messages
      → calibration marshal m ≡ some (visible, tokens)
      → tokens ≤ estimate_json_tokens marshal m (observed_bytes_per_token marshal messages)
  unfolding observed_bytes_per_token estimate_json_tokens estimate_byte_tokens
  estimate-covers_completion messages m visible tokens i e =
      let (is_ratio, _, all) = ratio_from-lem messages (1, 1) (omega arith, omega arith) in
      let r = ratio_from marshal messages (1, 1) in
      let least : r.0 * tokens ≤ visible * r.1 = all m visible tokens i e in
      let (some_bytes, _) = calibration-IsRatio m visible tokens e in
      let read : marshal (message_for_counting m) ≡ some visible = ground (arith, e) in
      let fits : tokens ≤ (visible * r.1 + r.0 - 1) / r.0 =
        (le-div_iff_mul-le is_ratio.0).1 (omega (arith, least, is_ratio)) in
      ground (arith, read, fits, some_bytes, is_ratio)

  -- Usage that the provider reports only ever raises the estimates: whatever the conversation, the
  -- estimate of a message is at least the number of its bytes.
  pub estimate-covers_bytes :
      (messages : List (Option Message)) (m : Option Message) (bytes : ℕ)
      → marshal (message_for_counting m) ≡ some bytes
      → bytes ≤ estimate_json_tokens marshal m (observed_bytes_per_token marshal messages)
  unfolding observed_bytes_per_token estimate_json_tokens estimate_byte_tokens
  estimate-covers_bytes messages m bytes e =
      let (is_ratio, le, _) = ratio_from-lem messages (1, 1) (omega arith, omega arith) in
      let r = ratio_from marshal messages (1, 1) in
      let at_most_one : r.0 ≤ r.1 = omega (arith, le) in
      let scaled : bytes * r.0 ≤ bytes * r.1 = mul-le-mul_left bytes at_most_one in
      let fits : bytes ≤ (bytes * r.1 + r.0 - 1) / r.0 =
        (le-div_iff_mul-le is_ratio.0).1 (omega (arith, scaled, is_ratio)) in
      ground (arith, e, fits, is_ratio)
