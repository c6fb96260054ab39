-- ===== src/Crdt/Register/Order.antt =====
-- The total order of `LWWRegister` below its version test.
use df_fabric.Prelude.{
  ◌≡◌, true, false, arith, ◌||◌, Bool-cases, inl, inr, if◌then◌else◌, refl, not, ◌==◌, ltb, is_yes,
  string_dec,
}
use df_fabric.Prelude.{String}
use df_fabric.Prelude.Text.{text_asymm, text_trans, text_total}
use df_fabric.Payload.{Value}
use df_fabric.Crdt.Register.{Register, newer, ℕ, Bool, not, ltb, is_yes, string_dec, text_ltb}

module _ (canon : Value → String) where
  pub newer_asymm : (a b : Register) → newer canon a b ≡ true → newer canon b a ≡ false
  unfolding newer
  newer_asymm a b h =
      ground (arith, text_asymm b.writer a.writer, text_asymm (canon b.value) (canon a.value))

  pub newer_trans :
      (a b c : Register) → newer canon a b ≡ true → newer canon b c ≡ true → newer canon a c ≡ true
  unfolding newer
  newer_trans a b c h k = ground (
    arith,
    text_trans c.writer b.writer a.writer,
    text_asymm b.writer a.writer,
    text_trans (canon c.value) (canon b.value) (canon a.value),
  )

  pub newer_total :
      (a b : Register)
      → newer canon a b ≡ false
      → newer canon b a ≡ false
      → (a.timestamp ≡ b.timestamp) × (a.writer ≡ b.writer) × (canon a.value ≡ canon b.value)
  unfolding newer
  newer_total a b h k =
      ground (arith, text_total b.writer a.writer, text_total (canon b.value) (canon a.value))

  newer_key : ℕ → String → String → Register → Bool
  newer_key t w v b =
      if not (t == b.timestamp)
      then ltb b.timestamp t
      else if not (is_yes (string_dec w b.writer))
      then text_ltb b.writer w
      else text_ltb (canon b.value) v

  newer_cong :
      (a b c : Register)
      → (a.timestamp ≡ b.timestamp) × (a.writer ≡ b.writer) × (canon a.value ≡ canon b.value)
      → newer canon a c ≡ newer canon b c
  unfolding newer newer_key
  newer_cong a b c (p, q, r) = λ i. newer_key (p i) (q i) (r i) c

  pub newer_between :
      (a b c : Register) → newer canon a c ≡ true → (newer canon a b || newer canon b c) ≡ true
  newer_between a b c h = elim (Bool-cases (newer canon a b)) [
    | inl e ↦ rw e refl
    | inr e ↦ elim (Bool-cases (newer canon b a)) [
      | inl f ↦ ground (arith, newer_trans b a c f h)
      | inr f ↦ ground (arith, newer_cong a b c (newer_total a b e f))
    ]
  ]
